-- ===== src/Policy/Path/Decodes.antt =====
-- The loop of `normalize_policy_path` of crates/policy-core/src/lib.rs against percent-decoding as a relation.
use wasi_http_middleware.Prelude.{
  ℕ, true, false, not, [], ◌∷◌, ◌++◌, Option, none, some, ◌==◌, ==_iff, ◌≡◌, ◌*◌, ◌+◌, inl, inr,
  refl, sym, ap, ◌∙◌, arith, Bytes, all, ok, append_assoc, append-nil, Bool-cases, >>=-eq-ok,
  length, ◌≤◌,
}
use wasi_http_middleware.Text.{contains_byte}
use wasi_http_middleware.Policy.Path.{
  hex_value, combine, is_escape_rejected, is_literal_rejected, push_escape, push_literal, decode,
}
use wasi_http_middleware.Policy.Path.Spec.{
  IsDigit, is_escapable, is_plain_byte, Decodes, done, literal, escape,
}
use wasi_http_middleware.Policy.Path.Digits.{
  hex_value-eq, hex_value-bound, combine-eq, is_literal_rejected-eq, is_escape_rejected-eq,
}

push_literal-eq-ok :
    (out : Bytes) (c : ℕ) {out' : Bytes}
    → push_literal out c ≡ ok out'
    → (is_literal_rejected c ≡ false) × (out' ≡ out ++ c ∷ [])
unfolding push_literal
push_literal-eq-ok out c h = elim (Bool-cases (is_literal_rejected c)) [
  | inl e ↦ absurd (cc (rw e at h))
  | inr e ↦ (e, cc (rw e at h))
]

push_escape-eq-ok :
    (out : Bytes) (high low : Option ℕ) {out' : Bytes}
    → push_escape out high low ≡ ok out'
    → (h l : ℕ) × (high ≡ some h)
      × (low ≡ some l)
      × (is_escape_rejected (combine h l) ≡ false)
      × (out' ≡ out ++ combine h l ∷ [])
unfolding push_escape
push_escape-eq-ok out none low e = cc
push_escape-eq-ok out (some h) none e = cc
push_escape-eq-ok out (some h) (some l) e = elim (Bool-cases (is_escape_rejected (combine h l))) [
  | inl r ↦ absurd (cc (rw r at e))
  | inr r ↦ (h, l, refl, refl, r, cc (rw r at e))
]

-- The outcome of the loop from `out`: `out` with some decoding of the rest behind it.
abbrev pub Extends : Bytes → Bytes → Bytes → Type 0
Extends out s d = (r : Bytes) × (d ≡ out ++ r) × Decodes s r

Extends-cons_literal :
    (out : Bytes) (c : ℕ) (s : Bytes) {out' d : Bytes}
    → (c == b'%') ≡ false
    → push_literal out c ≡ ok out'
    → Extends out' s d
    → Extends out (c ∷ s) d
Extends-cons_literal out c s p h (r, e, t) =
    let (q, e') = push_literal-eq-ok out c h in
    let plain = is_literal_rejected-eq c ∙ rw (p, q) refl in
    (c ∷ r, e ∙ ap (λ o. o ++ r) e' ∙ append_assoc out (c ∷ []) r, literal plain t)

Extends-cons_escape :
    (out : Bytes) (c a b : ℕ) (s : Bytes) {out' d : Bytes}
    → (c == b'%') ≡ true
    → push_escape out (hex_value a) (hex_value b) ≡ ok out'
    → Extends out' s d
    → Extends out (c ∷ a ∷ b ∷ s) d
Extends-cons_escape out c a b s p h (r, e, t) =
    let (x, y, ha, hb, q, e') = push_escape-eq-ok out (hex_value a) (hex_value b) h in
    let same = combine-eq x y (hex_value-bound a ha) (hex_value-bound b hb) in
    let allowed : is_escapable (16 * x + y) ≡ true =
      is_escape_rejected-eq (16 * x + y) ∙ ap not (ap is_escape_rejected (sym same) ∙ q) in
    (
      (16 * x + y) ∷ r,
      e ∙ ap (λ o. o ++ r) e' ∙ append_assoc out (combine x y ∷ []) r ∙ ap (λ v. out ++ v ∷ r) same,
      escape ((==_iff c b'%').0 p) (sym (hex_value-eq a) ∙ ha) (sym (hex_value-eq b) ∙ hb) allowed
          t,
    )

pub decode_sound : (out s : Bytes) {d : Bytes} → decode out s ≡ ok d → Extends out s d
unfolding decode
decode_sound out [] h = ([], cc (append-nil out), done)
decode_sound out (c ∷ []) {d} h = elim (Bool-cases (c == b'%')) [
  | inl p ↦ absurd (cc (rw (p, decode) at h))
  | inr p ↦ Extends-cons_literal out c [] p (rw (p, decode) at h) ([], sym (append-nil d), done)
]
decode_sound out (c ∷ a ∷ []) h = elim (Bool-cases (c == b'%')) [
  | inl p ↦
      let (x, y, ha, hb, q, _) = push_escape-eq-ok out (hex_value a) none (rw (p, decode) at h) in
      absurd (cc)
  | inr p ↦
      let (out', pushed, later) =
        >>=-eq-ok (push_literal out c) (λ o. decode o (a ∷ [])) (rw (p, decode) at h) in
      Extends-cons_literal out c (a ∷ []) p pushed (decode_sound out' (a ∷ []) later)
]
decode_sound out (c ∷ a ∷ b ∷ s) h = elim (Bool-cases (c == b'%')) [
  | inl p ↦
      let (out', pushed, later) =
        >>=-eq-ok (push_escape out (hex_value a) (hex_value b)) (λ o. decode o s)
          (rw (p, decode) at h) in
      Extends-cons_escape out c a b s p pushed (decode_sound out' s later)
  | inr p ↦
      let (out', pushed, later) =
        >>=-eq-ok (push_literal out c) (λ o. decode o (a ∷ b ∷ s)) (rw (p, decode) at h) in
      Extends-cons_literal out c (a ∷ b ∷ s) p pushed (decode_sound out' (a ∷ b ∷ s) later)
]

decode-literal :
    (out : Bytes) (c : ℕ) (s : Bytes)
    → (c == b'%') ≡ false
    → is_literal_rejected c ≡ false
    → decode out (c ∷ s) ≡ decode (out ++ c ∷ []) s
unfolding decode
decode-literal out c [] p q = ground arith
decode-literal out c (a ∷ []) p q = ground arith
decode-literal out c (a ∷ b ∷ s) p q = ground arith

decode-escape :
    (out : Bytes) (c a b h l : ℕ) (s : Bytes)
    → (c == b'%') ≡ true
    → hex_value a ≡ some h
    → hex_value b ≡ some l
    → is_escape_rejected (combine h l) ≡ false
    → decode out (c ∷ a ∷ b ∷ s) ≡ decode (out ++ combine h l ∷ []) s
unfolding decode push_escape
decode-escape out c a b h l s p ha hb q = rw (p, decode) (rw (ha, hb) (rw (q, push_escape)))

-- A digit is read as its value, and two digits as the byte that they spell.
decode-spelled :
    (out : Bytes) (c a b h l : ℕ) (s : Bytes)
    → c ≡ b'%'
    → IsDigit a h
    → IsDigit b l
    → is_escapable (16 * h + l) ≡ true
    → decode out (c ∷ a ∷ b ∷ s) ≡ decode (out ++ (16 * h + l) ∷ []) s
decode-spelled out c a b h l s p ha hb q =
    let high = hex_value-eq a ∙ ha in
    let low = hex_value-eq b ∙ hb in
    let same = combine-eq h l (hex_value-bound a high) (hex_value-bound b low) in
    let allowed : is_escape_rejected (16 * h + l) ≡ false =
      ground (arith, is_escape_rejected-eq (16 * h + l)) in
    decode-escape out c a b h l s ((==_iff c b'%').1 p) high low
      (ap is_escape_rejected same ∙ allowed)
    ∙ ap (λ x. decode (out ++ x ∷ []) s) same

pub decode_complete : (out : Bytes) {s r : Bytes} → Decodes s r → decode out s ≡ ok (out ++ r)
decode_complete out done = unfold decode in ap ok (sym (append-nil out))
decode_complete out (literal {c} {s} {d} p t) =
    let plain = sym (is_literal_rejected-eq c) ∙ p in
    decode-literal out c s (ground arith) (ground arith)
    ∙ decode_complete (out ++ c ∷ []) t
    ∙ ap ok (append_assoc out (c ∷ []) d)
decode_complete out (escape {c} {a} {b} {h} {l} {s} {d} p ha hb q t) =
    decode-spelled out c a b h l s p ha hb q
    ∙ decode_complete (out ++ (16 * h + l) ∷ []) t
    ∙ ap ok (append_assoc out ((16 * h + l) ∷ []) d)

pub Decodes-plain :
    {s d : Bytes} → Decodes s d → contains_byte b'?' s ≡ false → all is_plain_byte d ≡ true
Decodes-plain done h = refl
Decodes-plain (literal {c} {s} {d} p t) h = ground (arith, Decodes-plain t)
Decodes-plain (escape {c} {a} {b} {h = x} {l} {s} {d} p ha hb q t) h =
    ground (arith, Decodes-plain t)

pub Decodes_refl : (s : Bytes) → all is_plain_byte s ≡ true → Decodes s s
Decodes_refl [] h = done
Decodes_refl (c ∷ s) h = literal (ground arith) (Decodes_refl s (ground arith))

pub Decodes-length : {s d : Bytes} → Decodes s d → length d ≤ length s
Decodes-length done = omega arith
Decodes-length (literal p t) = omega (arith, Decodes-length t)
Decodes-length (escape p ha hb q t) = omega (arith, Decodes-length t)
