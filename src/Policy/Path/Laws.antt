-- ===== src/Policy/Path/Laws.antt =====
-- What a normalised path is, and which paths are normalised to what.
use wasi_http_middleware.Prelude.{
  ℕ, ◌≤◌, true, false, [], ◌∷◌, ◌++◌, ◌=b◌, ◌≡◌, ◌⊎◌, ◌↔◌, inl, inr, refl, sym, ap, ◌∙◌, arith,
  Bytes, codes, all, any, contains, ok, ◌>>=◌, Bool-cases, >>=-eq-ok, length,
}
use wasi_http_middleware.Text.{
  contains_byte, contains_text, starts_with, split_first, split_rest, is_utf8,
}
use wasi_http_middleware.Text.Cut.{split_first-lacks, split_first_of_lacks, split_first-append}
use wasi_http_middleware.Policy.Path.{
  max_policy_path_len, is_ambiguous, decode, check_decoded, normalize_raw, normalize_policy_path,
}
use wasi_http_middleware.Policy.Path.Decodes.{
  decode_sound, decode_complete, Decodes-plain, Decodes_refl, Decodes-length,
}
use wasi_http_middleware.Policy.Path.Digits.{any-is_dot_segment}
use wasi_http_middleware.Policy.Path.Spec.{
  is_plain_byte, dot_segments, Decodes, done, literal, escape, Normalizes,
}

-- A path that names one place: absolute, with no query, escape, backslash, fragment or control
-- character, with no empty segment inside and no `.` or `..`, bounded, and text.
pub record IsSafePath (p : Bytes) : Type 0 where
  pub absolute : starts_with p (codes "/") ≡ true
  pub plain : all is_plain_byte p ≡ true
  pub bounded : length p ≤ 8192
  pub no_empty_segment : contains_text p (codes "//") ≡ false
  pub no_dot_segment : any (contains dot_segments) (split_rest b'/' p) ≡ false
  pub text : is_utf8 p ≡ true

check_decoded-eq-ok :
    (d : Bytes) {p : Bytes}
    → check_decoded d ≡ ok p
    → (d ≡ p) × (is_utf8 d ≡ true) × (is_ambiguous d ≡ false)
unfolding check_decoded
check_decoded-eq-ok d h = elim (Bool-cases (is_utf8 d)) [
  | inl u ↦ elim (Bool-cases (is_ambiguous d)) [
    | inl a ↦ absurd (cc (rw (u, a, check_decoded) at h))
    | inr a ↦ (cc (rw (u, a, check_decoded) at h), u, a)
  ]
  | inr u ↦ absurd (cc (rw (u, check_decoded) at h))
]

is_ambiguous_parts :
    (p : Bytes)
    → is_ambiguous p ≡ false
    → (contains_text p (codes "//") ≡ false)
      × (any (contains dot_segments) (split_rest b'/' p) ≡ false)
is_ambiguous_parts p h = ground (arith, h, any-is_dot_segment (split_rest b'/' p))

is_ambiguous_of_parts :
    (p : Bytes)
    → length p ≤ 8192
    → contains_text p (codes "//") ≡ false
    → any (contains dot_segments) (split_rest b'/' p) ≡ false
    → is_ambiguous p ≡ false
is_ambiguous_of_parts p h k l = ground (arith, h, k, l, any-is_dot_segment (split_rest b'/' p))

-- Past the guards there is only the loop and the last test.
normalize_raw_in_bounds :
    (raw : Bytes)
    → starts_with raw (codes "/") ≡ true
    → length raw ≤ max_policy_path_len
    → normalize_raw raw ≡ (decode [] raw >>= check_decoded)
normalize_raw_in_bounds [] h k = absurd (unfold starts_with in cc)
normalize_raw_in_bounds (c ∷ s) h k = unfold normalize_raw in ground arith

normalize_raw_guards :
    (c : ℕ) (s : Bytes) {p : Bytes}
    → normalize_raw (c ∷ s) ≡ ok p
    → (starts_with (c ∷ s) (codes "/") ≡ true) × (length (c ∷ s) ≤ max_policy_path_len)
unfolding normalize_raw
normalize_raw_guards c s h = ground arith

normalize_raw-eq-ok :
    (raw : Bytes) {p : Bytes}
    → normalize_raw raw ≡ ok p
    → ((raw ≡ []) × (p ≡ codes "/")) ⊎ Normalizes raw p
normalize_raw-eq-ok [] h = inl (refl, unfold normalize_raw in cc)
normalize_raw-eq-ok (c ∷ s) {p} h =
    let (start, bound) = normalize_raw_guards c s h in
    let (d, decoded, checked) =
      >>=-eq-ok (decode [] (c ∷ s)) check_decoded
        (sym (normalize_raw_in_bounds (c ∷ s) start bound) ∙ h) in
    let (r, e, t) = decode_sound [] (c ∷ s) decoded in
    let (same, utf8, clear) = check_decoded-eq-ok d checked in
    let r_eq : r ≡ p = sym e ∙ same in
    let parts = is_ambiguous_parts p (rw same at clear) in
    inr (record {
      raw_absolute = start;
      raw_bounded = bound;
      decodes = rw r_eq at t;
      text = rw same at utf8;
      no_empty_segment = parts.0;
      no_dot_segment = parts.1;
    })

normalize_raw_of_Normalizes : {raw p : Bytes} → Normalizes raw p → normalize_raw raw ≡ ok p
unfolding check_decoded
normalize_raw_of_Normalizes {raw} {p} n =
    let bound : length p ≤ 8192 = omega (arith, n.raw_bounded, Decodes-length n.decodes) in
    let clear = is_ambiguous_of_parts p bound n.no_empty_segment n.no_dot_segment in
    normalize_raw_in_bounds raw n.raw_absolute n.raw_bounded
    ∙ ap (λ r. r >>= check_decoded) (decode_complete [] n.decodes)
    ∙ rw (n.text, clear, check_decoded)

starts_with_slash : (c : ℕ) (s : Bytes) → starts_with (c ∷ s) (codes "/") ≡ true → c ≡ b'/'
unfolding starts_with
starts_with_slash c s h = ground arith

Decodes-absolute :
    {s d : Bytes}
    → Decodes s d
    → starts_with s (codes "/") ≡ true
    → starts_with d (codes "/") ≡ true
unfolding starts_with
Decodes-absolute done h = h
Decodes-absolute (literal p t) h = ground arith
Decodes-absolute (escape {c} p ha hb q t) h = absurd (ground arith)

Normalizes-IsSafePath :
    {raw p : Bytes} → contains_byte b'?' raw ≡ false → Normalizes raw p → IsSafePath p
Normalizes-IsSafePath {raw} {p} h n = record {
  absolute = Decodes-absolute n.decodes n.raw_absolute;
  plain = Decodes-plain n.decodes h;
  bounded = omega (arith, n.raw_bounded, Decodes-length n.decodes);
  no_empty_segment = n.no_empty_segment;
  no_dot_segment = n.no_dot_segment;
  text = n.text;
}

root-IsSafePath : IsSafePath (codes "/")
unfolding starts_with contains_text split_rest split_first is_utf8 ◌=b◌
root-IsSafePath = record {
  absolute = refl;
  plain = refl;
  bounded = omega arith;
  no_empty_segment = refl;
  no_dot_segment = refl;
  text = refl;
}

plain-lacks_query : (s : Bytes) → all is_plain_byte s ≡ true → contains_byte b'?' s ≡ false
plain-lacks_query [] h = refl
plain-lacks_query (c ∷ s) h = ground (arith, plain-lacks_query s)

IsSafePath-Normalizes : {p : Bytes} → IsSafePath p → Normalizes p p
IsSafePath-Normalizes {p} h = record {
  raw_absolute = h.absolute;
  raw_bounded = h.bounded;
  decodes = Decodes_refl p h.plain;
  text = h.text;
  no_empty_segment = h.no_empty_segment;
  no_dot_segment = h.no_dot_segment;
}

-- A path is accepted with the result `p` exactly when the part before the query is empty and `p` is
-- the root, or that part is absolute and at most 8192 bytes long, and `p` is its percent-decoding, is text,
-- and has no empty segment inside and no `.` or `..`. The digits are read from a table, and the bytes
-- that may not stand in a path, or that no escape may stand for, are listed.
pub normalize_policy_path_iff :
    (s p : Bytes)
    → (normalize_policy_path s ≡ ok p)
      ↔ (((split_first b'?' s ≡ []) × (p ≡ codes "/")) ⊎ Normalizes (split_first b'?' s) p)
unfolding normalize_policy_path
normalize_policy_path_iff s p = (normalize_raw-eq-ok (split_first b'?' s), back)
  where
    back :
        ((split_first b'?' s ≡ []) × (p ≡ codes "/")) ⊎ Normalizes (split_first b'?' s) p
        → normalize_raw (split_first b'?' s) ≡ ok p
    back (inl (e, q)) = ap normalize_raw e ∙ ap ok (sym q)
    back (inr n) = normalize_raw_of_Normalizes n

-- Every path that is returned is safe.
pub normalize_policy_path-IsSafePath : (s p : Bytes) → normalize_policy_path s ≡ ok p → IsSafePath p
normalize_policy_path-IsSafePath s p h = go ((normalize_policy_path_iff s p).0 h)
  where
    go :
        ((split_first b'?' s ≡ []) × (p ≡ codes "/")) ⊎ Normalizes (split_first b'?' s) p
        → IsSafePath p
    go (inl (e, q)) = rw q root-IsSafePath
    go (inr n) = Normalizes-IsSafePath (split_first-lacks b'?' s) n

-- The paths that are returned unchanged are the safe ones.
pub normalize_policy_path_fixed_iff : (p : Bytes) → (normalize_policy_path p ≡ ok p) ↔ IsSafePath p
normalize_policy_path_fixed_iff p = (normalize_policy_path-IsSafePath p p, back)
  where
    back : IsSafePath p → normalize_policy_path p ≡ ok p
    back h =
        let whole = split_first_of_lacks b'?' p (plain-lacks_query p h.plain) in
        (normalize_policy_path_iff p p).1 (inr (rw whole (IsSafePath-Normalizes h)))

-- Normalising a path that was returned gives it again.
pub normalize_policy_path_idem :
    (s p : Bytes) → normalize_policy_path s ≡ ok p → normalize_policy_path p ≡ ok p
normalize_policy_path_idem s p h =
    (normalize_policy_path_fixed_iff p).1 (normalize_policy_path-IsSafePath s p h)

-- The query does not matter.
pub normalize_policy_path_query :
    (path query : Bytes)
    → contains_byte b'?' path ≡ false
    → normalize_policy_path (path ++ b'?' ∷ query) ≡ normalize_policy_path path
unfolding normalize_policy_path
normalize_policy_path_query path query h =
    ap normalize_raw (split_first-append b'?' path query h ∙ sym (split_first_of_lacks b'?' path h))
