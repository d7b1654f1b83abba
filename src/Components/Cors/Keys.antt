-- ===== src/Components/Cors/Keys.antt =====
-- The names of a header map, as the merges of components/cors and components/secure-defaults meet them.
use wasi_http_middleware.Prelude.{
  Bool, true, false, not, ◌&&◌, List, [], ◌∷◌, ◌≡◌, inl, inr, refl, sym, ap, ◌∙◌, arith, Bytes,
  contains, Bool-cases, ◌=b◌, =b_iff,
}
use wasi_http_middleware.Text.{
  to_ascii_lowercase, lower, eq_ignore_ascii_case, eq_ignore_ascii_case_iff,
}
use wasi_http_middleware.Policy.Cors.Evaluate.{vary}

-- What the http crate documents of the names that a map iterates: each is lower case and comes once.
unfoldable pub is_key_list : List Bytes → Bool
unfolding to_ascii_lowercase ◌=b◌
is_key_list [] = true
is_key_list (k ∷ keys) = to_ascii_lowercase k =b k && not (contains keys k) && is_key_list keys

-- Two lower-case names that are spellings of one name are equal.
same_name :
    (a b name : Bytes)
    → to_ascii_lowercase a ≡ a
    → to_ascii_lowercase b ≡ b
    → eq_ignore_ascii_case a name ≡ true
    → eq_ignore_ascii_case b name ≡ true
    → a ≡ b
same_name a b name low_a low_b h k =
    sym low_a
    ∙ (eq_ignore_ascii_case_iff a name).0 h
    ∙ sym ((eq_ignore_ascii_case_iff b name).0 k)
    ∙ low_b

lower_of_key :
    (keys : List Bytes) (x : Bytes)
    → is_key_list keys ≡ true
    → contains keys x ≡ true
    → to_ascii_lowercase x ≡ x
unfolding is_key_list
lower_of_key [] x h c = absurd (cc)
lower_of_key (k ∷ keys) x h c = elim (Bool-cases (k =b x)) [
  | inl e ↦
      let low : to_ascii_lowercase k ≡ k =
        (=b_iff (to_ascii_lowercase k) k).0 (ground (arith, h)) in
      rw (← (=b_iff k x).0 e) low
  | inr e ↦ lower_of_key keys x (ground (arith, h)) (ground (arith, c, e))
]

-- No other name of the list is a spelling of this one.
pub other_keys :
    (k : Bytes) (keys : List Bytes) (name : Bytes)
    → is_key_list (k ∷ keys) ≡ true
    → eq_ignore_ascii_case k name ≡ true
    → (x : Bytes) → contains keys x ≡ true
    → eq_ignore_ascii_case x name ≡ false
unfolding is_key_list
other_keys k keys name h same x c = elim (Bool-cases (eq_ignore_ascii_case x name)) [
  | inl e ↦
      let low_k : to_ascii_lowercase k ≡ k =
        (=b_iff (to_ascii_lowercase k) k).0 (ground (arith, h)) in
      let low_x = lower_of_key keys x (ground (arith, h)) c in
      let one = same_name x k name low_x low_k e same in
      absurd (ground (arith, h, c, ap (contains keys) one))
  | inr e ↦ e
]

pub is_key_list-tail :
    (k : Bytes) (keys : List Bytes) → is_key_list (k ∷ keys) ≡ true → is_key_list keys ≡ true
unfolding is_key_list
is_key_list-tail k keys h = ground (arith, h)

-- A key that is not `vary` is no spelling of it.
pub not_vary :
    (k : Bytes) (keys : List Bytes) (name : Bytes)
    → is_key_list (k ∷ keys) ≡ true
    → eq_ignore_ascii_case vary name ≡ true
    → (k =b vary) ≡ false
    → eq_ignore_ascii_case k name ≡ false
unfolding is_key_list to_ascii_lowercase lower
not_vary k keys name listed same other = elim (Bool-cases (eq_ignore_ascii_case k name)) [
  | inl e ↦
      let low : to_ascii_lowercase k ≡ k =
        (=b_iff (to_ascii_lowercase k) k).0 (ground (arith, listed)) in
      let one = same_name k vary name low refl e same in absurd (cc ((=b_iff k vary).1 one, other))
  | inr e ↦ e
]

pub later_key :
    (k : Bytes) (keys : List Bytes) (x : Bytes)
    → contains keys x ≡ true
    → contains (k ∷ keys) x ≡ true
later_key k keys x h = ground (arith, h)
