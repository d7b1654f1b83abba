-- ===== src/ComponentSupport/HeaderList/Prefix.antt =====
-- The test of a name's prefix in crates/component-support/src/lib.rs, and the removal of such names.
use wasi_http_middleware.Prelude.{
  ℕ, zero, suc, Bool, true, false, List, [], ◌∷◌, ◌≡◌, inl, inr, refl, sym, ap, ◌∙◌, arith, Bytes,
  length, Option, none, some, within, if◌then◌else◌, Bool-cases,
}
use wasi_http_middleware.Text.{
  lower, to_ascii_lowercase, eq_ignore_ascii_case, eq_ignore_ascii_case_iff,
  eq_ignore_ascii_case_lower,
}
use wasi_http_middleware.ComponentSupport.HeaderList.{
  Header, is_named, header_values, get_prefix, has_prefix, remove_headers_with_prefix,
}

-- Lower case, of a text that may be missing.
lowered : Option Bytes → Option Bytes
lowered none = none
lowered (some text) = some (to_ascii_lowercase text)

within-lower : (c : ℕ) → within 128 191 (lower c) ≡ within 128 191 c
unfolding lower
within-lower c = ground arith

get_prefix-lower :
    (n : ℕ) (text : Bytes) → get_prefix n (to_ascii_lowercase text) ≡ lowered (get_prefix n text)
unfolding get_prefix to_ascii_lowercase lowered
get_prefix-lower zero [] = refl
get_prefix-lower zero (c ∷ text) = elim (Bool-cases (within 128 191 c)) [
  | inl e ↦ rw (within-lower c, e) refl
  | inr e ↦ rw (within-lower c, e) refl
]
get_prefix-lower (suc n) [] = refl
get_prefix-lower (suc n) (c ∷ text) =
    ap (λ (o : Option Bytes). elim o [ none ↦ none | some start ↦ some (lower c ∷ start) ])
      (get_prefix-lower n text)
    ∙ extend (get_prefix n text)
  where
    extend :
        (o : Option Bytes)
        → ◌≡◌ {A = Option Bytes}
            (elim (lowered o) [ none ↦ none | some start ↦ some (lower c ∷ start) ])
            (lowered (elim o [ none ↦ none | some start ↦ some (c ∷ start) ]))
    extend none = refl
    extend (some start) = refl

has_prefix-lower :
    (prefix name : Bytes) → has_prefix prefix (to_ascii_lowercase name) ≡ has_prefix prefix name
unfolding has_prefix lowered
has_prefix-lower prefix name =
    let step = get_prefix-lower (length prefix) name in
    ap
      (λ (o : Option Bytes). elim o [
        | none ↦ false
        | some start ↦ eq_ignore_ascii_case start prefix
      ])
      step
    ∙ same (get_prefix (length prefix) name)
  where
    same :
        (o : Option Bytes)
        → ◌≡◌ {A = Bool}
            (elim (lowered o) [ none ↦ false | some start ↦ eq_ignore_ascii_case start prefix ])
            (elim o [ none ↦ false | some start ↦ eq_ignore_ascii_case start prefix ])
    same none = refl
    same (some start) = eq_ignore_ascii_case_lower start prefix

-- A name has the prefix in every spelling or in none.
pub has_prefix_congr :
    (prefix a b : Bytes)
    → eq_ignore_ascii_case a b ≡ true
    → has_prefix prefix a ≡ has_prefix prefix b
has_prefix_congr prefix a b h =
    sym (has_prefix-lower prefix a)
    ∙ ap (has_prefix prefix) ((eq_ignore_ascii_case_iff a b).0 h)
    ∙ has_prefix-lower prefix b

-- Behind the removal no name with the prefix has values, in any spelling, and every other name keeps its
-- values and their order.
pub header_values-remove_headers_with_prefix :
    (headers : List Header) (prefix name : Bytes)
    → header_values (remove_headers_with_prefix headers prefix) name
      ≡ (if has_prefix prefix name then [] else header_values headers name)
unfolding header_values remove_headers_with_prefix is_named
header_values-remove_headers_with_prefix [] prefix name = ground arith
header_values-remove_headers_with_prefix (header ∷ headers) prefix name =
    let ih = header_values-remove_headers_with_prefix headers prefix name in
    elim (Bool-cases (eq_ignore_ascii_case header.name name)) [
      | inl e ↦ let same = has_prefix_congr prefix header.name name e in ground (arith, e, same, ih)
      | inr e ↦ ground (arith, e, ih)
    ]
