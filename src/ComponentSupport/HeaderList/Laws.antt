-- ===== src/ComponentSupport/HeaderList/Laws.antt =====
-- What the operations on a list of fields do to the values of a name.
use wasi_http_middleware.Prelude.{
  ◌||◌, Bool, true, false, List, [], ◌∷◌, ◌++◌, map, ◌=b◌, ◌≡◌, ◌↔◌, refl, sym, ap, ◌∙◌, arith,
  Bytes, any, filter, append-nil, some, if◌then◌else◌, Bool-cases, inl, inr,
}
use wasi_http_middleware.Text.{
  to_ascii_lowercase, eq_ignore_ascii_case, eq_ignore_ascii_case_iff, eq_ignore_ascii_case_comm,
  eq_ignore_ascii_case_lower, eq_ignore_ascii_case_congr,
}
use wasi_http_middleware.ComponentSupport.HeaderList.{
  Header, is_named, header_values, only_value, single_header_value, remove_header, set_header,
  contains_header_name,
}

-- A value is returned exactly when it is the only one of its name.
pub single_header_value_iff :
    (headers : List Header) (name value : Bytes)
    → (single_header_value headers name ≡ some value) ↔ (header_values headers name ≡ value ∷ [])
unfolding single_header_value only_value
single_header_value_iff headers name value = go (header_values headers name)
  where
    go : (vs : List Bytes) → (only_value vs ≡ some value) ↔ (vs ≡ value ∷ [])
    go [] = (λ h. absurd (cc), λ h. absurd (cc))
    go (v ∷ []) = (λ h. cc, λ h. cc)
    go (v ∷ w ∷ vs) = (λ h. absurd (cc), λ h. absurd (cc))

pub header_values_congr :
    (headers : List Header) (a b : Bytes)
    → eq_ignore_ascii_case a b ≡ true
    → header_values headers a ≡ header_values headers b
unfolding header_values is_named eq_ignore_ascii_case
header_values_congr headers a b h =
    ap
      (λ k.
        map (λ (header : Header). header.value)
          (filter (λ header. to_ascii_lowercase header.name =b k) headers))
      ((eq_ignore_ascii_case_iff a b).0 h)

pub contains_header_name_congr :
    (headers : List Header) (a b : Bytes)
    → eq_ignore_ascii_case a b ≡ true
    → contains_header_name headers a ≡ contains_header_name headers b
unfolding contains_header_name is_named eq_ignore_ascii_case
contains_header_name_congr headers a b h =
    ap (λ k. any (λ (header : Header). to_ascii_lowercase header.name =b k) headers)
      ((eq_ignore_ascii_case_iff a b).0 h)

pub header_values-append :
    (xs ys : List Header) (name : Bytes)
    → header_values (xs ++ ys) name ≡ header_values xs name ++ header_values ys name
unfolding header_values
header_values-append [] ys name = refl
header_values-append (x ∷ xs) ys name = elim (Bool-cases (is_named name x)) [
  | inl e ↦ rw (e) (ap (λ vs. x.value ∷ vs) (header_values-append xs ys name))
  | inr e ↦ rw (e) (header_values-append xs ys name)
]

pub contains_header_name-append :
    (xs ys : List Header) (name : Bytes)
    → contains_header_name (xs ++ ys) name
      ≡ (contains_header_name xs name || contains_header_name ys name)
unfolding contains_header_name
contains_header_name-append [] ys name = refl
contains_header_name-append (x ∷ xs) ys name =
    ground (arith, contains_header_name-append xs ys name)

-- A name that no field has, has no values.
pub header_values_of_absent :
    (headers : List Header) (name : Bytes)
    → contains_header_name headers name ≡ false
    → header_values headers name ≡ []
unfolding header_values contains_header_name
header_values_of_absent [] name h = refl
header_values_of_absent (x ∷ xs) name h = elim (Bool-cases (is_named name x)) [
  | inl e ↦ absurd (ground (arith, h, e))
  | inr e ↦ rw (e) (header_values_of_absent xs name (ground (arith, h, e)))
]

-- Behind a removal the removed name has no values, in any spelling, and every other name keeps its
-- values and their order.
pub header_values-remove_header :
    (headers : List Header) (name other : Bytes)
    → header_values (remove_header headers name) other
      ≡ (if eq_ignore_ascii_case name other then [] else header_values headers other)
unfolding header_values remove_header is_named
header_values-remove_header [] name other = ground arith
header_values-remove_header (header ∷ headers) name other =
    let ih = header_values-remove_header headers name other in
    elim (Bool-cases (eq_ignore_ascii_case header.name name)) [
      | inl e ↦
          let same = eq_ignore_ascii_case_congr header.name name other e in
          ground (arith, e, same, ih)
      | inr e ↦ elim (Bool-cases (eq_ignore_ascii_case header.name other)) [
        | inl e1 ↦
            let differs =
              sym (eq_ignore_ascii_case_comm other name)
              ∙ sym (eq_ignore_ascii_case_congr header.name other name e1)
              ∙ e in
            ground (arith, e, e1, differs, ih)
        | inr e1 ↦ ground (arith, e, e1, ih)
      ]
    ]

header_values_one :
    (name value other : Bytes)
    → header_values (record { name = to_ascii_lowercase name; value = value } ∷ []) other
      ≡ (if eq_ignore_ascii_case name other then value ∷ [] else [])
unfolding header_values is_named
header_values_one name value other = ground (arith, eq_ignore_ascii_case_lower name other)

-- Behind `set_header` the name has the new value only, in any spelling, and every other name keeps its
-- values and their order.
pub header_values-set_header :
    (headers : List Header) (name value other : Bytes)
    → header_values (set_header headers name value) other
      ≡ (if eq_ignore_ascii_case name other then value ∷ [] else header_values headers other)
unfolding set_header
header_values-set_header headers name value other =
    header_values-append (remove_header headers name)
      (record { name = to_ascii_lowercase name; value = value } ∷ []) other
    ∙ either (eq_ignore_ascii_case name other) (header_values headers other)
        (header_values-remove_header headers name other) (header_values_one name value other)
  where
    either :
        (b : Bool) (vs : List Bytes) {xs ys : List Bytes}
        → xs ≡ (if b then [] else vs)
        → ys ≡ (if b then value ∷ [] else [])
        → xs ++ ys ≡ (if b then value ∷ [] else vs)
    either true vs e f = rw (e, f) refl
    either false vs e f = rw (e, f) (append-nil vs)
