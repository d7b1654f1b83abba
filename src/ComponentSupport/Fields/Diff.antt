-- ===== src/ComponentSupport/Fields/Diff.antt =====
-- `apply_header_diff` turns the original fields into the desired ones.
use wasi_http_middleware.Prelude.{
  Bool, true, false, not, ◌&&◌, ◌||◌, List, [], ◌∷◌, ◌++◌, map, ◌≡◌, inl, inr, refl, sym, ap, ◌∙◌,
  arith, Bytes, any, if◌then◌else◌, ◌=b◌, =b_iff, &&-elim, ok, >>=-eq-ok, ok-injective, map_err,
  map_err-eq-ok, Bool-cases, if_true, if_false,
}
use wasi_http_middleware.Text.{
  eq_ignore_ascii_case, eq_ignore_ascii_case_comm, eq_ignore_ascii_case_congr,
}
use wasi_http_middleware.ComponentSupport.HeaderList.{
  Header, is_named, header_values, contains_header_name,
}
use wasi_http_middleware.ComponentSupport.HeaderList.Laws.{
  header_values_congr, contains_header_name_congr, header_values_of_absent,
}
use wasi_http_middleware.ComponentSupport.Fields.{
  HostFields, IsHostFields, unique_from, unique_header_names, same_values, header_values_equal,
  delete_missing, set_changed, apply_header_diff,
}

-- Some name of the list is the given one, in any spelling.
abbrev pub mentions : List Bytes → Bytes → Bool
mentions names name = any (λ existing. eq_ignore_ascii_case existing name) names

pub mentions_congr :
    (names : List Bytes) (a b : Bytes)
    → eq_ignore_ascii_case a b ≡ true
    → mentions names a ≡ mentions names b
mentions_congr [] a b h = refl
mentions_congr (n ∷ names) a b h =
    let left = eq_ignore_ascii_case_comm n a in
    let right = eq_ignore_ascii_case_comm b n in
    let same = eq_ignore_ascii_case_congr a b n h in
    cc (left, right, same, mentions_congr names a b h)

pub mentions-append :
    (xs : List Bytes) (n name : Bytes)
    → mentions (xs ++ n ∷ []) name ≡ (mentions xs name || eq_ignore_ascii_case n name)
mentions-append [] n name = ground arith
mentions-append (x ∷ xs) n name = ground (arith, mentions-append xs n name)

or_known : (b : Bool) {a : Bool} (c : Bool) → (b ≡ true → a ≡ true) → (a || c) ≡ (a || (b || c))
or_known true c h = rw (h refl) refl
or_known false c h = refl

pub mentions-unique_from :
    (unique names : List Bytes) (name : Bytes)
    → mentions (unique_from unique names) name ≡ (mentions unique name || mentions names name)
unfolding unique_from
mentions-unique_from unique [] name = ground arith
mentions-unique_from unique (n ∷ names) name = elim (Bool-cases (mentions unique n)) [
  | inl e ↦ rw (e) (
      mentions-unique_from unique names name
      ∙ or_known (eq_ignore_ascii_case n name) (mentions names name)
          (λ same. sym (mentions_congr unique n name same) ∙ e))
  | inr e ↦ rw (e) (
      mentions-unique_from (unique ++ n ∷ []) names name
      ∙ ground (arith, mentions-append unique n name))
]

pub mentions-names :
    (headers : List Header) (name : Bytes)
    → mentions (map (λ (header : Header). header.name) headers) name
      ≡ contains_header_name headers name
unfolding contains_header_name is_named
mentions-names [] name = refl
mentions-names (x ∷ headers) name =
    ap (λ b. eq_ignore_ascii_case x.name name || b) (mentions-names headers name)

pub same_values-eq : (vs ws : List Bytes) → same_values vs ws ≡ true → vs ≡ ws
unfolding same_values
same_values-eq [] [] h = refl
same_values-eq (v ∷ vs) (w ∷ ws) h =
    let (first, rest) = &&-elim (v =b w) (same_values vs ws) h in
    cc ((=b_iff v w).0 first, same_values-eq vs ws rest)
same_values-eq [] (w ∷ ws) h = absurd (cc)
same_values-eq (v ∷ vs) [] h = absurd (cc)

-- The two loops together, under one name: `o` and `d` say whether each list has it, `e` whether they agree.
conclude :
    (o d e : Bool) {before between after original desired : List Bytes}
    → (o ≡ false → original ≡ [])
    → (d ≡ false → desired ≡ [])
    → (e ≡ true → original ≡ desired)
    → between ≡ (if o && not d then [] else before)
    → after ≡ (if d && not e then desired else between)
    → before ≡ original
    → after ≡ desired
conclude o true true lacks_o lacks_d same h k copy = k ∙ ground (arith, h) ∙ copy ∙ same refl
conclude o true false lacks_o lacks_d same h k copy = k
conclude true false e lacks_o lacks_d same h k copy = k ∙ h ∙ sym (lacks_d refl)
conclude false false e lacks_o lacks_d same h k copy =
    k ∙ h ∙ copy ∙ lacks_o refl ∙ sym (lacks_d refl)

module _ {host : HostFields} (laws : IsHostFields host) where
  open host use {State, HeaderError, get, set, delete}

  get-delete_missing :
      (s t : State) (desired : List Header) (names : List Bytes) (name : Bytes)
      → delete_missing host s desired names ≡ ok t
      → get t name ≡ (
          if mentions names name && not (contains_header_name desired name) then [] else get s name)
  unfolding delete_missing
  get-delete_missing s t desired [] name h = ap (λ x. get x name) (sym (ok-injective h))
  get-delete_missing s t desired (n ∷ names) name h =
      elim (Bool-cases (contains_header_name desired n)) [
        | inl e ↦
            let ih = get-delete_missing s t desired names name (sym (if_true _ _ e) ∙ h) in
            elim (Bool-cases (eq_ignore_ascii_case n name)) [
              | inl e1 ↦ ground (arith, e, e1, contains_header_name_congr desired n name e1, ih)
              | inr e1 ↦ ground (arith, e, e1, ih)
            ]
        | inr e ↦
            let (s', deleted, r) =
              >>=-eq-ok (map_err (delete s n) tt) _ (sym (if_false _ _ e) ∙ h) in
            let ih = get-delete_missing s' t desired names name r in
            let step = laws.get-delete s s' n name (map_err-eq-ok (delete s n) tt deleted) in
            elim (Bool-cases (eq_ignore_ascii_case n name)) [
              | inl e1 ↦
                  ground (arith, e, e1, contains_header_name_congr desired n name e1, step, ih)
              | inr e1 ↦ ground (arith, e, e1, step, ih)
            ]
      ]

  header_values_equal_congr :
      (original desired : List Header) (a b : Bytes)
      → eq_ignore_ascii_case a b ≡ true
      → header_values_equal original desired a ≡ header_values_equal original desired b
  unfolding header_values_equal
  header_values_equal_congr original desired a b h =
      cc (header_values_congr original a b h, header_values_congr desired a b h)

  get-set_changed :
      (s t : State) (original desired : List Header) (names : List Bytes) (name : Bytes)
      → set_changed host s original desired names ≡ ok t
      → get t name ≡ (
          if mentions names name && not (header_values_equal original desired name)
          then header_values desired name
          else get s name)
  unfolding set_changed
  get-set_changed s t original desired [] name h = ap (λ x. get x name) (sym (ok-injective h))
  get-set_changed s t original desired (n ∷ names) name h =
      elim (Bool-cases (header_values_equal original desired n)) [
        | inl e ↦
            let ih = get-set_changed s t original desired names name (sym (if_true _ _ e) ∙ h) in
            elim (Bool-cases (eq_ignore_ascii_case n name)) [
              | inl e1 ↦
                  ground (arith, e, e1, header_values_equal_congr original desired n name e1, ih)
              | inr e1 ↦ ground (arith, e, e1, ih)
            ]
        | inr e ↦
            let (s', changed, r) =
              >>=-eq-ok (map_err (set s n (header_values desired n)) tt) _
                (sym (if_false _ _ e) ∙ h) in
            let ih = get-set_changed s' t original desired names name r in
            let step =
              laws.get-set s s' n name (header_values desired n)
                (map_err-eq-ok (set s n (header_values desired n)) tt changed) in
            elim (Bool-cases (eq_ignore_ascii_case n name)) [
              | inl e1 ↦ ground (
                arith,
                e,
                e1,
                header_values_equal_congr original desired n name e1,
                header_values_congr desired n name e1,
                step,
                ih,
              )
              | inr e1 ↦ ground (arith, e, e1, step, ih)
            ]
      ]

  mentions-unique_header_names :
      (headers : List Header) (name : Bytes)
      → mentions (unique_header_names headers) name ≡ contains_header_name headers name
  unfolding unique_header_names
  mentions-unique_header_names headers name =
      mentions-unique_from [] (map (λ (header : Header). header.name) headers) name
      ∙ mentions-names headers name

  header_values_equal-eq :
      (original desired : List Header) (name : Bytes)
      → header_values_equal original desired name ≡ true
      → header_values original name ≡ header_values desired name
  unfolding header_values_equal
  header_values_equal-eq original desired name =
      same_values-eq (header_values original name) (header_values desired name)

  -- When the original list is a copy of the fields, a successful edit leaves under every name, in any
  -- spelling, exactly the values of the desired list in their order.
  pub get-apply_header_diff :
      (s t : State) (original desired : List Header)
      → ((name : Bytes) → get s name ≡ header_values original name)
      → apply_header_diff host s original desired ≡ ok t
      → (name : Bytes) → get t name ≡ header_values desired name
  unfolding apply_header_diff
  get-apply_header_diff s t original desired copy h name =
      let (s', deleted, r) =
        >>=-eq-ok (delete_missing host s desired (unique_header_names original)) _ h in
      let first = get-delete_missing s s' desired (unique_header_names original) name deleted in
      let second = get-set_changed s' t original desired (unique_header_names desired) name r in
      let in_original = mentions-unique_header_names original name in
      let in_desired = mentions-unique_header_names desired name in
      let held = copy name in
      conclude (contains_header_name original name) (contains_header_name desired name)
        (header_values_equal original desired name) (header_values_of_absent original name)
        (header_values_of_absent desired name) (header_values_equal-eq original desired name)
        (first ∙ rw (in_original) refl) (second ∙ rw (in_desired) refl) held
