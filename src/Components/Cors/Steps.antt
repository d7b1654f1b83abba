-- ===== src/Components/Cors/Steps.antt =====
-- One step of the merge of components/cors against the replacements of components/secure-defaults.
use wasi_http_middleware.Prelude.{
  true, false, ◌||◌, List, [], ◌∷◌, ◌++◌, append-nil, ◌≡◌, inl, inr, refl, sym, ap, ◌∙◌, arith,
  Bytes, if◌then◌else◌, if_true, if_false, Bool-cases,
}
use wasi_http_middleware.Text.{eq_ignore_ascii_case}
use wasi_http_middleware.Policy.Cors.Evaluate.{vary}
use wasi_http_middleware.ComponentSupport.HeaderList.{
  Header, is_named, header_values, contains_header_name, remove_header,
}
use wasi_http_middleware.ComponentSupport.HeaderList.Laws.{
  header_values-append, header_values_of_absent, header_values-remove_header,
  contains_header_name-append,
}
use wasi_http_middleware.ComponentSupport.Messages.Forward.{edited}
use wasi_http_middleware.Components.Vary.{merge_vary_origin, merged_vary_origin}
use wasi_http_middleware.Components.Vary.Laws.{header_values-merge_vary_origin}

-- One name is merged: its fields come last in the list, and first among the replacements.
pub merged_step :
    (target F R : List Header) (k name : Bytes) {after : List Bytes}
    → after ≡ edited [] R (header_values (remove_header target k ++ F)) name
    → (eq_ignore_ascii_case k name ≡ true → contains_header_name R name ≡ false)
    → (eq_ignore_ascii_case k name ≡ true → contains_header_name F name ≡ true)
    → (eq_ignore_ascii_case k name ≡ false → contains_header_name F name ≡ false)
    → after ≡ edited [] (F ++ R) (header_values target) name
merged_step target F R k name ih not_later now never =
    let removed = header_values-remove_header target k name in
    let both = header_values-append (remove_header target k) F name in
    let parts = header_values-append F R name in
    elim (Bool-cases (eq_ignore_ascii_case k name)) [
      | inl same ↦
          let r = not_later same in
          let cleared = both ∙ ap (λ vs. vs ++ header_values F name) (removed ∙ if_true _ _ same) in
          let alone =
            parts
            ∙ ap (λ vs. header_values F name ++ vs) (header_values_of_absent R name r)
            ∙ append-nil (header_values F name) in
          ih
          ∙ if_false _ _ r
          ∙ cleared
          ∙ sym (
              if_true _ _ (contains_header_name-append F R name ∙ ground (arith, now same)) ∙ alone)
      | inr other ↦
          let f = never other in
          let none_of = header_values_of_absent F name f in
          let kept =
            both
            ∙ ap (λ vs. header_values (remove_header target k) name ++ vs) none_of
            ∙ append-nil (header_values (remove_header target k) name)
            ∙ removed
            ∙ if_false _ _ other in
          let later = parts ∙ ap (λ vs. vs ++ header_values R name) none_of in
          let in_later =
            contains_header_name-append F R name ∙ ap (λ b. b || contains_header_name R name) f in
          ih ∙ rw (kept, in_later, later) refl
    ]

vary_field :
    (other value : Bytes)
    → (header_values (record { name = vary; value = value } ∷ []) other
        ≡ (if eq_ignore_ascii_case vary other then value ∷ [] else []))
      × (contains_header_name (record { name = vary; value = value } ∷ []) other
          ≡ eq_ignore_ascii_case vary other)
unfolding header_values contains_header_name is_named
vary_field other value = (ground arith, ground arith)

-- The step on `vary`, which comes last.
pub vary_step :
    (target merged R : List Header) (name : Bytes)
    → header_values merged name ≡ edited [] R (header_values target) name
    → merged_vary_origin merged ≡ merged_vary_origin target
    → (eq_ignore_ascii_case vary name ≡ true → contains_header_name R name ≡ false)
    → header_values (merge_vary_origin merged) name
      ≡ edited []
          (R ++ record { name = vary; value = merged_vary_origin target } ∷ [])
          (header_values target)
          name
vary_step target merged R name at same untouched =
    let V : List Header = record { name = vary; value = merged_vary_origin target } ∷ [] in
    let parts = header_values-append R V name in
    let names = contains_header_name-append R V name in
    let left = header_values-merge_vary_origin merged name in
    let (vary_values, vary_named) = vary_field name (merged_vary_origin target) in
    elim (Bool-cases (eq_ignore_ascii_case vary name)) [
      | inl e ↦
          let r = untouched e in
          let value =
            parts ∙ ap (λ vs. vs ++ header_values V name) (header_values_of_absent R name r) in
          left
          ∙ if_true _ _ e
          ∙ ap (λ v. v ∷ []) same
          ∙ sym (vary_values ∙ if_true _ _ e)
          ∙ sym value
          ∙ sym (if_true _ _ (names ∙ ground (arith, vary_named, e)))
      | inr e ↦
          let none_of = vary_values ∙ if_false _ _ e in
          let value =
            parts
            ∙ ap (λ vs. header_values R name ++ vs) none_of
            ∙ append-nil (header_values R name) in
          let named : contains_header_name (R ++ V) name ≡ contains_header_name R name =
            names ∙ ground (arith, vary_named, e) in
          left ∙ if_false _ _ e ∙ at ∙ rw (named, value) refl
    ]
