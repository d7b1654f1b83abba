-- ===== src/Metadata/Field.antt =====
-- What the validators accept and return: both directions of each test, and the shape of the lists.
use wasi_http_middleware.Prelude.{
  ℕ, ◌≤◌, Bool, true, false, not, ◌&&◌, ◌||◌, List, [], ◌∷◌, ◌≡◌, refl, ap, ◌∙◌, arith, ltb, Bytes,
  codes, length, is_empty, all, any, ok, err, ◌>>=◌, >>=-eq-ok, if◌then◌else◌, if_ok-eq-ok,
  if_err-eq-ok, &&-intro, &&-elim, if_false,
}
use wasi_http_middleware.Text.{sort, dedup}
use wasi_http_middleware.Text.Sorted.{
  IsCanonical, dedup-sort-IsCanonical, dedup-sort_of_IsCanonical, all-dedup-sort, length-dedup-sort,
  is_empty-dedup-sort,
}
use wasi_http_middleware.Metadata.{
  invalid_text, invalid_collection, is_valid_text, validate_text, is_unbroken_ascii,
  validate_ascii_text, is_token, validated_tokens, validate_audiences, validated_deployment,
  max_context_value_len, max_collection_items, max_audiences,
}

pub validate_text-eq-ok :
    (field value : Bytes) (maximum : ℕ) {u : Unit {0}}
    → validate_text field value maximum ≡ ok u
    → is_valid_text value maximum ≡ true
unfolding validate_text
validate_text-eq-ok field value maximum h = (if_ok-eq-ok (is_valid_text value maximum) _ h).0

pub validate_text_of_valid :
    (field value : Bytes) (maximum : ℕ)
    → is_valid_text value maximum ≡ true
    → validate_text field value maximum ≡ ok tt
unfolding validate_text
validate_text_of_valid field value maximum h =
    ap (λ b. if b then ok tt else err (invalid_text field)) h

-- An audience: valid text, ASCII, and no white space.
abbrev pub is_audience : Bytes → Bool
is_audience value = is_valid_text value max_context_value_len && is_unbroken_ascii value

validate_ascii_text-eq-ok :
    (field value : Bytes) (maximum : ℕ) {u : Unit {0}}
    → validate_ascii_text field value maximum ≡ ok u
    → (is_valid_text value maximum ≡ true) × (is_unbroken_ascii value ≡ true)
unfolding validate_ascii_text
validate_ascii_text-eq-ok field value maximum h =
    let (_, first, second) =
      >>=-eq-ok (validate_text field value maximum)
        (λ _. if is_unbroken_ascii value then ok tt else err (invalid_text field)) h in
    (
      validate_text-eq-ok field value maximum first,
      (if_ok-eq-ok (is_unbroken_ascii value) _ second).0,
    )

validate_ascii_text_of_valid :
    (field value : Bytes) (maximum : ℕ)
    → is_valid_text value maximum ≡ true
    → is_unbroken_ascii value ≡ true
    → validate_ascii_text field value maximum ≡ ok tt
unfolding validate_ascii_text
validate_ascii_text_of_valid field value maximum h k =
    ap (λ r. r >>= λ _. if is_unbroken_ascii value then ok tt else err (invalid_text field))
      (validate_text_of_valid field value maximum h)
    ∙ ap (λ b. if b then ok tt else err (invalid_text field)) k

-- A list of tokens in canonical form, within the bound on collections.
pub record IsTokens (values : List Bytes) : Type 0 where
  pub canonical : IsCanonical values
  pub tokens : all is_token values ≡ true
  pub bounded : length values ≤ max_collection_items

not-any-all :
    (p : Bytes → Bool) (xs : List Bytes) → any (λ x. not (p x)) xs ≡ false → all p xs ≡ true
not-any-all p [] h = refl
not-any-all p (x ∷ xs) h = ground (arith, not-any-all p xs)

all-not-any :
    (p : Bytes → Bool) (xs : List Bytes) → all p xs ≡ true → any (λ x. not (p x)) xs ≡ false
all-not-any p [] h = refl
all-not-any p (x ∷ xs) h = ground (arith, all-not-any p xs)

-- The tests of `validated_tokens`, and what is returned when they pass.
pub validated_tokens-eq-ok :
    (field : Bytes) (values : List Bytes) {out : List Bytes}
    → validated_tokens field values ≡ ok out
    → (length values ≤ max_collection_items)
      × (all is_token values ≡ true)
      × (dedup (sort values) ≡ out)
unfolding validated_tokens
validated_tokens-eq-ok field values {out} h =
    let (bad, same) =
      if_err-eq-ok (ltb max_collection_items (length values) || any (λ v. not (is_token v)) values)
        (invalid_collection field) h in
    (ground arith, not-any-all is_token values (ground arith), cc)

pub validated_tokens_of_valid :
    (field : Bytes) (values : List Bytes)
    → length values ≤ max_collection_items
    → all is_token values ≡ true
    → validated_tokens field values ≡ ok (dedup (sort values))
unfolding validated_tokens
validated_tokens_of_valid field values h k = ground (arith, all-not-any is_token values)

pub validated_tokens-IsTokens :
    (field : Bytes) (values : List Bytes) {out : List Bytes}
    → validated_tokens field values ≡ ok out
    → IsTokens out
validated_tokens-IsTokens field values {out} h =
    let (short, tokens, same) = validated_tokens-eq-ok field values h in
    rw (← same) (record {
      canonical = dedup-sort-IsCanonical values;
      tokens = all-dedup-sort is_token values tokens;
      bounded = omega (arith, length-dedup-sort values);
    })

-- A canonical list is returned as it is.
pub validated_tokens_of_IsTokens :
    (field : Bytes) (values : List Bytes)
    → IsTokens values
    → validated_tokens field values ≡ ok values
validated_tokens_of_IsTokens field values h =
    validated_tokens_of_valid field values h.bounded h.tokens
    ∙ ap ok (dedup-sort_of_IsCanonical values h.canonical)

-- The deployment identity that `validated_deployment` accepts, in the form that it returns.
pub record IsDeployment (service_id : Bytes) (audiences : List Bytes) : Type 0 where
  pub service : is_token service_id ≡ true
  pub canonical : IsCanonical audiences
  pub valid : all is_audience audiences ≡ true
  pub some_audience : is_empty audiences ≡ false
  pub bounded : length audiences ≤ max_audiences

validate_audiences-eq-ok :
    (audiences : List Bytes) {u : Unit {0}}
    → validate_audiences audiences ≡ ok u
    → all is_audience audiences ≡ true
unfolding validate_audiences
validate_audiences-eq-ok [] h = refl
validate_audiences-eq-ok (a ∷ as') h =
    let (_, first, rest) =
      >>=-eq-ok (validate_ascii_text (codes "audience") a max_context_value_len)
        (λ _. validate_audiences as') h in
    let (text, ascii) =
      validate_ascii_text-eq-ok (codes "audience") a max_context_value_len first in
    &&-intro _ _ (&&-intro _ _ text ascii) (validate_audiences-eq-ok as' rest)

validate_audiences_of_valid :
    (audiences : List Bytes)
    → all is_audience audiences ≡ true
    → validate_audiences audiences ≡ ok tt
unfolding validate_audiences
validate_audiences_of_valid [] h = refl
validate_audiences_of_valid (a ∷ as') h =
    let (here, later) = &&-elim (is_audience a) (all is_audience as') h in
    let (text, ascii) = &&-elim _ (is_unbroken_ascii a) here in
    ap (λ r. r >>= λ _. validate_audiences as')
      (validate_ascii_text_of_valid (codes "audience") a max_context_value_len text ascii)
    ∙ validate_audiences_of_valid as' later

pub validated_deployment_tests :
    (service_id : Bytes) (audiences : List Bytes) {out : Bytes × List Bytes}
    → validated_deployment service_id audiences ≡ ok out
    → (is_token service_id ≡ true)
      × (is_empty audiences ≡ false)
      × (length audiences ≤ max_audiences)
      × (all is_audience audiences ≡ true)
      × (out ≡ (service_id, dedup (sort audiences)))
unfolding validated_deployment
validated_deployment_tests service_id audiences h =
    let (token, h') = if_err-eq-ok (not (is_token service_id)) _ h in
    let (count, h'') =
      if_err-eq-ok (is_empty audiences || ltb max_audiences (length audiences)) _ h' in
    let (_, valid, same) =
      >>=-eq-ok (validate_audiences audiences) (λ _. ok (service_id, dedup (sort audiences))) h'' in
    (ground arith, ground arith, ground arith, validate_audiences-eq-ok audiences valid, cc)

pub validated_deployment-IsDeployment :
    (service_id : Bytes) (audiences : List Bytes) {out : Bytes × List Bytes}
    → validated_deployment service_id audiences ≡ ok out
    → IsDeployment out.0 out.1
validated_deployment-IsDeployment service_id audiences h =
    let (token, filled, short, valid, same) = validated_deployment_tests service_id audiences h in
    rw same (record {
      service = token;
      canonical = dedup-sort-IsCanonical audiences;
      valid = all-dedup-sort is_audience audiences valid;
      some_audience = is_empty-dedup-sort audiences ∙ filled;
      bounded = omega (arith, length-dedup-sort audiences);
    })

pub validated_deployment_of_IsDeployment :
    {service_id : Bytes} {audiences : List Bytes}
    → IsDeployment service_id audiences
    → validated_deployment service_id audiences ≡ ok (service_id, audiences)
unfolding validated_deployment
validated_deployment_of_IsDeployment {service_id} {audiences} d =
    let count : (is_empty audiences || ltb max_audiences (length audiences)) ≡ false =
      ground arith in
    if_false _ _ (ap not d.service)
    ∙ if_false _ _ count
    ∙ ap (λ r. r >>= λ _. ok (service_id, dedup (sort audiences)))
        (validate_audiences_of_valid audiences d.valid)
    ∙ ap (λ xs. ok (service_id, xs)) (dedup-sort_of_IsCanonical audiences d.canonical)
