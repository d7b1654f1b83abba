-- ===== src/Policy/RequestId.antt =====
-- `RequestIdPolicy` of crates/policy-core/src/lib.rs.
use wasi_http_middleware.Prelude.{
  ℕ, Bool, true, not, ◌&&◌, List, [], ◌∷◌, ◌≡◌, ◌⊎◌, inl, inr, refl, ap, ◌∙◌, arith, Bytes, length,
  leb, is_empty, all, Option, none, some, Result, ok, err, if◌then◌else◌, if_true, if_ok-eq-ok,
}
use wasi_http_middleware.Text.{is_token_byte}
use wasi_http_middleware.HttpCrate.{HttpCrate}
use wasi_http_middleware.Metadata.{request_id_header}
use wasi_http_middleware.Policy.{PolicyError, invalid_generated_request_id}

-- `MAX_REQUEST_ID_LEN`
abbrev pub max_request_id_len : ℕ
max_request_id_len = 128

unfoldable pub is_valid_request_id : Bytes → Bool
is_valid_request_id value =
    not (is_empty value) && leb (length value) max_request_id_len && all is_token_byte value

-- The accepted identifier, or else one from the generator, which works on a state of its own.
pub identifier_or {ℓ} :
    {S : Type ℓ} → Option Bytes → (S → Bytes × S) → S → Result PolicyError Bytes × S
unfolding is_valid_request_id
identifier_or (some value) generate s = (ok value, s)
identifier_or none generate s =
    let (generated, s') = generate s in
    (if is_valid_request_id generated then ok generated else err invalid_generated_request_id, s')

module _ (http : HttpCrate) where
  open http use {HeaderValue, HeaderMap, get_all, to_str}

  -- The incoming identifier, if there is just one value and it is valid.
  pub accepted_request_id : List HeaderValue → Option Bytes
  unfolding is_valid_request_id
  accepted_request_id (value ∷ []) = elim (to_str value) [
    | none ↦ none
    | some text ↦ if is_valid_request_id text then some text else none
  ]
  accepted_request_id _ = none

  unfoldable pub canonicalize {ℓ} :
      {S : Type ℓ} → HeaderMap → (S → Bytes × S) → S → Result PolicyError Bytes × S
  unfolding accepted_request_id identifier_or
  canonicalize headers generate s =
      identifier_or (accepted_request_id (get_all headers request_id_header)) generate s

  -- Where an identifier may come from.
  abbrev pub IsAccepted : HeaderMap → Bytes → Type 0
  IsAccepted headers value =
      (v : HeaderValue) × (get_all headers request_id_header ≡ v ∷ []) × (to_str v ≡ some value)

  accepted_request_id-eq-some :
      (vs : List HeaderValue) {text : Bytes}
      → accepted_request_id vs ≡ some text
      → (is_valid_request_id text ≡ true)
        × ((v : HeaderValue) × (vs ≡ v ∷ []) × (to_str v ≡ some text))
  unfolding accepted_request_id
  accepted_request_id-eq-some [] h = cc
  accepted_request_id-eq-some (v ∷ []) h = (ground arith, (v, refl, ground arith))
  accepted_request_id-eq-some (v ∷ w ∷ vs) h = cc

  accepted_request_id_of_valid :
      (v : HeaderValue) (text : Bytes)
      → to_str v ≡ some text
      → is_valid_request_id text ≡ true
      → accepted_request_id (v ∷ []) ≡ some text
  unfolding accepted_request_id
  accepted_request_id_of_valid v text h k = ground arith

  identifier_or-IsValid {ℓ} :
      {S : Type ℓ} (headers : HeaderMap) (o : Option Bytes) (generate : S → Bytes × S) (s s' : S)
      (value : Bytes)
      → accepted_request_id (get_all headers request_id_header) ≡ o
      → identifier_or o generate s ≡ (ok value, s')
      → (is_valid_request_id value ≡ true)
        × ((IsAccepted headers value × (s' ≡ s)) ⊎ (generate s ≡ (value, s')))
  unfolding identifier_or
  identifier_or-IsValid headers (some text) generate s s' value o h =
      let (valid, held) = accepted_request_id-eq-some (get_all headers request_id_header) o in
      let same : text ≡ value = cc in (rw same at valid, inl (rw same at held, cc))
  identifier_or-IsValid headers none generate s s' value o h =
      let (valid, same) =
        if_ok-eq-ok (is_valid_request_id (generate s).0) invalid_generated_request_id
          (ap (λ p. p.0) h) in
      (rw same at valid, inr (λ i. (same i, (h i).1)))

  -- Whatever identifier is returned is valid. It is the one text of the header, with no identifier
  -- generated, or the one that was generated.
  pub canonicalize-IsValid {ℓ} :
      {S : Type ℓ} (headers : HeaderMap) (generate : S → Bytes × S) (s s' : S) (value : Bytes)
      → canonicalize headers generate s ≡ (ok value, s')
      → (is_valid_request_id value ≡ true)
        × ((IsAccepted headers value × (s' ≡ s)) ⊎ (generate s ≡ (value, s')))
  unfolding canonicalize
  canonicalize-IsValid headers generate s s' value h =
      identifier_or-IsValid headers _ generate s s' value refl h

  -- A single valid value is kept, and nothing is generated.
  pub canonicalize_of_accepted {ℓ} :
      {S : Type ℓ} (headers : HeaderMap) (generate : S → Bytes × S) (s : S) (value : Bytes)
      → IsAccepted headers value
      → is_valid_request_id value ≡ true
      → canonicalize headers generate s ≡ (ok value, s)
  unfolding canonicalize
  canonicalize_of_accepted headers generate s value (v, held, text) valid =
      ap (λ vs. identifier_or (accepted_request_id vs) generate s) held
      ∙ ap (λ o. identifier_or o generate s) (accepted_request_id_of_valid v value text valid)

  -- With a generator of valid identifiers there is always an identifier.
  pub canonicalize_total {ℓ} :
      {S : Type ℓ} (headers : HeaderMap) (generate : S → Bytes × S) (s : S)
      → is_valid_request_id (generate s).0 ≡ true
      → (value : Bytes) × ((canonicalize headers generate s).0 ≡ ok value)
  unfolding canonicalize
  canonicalize_total headers generate s h =
      go (accepted_request_id (get_all headers request_id_header))
    where
      go : (o : Option Bytes) → (value : Bytes) × ((identifier_or o generate s).0 ≡ ok value)
      go (some text) = (text, refl)
      go none = ((generate s).0, if_true _ _ h)
