-- ===== src/Policy/Credentials.antt =====
-- `authorization_value` and `single_text_header` of crates/policy-core/src/lib.rs.
use wasi_http_middleware.Prelude.{
  ℕ, ◌≤◌, ◌*◌, List, [], ◌∷◌, ◌≡◌, ◌↔◌, refl, arith, Bytes, codes, length, ltb, Option, none, some,
  Result, ok, err, ◌>>=◌, ok_or, if◌then◌else◌,
}
use wasi_http_middleware.HttpCrate.{HttpCrate}
use wasi_http_middleware.Policy.{
  PolicyError, duplicate_authorization, invalid_authorization, invalid_header,
}

-- `MAX_AUTHORIZATION_LEN`
abbrev pub max_authorization_len : ℕ
max_authorization_len = 8 * 1024

-- `http::header::AUTHORIZATION`
abbrev pub authorization : Bytes
authorization = codes "authorization"

module _ (http : HttpCrate) where
  open http use {HeaderValue, HeaderMap, get_all, to_str}

  pub read_authorization : List HeaderValue → Result PolicyError (Option Bytes)
  read_authorization [] = ok none
  read_authorization (value ∷ []) = do
    text ← ok_or (to_str value) invalid_authorization
    if ltb max_authorization_len (length text) then err invalid_authorization else ok (some text)
  read_authorization (value ∷ _ ∷ _) = err duplicate_authorization

  unfoldable pub authorization_value : HeaderMap → Result PolicyError (Option Bytes)
  unfolding read_authorization
  authorization_value headers = read_authorization (get_all headers authorization)

  pub read_single : List HeaderValue → Result PolicyError (Option Bytes)
  read_single [] = ok none
  read_single (value ∷ []) = do text ← ok_or (to_str value) invalid_header; ok (some text)
  read_single (value ∷ _ ∷ _) = err invalid_header

  unfoldable pub single_text_header : HeaderMap → Bytes → Result PolicyError (Option Bytes)
  unfolding read_single
  single_text_header headers name = read_single (get_all headers name)

  -- No credential is reported exactly when the header is absent.
  pub authorization_value-none_iff :
      (headers : HeaderMap)
      → (authorization_value headers ≡ ok none) ↔ (get_all headers authorization ≡ [])
  unfolding authorization_value
  authorization_value-none_iff headers = go (get_all headers authorization)
    where
      go : (vs : List HeaderValue) → (read_authorization vs ≡ ok none) ↔ (vs ≡ [])
      go [] = (λ _. refl, λ _. refl)
      go (v ∷ []) = (λ h. absurd (ground arith), λ h. absurd (cc))
      go (v ∷ w ∷ vs) = (λ h. absurd (cc), λ h. absurd (cc))

  -- A credential is returned exactly when the header has one value, which is text within the bound.
  pub authorization_value-some_iff :
      (headers : HeaderMap) (text : Bytes)
      → (authorization_value headers ≡ ok (some text)) ↔ (
          (v : HeaderValue) × (get_all headers authorization ≡ v ∷ [])
          × (to_str v ≡ some text)
          × (length text ≤ max_authorization_len))
  unfolding authorization_value
  authorization_value-some_iff headers text = go (get_all headers authorization)
    where
      go :
          (vs : List HeaderValue)
          → (read_authorization vs ≡ ok (some text)) ↔ (
              (v : HeaderValue) × (vs ≡ v ∷ [])
              × (to_str v ≡ some text)
              × (length text ≤ max_authorization_len))
      go [] = (λ h. absurd (cc), λ (v, h, _, _). absurd (cc))
      go (v ∷ []) =
          (λ h. (v, refl, ground arith, ground arith), λ (w, same, held, short). ground arith)
      go (v ∷ w ∷ vs) = (λ h. absurd (cc), λ (x, h, _, _). absurd (cc))
