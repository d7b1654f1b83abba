-- ===== src/Policy/Cors/Safety.antt =====
-- What a decision grants: the headers of `CorsDecision`.
use wasi_http_middleware.Prelude.{
  true, false, [], ◌∷◌, map, ◌≡◌, ◌⊎◌, inl, inr, refl, sym, ap, ◌∙◌, arith, Bytes, codes, is_empty,
  contains, some, ◌=b◌, ok, >>=-eq-ok, ok-injective, if_ok_else-eq-ok, Bool-cases,
}
use wasi_http_middleware.HttpCrate.{HttpCrate, IsHttpCrate}
use wasi_http_middleware.Policy.Credentials.{single_text_header}
use wasi_http_middleware.Policy.Cors.Config.{CorsConfig, wildcard}
use wasi_http_middleware.Policy.Cors.Evaluate.{
  CorsDecision, allow_origin, allow_methods, allow_headers, allow_credentials_header, vary,
  evaluate, granted_headers, origin_header, pass_through, preflight_headers, rejected_for_origin,
  header_value, allows_origin,
}
use wasi_http_middleware.Policy.Cors.Outcome.{
  Outcome, absent, refused, granted, IsGranted, answered_origin, evaluate-Outcome,
}
use wasi_http_middleware.Policy.Cors.Valid.{IsValidConfig}

module _ {http : HttpCrate} (laws : IsHttpCrate http) where
  open http use {
    HeaderValue, HeaderMap, get_all, insert, new_map, as_bytes, value_from_str, value_from_static,
  }

  -- A lookup behind an insertion under another name.
  insert_other :
      (m : HeaderMap) (n k : Bytes) (v : HeaderValue)
      → (n =b k) ≡ false
      → get_all (insert m n v) k ≡ get_all m k
  insert_other m n k v h = laws.get_all-insert m n k v ∙ rw (h) refl

  insert_same :
      (m : HeaderMap) (n : Bytes) (v : HeaderValue)
      → (n =b n) ≡ true
      → get_all (insert m n v) n ≡ v ∷ []
  insert_same m n v h = laws.get_all-insert m n n v ∙ rw (h) refl

  get_all-preflight_headers :
      (config : CorsConfig) (m out : HeaderMap) (k : Bytes)
      → preflight_headers http config m ≡ ok out
      → (allow_methods =b k) ≡ false
      → (allow_headers =b k) ≡ false
      → get_all out k ≡ get_all m k
  unfolding preflight_headers
  get_all-preflight_headers config m out k h other1 other2 =
      let (methods, _, r1) = >>=-eq-ok (header_value http _) _ h in
      elim (if_ok_else-eq-ok (is_empty config.headers) _ r1) [
        | inl (_, e) ↦ ap (λ x. get_all x k) e ∙ insert_other m allow_methods k methods other1
        | inr (_, r2) ↦
            let (headers, _, r3) = >>=-eq-ok (header_value http _) _ r2 in
            ap (λ x. get_all x k) (sym (ok-injective r3))
            ∙ insert_other (insert m allow_methods methods) allow_headers k headers other2
            ∙ insert_other m allow_methods k methods other1
      ]

  get_all-granted_headers_origin :
      (config : CorsConfig) (value : HeaderValue)
      → get_all (granted_headers http config value) allow_origin ≡ value ∷ []
  unfolding granted_headers ◌=b◌
  get_all-granted_headers_origin config value =
      let first = insert new_map allow_origin value in
      let both = insert first vary (value_from_static (codes "Origin")) in
      let answered =
        insert_other first vary allow_origin (value_from_static (codes "Origin")) refl
        ∙ insert_same new_map allow_origin value refl in
      elim (Bool-cases config.allow_credentials) [
        | inl e ↦ rw (e) (
            insert_other both allow_credentials_header allow_origin
              (value_from_static (codes "true")) refl
            ∙ answered)
        | inr e ↦ rw (e) answered
      ]

  get_all-granted_headers_credentials :
      (config : CorsConfig) (value : HeaderValue)
      → config.allow_credentials ≡ false
      → get_all (granted_headers http config value) allow_credentials_header ≡ []
  unfolding granted_headers ◌=b◌
  get_all-granted_headers_credentials config value e =
      let first = insert new_map allow_origin value in
      rw (e) (
        insert_other first vary allow_credentials_header (value_from_static (codes "Origin")) refl
        ∙ insert_other new_map allow_origin allow_credentials_header value refl
        ∙ laws.get_all-new_map allow_credentials_header)

  -- A decision without a grant names neither an origin nor credentials.
  get_all-rejected :
      (k : Bytes)
      → (vary =b k) ≡ false
      → get_all ((rejected_for_origin http 403).response_headers) k ≡ []
  unfolding rejected_for_origin
  get_all-rejected k other =
      insert_other new_map vary k (value_from_static (codes "Origin")) other
      ∙ laws.get_all-new_map k

  get_all-pass_through : (k : Bytes) → get_all ((pass_through http).response_headers) k ≡ []
  unfolding pass_through
  get_all-pass_through k = laws.get_all-new_map k

  of_equal :
      {d e : CorsDecision http} {k : Bytes}
      → d ≡ e
      → get_all e.response_headers k ≡ []
      → get_all d.response_headers k ≡ []
  of_equal {k = k} same h = ap (λ x. get_all x.response_headers k) same ∙ h

  module _ {config : CorsConfig} {method : Bytes} {headers : HeaderMap}
      {d : CorsDecision http} where
    -- The headers of a granted decision agree with `granted_headers` on the two that grant.
    IsGranted-get_all :
        (g : IsGranted http config method headers d) (k : Bytes)
        → (allow_methods =b k) ≡ false
        → (allow_headers =b k) ≡ false
        → get_all d.response_headers k ≡ get_all (granted_headers http config g.value) k
    IsGranted-get_all g k other1 other2 = elim g.answer [
      | inl (_, e) ↦ ap (λ x. get_all x.response_headers k) e
      | inr (_, p) ↦
          get_all-preflight_headers config (granted_headers http config g.value) d.response_headers
            k p.complete other1 other2
    ]

    IsGranted-origin :
        (g : IsGranted http config method headers d)
        → map as_bytes (get_all d.response_headers allow_origin)
          ≡ answered_origin config g.origin ∷ []
    unfolding ◌=b◌
    IsGranted-origin g =
        ap (map as_bytes) (
          IsGranted-get_all g allow_origin refl refl
          ∙ get_all-granted_headers_origin config g.value)
        ∙ ap (λ b. b ∷ [])
            (laws.from_str-as_bytes (answered_origin config g.origin) g.value g.has_value)

    Outcome-origin :
        Outcome http config method headers d
        → (map as_bytes (get_all d.response_headers allow_origin) ≡ [])
          ⊎ ((origin : Bytes) × (single_text_header http headers origin_header ≡ ok (some origin))
              × (allows_origin http config origin ≡ true)
              × (map as_bytes (get_all d.response_headers allow_origin)
                  ≡ answered_origin config origin ∷ []))
    unfolding ◌=b◌
    Outcome-origin (absent _ e) =
        inl (ap (map as_bytes) (of_equal e (get_all-pass_through allow_origin)))
    Outcome-origin (refused _ e) =
        inl (ap (map as_bytes) (of_equal e (get_all-rejected allow_origin refl)))
    Outcome-origin (granted g) = inr (g.origin, g.has_origin, g.allows, IsGranted-origin g)

    Outcome-credentials :
        IsValidConfig http config
        → Outcome http config method headers d
        → is_empty (get_all d.response_headers allow_credentials_header) ≡ false
        → (origin : Bytes) × (single_text_header http headers origin_header ≡ ok (some origin))
          × (contains config.origins origin ≡ true)
          × (contains config.origins wildcard ≡ false)
          × (map as_bytes (get_all d.response_headers allow_origin) ≡ origin ∷ [])
    unfolding ◌=b◌
    Outcome-credentials valid (absent _ e) h =
        absurd (cc (h, of_equal e (get_all-pass_through allow_credentials_header)))
    Outcome-credentials valid (refused _ e) h =
        absurd (cc (h, of_equal e (get_all-rejected allow_credentials_header refl)))
    Outcome-credentials valid (granted g) h = elim (Bool-cases config.allow_credentials) [
      | inr e ↦ absurd (
          cc (
            h,
            IsGranted-get_all g allow_credentials_header refl refl
                ∙ get_all-granted_headers_credentials config g.value e,
          ))
      | inl e ↦
          let plain : contains config.origins wildcard ≡ false = ground (arith, valid.explicit) in
          (
            g.origin,
            g.has_origin,
            ground (arith, g.allows),
            plain,
            IsGranted-origin g ∙ rw (plain) refl,
          )
    ]

  -- A decision either names no allowed origin, or the request names exactly one origin, which the
  -- configuration allows, and the one allowed origin in the answer is `*` under a wildcard
  -- configuration and that origin otherwise.
  pub evaluate-allow_origin :
      (config : CorsConfig) (method : Bytes) (headers : HeaderMap) (d : CorsDecision http)
      → evaluate http config method headers ≡ ok d
      → (map as_bytes (get_all d.response_headers allow_origin) ≡ [])
        ⊎ ((origin : Bytes) × (single_text_header http headers origin_header ≡ ok (some origin))
            × (allows_origin http config origin ≡ true)
            × (map as_bytes (get_all d.response_headers allow_origin)
                ≡ answered_origin config origin ∷ []))
  evaluate-allow_origin config method headers d h =
      Outcome-origin (evaluate-Outcome laws config method headers d h)

  -- Under a valid configuration, a decision that allows credentials answers an origin that is listed by
  -- its own name, and names exactly that origin: never the wildcard.
  pub evaluate-allow_credentials :
      (config : CorsConfig) (method : Bytes) (headers : HeaderMap) (d : CorsDecision http)
      → IsValidConfig http config
      → evaluate http config method headers ≡ ok d
      → is_empty (get_all d.response_headers allow_credentials_header) ≡ false
      → (origin : Bytes) × (single_text_header http headers origin_header ≡ ok (some origin))
        × (contains config.origins origin ≡ true)
        × (contains config.origins wildcard ≡ false)
        × (map as_bytes (get_all d.response_headers allow_origin) ≡ origin ∷ [])
  evaluate-allow_credentials config method headers d valid h =
      Outcome-credentials valid (evaluate-Outcome laws config method headers d h)
