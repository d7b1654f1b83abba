-- ===== src/Policy/Cors/Names.antt =====
-- The names that a decision of `CorsConfig::evaluate` answers with.
use wasi_http_middleware.Prelude.{
  ℕ, false, List, [], ◌∷◌, ◌≡◌, inl, inr, ◌∙◌, arith, Bytes, is_empty, contains, Option, none, some,
  ◌=b◌, ok, ok_or, >>=-eq-ok, if_ok_else-eq-ok, ok-injective, Bool-cases, collect, any, not,
}
use mathlib.Core.Option.{get_or}
use mathlib.Core.Option
use wasi_http_middleware.HttpCrate.{HttpCrate, IsHttpCrate}
use wasi_http_middleware.Policy.{invalid_header}
use wasi_http_middleware.Policy.Credentials.{single_text_header}
use wasi_http_middleware.Policy.Cors.Config.{CorsConfig, split_csv}
use wasi_http_middleware.Policy.Cors.Evaluate.{
  CorsDecision, allow_origin, vary, allow_credentials_header, allow_methods, allow_headers,
  origin_header, request_method, request_headers, evaluate, evaluate_origin, evaluate_preflight,
  evaluate_requested_headers, preflight_headers, granted_headers, pass_through, rejected_for_origin,
  header_value, allows_origin, is_preflight, read_requested_header,
}

abbrev pub cors_names : List Bytes
cors_names = allow_origin ∷ vary ∷ allow_credentials_header ∷ allow_methods ∷ allow_headers ∷ []

module _ {http : HttpCrate} (laws : IsHttpCrate http) where
  open http use {HeaderValue, HeaderMap, get_all, insert, new_map, value_from_static}

  -- The map has values under these names only.
  abbrev pub HasCorsNames : HeaderMap → Type 0
  HasCorsNames m = (k : Bytes) → contains cors_names k ≡ false → get_all m k ≡ []

  new_map-HasCorsNames : HasCorsNames new_map
  new_map-HasCorsNames k h = laws.get_all-new_map k

  insert-HasCorsNames :
      (m : HeaderMap) (n : Bytes) (v : HeaderValue)
      → ((k : Bytes) → contains cors_names k ≡ false → (n =b k) ≡ false)
      → HasCorsNames m
      → HasCorsNames (insert m n v)
  insert-HasCorsNames m n v listed held k h =
      laws.get_all-insert m n k v ∙ rw (listed k h) (held k h)

  origin_listed : (k : Bytes) → contains cors_names k ≡ false → (allow_origin =b k) ≡ false
  origin_listed k h = ground arith

  vary_listed : (k : Bytes) → contains cors_names k ≡ false → (vary =b k) ≡ false
  vary_listed k h = ground arith

  credentials_listed :
      (k : Bytes) → contains cors_names k ≡ false → (allow_credentials_header =b k) ≡ false
  credentials_listed k h = ground arith

  methods_listed : (k : Bytes) → contains cors_names k ≡ false → (allow_methods =b k) ≡ false
  methods_listed k h = ground arith

  headers_listed : (k : Bytes) → contains cors_names k ≡ false → (allow_headers =b k) ≡ false
  headers_listed k h = ground arith

  granted_headers-HasCorsNames :
      (config : CorsConfig) (v : HeaderValue) → HasCorsNames (granted_headers http config v)
  unfolding granted_headers
  granted_headers-HasCorsNames config v =
      let first = insert-HasCorsNames new_map allow_origin v origin_listed new_map-HasCorsNames in
      let both = insert-HasCorsNames (insert new_map allow_origin v) vary _ vary_listed first in
      elim (Bool-cases config.allow_credentials) [
        | inl e ↦ rw (e) (insert-HasCorsNames _ allow_credentials_header _ credentials_listed both)
        | inr e ↦ rw (e) both
      ]

  rejected-HasCorsNames :
      (status : ℕ) → HasCorsNames (rejected_for_origin http status).response_headers
  unfolding rejected_for_origin
  rejected-HasCorsNames status = insert-HasCorsNames new_map vary _ vary_listed new_map-HasCorsNames

  preflight_headers-HasCorsNames :
      (config : CorsConfig) (m out : HeaderMap)
      → HasCorsNames m
      → preflight_headers http config m ≡ ok out
      → HasCorsNames out
  unfolding preflight_headers
  preflight_headers-HasCorsNames config m out held h =
      let (methods, _, r1) = >>=-eq-ok (header_value http _) _ h in
      let first = insert-HasCorsNames m allow_methods methods methods_listed held in
      elim (if_ok_else-eq-ok (is_empty config.headers) _ r1) [
        | inl (_, e) ↦ rw e first
        | inr (_, r2) ↦
            let (headers, _, r3) = >>=-eq-ok (header_value http _) _ r2 in
            rw (← ok-injective r3)
              (insert-HasCorsNames _ allow_headers headers headers_listed first)
      ]

  requested-HasCorsNames :
      (config : CorsConfig) (headers granted : HeaderMap) (d : CorsDecision http)
      → HasCorsNames granted
      → evaluate_requested_headers http config headers granted ≡ ok d
      → HasCorsNames d.response_headers
  unfolding evaluate_requested_headers
  requested-HasCorsNames config headers granted d held h =
      let (text, _, r1) = >>=-eq-ok (single_text_header http headers request_headers) _ h in
      let (names, _, r2) =
        >>=-eq-ok (collect (read_requested_header http) (get_or (Option.map split_csv text) [])) _
          r1 in
      elim (if_ok_else-eq-ok (any (λ name. not (contains config.headers name)) names) _ r2) [
        | inl (_, e) ↦ rw e (rejected-HasCorsNames 403)
        | inr (_, r3) ↦
            let (complete, made, r4) = >>=-eq-ok (preflight_headers http config granted) _ r3 in
            rw (← ok-injective r4)
              (preflight_headers-HasCorsNames config granted complete held made)
      ]

  preflight-HasCorsNames :
      (config : CorsConfig) (headers granted : HeaderMap) (d : CorsDecision http)
      → HasCorsNames granted
      → evaluate_preflight http config headers granted ≡ ok d
      → HasCorsNames d.response_headers
  unfolding evaluate_preflight
  preflight-HasCorsNames config headers granted d held h =
      let (text, _, r1) = >>=-eq-ok (single_text_header http headers request_method) _ h in
      let (value, _, r2) = >>=-eq-ok (ok_or text invalid_header) _ r1 in
      let (method, _, r3) = >>=-eq-ok (ok_or (http.method_from_bytes value) invalid_header) _ r2 in
      elim (if_ok_else-eq-ok (not (contains config.methods method)) _ r3) [
        | inl (_, e) ↦ rw e (rejected-HasCorsNames 403)
        | inr (_, r4) ↦ requested-HasCorsNames config headers granted d held r4
      ]

  -- A decision has headers of the protocol and `vary` only, whatever was asked.
  pub evaluate-HasCorsNames :
      (config : CorsConfig) (method : Bytes) (headers : HeaderMap) (d : CorsDecision http)
      → evaluate http config method headers ≡ ok d
      → HasCorsNames d.response_headers
  unfolding evaluate evaluate_origin pass_through
  evaluate-HasCorsNames config method headers d h =
      let (origin, _, r) = >>=-eq-ok (single_text_header http headers origin_header) _ h in
      go origin r
    where
      go :
          (o : Option Bytes)
          → evaluate_origin http config method headers o ≡ ok d
          → HasCorsNames d.response_headers
      go none r = rw (← ok-injective r) new_map-HasCorsNames
      go (some origin) r = elim (if_ok_else-eq-ok (not (allows_origin http config origin)) _ r) [
        | inl (_, e) ↦ rw e (rejected-HasCorsNames 403)
        | inr (_, r1) ↦
            let (value, _, r2) = >>=-eq-ok (header_value http _) _ r1 in
            let granted = granted_headers-HasCorsNames config value in
            elim (if_ok_else-eq-ok (not (is_preflight http method headers)) _ r2) [
              | inl (_, e) ↦ rw e granted
              | inr (_, r3) ↦ preflight-HasCorsNames config headers _ d granted r3
            ]
      ]
