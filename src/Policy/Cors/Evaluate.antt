-- ===== src/Policy/Cors/Evaluate.antt =====
-- `CorsConfig::evaluate` and its decision.
use wasi_http_middleware.Prelude.{
  ℕ, Bool, not, ◌&&◌, ◌||◌, [], Bytes, codes, is_empty, any, contains, Option, none, some, ◌=b◌,
  Result, ok, ◌>>=◌, ok_or, collect, if◌then◌else◌,
}
use mathlib.Core.Option.{get_or}
use mathlib.Core.Option
use wasi_http_middleware.Text.{join}
use wasi_http_middleware.HttpCrate.{HttpCrate}
use wasi_http_middleware.Policy.{PolicyError, invalid_header}
use wasi_http_middleware.Policy.Credentials.{single_text_header}
use wasi_http_middleware.Policy.Cors.Config.{CorsConfig, split_csv, wildcard}

abbrev pub origin_header : Bytes
origin_header = codes "origin"

abbrev pub allow_origin : Bytes
allow_origin = codes "access-control-allow-origin"

abbrev pub vary : Bytes
vary = codes "vary"

abbrev pub allow_credentials_header : Bytes
allow_credentials_header = codes "access-control-allow-credentials"

abbrev pub allow_methods : Bytes
allow_methods = codes "access-control-allow-methods"

abbrev pub allow_headers : Bytes
allow_headers = codes "access-control-allow-headers"

abbrev pub request_method : Bytes
request_method = codes "access-control-request-method"

abbrev pub request_headers : Bytes
request_headers = codes "access-control-request-headers"

module _ (http : HttpCrate) where
  open http use {
    HeaderValue, HeaderMap, new_map, insert, contains_key, value_from_str, value_from_static,
    header_name, method_from_bytes,
  }

  -- `CorsDecision`
  pub record CorsDecision : Type 0 where
    pub response_headers : HeaderMap
    pub status : Option ℕ

  unfoldable pub pass_through : CorsDecision
  pass_through = record { response_headers = new_map; status = none }

  unfoldable pub rejected_for_origin : ℕ → CorsDecision
  rejected_for_origin status = record {
    response_headers = insert new_map vary (value_from_static (codes "Origin"));
    status = some status;
  }

  abbrev pub allows_origin : CorsConfig → Bytes → Bool
  allows_origin config origin = contains config.origins wildcard || contains config.origins origin

  -- The headers of a response to an allowed origin.
  unfoldable pub granted_headers : CorsConfig → HeaderValue → HeaderMap
  granted_headers config value =
      let granted =
        insert (insert new_map allow_origin value) vary (value_from_static (codes "Origin")) in
      if config.allow_credentials
      then insert granted allow_credentials_header (value_from_static (codes "true"))
      else granted

  -- `HeaderValue::from_str(...).map_err(|_| PolicyError::InvalidHeader)`
  abbrev pub header_value : Bytes → Result PolicyError HeaderValue
  header_value text = ok_or (value_from_str text) invalid_header

  unfoldable pub read_requested_header : Bytes → Result PolicyError Bytes
  read_requested_header header = ok_or (header_name header) invalid_header

  -- The headers that a successful preflight adds.
  unfoldable pub preflight_headers : CorsConfig → HeaderMap → Result PolicyError HeaderMap
  unfolding join
  preflight_headers config granted = do
    methods ← header_value (join (codes ", ") config.methods)
    let with_methods = insert granted allow_methods methods
    if is_empty config.headers then ok with_methods else (do
      headers ← header_value (join (codes ", ") config.headers)
      ok (insert with_methods allow_headers headers))

  -- The part behind the requested method's test.
  unfoldable pub evaluate_requested_headers :
      CorsConfig → HeaderMap → HeaderMap → Result PolicyError CorsDecision
  unfolding single_text_header split_csv collect read_requested_header preflight_headers
      rejected_for_origin
  evaluate_requested_headers config headers granted = do
    text ← single_text_header http headers request_headers
    names ← collect read_requested_header (get_or (Option.map split_csv text) [])
    if any (λ name. not (contains config.headers name)) names
        then ok (rejected_for_origin 403)
        else (do
          complete ← preflight_headers config granted
          ok (record { response_headers = complete; status = some 204 }))

  unfoldable pub evaluate_preflight :
      CorsConfig → HeaderMap → HeaderMap → Result PolicyError CorsDecision
  unfolding single_text_header evaluate_requested_headers rejected_for_origin
  evaluate_preflight config headers granted = do
    text ← single_text_header http headers request_method
    value ← ok_or text invalid_header
    method ← ok_or (method_from_bytes value) invalid_header
    if not (contains config.methods method)
        then ok (rejected_for_origin 403)
        else evaluate_requested_headers config headers granted

  abbrev pub is_preflight : Bytes → HeaderMap → Bool
  is_preflight method headers = method =b codes "OPTIONS" && contains_key headers request_method

  -- The part behind the look-up of the origin.
  unfoldable pub evaluate_origin :
      CorsConfig → Bytes → HeaderMap → Option Bytes → Result PolicyError CorsDecision
  unfolding granted_headers evaluate_preflight pass_through rejected_for_origin ◌=b◌
  evaluate_origin config method headers none = ok pass_through
  evaluate_origin config method headers (some origin) =
      if not (allows_origin config origin) then ok (rejected_for_origin 403) else (do
        value ← header_value (if contains config.origins wildcard then wildcard else origin)
        let granted = granted_headers config value
        if not (is_preflight method headers)
            then ok (record { response_headers = granted; status = none })
            else evaluate_preflight config headers granted)

  unfoldable pub evaluate : CorsConfig → Bytes → HeaderMap → Result PolicyError CorsDecision
  unfolding single_text_header evaluate_origin
  evaluate config method headers = do
    origin ← single_text_header http headers origin_header
    evaluate_origin config method headers origin
