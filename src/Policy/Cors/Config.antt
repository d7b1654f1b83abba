-- ===== src/Policy/Cors/Config.antt =====
-- The configuration and its validation.
use wasi_http_middleware.Prelude.{
  Bool, true, false, not, ◌&&◌, ◌||◌, List, ◌++◌, map, Bytes, codes, is_empty, any, filter,
  contains, Option, none, some, ◌=b◌, Result, ok, err, ◌>>=◌, ok_or, collect, if◌then◌else◌,
}
use mathlib.Core.Option.{get_or}
use wasi_http_middleware.Text.{
  trim, split, sort, dedup, to_ascii_lowercase, is_ascii, is_ascii_control, contains_byte,
}
use wasi_http_middleware.HttpCrate.{HttpCrate}
use wasi_http_middleware.Policy.{PolicyError, invalid_configuration}

pub record CorsConfig : Type 0 where
  pub origins : List Bytes
  pub methods : List Bytes
  pub headers : List Bytes
  pub allow_credentials : Bool

abbrev pub non_empty : List Bytes → List Bytes
non_empty = filter (λ value. not (is_empty value))

unfoldable pub split_csv : Bytes → List Bytes
unfolding split trim
split_csv value = non_empty (map trim (split b',' value))

abbrev pub wildcard : Bytes
wildcard = codes "*"

unfoldable pub collect_origins : List Bytes → List Bytes
unfolding trim sort dedup
collect_origins origins = dedup (sort (non_empty (map trim origins)))

unfoldable pub check_methods : List Bytes → Result PolicyError (Unit {0})
check_methods methods =
    if is_empty methods
    then err (invalid_configuration (codes "at least one CORS method is required"))
    else ok tt

unfoldable pub read_credentials : Bytes → Result PolicyError Bool
unfolding ◌=b◌
read_credentials value =
    if value =b codes "true"
    then ok true
    else if value =b codes "false"
    then ok false
    else err (invalid_configuration (codes "CORS credentials must be true or false"))

module _ (http : HttpCrate) where
  open http use {parse_uri, scheme_str, uri_authority, header_name, method_from_bytes, method_set}

  -- The tests on a parsed origin: a scheme and an authority, no user, and nothing else.
  unfoldable pub is_bare_origin : Bytes → Option Bytes → Option Bytes → Bool
  is_bare_origin origin (some scheme) (some authority) =
      (scheme =b codes "http" || scheme =b codes "https")
      && not (contains_byte b'@' authority)
      && origin =b (scheme ++ codes "://" ++ authority)
  is_bare_origin origin _ _ = false

  unfoldable pub is_valid_cors_origin : Bytes → Bool
  unfolding is_bare_origin ◌=b◌
  is_valid_cors_origin origin =
      if origin =b wildcard || origin =b codes "null"
      then true
      else if not (is_ascii origin) || any is_ascii_control origin
      then false
      else elim (parse_uri origin) [
        | none ↦ false
        | some uri ↦ is_bare_origin origin (scheme_str uri) (uri_authority uri)
      ]

  unfoldable pub read_method : Bytes → Result PolicyError Bytes
  unfolding trim
  read_method method =
      ok_or (method_from_bytes (trim method)) (invalid_configuration (codes "invalid CORS method"))

  unfoldable pub read_header : Bytes → Result PolicyError Bytes
  unfolding trim to_ascii_lowercase
  read_header header =
      let normalized = to_ascii_lowercase (trim header) in
      elim (header_name normalized) [
        | none ↦ err (invalid_configuration (codes "invalid CORS header"))
        | some _ ↦ ok normalized
      ]

  -- The three tests on the set of origins.
  unfoldable pub check_origins : List Bytes → Bool → Result PolicyError (Unit {0})
  unfolding is_valid_cors_origin ◌=b◌
  check_origins origins allow_credentials =
      if is_empty origins
      then err (invalid_configuration (codes "at least one CORS origin is required"))
      else if allow_credentials && contains origins wildcard
      then err (invalid_configuration (codes "wildcard CORS origin cannot allow credentials"))
      else if any (λ origin. not (is_valid_cors_origin origin)) origins
      then err (invalid_configuration (codes "invalid CORS origin"))
      else ok tt

  -- `CorsConfig::new`
  unfoldable pub new_cors_config :
      List Bytes → List Bytes → List Bytes → Bool → Result PolicyError CorsConfig
  unfolding collect_origins check_origins read_method read_header check_methods collect sort dedup
  new_cors_config origins methods headers allow_credentials = do
    let origins' = collect_origins origins
    _ ← check_origins origins' allow_credentials
    methods' ← collect read_method methods
    _ ← check_methods (method_set methods')
    headers' ← collect read_header headers
    ok (record {
      origins = origins';
      methods = method_set methods';
      headers = dedup (sort headers');
      allow_credentials = allow_credentials;
    })

  -- `CorsConfig::from_values`
  unfoldable pub from_values :
      Bytes → Option Bytes → Option Bytes → Option Bytes → Result PolicyError CorsConfig
  unfolding new_cors_config read_credentials split_csv
  from_values origins methods headers allow_credentials = do
    credentials ← read_credentials (get_or allow_credentials (codes "false"))
    new_cors_config (split_csv origins) (split_csv (get_or methods (codes "GET,HEAD,POST")))
        (split_csv (get_or headers (codes "content-type,authorization"))) credentials
