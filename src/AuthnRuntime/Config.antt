-- ===== src/AuthnRuntime/Config.antt =====
-- `AuthnConfig::from_environment` and its helpers in crates/authn-runtime/src/lib.rs. `usize` has 32 bits in
-- a WebAssembly component.
pub mod Valid
use wasi_http_middleware.Prelude.{
  ℕ, ◌+◌, ◌-◌, ◌*◌, ◌^◌, ◌≤◌, ◌<◌, Bool, true, false, not, ◌&&◌, ◌||◌, List, [], ◌∷◌, map, filter,
  ◌≡◌, refl, sym, ap, ◌∙◌, arith, Bytes, codes, length, is_empty, all, ltb, leb, within, Option,
  none, some, ◌=b◌, ◌==◌, Result, ok, err, ◌>>=◌, >>=-eq-ok, ok-injective, if_err-eq-ok, ok_or,
  ok_or-eq-ok, map_err, if◌then◌else◌,
}
use mathlib.Core.Path.{subst}
use mathlib.Core.Option.{get_or}
use wasi_http_middleware.Text.{trim, split}
use wasi_http_middleware.HttpCrate.{HttpCrate, IsHttpCrate}
use wasi_http_middleware.Metadata.{MetadataError}
use wasi_http_middleware.Metadata.Field.{IsDeployment}
use wasi_http_middleware.Metadata.Context.{AuthContextV1, anonymous, anonymous_context}
use wasi_http_middleware.Metadata.Context.Valid.{
  IsValidContext, anonymous_of, anonymous_context-IsValidContext,
}
use wasi_http_middleware.Metadata.Codec.{
  Encodings, IsEncodings, encode_auth_context, decode_auth_context,
}
use wasi_http_middleware.Metadata.Codec.Laws.{decode-encode_auth_context}
use wasi_http_middleware.AuthnRuntime.{
  AuthnConfigError, missing_broker_url, invalid_timeout, invalid_mode, missing_service_id,
  missing_audiences, invalid_deployment_identity, invalid_max_in_flight, invalid_boolean,
  duplicate_environment, AuthnMode, required, optional, default_timeout_ms, max_timeout_ms,
  default_max_in_flight, max_max_in_flight,
}
use wasi_http_middleware.AuthnRuntime.Url.{Scheme, BrokerUrl, parse_broker_url}

abbrev pub Variable : Type 0
Variable = Bytes × Bytes

-- The loop of `str::parse` at an unsigned type: decimal digits, with no value above the maximum.
pub parse_digits : ℕ → ℕ → Bytes → Option ℕ
parse_digits maximum value [] = some value
parse_digits maximum value (c ∷ text) =
    let next = 10 * value + (c - b'0') in
    let rest = parse_digits maximum next text in
    if not (within b'0' b'9' c) || ltb maximum next then none else rest

-- `str::parse`, which allows one sign `+` before the digits
pub parse_unsigned : ℕ → Bytes → Option ℕ
unfolding parse_digits
parse_unsigned maximum [] = none
parse_unsigned maximum (c ∷ []) = parse_digits maximum 0 (c ∷ [])
parse_unsigned maximum (c ∷ d ∷ text) =
    if c == b'+' then parse_digits maximum 0 (d ∷ text) else parse_digits maximum 0 (c ∷ d ∷ text)

unfoldable pub parse_bool : Option Bytes → Bool → Result AuthnConfigError Bool
unfolding ◌=b◌
parse_bool none default = ok default
parse_bool (some value) default =
    if value =b codes "true"
    then ok true
    else if value =b codes "false"
    then ok false
    else err invalid_boolean

pub at_most_one : List Bytes → Result AuthnConfigError (Option Bytes)
at_most_one [] = ok none
at_most_one (value ∷ []) = ok (some value)
at_most_one (value ∷ _ ∷ _) = err duplicate_environment

unfoldable pub environment_value : List Variable → Bytes → Result AuthnConfigError (Option Bytes)
unfolding at_most_one ◌=b◌
environment_value environment key = at_most_one (
    map (λ (variable : Variable). variable.1)
      (filter (λ (variable : Variable). variable.0 =b key) environment))

-- `map(str::parse).transpose().map_err(...)?.unwrap_or(default)`
pub parsed_or : ℕ → ℕ → AuthnConfigError → Option Bytes → Result AuthnConfigError ℕ
unfolding parse_unsigned
parsed_or maximum default error none = ok default
parsed_or maximum default error (some text) = ok_or (parse_unsigned maximum text) error

pub in_range : ℕ → ℕ → AuthnConfigError → Result AuthnConfigError (Unit {0})
in_range value maximum error = if value == 0 || ltb maximum value then err error else ok tt

pub read_mode : Bytes → Result AuthnConfigError AuthnMode
unfolding ◌=b◌
read_mode value =
    if value =b codes "required"
    then ok required
    else if value =b codes "optional"
    then ok optional
    else err invalid_mode

-- `u64::saturating_mul`
abbrev pub saturating_mul : ℕ → ℕ → ℕ
saturating_mul a b = if ltb (2 ^ 64 - 1) (a * b) then 2 ^ 64 - 1 else a * b

module _ (http : HttpCrate) (codecs : Encodings) (ip_is_loopback : Bytes → Option Bool) where
  open http use {HeaderValue}

  pub record AuthnConfig : Type 0 where
    pub url : BrokerUrl http ip_is_loopback
    pub timeout_ns : ℕ
    pub mode : AuthnMode
    pub service_id : Bytes
    pub audiences : List Bytes
    pub anonymous_header : HeaderValue
    pub max_in_flight : ℕ

  -- The five stages of `from_environment`, in its order.
  pub read_url : List Variable → Result AuthnConfigError (BrokerUrl http ip_is_loopback)
  unfolding environment_value parse_bool parse_broker_url
  read_url environment = do
    loopback ← environment_value environment (codes "WASI_MIDDLEWARE_AUTHN_ALLOW_INSECURE_LOOPBACK")
    allow_insecure_loopback ← parse_bool loopback false
    found ← environment_value environment (codes "WASI_MIDDLEWARE_AUTHN_BROKER_URL")
    broker_url ← ok_or found missing_broker_url
    parse_broker_url http ip_is_loopback broker_url allow_insecure_loopback

  pub read_timeout_ms : List Variable → Result AuthnConfigError ℕ
  unfolding environment_value parsed_or in_range
  read_timeout_ms environment = do
    found ← environment_value environment (codes "WASI_MIDDLEWARE_AUTHN_TIMEOUT_MS")
    timeout_ms ← parsed_or (2 ^ 64 - 1) default_timeout_ms invalid_timeout found
    _ ← in_range timeout_ms max_timeout_ms invalid_timeout
    ok timeout_ms

  pub read_authn_mode : List Variable → Result AuthnConfigError AuthnMode
  unfolding environment_value read_mode
  read_authn_mode environment = do
    found ← environment_value environment (codes "WASI_MIDDLEWARE_AUTHN_MODE")
    read_mode (get_or found (codes "required"))

  pub read_max_in_flight : List Variable → Result AuthnConfigError ℕ
  unfolding environment_value parsed_or in_range
  read_max_in_flight environment = do
    found ← environment_value environment (codes "WASI_MIDDLEWARE_AUTHN_MAX_IN_FLIGHT")
    max_in_flight ← parsed_or (2 ^ 32 - 1) default_max_in_flight invalid_max_in_flight found
    _ ← in_range max_in_flight max_max_in_flight invalid_max_in_flight
    ok max_in_flight

  pub read_deployment : List Variable → Result AuthnConfigError (AuthContextV1 × HeaderValue)
  unfolding environment_value anonymous_context encode_auth_context split trim
  read_deployment environment = do
    found_service ← environment_value environment (codes "WASI_MIDDLEWARE_SERVICE_ID")
    service_id ← ok_or found_service missing_service_id
    found_audiences ← environment_value environment (codes "WASI_MIDDLEWARE_AUTHN_AUDIENCES")
    audience_value ← ok_or found_audiences missing_audiences
    deployment ←
        map_err (anonymous_context service_id (map trim (split b',' audience_value)))
          invalid_deployment_identity
    anonymous_header ←
        map_err (encode_auth_context http codecs deployment) invalid_deployment_identity
    ok (deployment, anonymous_header)

  unfoldable pub from_environment : List Variable → Result AuthnConfigError AuthnConfig
  unfolding read_url read_timeout_ms read_authn_mode read_max_in_flight read_deployment
  from_environment environment = do
    url ← read_url environment
    timeout_ms ← read_timeout_ms environment
    mode ← read_authn_mode environment
    max_in_flight ← read_max_in_flight environment
    deployment ← read_deployment environment
    ok (record {
      url = url;
      timeout_ns = saturating_mul timeout_ms 1000000;
      mode = mode;
      service_id = deployment.0.service_id;
      audiences = deployment.0.audiences;
      anonymous_header = deployment.1;
      max_in_flight = max_in_flight;
    })
