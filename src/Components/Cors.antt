-- ===== src/Components/Cors.antt =====
-- `handle` of components/cors, its configuration and its merge of headers.
pub mod Keys
pub mod Laws
pub mod Steps
use wasi_http_middleware.Prelude.{
  List, [], ◌∷◌, ◌++◌, map, filter, Bytes, codes, Option, none, some, is_empty, ◌=b◌, Result, ok,
  err, ◌>>=◌, ok_or, map_err, if◌then◌else◌,
}
use wasi_http_middleware.HttpCrate.{HttpCrate}
use wasi_http_middleware.Policy.{PolicyError}
use wasi_http_middleware.Policy.Cors.Config.{CorsConfig, from_values}
use wasi_http_middleware.Policy.Cors.Evaluate.{vary, CorsDecision, evaluate}
use wasi_http_middleware.AuthnRuntime.Config.{Variable}
use wasi_http_middleware.ComponentSupport.HeaderList.{Header, remove_header}
use wasi_http_middleware.ComponentSupport.HeaderMap.{fields_of, from_header_map, to_header_map}
use wasi_http_middleware.ComponentSupport.Messages.{
  HostHttp, request_headers, response_headers, replace_response_headers, empty_response,
}
use wasi_http_middleware.Components.{Handler, retry_after, to_http_method}
use wasi_http_middleware.Components.Vary.{merge_vary_origin}

pub data ConfigError : Type 0 where
  missing_origins duplicate_environment invalid_policy : ConfigError

unfoldable pub at_most_one : List Bytes → Result ConfigError (Option Bytes)
at_most_one [] = ok none
at_most_one (value ∷ []) = ok (some value)
at_most_one (value ∷ _ ∷ _) = err duplicate_environment

unfoldable pub environment_value : List Variable → Bytes → Result ConfigError (Option Bytes)
unfolding at_most_one ◌=b◌
environment_value environment key = at_most_one (
    map (λ (variable : Variable). variable.1)
      (filter (λ (variable : Variable). variable.0 =b key) environment))

module _ (http : HttpCrate) where
  open http use {HeaderMap, keys, contains_key, get_all}

  unfoldable pub load_config : List Variable → Result ConfigError CorsConfig
  unfolding environment_value from_values
  load_config environment = do
    found ← environment_value environment (codes "WASI_MIDDLEWARE_CORS_ORIGINS")
    origins ← ok_or found missing_origins
    methods ← environment_value environment (codes "WASI_MIDDLEWARE_CORS_METHODS")
    headers ← environment_value environment (codes "WASI_MIDDLEWARE_CORS_HEADERS")
    allow_credentials ←
        environment_value environment (codes "WASI_MIDDLEWARE_CORS_ALLOW_CREDENTIALS")
    map_err (from_values http origins methods headers allow_credentials) invalid_policy

  -- The loop of `merge_cors_headers`, which leaves `vary` out.
  unfoldable pub merge_keys : List Header → HeaderMap → List Bytes → List Header
  unfolding remove_header ◌=b◌
  merge_keys target source [] = target
  merge_keys target source (name ∷ names) =
      let merged =
        if name =b vary then target else remove_header target name ++ fields_of http source name in
      merge_keys merged source names

  unfoldable pub merge_cors_headers : List Header → HeaderMap → List Header
  unfolding merge_keys merge_vary_origin
  merge_cors_headers target source =
      let merged = merge_keys target source (keys source) in
      if contains_key source vary then merge_vary_origin merged else merged

  module _ (host : HostHttp) where
    open host use {Request, Response, ErrorCode}

    pub data Admission : Type 0 where
      respond : Result ErrorCode Response → Admission
      forward : CorsDecision http → Admission

    -- The decision, when it has a status, or else the request as it is.
    unfoldable pub answer_decision : Result PolicyError (CorsDecision http) → Admission
    unfolding empty_response from_header_map
    answer_decision (err e) = respond (empty_response host 400 [])
    answer_decision (ok decision) = elim (decision.status) [
      | none ↦ forward decision
      | some status ↦
          respond (empty_response host status (from_header_map http decision.response_headers))
    ]

    -- `Err` of the two conversions is a response of its own.
    unfoldable pub admit_configured : CorsConfig → Request → Admission
    unfolding request_headers to_header_map to_http_method evaluate answer_decision empty_response
    admit_configured config request = elim (to_header_map http (request_headers host request)) [
      | err _ ↦ respond (empty_response host 400 [])
      | ok header_map ↦ elim (to_http_method http (host.request_parts request).method) [
        | err _ ↦ respond (empty_response host 400 [])
        | ok method ↦ answer_decision (evaluate http config method header_map)
      ]
    ]

    unfoldable pub admit : List Variable → Request → Admission
    unfolding admit_configured load_config empty_response
    admit environment request = elim (load_config environment) [
      | err _ ↦ respond (empty_response host 503 retry_after)
      | ok config ↦ admit_configured config request
    ]

    unfoldable pub add_cors_headers : HeaderMap → Response → Result ErrorCode Response
    unfolding merge_cors_headers response_headers replace_response_headers
    add_cors_headers source response =
        if is_empty (keys source)
        then ok response
        else replace_response_headers host response
            (merge_cors_headers (response_headers host response) source)

    -- The request itself goes on, so that only the decision is kept.
    unfoldable pub complete : Handler host → Request → Admission → Result ErrorCode Response
    unfolding add_cors_headers
    complete downstream request (respond response) = response
    complete downstream request (forward decision) = do
      response ← downstream request
      add_cors_headers decision.response_headers response

    unfoldable pub handle : List Variable → Handler host → Handler host
    unfolding admit complete
    handle environment downstream request = complete downstream request (admit environment request)
