-- ===== src/AuthnRuntime/Config/Valid.antt =====
-- What a configuration that is read from an environment satisfies.
use wasi_http_middleware.Prelude.{
  ℕ, ◌*◌, ◌≤◌, ◌<◌, Bool, List, map, ◌≡◌, refl, arith, Bytes, Option, ok, >>=-eq-ok, ok-injective,
  ok_or, map_err, map_err-eq-ok,
}
use mathlib.Core.Path.{subst}
use wasi_http_middleware.Text.{trim, split}
use wasi_http_middleware.HttpCrate.{HttpCrate, IsHttpCrate}
use wasi_http_middleware.Metadata.Context.{AuthContextV1, anonymous, anonymous_context}
use wasi_http_middleware.Metadata.Context.Valid.{IsValidContext, anonymous_context-IsValidContext}
use wasi_http_middleware.Metadata.Codec.{
  Encodings, IsEncodings, encode_auth_context, decode_auth_context,
}
use wasi_http_middleware.Metadata.Codec.Laws.{decode-encode_auth_context}
use wasi_http_middleware.AuthnRuntime.{
  AuthnConfigError, invalid_timeout, missing_service_id, missing_audiences,
  invalid_deployment_identity, invalid_max_in_flight, default_timeout_ms, max_timeout_ms,
  default_max_in_flight, max_max_in_flight,
}
use wasi_http_middleware.AuthnRuntime.Config.{
  Variable, environment_value, parsed_or, in_range, saturating_mul, AuthnConfig, read_url,
  read_timeout_ms, read_authn_mode, read_max_in_flight, read_deployment, from_environment,
}

module _ (http : HttpCrate) (codecs : Encodings) (ip_is_loopback : Bytes → Option Bool) where
  -- What an accepted configuration satisfies.
  pub record IsValidAuthnConfig (config : AuthnConfig http codecs ip_is_loopback) : Type 0 where
    pub deadline_positive : 0 < config.timeout_ns
    pub deadline_bounded : config.timeout_ns ≤ max_timeout_ms * 1000000
    pub slots_positive : 0 < config.max_in_flight
    pub slots_bounded : config.max_in_flight ≤ max_max_in_flight
    pub context : AuthContextV1
    pub context_valid : IsValidContext context
    pub context_anonymous : context.state ≡ anonymous
    pub context_service : context.service_id ≡ config.service_id
    pub context_audiences : context.audiences ≡ config.audiences
    pub context_decodes : decode_auth_context http codecs config.anonymous_header ≡ ok context

in_range-eq-ok :
    (value maximum : ℕ) (error : AuthnConfigError) {u : Unit {0}}
    → in_range value maximum error ≡ ok u
    → (0 < value) × (value ≤ maximum)
unfolding in_range
in_range-eq-ok value maximum error h = (ground arith, ground arith)

nanoseconds :
    (ms : ℕ)
    → 0 < ms
    → ms ≤ max_timeout_ms
    → (0 < saturating_mul ms 1000000) × (saturating_mul ms 1000000 ≤ max_timeout_ms * 1000000)
nanoseconds ms low high = (ground arith, ground arith)

module _ {http : HttpCrate} (laws : IsHttpCrate http) {codecs : Encodings}
    (codec_laws : IsEncodings codecs) (ip_is_loopback : Bytes → Option Bool)
    (environment : List Variable) where
  read_timeout_ms-in_range :
      (ms : ℕ)
      → read_timeout_ms http codecs ip_is_loopback environment ≡ ok ms
      → (0 < ms) × (ms ≤ max_timeout_ms)
  unfolding read_timeout_ms
  read_timeout_ms-in_range ms h =
      let (found, _, h1) = >>=-eq-ok (environment_value environment _) _ h in
      let (value, _, h2) = >>=-eq-ok (parsed_or _ default_timeout_ms invalid_timeout found) _ h1 in
      let (_, timed, h3) = >>=-eq-ok (in_range value max_timeout_ms invalid_timeout) _ h2 in
      rw (← ok-injective h3) (in_range-eq-ok value max_timeout_ms invalid_timeout timed)

  read_max_in_flight-in_range :
      (slots : ℕ)
      → read_max_in_flight http codecs ip_is_loopback environment ≡ ok slots
      → (0 < slots) × (slots ≤ max_max_in_flight)
  unfolding read_max_in_flight
  read_max_in_flight-in_range slots h =
      let (found, _, h1) = >>=-eq-ok (environment_value environment _) _ h in
      let (value, _, h2) =
        >>=-eq-ok (parsed_or _ default_max_in_flight invalid_max_in_flight found) _ h1 in
      let (_, bound, h3) =
        >>=-eq-ok (in_range value max_max_in_flight invalid_max_in_flight) _ h2 in
      rw (← ok-injective h3) (in_range-eq-ok value max_max_in_flight invalid_max_in_flight bound)

  read_deployment-decodes :
      (out : AuthContextV1 × http.HeaderValue)
      → read_deployment http codecs ip_is_loopback environment ≡ ok out
      → IsValidContext out.0
        × (out.0.state ≡ anonymous)
        × (decode_auth_context http codecs out.1 ≡ ok out.0)
  unfolding read_deployment
  read_deployment-decodes out h =
      let (found1, _, h1) = >>=-eq-ok (environment_value environment _) _ h in
      let (service, _, h2) = >>=-eq-ok (ok_or found1 missing_service_id) _ h1 in
      let (found2, _, h3) = >>=-eq-ok (environment_value environment _) _ h2 in
      let (listed, _, h4) = >>=-eq-ok (ok_or found2 missing_audiences) _ h3 in
      let audiences = map trim (split b',' listed) in
      let (c, made, h5) =
        >>=-eq-ok (map_err (anonymous_context service audiences) invalid_deployment_identity) _
          h4 in
      let (v, encoded, h6) =
        >>=-eq-ok (map_err (encode_auth_context http codecs c) invalid_deployment_identity) _ h5 in
      let (valid, state, _) =
        anonymous_context-IsValidContext service audiences
          (map_err-eq-ok (anonymous_context service audiences) invalid_deployment_identity made) in
      let decoded =
        decode-encode_auth_context http codecs laws codec_laws c v valid
          (map_err-eq-ok (encode_auth_context http codecs c) invalid_deployment_identity encoded) in
      subst
        (λ (p : AuthContextV1 × http.HeaderValue).
          IsValidContext p.0
          × (p.0.state ≡ anonymous)
          × (decode_auth_context http codecs p.1 ≡ ok p.0))
        (ok-injective h6) (valid, state, decoded)

  -- Every configuration that is read from an environment has a deadline of at most a minute, between one
  -- and 1024 broker calls in flight, and an anonymous header that decodes to a valid anonymous context
  -- with the service and the audiences of the configuration.
  pub from_environment-IsValidAuthnConfig :
      (config : AuthnConfig http codecs ip_is_loopback)
      → from_environment http codecs ip_is_loopback environment ≡ ok config
      → IsValidAuthnConfig http codecs ip_is_loopback config
  unfolding from_environment
  from_environment-IsValidAuthnConfig config h =
      let (url, _, h1) = >>=-eq-ok (read_url http codecs ip_is_loopback environment) _ h in
      let (ms, e2, h2) = >>=-eq-ok (read_timeout_ms http codecs ip_is_loopback environment) _ h1 in
      let (mode, _, h3) = >>=-eq-ok (read_authn_mode http codecs ip_is_loopback environment) _ h2 in
      let (slots, e4, h4) =
        >>=-eq-ok (read_max_in_flight http codecs ip_is_loopback environment) _ h3 in
      let (deployment, e5, h5) =
        >>=-eq-ok (read_deployment http codecs ip_is_loopback environment) _ h4 in
      let (low, high) = read_timeout_ms-in_range ms e2 in
      let (first, last) = read_max_in_flight-in_range slots e4 in
      let (positive, bounded) = nanoseconds ms low high in
      let (valid, state, decodes) = read_deployment-decodes deployment e5 in
      let same = ok-injective h5 in
      rw (← same) (record {
        deadline_positive = positive;
        deadline_bounded = bounded;
        slots_positive = first;
        slots_bounded = last;
        context = deployment.0;
        context_valid = valid;
        context_anonymous = state;
        context_service = refl;
        context_audiences = refl;
        context_decodes = decodes;
      })
