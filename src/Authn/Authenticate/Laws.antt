-- ===== src/Authn/Authenticate/Laws.antt =====
-- Which requests `Authenticator::authenticate_request` of crates/authn/src/lib.rs lets through.
use wasi_http_middleware.Prelude.{
  ℕ, false, List, [], ◌≡◌, ◌⊎◌, inl, inr, refl, ap, ◌∙◌, Bytes, Option, none, some, ok, ◌>>=◌,
  >>=-eq-ok, ok-injective, ok_or, ok_or-eq-ok, map_err, map_err-eq-ok,
}
use wasi_http_middleware.HttpCrate.{HttpCrate, IsHttpCrate}
use wasi_http_middleware.Metadata.Field.{IsDeployment}
use wasi_http_middleware.Metadata.Context.{AuthContextV1, anonymous, anonymous_context}
use wasi_http_middleware.Metadata.Context.Valid.{
  anonymous_of, anonymous_context-IsValidContext, anonymous_context_of_valid,
}
use wasi_http_middleware.Policy.Credentials.{
  authorization, authorization_value, authorization_value-none_iff,
}
use wasi_http_middleware.Policy.Claims.{AuthenticatedClaimsV1, AuthDecision, allow, into_context}
use wasi_http_middleware.Authn.{
  AuthenticationMode, required, optional, AuthenticationConfig, AuthnRejection, invalid_request,
  VerifiedAuthContext, invalid_deployment_identity, new_authentication_config, is_expired, expiry,
  validate_lifetime, Request, canonical_request_id, sanitize_headers,
}
use wasi_http_middleware.Authn.Authenticate.{
  Transport, anonymous_access, bind_decision, broker_request, broker_access, access,
  authenticate_request,
}
use wasi_http_middleware.Authn.Outcomes.{
  validate_lifetime-eq-ok, IsSanitized, finish-eq-ok, finish_of_ok, finish-IsSanitized,
}

-- A configuration that was accepted has a valid deployment, and the mode and the service it was given.
pub new_authentication_config-eq-ok :
    (service_id : Bytes) (audiences : List Bytes) (mode : AuthenticationMode)
    {config : AuthenticationConfig}
    → new_authentication_config service_id audiences mode ≡ ok config
    → IsDeployment config.service_id config.audiences
      × (config.mode ≡ mode)
      × (config.service_id ≡ service_id)
unfolding new_authentication_config
new_authentication_config-eq-ok service_id audiences mode h =
    let (c, made, same) =
      >>=-eq-ok (map_err (anonymous_context service_id audiences) invalid_deployment_identity) _
        h in
    let (valid, _, named) =
      anonymous_context-IsValidContext service_id audiences
        (map_err-eq-ok (anonymous_context service_id audiences) invalid_deployment_identity made) in
    rw (← ok-injective same) (valid.deployment, refl, named)

anonymous_access-eq-ok :
    (mode : AuthenticationMode) (config : AuthenticationConfig) {c : AuthContextV1}
    → anonymous_access mode config ≡ ok c
    → (mode ≡ optional) × (anonymous_context config.service_id config.audiences ≡ ok c)
unfolding anonymous_access
anonymous_access-eq-ok required config h = cc
anonymous_access-eq-ok optional config h = (
  refl,
  map_err-eq-ok (anonymous_context config.service_id config.audiences) AuthnRejection.unavailable h,
)

bind_decision-eq-ok :
    (config : AuthenticationConfig) (decision : AuthDecision) {c : AuthContextV1}
    → bind_decision config decision ≡ ok c
    → (claims : AuthenticatedClaimsV1) × (decision ≡ allow claims)
      × (into_context claims config.service_id config.audiences ≡ ok c)
unfolding bind_decision
bind_decision-eq-ok config (allow claims) h = (
  claims,
  refl,
  map_err-eq-ok (into_context claims config.service_id config.audiences) AuthnRejection.unavailable
      h,
)
bind_decision-eq-ok config AuthDecision.unauthenticated h = cc
bind_decision-eq-ok config AuthDecision.unavailable h = cc

module _ (transport : Transport) (now : ℕ) (http : HttpCrate) {B : Type 0} where
  -- How a context came from the broker.
  pub record IsBrokered (config : AuthenticationConfig) (request : Request http B)
      (context : AuthContextV1) : Type 0 where
    pub credential : Bytes
    pub supplied : authorization_value http request.headers ≡ ok (some credential)
    pub request_id : Bytes
    pub identified : canonical_request_id http request.headers ≡ some request_id
    pub claims : AuthenticatedClaimsV1
    pub answered : transport (broker_request config request_id) credential ≡ ok (allow claims)
    pub bound : into_context claims config.service_id config.audiences ≡ ok context
    pub alive : is_expired (expiry context.principal) now ≡ false

  broker_access-IsBrokered :
      (config : AuthenticationConfig) (request : Request http B) (credential : Bytes)
      {c : AuthContextV1}
      → authorization_value http request.headers ≡ ok (some credential)
      → broker_access transport now config (canonical_request_id http request.headers) credential
        ≡ ok c
      → IsBrokered config request c
  unfolding broker_access
  broker_access-IsBrokered config request credential supplied h =
      let (request_id, e1, h1) =
        >>=-eq-ok (ok_or (canonical_request_id http request.headers) invalid_request) _ h in
      let (decision, e2, h2) =
        >>=-eq-ok
          (map_err (transport (broker_request config request_id) credential)
            AuthnRejection.unavailable)
          _ h1 in
      let (context, e3, h3) = >>=-eq-ok (bind_decision config decision) _ h2 in
      let (_, e4, h4) = >>=-eq-ok (validate_lifetime context now) _ h3 in
      let (claims, allowed, bound) = bind_decision-eq-ok config decision e3 in
      let answered =
        map_err-eq-ok (transport (broker_request config request_id) credential)
          AuthnRejection.unavailable e2 in
      rw (← ok-injective h4) (record {
        credential = credential;
        supplied = supplied;
        request_id = request_id;
        identified = ok_or-eq-ok (canonical_request_id http request.headers) invalid_request e1;
        claims = claims;
        answered = answered ∙ ap ok allowed;
        bound = bound;
        alive = validate_lifetime-eq-ok context now e4;
      })

  -- A request is let through in two cases only. It has no `authorization` header, the mode is optional,
  -- and its context is the anonymous one of the configuration; or it has one credential and one valid
  -- identifier, the broker allows the claims for exactly these, and the context binds them to the
  -- configured service and audiences and has not expired.
  pub authenticate_request-eq-ok :
      (config : AuthenticationConfig) (request : Request http B) (v : VerifiedAuthContext)
      → (authenticate_request transport now http config request).0 ≡ ok v
      → ((http.get_all request.headers authorization ≡ [])
          × (config.mode ≡ optional)
          × (anonymous_context config.service_id config.audiences ≡ ok v.context))
        ⊎ IsBrokered config request v.context
  unfolding authenticate_request access
  authenticate_request-eq-ok config request v h =
      let found = authorization_value http request.headers in
      let (credential, e1, h1) =
        >>=-eq-ok (map_err (authorization_value http request.headers) invalid_request) _
          (finish-eq-ok http (sanitize_headers http request) _ h) in
      split credential (map_err-eq-ok (authorization_value http request.headers) invalid_request e1)
        h1
    where
      split :
          (credential : Option Bytes)
          → authorization_value http request.headers ≡ ok credential
          → access transport now config (canonical_request_id http request.headers) credential
            ≡ ok v.context
          → ((http.get_all request.headers authorization ≡ [])
              × (config.mode ≡ optional)
              × (anonymous_context config.service_id config.audiences ≡ ok v.context))
            ⊎ IsBrokered config request v.context
      split none e h =
          let (mode, made) = anonymous_access-eq-ok config.mode config h in
          inl ((authorization_value-none_iff http request.headers).0 e, mode, made)
      split (some credential) e h = inr (broker_access-IsBrokered config request credential e h)

  -- Whatever is answered, the request loses its `authorization` header and all reserved headers and keeps
  -- the values of every other name and the rest; the answered context becomes its extension, and an
  -- error leaves the extension as it was.
  pub authenticate_request-IsSanitized :
      (laws : IsHttpCrate http) (config : AuthenticationConfig) (request : Request http B)
      → IsSanitized http request (authenticate_request transport now http config request)
  unfolding authenticate_request
  authenticate_request-IsSanitized laws config request = finish-IsSanitized http laws request _

  -- A request without an `authorization` header is always let through, with the anonymous context of the
  -- deployment, under every configuration that was accepted with the optional mode.
  pub authenticate_request_anonymous :
      (service_id : Bytes) (audiences : List Bytes) (config : AuthenticationConfig)
      (request : Request http B)
      → new_authentication_config service_id audiences optional ≡ ok config
      → http.get_all request.headers authorization ≡ []
      → (v : VerifiedAuthContext) × ((authenticate_request transport now http config request).0
          ≡ ok v)
        × (v.context.state ≡ anonymous)
        × (v.context.service_id ≡ service_id)
  unfolding authenticate_request access anonymous_access
  authenticate_request_anonymous service_id audiences config request made bare =
      let (deployment, mode, named) =
        new_authentication_config-eq-ok service_id audiences optional made in
      let context = anonymous_of (config.service_id, config.audiences) in
      let credential = (authorization_value-none_iff http request.headers).1 bare in
      let reached : map_err (authorization_value http request.headers) invalid_request
            >>= access transport now config (canonical_request_id http request.headers)
          ≡ ok context =
        rw (credential, mode, anonymous_context_of_valid deployment) refl in
      (
        record { context = context },
        finish_of_ok http (sanitize_headers http request) reached,
        refl,
        named,
      )
