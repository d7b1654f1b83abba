-- ===== src/Examples/Authn.antt =====
-- Runs of crates/authn/src/lib.rs.
use wasi_http_middleware.Prelude.{
  ◌=b◌, List, [], ◌∷◌, ◌≡◌, ◌⊎◌, ◌↔◌, refl, Bytes, codes, none, ok, err,
}
use wasi_http_middleware.Metadata.{validated_deployment}
use wasi_http_middleware.Metadata.Context.{anonymous, anonymous_context}
use wasi_http_middleware.Metadata.Context.Valid.{authenticated_of}
use wasi_http_middleware.Metadata.Headers.{insert_auth_context}
use wasi_http_middleware.Policy.Claims.{allow}
use wasi_http_middleware.Policy.Credentials.{authorization}
use wasi_http_middleware.Authn.{
  required, optional, AuthenticationConfig, AuthnRejection, invalid_boundary, VerifiedAuthContext,
  Request, new_authentication_config, is_expired, expiry,
}
use wasi_http_middleware.Authn.Authenticate.{Transport, authenticate_request}
use wasi_http_middleware.Authn.Authenticate.Laws.{
  IsBrokered, authenticate_request-eq-ok, authenticate_request-IsSanitized,
  authenticate_request_anonymous,
}
use wasi_http_middleware.Authn.Ingress.{TrustedIngressConfig, accept_trusted_ingress}
use wasi_http_middleware.Authn.Ingress.Laws.{
  IsAccepted, accept_trusted_ingress-ok_iff, accept-insert_auth_context,
}
use wasi_http_middleware.Authn.Outcomes.{IsSanitized}
use wasi_http_middleware.Examples.Http.{http, http_laws, Field}
use wasi_http_middleware.Examples.Codecs.{codecs, codec_laws}
use wasi_http_middleware.Examples.Auth.{sample, sample-IsValidContext, accepted, incoming}

abbrev config : AuthenticationConfig
config = record { service_id = codes "s"; audiences = codes "a" ∷ []; mode = required }

abbrev optional_config : AuthenticationConfig
optional_config = record config { mode = optional }

-- A broker that knows one credential.
abbrev transport : Transport
transport request credential = ok (allow accepted)

abbrev with_headers : List Field → Request http Bytes
with_headers fields = record { headers = fields; verified = none; rest = codes "body" }

abbrev supplied : Request http Bytes
supplied = with_headers (
    (codes "authorization", codes "Bearer x")
    ∷ (codes "x-request-id", codes "id")
    ∷ (codes "x-wasi-auth-user", codes "root")
    ∷ [])

abbrev verified : VerifiedAuthContext
verified = record {
  context =
      authenticated_of (codes "s", codes "a" ∷ []) accepted.principal accepted.decision_id
        accepted.policy_revision;
}

authenticate_request-eq-ok_example :
    ((http.get_all supplied.headers authorization ≡ [])
      × (config.mode ≡ optional)
      × (anonymous_context config.service_id config.audiences ≡ ok verified.context))
    ⊎ IsBrokered transport 15 http config supplied verified.context
unfolding authenticate_request ◌=b◌ validated_deployment
authenticate_request-eq-ok_example =
    authenticate_request-eq-ok transport 15 http config supplied verified refl

authenticate_request-IsSanitized_example :
    IsSanitized http supplied (authenticate_request transport 15 http config supplied)
authenticate_request-IsSanitized_example =
    authenticate_request-IsSanitized transport 15 http http_laws config supplied

abbrev bare : Request http Bytes
bare = with_headers incoming

authenticate_request_anonymous_example :
    (v : VerifiedAuthContext) × ((authenticate_request transport 15 http optional_config bare).0
      ≡ ok v)
    × (v.context.state ≡ anonymous)
    × (v.context.service_id ≡ codes "s")
unfolding new_authentication_config validated_deployment
authenticate_request_anonymous_example =
    authenticate_request_anonymous transport 15 http (codes "s") (codes "a" ∷ []) optional_config
      bare refl refl

abbrev ingress : TrustedIngressConfig
ingress = record { config = optional_config }

accept_trusted_ingress-ok_iff_example :
    ((v : VerifiedAuthContext)
      → ((accept_trusted_ingress http codecs 15 ingress supplied).0 ≡ ok v)
        ↔ IsAccepted http codecs 15 ingress supplied v.context)
    × ((e : AuthnRejection)
        → (accept_trusted_ingress http codecs 15 ingress supplied).0 ≡ err e
        → e ≡ invalid_boundary)
accept_trusted_ingress-ok_iff_example =
    accept_trusted_ingress-ok_iff http codecs 15 ingress supplied

unfoldable received : Request http Bytes
unfolding codecs insert_auth_context
received = with_headers (insert_auth_context http codecs incoming sample).0

accept-insert_auth_context_example :
    (accept_trusted_ingress http codecs 15 ingress received).0 ≡ ok (record { context = sample })
unfolding received codecs insert_auth_context ◌=b◌ is_expired expiry
accept-insert_auth_context_example =
    accept-insert_auth_context http codecs 15 http_laws codec_laws ingress received incoming sample
      sample-IsValidContext refl refl refl
      (record { service = refl; audience = codes "a"; expected = refl; held = refl }) refl
