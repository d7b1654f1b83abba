-- ===== src/Policy/Claims.antt =====
-- The broker's answer and what is made of it, from crates/policy-core/src/lib.rs.
pub mod Laws
use wasi_http_middleware.Prelude.{
  ℕ, Bool, true, false, not, List, [], ◌∷◌, Bytes, codes, Option, none, some, ◌==◌, Result, ok, err,
  ◌>>=◌, ◌>>◌, to_option, if◌then◌else◌,
}
use wasi_http_middleware.Metadata.{MetadataError}
use wasi_http_middleware.Metadata.Principal.{
  ActorV1, new_actor, PrincipalV1, new_principal, with_tenant_id, with_roles, with_scopes, with_acr,
  with_amr, with_actor, with_times, with_session_id,
}
use wasi_http_middleware.Metadata.Context.{AuthContextV1, authenticated_context}

-- `AuthnRequestV1`
pub record AuthnRequestV1 : Type 0 where
  pub version : ℕ
  pub service_id : Bytes
  pub audiences : List Bytes
  pub request_id : Bytes

pub record AuthnActorV1 : Type 0 where
  pub issuer : Bytes
  pub subject : Bytes

pub record AuthnSuccessV1 : Type 0 where
  pub version : ℕ
  pub subject : Bytes
  pub issuer : Bytes
  pub tenant_id : Option Bytes
  pub roles : List Bytes
  pub scopes : List Bytes
  pub acr : Option Bytes
  pub amr : List Bytes
  pub actor : Option AuthnActorV1
  pub auth_time : Option ℕ
  pub expires_at : Option ℕ
  pub session_id : Option Bytes
  pub decision_id : Bytes
  pub policy_revision : Bytes

pub record AuthenticatedClaimsV1 : Type 0 where
  pub principal : PrincipalV1
  pub decision_id : Bytes
  pub policy_revision : Bytes

-- `AuthenticatedClaimsV1::into_context`
unfoldable pub into_context :
    AuthenticatedClaimsV1 → Bytes → List Bytes → Result MetadataError AuthContextV1
unfolding authenticated_context
into_context claims service_id audiences =
    authenticated_context service_id audiences claims.principal claims.decision_id
      claims.policy_revision

pub data AuthDecision : Type 0 where
  allow : AuthenticatedClaimsV1 → AuthDecision
  unauthenticated unavailable : AuthDecision

-- `success.actor.map(|actor| ActorV1::new(...)).transpose()`
pub claimed_actor : Option AuthnActorV1 → Result MetadataError (Option ActorV1)
unfolding new_actor
claimed_actor none = ok none
claimed_actor (some actor) = do actor ← new_actor actor.issuer actor.subject; ok (some actor)

-- The chain of builders, from the issuer and the subject to the session.
pub claimed_principal : AuthnSuccessV1 → Option ActorV1 → Result MetadataError PrincipalV1
unfolding with_actor
claimed_principal success actor = do
  p0 ← new_principal success.issuer success.subject
  p1 ← with_tenant_id p0 success.tenant_id
  p2 ← with_roles p1 success.roles
  p3 ← with_scopes p2 success.scopes
  p4 ← with_acr p3 success.acr
  p5 ← with_amr p4 success.amr
  p6 ← with_times (with_actor p5 actor) success.auth_time success.expires_at
  with_session_id p6 success.session_id

-- Each `.ok()?` ends the function with `None`, as the first error of this chain does.
pub validated_claims : AuthnSuccessV1 → Result MetadataError AuthenticatedClaimsV1
unfolding claimed_actor claimed_principal authenticated_context
validated_claims success = do
  actor ← claimed_actor success.actor
  principal ← claimed_principal success actor
  _ ←
      authenticated_context (codes "validation") (codes "validation" ∷ []) principal
        success.decision_id success.policy_revision
  ok (record {
    principal = principal;
    decision_id = success.decision_id;
    policy_revision = success.policy_revision;
  })

unfoldable pub authenticated_claims : AuthnSuccessV1 → Option AuthenticatedClaimsV1
unfolding validated_claims
authenticated_claims success =
    if not (success.version == 1) then none else to_option (validated_claims success)

-- `serde_json::from_slice::<AuthnSuccessV1>(body).ok().and_then(authenticated_claims)`, with the
-- parsed body in place of the body.
pub decide_success : Option AuthnSuccessV1 → AuthDecision
unfolding authenticated_claims
decide_success none = unavailable
decide_success (some success) = elim (authenticated_claims success) [
  | none ↦ unavailable
  | some claims ↦ allow claims
]

-- `from_slice` is `serde_json::from_slice` at `AuthnSuccessV1`.
unfoldable pub parse_authn_response : (Bytes → Option AuthnSuccessV1) → ℕ → Bytes → AuthDecision
unfolding decide_success
parse_authn_response from_slice status body =
    if status == 200
    then decide_success (from_slice body)
    else if status == 401
    then unauthenticated
    else unavailable
