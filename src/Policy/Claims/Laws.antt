-- ===== src/Policy/Claims/Laws.antt =====
-- The broker's answer is trusted only in one form, and what is accepted can be bound.
use wasi_http_middleware.Prelude.{
  ℕ, true, List, [], ◌∷◌, ◌≡◌, ◌≢◌, ◌↔◌, inl, inr, refl, sym, ap, ◌∙◌, arith, Bytes, codes, Option,
  none, some, ◌==◌, ok, >>=-eq-ok, ok-injective, to_option-eq-some, Option-cases, Bool-cases,
}
use wasi_http_middleware.Metadata.{is_valid_text, max_context_value_len}
use wasi_http_middleware.Metadata.Field.{IsDeployment}
use wasi_http_middleware.Metadata.Principal.{
  ActorV1, new_actor, PrincipalV1, new_principal, with_tenant_id, with_roles, with_scopes, with_acr,
  with_amr, with_actor, with_times,
}
use wasi_http_middleware.Metadata.Principal.Valid.{
  IsOptionalActor, IsValidPrincipal, new_actor-IsValidActor, new_principal-IsValidPrincipal,
  with_tenant_id-IsValidPrincipal, with_roles-IsValidPrincipal, with_scopes-IsValidPrincipal,
  with_acr-IsValidPrincipal, with_amr-IsValidPrincipal, with_actor-IsValidPrincipal,
  with_times-IsValidPrincipal, with_session_id-IsValidPrincipal,
}
use wasi_http_middleware.Metadata.Context.{authenticated_context}
use wasi_http_middleware.Metadata.Context.Valid.{
  IsValidContext, authenticated_of, authenticated_context-eq-ok, authenticated_context_of_valid,
}
use wasi_http_middleware.Policy.Claims.{
  AuthnActorV1, AuthnSuccessV1, AuthenticatedClaimsV1, into_context, allow, unauthenticated,
  claimed_actor, claimed_principal, validated_claims, authenticated_claims, decide_success,
  parse_authn_response,
}

-- The claims that may be bound to a deployment.
pub record IsValidClaims (claims : AuthenticatedClaimsV1) : Type 0 where
  pub principal : IsValidPrincipal claims.principal
  pub decision_id : is_valid_text claims.decision_id max_context_value_len ≡ true
  pub policy_revision : is_valid_text claims.policy_revision max_context_value_len ≡ true

claimed_actor-valid :
    (actor : Option AuthnActorV1) {a : Option ActorV1}
    → claimed_actor actor ≡ ok a
    → IsOptionalActor a
unfolding claimed_actor
claimed_actor-valid none h = rw (← ok-injective h) tt
claimed_actor-valid (some actor) h =
    let (a, made, same) = >>=-eq-ok (new_actor actor.issuer actor.subject) (λ a. ok (some a)) h in
    rw (← ok-injective same) (new_actor-IsValidActor actor.issuer actor.subject made)

claimed_principal-IsValidPrincipal :
    (s : AuthnSuccessV1) (a : Option ActorV1) {p : PrincipalV1}
    → IsOptionalActor a
    → claimed_principal s a ≡ ok p
    → IsValidPrincipal p
unfolding claimed_principal
claimed_principal-IsValidPrincipal s a va h =
    let (p0, e0, h0) = >>=-eq-ok (new_principal s.issuer s.subject) _ h in
    let (p1, e1, h1) = >>=-eq-ok (with_tenant_id p0 s.tenant_id) _ h0 in
    let (p2, e2, h2) = >>=-eq-ok (with_roles p1 s.roles) _ h1 in
    let (p3, e3, h3) = >>=-eq-ok (with_scopes p2 s.scopes) _ h2 in
    let (p4, e4, h4) = >>=-eq-ok (with_acr p3 s.acr) _ h3 in
    let (p5, e5, h5) = >>=-eq-ok (with_amr p4 s.amr) _ h4 in
    let (p6, e6, h6) = >>=-eq-ok (with_times (with_actor p5 a) s.auth_time s.expires_at) _ h5 in
    let v0 = new_principal-IsValidPrincipal s.issuer s.subject e0 in
    let v1 = with_tenant_id-IsValidPrincipal v0 s.tenant_id e1 in
    let v2 = with_roles-IsValidPrincipal v1 s.roles e2 in
    let v3 = with_scopes-IsValidPrincipal v2 s.scopes e3 in
    let v4 = with_acr-IsValidPrincipal v3 s.acr e4 in
    let v5 = with_amr-IsValidPrincipal v4 s.amr e5 in
    let v6 =
      with_times-IsValidPrincipal (with_actor-IsValidPrincipal v5 a va) s.auth_time s.expires_at
        e6 in
    with_session_id-IsValidPrincipal v6 s.session_id h6

validated_claims-IsValidClaims :
    (s : AuthnSuccessV1) {claims : AuthenticatedClaimsV1}
    → validated_claims s ≡ ok claims
    → IsValidClaims claims
unfolding validated_claims
validated_claims-IsValidClaims s h =
    let (a, e0, h0) = >>=-eq-ok (claimed_actor s.actor) _ h in
    let (p, e1, h1) = >>=-eq-ok (claimed_principal s a) _ h0 in
    let (c, e2, h2) =
      >>=-eq-ok
        (authenticated_context (codes "validation") (codes "validation" ∷ []) p s.decision_id
          s.policy_revision)
        _ h1 in
    let v = claimed_principal-IsValidPrincipal s a (claimed_actor-valid s.actor e0) e1 in
    let (dec, rev, _, _) =
      authenticated_context-eq-ok (codes "validation") (codes "validation" ∷ []) p s.decision_id
        s.policy_revision e2 in
    rw (← ok-injective h2) (record { principal = v; decision_id = dec; policy_revision = rev })

-- What stands behind an answer that authenticates.
pub record IsTrusted (from_slice : Bytes → Option AuthnSuccessV1) (status : ℕ) (body : Bytes)
    (claims : AuthenticatedClaimsV1) : Type 0 where
  pub success : AuthnSuccessV1
  pub status_ok : status ≡ 200
  pub parsed : from_slice body ≡ some success
  pub version : success.version ≡ 1
  pub decision_id : claims.decision_id ≡ success.decision_id
  pub policy_revision : claims.policy_revision ≡ success.policy_revision
  pub valid : IsValidClaims claims

validated_claims-texts :
    (s : AuthnSuccessV1) {claims : AuthenticatedClaimsV1}
    → validated_claims s ≡ ok claims
    → (claims.decision_id ≡ s.decision_id) × (claims.policy_revision ≡ s.policy_revision)
unfolding validated_claims
validated_claims-texts s h =
    let (a, _, h0) = >>=-eq-ok (claimed_actor s.actor) _ h in
    let (p, _, h1) = >>=-eq-ok (claimed_principal s a) _ h0 in
    let (c, _, h2) =
      >>=-eq-ok
        (authenticated_context (codes "validation") (codes "validation" ∷ []) p s.decision_id
          s.policy_revision)
        _ h1 in
    let same = ok-injective h2 in
    (
      ap (λ (x : AuthenticatedClaimsV1). x.decision_id) (sym same),
      ap (λ (x : AuthenticatedClaimsV1). x.policy_revision) (sym same),
    )

authenticated_claims-eq-some :
    (s : AuthnSuccessV1) {claims : AuthenticatedClaimsV1}
    → authenticated_claims s ≡ some claims
    → (s.version ≡ 1) × (validated_claims s ≡ ok claims)
unfolding authenticated_claims
authenticated_claims-eq-some s h = elim (Bool-cases (s.version == 1)) [
  | inl one ↦
      (ground arith, to_option-eq-some (validated_claims s) (rw (one, authenticated_claims) at h))
  | inr other ↦ absurd (cc (rw (other, authenticated_claims) at h))
]

decide_success-eq-allow :
    (o : Option AuthnSuccessV1) {claims : AuthenticatedClaimsV1}
    → decide_success o ≡ allow claims
    → (s : AuthnSuccessV1) × (o ≡ some s) × (authenticated_claims s ≡ some claims)
unfolding decide_success
decide_success-eq-allow none h = cc
decide_success-eq-allow (some s) h = elim (Option-cases (authenticated_claims s)) [
  | inl missing ↦ absurd (cc (rw (missing, decide_success) at h))
  | inr (c, found) ↦ (s, refl, found ∙ cc (rw (found, decide_success) at h))
]

parse_authn_response_status :
    (from_slice : Bytes → Option AuthnSuccessV1) (status : ℕ) (body : Bytes)
    {claims : AuthenticatedClaimsV1}
    → parse_authn_response from_slice status body ≡ allow claims
    → (status ≡ 200) × (decide_success (from_slice body) ≡ allow claims)
unfolding parse_authn_response
parse_authn_response_status from_slice status body h = elim (Bool-cases (status == 200)) [
  | inl found ↦ (ground arith, rw (found, parse_authn_response) at h)
  | inr other ↦ elim (Bool-cases (status == 401)) [
    | inl denied ↦ absurd (cc (rw (other, denied, parse_authn_response) at h))
    | inr failed ↦ absurd (cc (rw (other, failed, parse_authn_response) at h))
  ]
]

-- A response authenticates only with status 200 and a body of version 1, and then its claims are
-- valid and carry the decision and the revision of the body.
pub parse_authn_response-IsTrusted :
    (from_slice : Bytes → Option AuthnSuccessV1) (status : ℕ) (body : Bytes)
    (claims : AuthenticatedClaimsV1)
    → parse_authn_response from_slice status body ≡ allow claims
    → IsTrusted from_slice status body claims
parse_authn_response-IsTrusted from_slice status body claims h =
    let (status_ok, decided) = parse_authn_response_status from_slice status body h in
    let (s, parsed, accepted) = decide_success-eq-allow (from_slice body) decided in
    let (version, valid) = authenticated_claims-eq-some s accepted in
    let (decision_id, policy_revision) = validated_claims-texts s valid in
    record {
      success = s;
      status_ok = status_ok;
      parsed = parsed;
      version = version;
      decision_id = decision_id;
      policy_revision = policy_revision;
      valid = validated_claims-IsValidClaims s valid;
    }

decide_success-ne-unauthenticated : (o : Option AuthnSuccessV1) → decide_success o ≢ unauthenticated
unfolding decide_success
decide_success-ne-unauthenticated none h = cc
decide_success-ne-unauthenticated (some s) h = elim (Option-cases (authenticated_claims s)) [
  | inl missing ↦ cc (rw (missing, decide_success) at h)
  | inr (c, found) ↦ cc (rw (found, decide_success) at h)
]

-- Missing identity is reported exactly for status 401; no other failure is read as one.
pub parse_authn_response_unauthenticated_iff :
    (from_slice : Bytes → Option AuthnSuccessV1) (status : ℕ) (body : Bytes)
    → (parse_authn_response from_slice status body ≡ unauthenticated) ↔ (status ≡ 401)
unfolding parse_authn_response
parse_authn_response_unauthenticated_iff from_slice status body = (to, λ h. rw h refl)
  where
    to : parse_authn_response from_slice status body ≡ unauthenticated → status ≡ 401
    to h = elim (Bool-cases (status == 200)) [
      | inl found ↦ absurd (
          decide_success-ne-unauthenticated (from_slice body)
            (rw (found, parse_authn_response) at h))
      | inr other ↦ elim (Bool-cases (status == 401)) [
        | inl denied ↦ ground arith
        | inr failed ↦ absurd (cc (rw (other, failed, parse_authn_response) at h))
      ]
    ]

-- Claims that were accepted can be bound to every valid deployment: the result is a valid context
-- with the deployment's identity and the claims' principal.
pub into_context_of_valid :
    (claims : AuthenticatedClaimsV1) (service_id : Bytes) (audiences : List Bytes)
    → IsValidClaims claims
    → IsDeployment service_id audiences
    → (into_context claims service_id audiences
        ≡ ok (
            authenticated_of
              (service_id, audiences)
              claims.principal
              claims.decision_id
              claims.policy_revision))
      × IsValidContext (
          authenticated_of
            (service_id, audiences)
            claims.principal
            claims.decision_id
            claims.policy_revision)
unfolding into_context
into_context_of_valid claims service_id audiences v d = (
  authenticated_context_of_valid claims.principal claims.decision_id claims.policy_revision d
      v.decision_id v.policy_revision,
  record { deployment = d; identity = (v.principal, v.decision_id, v.policy_revision) },
)
