-- ===== src/Metadata/Context/Valid.antt =====
-- The invariant of a context, which both constructors establish, and their inverse.
use wasi_http_middleware.Prelude.{
  true, List, ◌≡◌, refl, ap, ◌∙◌, Bytes, codes, Option, none, some, ok, ◌>>=◌, >>=-eq-ok,
  ok-injective,
}
use wasi_http_middleware.Metadata.{
  is_valid_text, validate_text, validated_deployment, max_context_value_len,
}
use wasi_http_middleware.Metadata.Field.{
  IsDeployment, validated_deployment-IsDeployment, validated_deployment_tests,
  validated_deployment_of_IsDeployment,
}
use wasi_http_middleware.Metadata.Principal.{PrincipalV1}
use wasi_http_middleware.Metadata.Principal.Valid.{
  IsValidPrincipal, two_texts-eq-ok, two_texts_of_valid,
}
use wasi_http_middleware.Metadata.Context.{
  AuthStateV1, anonymous, authenticated, AuthContextV1, anonymous_context, authenticated_context,
}

-- The identity part agrees with the state: all of it or none of it.
abbrev pub IsIdentity : AuthStateV1 → Option PrincipalV1 → Option Bytes → Option Bytes → Type 0
IsIdentity anonymous none none none = Unit
IsIdentity authenticated (some p) (some d) (some r) =
    IsValidPrincipal p
    × (is_valid_text d max_context_value_len ≡ true)
    × (is_valid_text r max_context_value_len ≡ true)
IsIdentity _ _ _ _ = ⊥

pub record IsValidContext (c : AuthContextV1) : Type 0 where
  pub deployment : IsDeployment c.service_id c.audiences
  pub identity : IsIdentity c.state c.principal c.decision_id c.policy_revision

abbrev pub anonymous_of : Bytes × List Bytes → AuthContextV1
anonymous_of deployment = record {
  state = anonymous;
  service_id = deployment.0;
  audiences = deployment.1;
  principal = none;
  decision_id = none;
  policy_revision = none;
}

abbrev pub authenticated_of : Bytes × List Bytes → PrincipalV1 → Bytes → Bytes → AuthContextV1
authenticated_of deployment principal decision_id policy_revision = record {
  state = authenticated;
  service_id = deployment.0;
  audiences = deployment.1;
  principal = some principal;
  decision_id = some decision_id;
  policy_revision = some policy_revision;
}

pub anonymous_context-IsValidContext :
    (service_id : Bytes) (audiences : List Bytes) {c : AuthContextV1}
    → anonymous_context service_id audiences ≡ ok c
    → IsValidContext c × (c.state ≡ anonymous) × (c.service_id ≡ service_id)
unfolding anonymous_context
anonymous_context-IsValidContext service_id audiences h =
    let (d, valid, same) =
      >>=-eq-ok (validated_deployment service_id audiences) (λ d. ok (anonymous_of d)) h in
    let deployed = validated_deployment-IsDeployment service_id audiences valid in
    rw (← ok-injective same) (
      record { deployment = deployed; identity = tt },
      refl,
      ap (λ d. d.0) (validated_deployment_tests service_id audiences valid).4,
    )

pub authenticated_context-eq-ok :
    (service_id : Bytes) (audiences : List Bytes) (p : PrincipalV1) (decision revision : Bytes)
    {c : AuthContextV1}
    → authenticated_context service_id audiences p decision revision ≡ ok c
    → (is_valid_text decision max_context_value_len ≡ true)
      × (is_valid_text revision max_context_value_len ≡ true)
      × IsDeployment c.service_id c.audiences
      × (c ≡ authenticated_of (c.service_id, c.audiences) p decision revision)
unfolding authenticated_context
authenticated_context-eq-ok service_id audiences p decision revision h =
    let (d, valid, h') =
      >>=-eq-ok (validated_deployment service_id audiences)
        (λ d. validate_text (codes "decision_id") decision max_context_value_len >>= λ _.
          validate_text (codes "policy_revision") revision max_context_value_len >>= λ _.
          ok (authenticated_of d p decision revision))
        h in
    let (dec, rev, same) =
      two_texts-eq-ok (codes "decision_id") (codes "policy_revision") decision revision
        max_context_value_len h' in
    let deployed = validated_deployment-IsDeployment service_id audiences valid in
    (dec, rev, rw (← same) deployed, rw (← same) refl)

pub authenticated_context-IsValidContext :
    (service_id : Bytes) (audiences : List Bytes) (p : PrincipalV1) (decision revision : Bytes)
    {c : AuthContextV1}
    → IsValidPrincipal p
    → authenticated_context service_id audiences p decision revision ≡ ok c
    → IsValidContext c
authenticated_context-IsValidContext service_id audiences p decision revision v h =
    let (dec, rev, deployed, same) =
      authenticated_context-eq-ok service_id audiences p decision revision h in
    rw same (record { deployment = deployed; identity = (v, dec, rev) })

pub anonymous_context_of_valid :
    {service_id : Bytes} {audiences : List Bytes}
    → IsDeployment service_id audiences
    → anonymous_context service_id audiences ≡ ok (anonymous_of (service_id, audiences))
unfolding anonymous_context
anonymous_context_of_valid d =
    ap (λ m. m >>= λ d. ok (anonymous_of d)) (validated_deployment_of_IsDeployment d)

pub authenticated_context_of_valid :
    {service_id : Bytes} {audiences : List Bytes} (p : PrincipalV1) (decision revision : Bytes)
    → IsDeployment service_id audiences
    → is_valid_text decision max_context_value_len ≡ true
    → is_valid_text revision max_context_value_len ≡ true
    → authenticated_context service_id audiences p decision revision
      ≡ ok (authenticated_of (service_id, audiences) p decision revision)
unfolding authenticated_context
authenticated_context_of_valid {service_id} {audiences} p decision revision d h k =
    ap
      (λ m. m >>= λ d. validate_text (codes "decision_id") decision max_context_value_len >>= λ _.
        validate_text (codes "policy_revision") revision max_context_value_len >>= λ _.
        ok (authenticated_of d p decision revision))
      (validated_deployment_of_IsDeployment d)
    ∙ two_texts_of_valid (codes "decision_id") (codes "policy_revision") decision revision
        max_context_value_len (authenticated_of (service_id, audiences) p decision revision) h k
