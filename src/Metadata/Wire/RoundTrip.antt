-- ===== src/Metadata/Wire/RoundTrip.antt =====
-- Reading the wire form: the result is always valid, and a valid context is read back as it was.
use mathlib.Core.Option
use wasi_http_middleware.Prelude.{
  not, List, ◌≡◌, refl, ap, ◌∙◌, Bytes, Option, none, some, ◌==◌, ok, ◌>>=◌, >>=-eq-ok,
  ok-injective, if_err-eq-ok, bind_of_ok,
}
use wasi_http_middleware.Metadata.{auth_context_version}
use wasi_http_middleware.Metadata.Field.{IsDeployment}
use wasi_http_middleware.Metadata.Principal.{
  ActorV1, PrincipalV1, new_principal, with_tenant_id, with_roles, with_scopes, with_acr, with_amr,
  with_actor, with_times,
}
use wasi_http_middleware.Metadata.Principal.Valid.{
  IsOptionalActor, IsValidPrincipal, new_actor-IsValidActor, new_actor_of_IsValidActor,
  new_principal-IsValidPrincipal, with_tenant_id-IsValidPrincipal, with_roles-IsValidPrincipal,
  with_scopes-IsValidPrincipal, with_acr-IsValidPrincipal, with_amr-IsValidPrincipal,
  with_actor-IsValidPrincipal, with_times-IsValidPrincipal, with_session_id-IsValidPrincipal,
}
use wasi_http_middleware.Metadata.Principal.Rebuild.{
  bare_principal, new_principal_of_valid, with_tenant_id_of_valid, with_roles_of_valid,
  with_scopes_of_valid, with_acr_of_valid, with_amr_of_valid, with_times_of_valid,
  with_session_id_of_valid,
}
use wasi_http_middleware.Metadata.Context.{AuthStateV1, AuthContextV1}
use wasi_http_middleware.Metadata.Context.Valid.{
  IsIdentity, IsValidContext, anonymous_context-IsValidContext,
  authenticated_context-IsValidContext, anonymous_context_of_valid, authenticated_context_of_valid,
}
use wasi_http_middleware.Metadata.Wire.{
  WireState, WireActor, WirePrincipal, WireContext, to_wire_state, to_wire_actor, to_wire_principal,
  to_wire_context, try_actor, try_optional_actor, try_principal, try_identity, try_context,
}

try_optional_actor-valid :
    (wire : Option WireActor) {a : Option ActorV1}
    → try_optional_actor wire ≡ ok a
    → IsOptionalActor a
unfolding try_optional_actor
try_optional_actor-valid none h = rw (← ok-injective h) tt
try_optional_actor-valid (some wire) h =
    let (a, made, same) = >>=-eq-ok (try_actor wire) (λ a. ok (some a)) h in
    rw (← ok-injective same) (new_actor-IsValidActor wire.issuer wire.subject made)

pub try_principal-IsValidPrincipal :
    (wire : WirePrincipal) {p : PrincipalV1} → try_principal wire ≡ ok p → IsValidPrincipal p
unfolding try_principal
try_principal-IsValidPrincipal wire h =
    let (p0, e0, h0) = >>=-eq-ok (new_principal wire.issuer wire.subject) _ h in
    let (p1, e1, h1) = >>=-eq-ok (with_tenant_id p0 wire.tenant_id) _ h0 in
    let (p2, e2, h2) = >>=-eq-ok (with_roles p1 wire.roles) _ h1 in
    let (p3, e3, h3) = >>=-eq-ok (with_scopes p2 wire.scopes) _ h2 in
    let (p4, e4, h4) = >>=-eq-ok (with_acr p3 wire.acr) _ h3 in
    let (p5, e5, h5) = >>=-eq-ok (with_amr p4 wire.amr) _ h4 in
    let (a, e6, h6) = >>=-eq-ok (try_optional_actor wire.actor) _ h5 in
    let (p6, e7, h7) =
      >>=-eq-ok (with_times (with_actor p5 a) wire.auth_time wire.expires_at) _ h6 in
    let v0 = new_principal-IsValidPrincipal wire.issuer wire.subject e0 in
    let v1 = with_tenant_id-IsValidPrincipal v0 wire.tenant_id e1 in
    let v2 = with_roles-IsValidPrincipal v1 wire.roles e2 in
    let v3 = with_scopes-IsValidPrincipal v2 wire.scopes e3 in
    let v4 = with_acr-IsValidPrincipal v3 wire.acr e4 in
    let v5 = with_amr-IsValidPrincipal v4 wire.amr e5 in
    let va = with_actor-IsValidPrincipal v5 a (try_optional_actor-valid wire.actor e6) in
    let v6 = with_times-IsValidPrincipal va wire.auth_time wire.expires_at e7 in
    with_session_id-IsValidPrincipal v6 wire.session_id h7

try_identity-IsValidContext :
    (service_id : Bytes) (audiences : List Bytes) (state : WireState)
    (principal : Option WirePrincipal) (decision_id policy_revision : Option Bytes)
    {c : AuthContextV1}
    → try_identity service_id audiences state principal decision_id policy_revision ≡ ok c
    → IsValidContext c
unfolding try_identity
try_identity-IsValidContext s as' WireState.anonymous none none none h =
    (anonymous_context-IsValidContext s as' h).0
try_identity-IsValidContext s as' WireState.authenticated (some wire) (some d) (some r) h =
    let (p, made, h') = >>=-eq-ok (try_principal wire) _ h in
    authenticated_context-IsValidContext s as' p d r (try_principal-IsValidPrincipal wire made) h'
try_identity-IsValidContext s as' _ _ _ _ h = cc

-- Whatever the wire form holds, a context that is accepted is valid.
pub try_context-IsValidContext :
    (wire : WireContext) {c : AuthContextV1} → try_context wire ≡ ok c → IsValidContext c
unfolding try_context
try_context-IsValidContext wire h =
    let (_, h') = if_err-eq-ok (not (wire.version == auth_context_version)) _ h in
    try_identity-IsValidContext wire.service_id wire.audiences wire.state wire.principal
      wire.decision_id wire.policy_revision h'

try_optional_actor-to_wire :
    (a : Option ActorV1)
    → IsOptionalActor a
    → try_optional_actor (Option.map to_wire_actor a) ≡ ok a
unfolding try_optional_actor to_wire_actor
try_optional_actor-to_wire none h = refl
try_optional_actor-to_wire (some a) h =
    ap (λ m. m >>= λ a. ok (some a)) (new_actor_of_IsValidActor h)

pub try_principal-to_wire :
    {p : PrincipalV1} → IsValidPrincipal p → try_principal (to_wire_principal p) ≡ ok p
unfolding try_principal to_wire_principal
try_principal-to_wire {p} v =
    let b0 = bare_principal p.issuer p.subject in
    let b1 = record b0 { tenant_id = p.tenant_id } in
    let b2 = record b1 { roles = p.roles } in
    let b3 = record b2 { scopes = p.scopes } in
    let b4 = record b3 { acr = p.acr } in
    let b5 = record b4 { amr = p.amr } in
    let b6 = record b5 { actor = p.actor } in
    let b7 = record b6 { auth_time = p.auth_time; expires_at = p.expires_at } in
    bind_of_ok _ (new_principal_of_valid p.issuer p.subject v.issuer v.subject)
    ∙ bind_of_ok _ (with_tenant_id_of_valid b0 p.tenant_id v.tenant_id)
    ∙ bind_of_ok _ (with_roles_of_valid b1 p.roles v.roles)
    ∙ bind_of_ok _ (with_scopes_of_valid b2 p.scopes v.scopes v.scopes_bounded)
    ∙ bind_of_ok _ (with_acr_of_valid b3 p.acr v.acr)
    ∙ bind_of_ok _ (with_amr_of_valid b4 p.amr v.amr)
    ∙ bind_of_ok _ (try_optional_actor-to_wire p.actor v.actor)
    ∙ bind_of_ok _ (with_times_of_valid b6 p.auth_time p.expires_at v.times)
    ∙ with_session_id_of_valid b7 p.session_id v.session_id

try_identity-to_wire :
    (c : AuthContextV1) (state : AuthStateV1) (principal : Option PrincipalV1)
    (decision_id policy_revision : Option Bytes)
    → IsDeployment c.service_id c.audiences
    → IsIdentity state principal decision_id policy_revision
    → try_identity c.service_id c.audiences
        (to_wire_state state)
        (Option.map to_wire_principal principal)
        decision_id
        policy_revision
      ≡ ok (record c {
        state = state;
        principal = principal;
        decision_id = decision_id;
        policy_revision = policy_revision;
      })
unfolding try_identity to_wire_state
try_identity-to_wire c AuthStateV1.anonymous none none none d i = anonymous_context_of_valid d
try_identity-to_wire c AuthStateV1.authenticated (some p) (some dec) (some rev) d (v, h, k) =
    bind_of_ok _ (try_principal-to_wire v) ∙ authenticated_context_of_valid p dec rev d h k
try_identity-to_wire c AuthStateV1.anonymous (some _) _ _ d i = absurd i
try_identity-to_wire c AuthStateV1.anonymous none (some _) _ d i = absurd i
try_identity-to_wire c AuthStateV1.anonymous none none (some _) d i = absurd i
try_identity-to_wire c AuthStateV1.authenticated none _ _ d i = absurd i
try_identity-to_wire c AuthStateV1.authenticated (some _) none _ d i = absurd i
try_identity-to_wire c AuthStateV1.authenticated (some _) (some _) none d i = absurd i

-- A valid context is read back from its wire form as it was.
pub try_context-to_wire :
    (c : AuthContextV1) → IsValidContext c → try_context (to_wire_context c) ≡ ok c
unfolding try_context to_wire_context
try_context-to_wire c v =
    try_identity-to_wire c c.state c.principal c.decision_id c.policy_revision v.deployment
      v.identity
