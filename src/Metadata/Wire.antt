-- ===== src/Metadata/Wire.antt =====
-- The serialized form of a context: the conversions to and from the wire structures. The borrowed and
-- the owned structures have the same fields, so one record stands for both.
pub mod RoundTrip
use wasi_http_middleware.Prelude.{
  ℕ, Bool, true, false, not, List, Bytes, Option, none, some, Result, ok, err, ◌>>=◌, ◌>>◌, ◌==◌,
  if◌then◌else◌,
}
use mathlib.Core.Option
use wasi_http_middleware.Metadata.{
  MetadataError, unsupported_version, invalid_schema, auth_context_version,
}
use wasi_http_middleware.Metadata.Principal.{
  ActorV1, new_actor, PrincipalV1, new_principal, with_tenant_id, with_roles, with_scopes, with_acr,
  with_amr, with_actor, with_times, with_session_id,
}
use wasi_http_middleware.Metadata.Context.{
  AuthStateV1, AuthContextV1, anonymous_context, authenticated_context,
}

pub data WireState : Type 0 where
  anonymous authenticated : WireState

pub record WireActor : Type 0 where
  pub issuer : Bytes
  pub subject : Bytes

pub record WirePrincipal : Type 0 where
  pub issuer : Bytes
  pub subject : Bytes
  pub tenant_id : Option Bytes
  pub roles : List Bytes
  pub scopes : List Bytes
  pub acr : Option Bytes
  pub amr : List Bytes
  pub actor : Option WireActor
  pub auth_time : Option ℕ
  pub expires_at : Option ℕ
  pub session_id : Option Bytes

pub record WireContext : Type 0 where
  pub version : ℕ
  pub state : WireState
  pub service_id : Bytes
  pub audiences : List Bytes
  pub principal : Option WirePrincipal
  pub decision_id : Option Bytes
  pub policy_revision : Option Bytes

unfoldable pub to_wire_state : AuthStateV1 → WireState
to_wire_state AuthStateV1.anonymous = WireState.anonymous
to_wire_state AuthStateV1.authenticated = WireState.authenticated

unfoldable pub to_wire_actor : ActorV1 → WireActor
to_wire_actor actor = record { issuer = actor.issuer; subject = actor.subject }

unfoldable pub to_wire_principal : PrincipalV1 → WirePrincipal
unfolding to_wire_actor
to_wire_principal principal = record {
  issuer = principal.issuer;
  subject = principal.subject;
  tenant_id = principal.tenant_id;
  roles = principal.roles;
  scopes = principal.scopes;
  acr = principal.acr;
  amr = principal.amr;
  actor = Option.map to_wire_actor principal.actor;
  auth_time = principal.auth_time;
  expires_at = principal.expires_at;
  session_id = principal.session_id;
}

unfoldable pub to_wire_context : AuthContextV1 → WireContext
unfolding to_wire_state to_wire_principal
to_wire_context context = record {
  version = auth_context_version;
  state = to_wire_state context.state;
  service_id = context.service_id;
  audiences = context.audiences;
  principal = Option.map to_wire_principal context.principal;
  decision_id = context.decision_id;
  policy_revision = context.policy_revision;
}

-- `TryFrom<WireActorOwned> for ActorV1`
unfoldable pub try_actor : WireActor → Result MetadataError ActorV1
try_actor wire = new_actor wire.issuer wire.subject

-- `wire.actor.map(TryInto::try_into).transpose()`
unfoldable pub try_optional_actor : Option WireActor → Result MetadataError (Option ActorV1)
unfolding try_actor
try_optional_actor none = ok none
try_optional_actor (some wire) = do actor ← try_actor wire; ok (some actor)

-- `TryFrom<WirePrincipalOwned> for PrincipalV1`
unfoldable pub try_principal : WirePrincipal → Result MetadataError PrincipalV1
unfolding try_optional_actor with_actor
try_principal wire = do
  p0 ← new_principal wire.issuer wire.subject
  p1 ← with_tenant_id p0 wire.tenant_id
  p2 ← with_roles p1 wire.roles
  p3 ← with_scopes p2 wire.scopes
  p4 ← with_acr p3 wire.acr
  p5 ← with_amr p4 wire.amr
  actor ← try_optional_actor wire.actor
  p6 ← with_times (with_actor p5 actor) wire.auth_time wire.expires_at
  with_session_id p6 wire.session_id

-- The `match` on the state and the identity fields.
pub try_identity :
    Bytes
    → List Bytes
    → WireState
    → Option WirePrincipal
    → Option Bytes
    → Option Bytes
    → Result MetadataError AuthContextV1
unfolding try_principal
try_identity service_id audiences WireState.anonymous none none none =
    anonymous_context service_id audiences
try_identity service_id audiences WireState.authenticated (some wire) (some decision_id)
      (some policy_revision) =
    do
      principal ← try_principal wire
      authenticated_context service_id audiences principal decision_id policy_revision
try_identity _ _ _ _ _ _ = err invalid_schema

-- `TryFrom<WireContextOwned> for AuthContextV1`
unfoldable pub try_context : WireContext → Result MetadataError AuthContextV1
unfolding try_identity
try_context wire =
    if not (wire.version == auth_context_version)
    then err (unsupported_version wire.version)
    else try_identity wire.service_id wire.audiences wire.state wire.principal wire.decision_id
        wire.policy_revision
