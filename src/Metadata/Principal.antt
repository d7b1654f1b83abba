-- ===== src/Metadata/Principal.antt =====
-- `ActorV1` and `PrincipalV1` with their builders.
pub mod Valid
pub mod Rebuild
use wasi_http_middleware.Prelude.{
  ℕ, ◌+◌, ◌-◌, Bool, true, false, not, ◌&&◌, List, [], ◌∷◌, Bytes, codes, length, leb, ltb,
  is_empty, Option, none, some, Result, ok, err, ◌>>=◌, ◌>>◌, if◌then◌else◌,
}
use wasi_http_middleware.Metadata.{
  MetadataError, invalid_time_range, invalid_collection, validate_text, validated_tokens,
  max_identity_value_len, max_context_value_len, max_session_value_len, max_scope_value_len,
}

pub record ActorV1 : Type 0 where
  pub issuer : Bytes
  pub subject : Bytes

-- `ActorV1::new`
unfoldable pub new_actor : Bytes → Bytes → Result MetadataError ActorV1
new_actor issuer subject = do
  validate_text (codes "actor.issuer") issuer max_identity_value_len
  validate_text (codes "actor.subject") subject max_identity_value_len
  ok (record { issuer = issuer; subject = subject })

pub record PrincipalV1 : Type 0 where
  pub issuer : Bytes
  pub subject : Bytes
  pub tenant_id : Option Bytes
  pub roles : List Bytes
  pub scopes : List Bytes
  pub acr : Option Bytes
  pub amr : List Bytes
  pub actor : Option ActorV1
  pub auth_time : Option ℕ
  pub expires_at : Option ℕ
  pub session_id : Option Bytes

-- `PrincipalV1::new`
unfoldable pub new_principal : Bytes → Bytes → Result MetadataError PrincipalV1
new_principal issuer subject = do
  validate_text (codes "issuer") issuer max_identity_value_len
  validate_text (codes "subject") subject max_identity_value_len
  ok (record {
    issuer = issuer;
    subject = subject;
    tenant_id = none;
    roles = [];
    scopes = [];
    acr = none;
    amr = [];
    actor = none;
    auth_time = none;
    expires_at = none;
    session_id = none;
  })

-- `if let Some(value) = &field { validate_text(...)?; }`
abbrev pub validate_optional : Bytes → Option Bytes → ℕ → Result MetadataError (Unit {0})
validate_optional field none maximum = ok tt
validate_optional field (some value) maximum = validate_text field value maximum

unfoldable pub with_tenant_id : PrincipalV1 → Option Bytes → Result MetadataError PrincipalV1
with_tenant_id p tenant_id = do
  validate_optional (codes "tenant_id") tenant_id max_identity_value_len
  ok (record p { tenant_id = tenant_id })

unfoldable pub with_roles : PrincipalV1 → List Bytes → Result MetadataError PrincipalV1
with_roles p roles = do
  roles ← validated_tokens (codes "roles") roles
  ok (record p { roles = roles })

-- The length of the scopes joined by single spaces.
unfoldable pub total_length : List Bytes → ℕ
total_length [] = 0
total_length (s ∷ ss) = length s + total_length ss

abbrev pub scopes_len : List Bytes → ℕ
scopes_len scopes = total_length scopes + (length scopes - 1)

unfoldable pub with_scopes : PrincipalV1 → List Bytes → Result MetadataError PrincipalV1
unfolding total_length
with_scopes p scopes = do
  scopes ← validated_tokens (codes "scopes") scopes
  if ltb max_scope_value_len (scopes_len scopes)
      then err (invalid_collection (codes "scopes"))
      else ok (record p { scopes = scopes })

unfoldable pub with_acr : PrincipalV1 → Option Bytes → Result MetadataError PrincipalV1
with_acr p acr = do
  validate_optional (codes "acr") acr max_context_value_len
  ok (record p { acr = acr })

unfoldable pub with_amr : PrincipalV1 → List Bytes → Result MetadataError PrincipalV1
with_amr p amr = do amr ← validated_tokens (codes "amr") amr; ok (record p { amr = amr })

unfoldable pub with_actor : PrincipalV1 → Option ActorV1 → PrincipalV1
with_actor p actor = record p { actor = actor }

-- `auth_time.zip(expires_at).is_some_and(|(auth, expiry)| expiry <= auth)`
abbrev pub is_reversed : Option ℕ → Option ℕ → Bool
is_reversed (some auth) (some expiry) = leb expiry auth
is_reversed none expires_at = false
is_reversed (some auth) none = false

unfoldable pub with_times : PrincipalV1 → Option ℕ → Option ℕ → Result MetadataError PrincipalV1
with_times p auth_time expires_at =
    if is_reversed auth_time expires_at
    then err invalid_time_range
    else ok (record p { auth_time = auth_time; expires_at = expires_at })

unfoldable pub with_session_id : PrincipalV1 → Option Bytes → Result MetadataError PrincipalV1
with_session_id p session_id = do
  validate_optional (codes "session_id") session_id max_session_value_len
  ok (record p { session_id = session_id })
