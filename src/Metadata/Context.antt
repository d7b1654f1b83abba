-- ===== src/Metadata/Context.antt =====
-- `AuthStateV1` and `AuthContextV1` with its two constructors.
pub mod Valid
use wasi_http_middleware.Prelude.{
  Bool, List, Bytes, codes, Option, none, some, Result, ok, err, ◌>>=◌, ◌>>◌,
}
use wasi_http_middleware.Metadata.{
  MetadataError, validate_text, validated_deployment, max_context_value_len,
}
use wasi_http_middleware.Metadata.Principal.{PrincipalV1}

pub data AuthStateV1 : Type 0 where
  anonymous authenticated : AuthStateV1

pub record AuthContextV1 : Type 0 where
  pub state : AuthStateV1
  pub service_id : Bytes
  pub audiences : List Bytes
  pub principal : Option PrincipalV1
  pub decision_id : Option Bytes
  pub policy_revision : Option Bytes

-- `AuthContextV1::anonymous`
unfoldable pub anonymous_context : Bytes → List Bytes → Result MetadataError AuthContextV1
anonymous_context service_id audiences = do
  deployment ← validated_deployment service_id audiences
  ok (record {
    state = anonymous;
    service_id = deployment.0;
    audiences = deployment.1;
    principal = none;
    decision_id = none;
    policy_revision = none;
  })

-- `AuthContextV1::authenticated`
unfoldable pub authenticated_context :
    Bytes → List Bytes → PrincipalV1 → Bytes → Bytes → Result MetadataError AuthContextV1
authenticated_context service_id audiences principal decision_id policy_revision = do
  deployment ← validated_deployment service_id audiences
  validate_text (codes "decision_id") decision_id max_context_value_len
  validate_text (codes "policy_revision") policy_revision max_context_value_len
  ok (record {
    state = authenticated;
    service_id = deployment.0;
    audiences = deployment.1;
    principal = some principal;
    decision_id = some decision_id;
    policy_revision = some policy_revision;
  })
