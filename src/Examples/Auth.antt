-- ===== src/Examples/Auth.antt =====
-- Runs of crates/metadata/src/lib.rs and of the broker's answer in crates/policy-core/src/lib.rs.
use wasi_http_middleware.Prelude.{
  ℕ, zero, suc, List, [], ◌∷◌, ◌≡◌, ◌↔◌, refl, Bytes, codes, none, some, ok, if◌then◌else◌, ◌=b◌,
}
use wasi_http_middleware.Text.{sort, dedup}
use wasi_http_middleware.Metadata.{
  auth_context_header, validated_deployment, validate_text, validated_tokens,
}
use wasi_http_middleware.Metadata.Field.{IsDeployment, validated_deployment-IsDeployment}
use wasi_http_middleware.Metadata.Principal.{
  new_principal, with_tenant_id, with_roles, with_scopes, with_acr, with_amr, with_times,
  with_session_id,
}
use wasi_http_middleware.Metadata.Context.{AuthContextV1, AuthStateV1, anonymous_context}
use wasi_http_middleware.Metadata.Context.Valid.{
  IsValidContext, anonymous_context-IsValidContext, authenticated_of,
}
use wasi_http_middleware.Metadata.Wire.{try_context}
use wasi_http_middleware.Metadata.Codec.{encode_auth_context, decode_auth_context}
use wasi_http_middleware.Metadata.Codec.Laws.{decode-encode_auth_context}
use wasi_http_middleware.Metadata.Headers.{is_reserved, insert_auth_context, parse_auth_context}
use wasi_http_middleware.Metadata.Headers.Laws.{
  get_all-insert_auth_context, parse-insert_auth_context, parse_auth_context-IsValidContext,
}
use wasi_http_middleware.Policy.Claims.{
  AuthnSuccessV1, AuthenticatedClaimsV1, into_context, unauthenticated, parse_authn_response,
}
use wasi_http_middleware.Policy.Claims.Laws.{
  IsTrusted, parse_authn_response-IsTrusted, parse_authn_response_unauthenticated_iff,
  into_context_of_valid,
}
use wasi_http_middleware.Examples.Http.{http, http_laws, Field}
use wasi_http_middleware.Examples.Codecs.{codecs, codec_laws}

abbrev pub sample : AuthContextV1
sample = record {
  state = AuthStateV1.anonymous;
  service_id = codes "s";
  audiences = codes "a" ∷ [];
  principal = none;
  decision_id = none;
  policy_revision = none;
}

pub sample-IsValidContext : IsValidContext sample
unfolding anonymous_context sort dedup validated_deployment
sample-IsValidContext = (anonymous_context-IsValidContext (codes "s") (codes "a" ∷ []) refl).0

-- The encoded text of the sample: 115 and 97 stand for `s` and `a`.
abbrev pub many : ℕ → Bytes → Bytes
many zero rest = rest
many (suc n) rest = b'A' ∷ many n rest

abbrev pub encoded : Bytes
encoded = many 1 (b'B' ∷ many 1 (b'B' ∷ many 115 (b'B' ∷ b'B' ∷ many 97 (b'B' ∷ []))))

encoded-decodes : decode_auth_context http codecs encoded ≡ ok sample
unfolding codecs encode_auth_context
encoded-decodes =
    decode-encode_auth_context http codecs http_laws codec_laws sample encoded sample-IsValidContext
      refl

decode-encode_auth_context_example : decode_auth_context http codecs encoded ≡ ok sample
unfolding codecs encode_auth_context
decode-encode_auth_context_example =
    decode-encode_auth_context http codecs http_laws codec_laws sample encoded sample-IsValidContext
      refl

-- A caller's own fields, one with a reserved name.
abbrev pub incoming : List Field
incoming = (codes "accept", codes "a") ∷ (codes "x-wasi-auth-user", codes "root") ∷ []

abbrev inserted : List Field
inserted = (codes "accept", codes "a") ∷ (auth_context_header, encoded) ∷ []

get_all-insert_auth_context_example :
    http.get_all ((insert_auth_context http codecs incoming sample).0) (codes "accept") ≡ (
      if auth_context_header =b codes "accept"
      then encoded ∷ []
      else if is_reserved (codes "accept")
      then []
      else http.get_all incoming (codes "accept"))
unfolding codecs encode_auth_context
get_all-insert_auth_context_example =
    get_all-insert_auth_context http http_laws codecs incoming sample encoded (codes "accept") refl

parse-insert_auth_context_example :
    parse_auth_context http codecs ((insert_auth_context http codecs incoming sample).0) ≡ ok sample
unfolding codecs insert_auth_context
parse-insert_auth_context_example =
    parse-insert_auth_context http http_laws codecs codec_laws incoming sample sample-IsValidContext
      refl

abbrev success : AuthnSuccessV1
success = record {
  version = 1;
  subject = codes "user";
  issuer = codes "broker";
  tenant_id = none;
  roles = codes "writer" ∷ codes "reader" ∷ [];
  scopes = [];
  acr = none;
  amr = [];
  actor = none;
  auth_time = some 10;
  expires_at = some 20;
  session_id = none;
  decision_id = codes "d";
  policy_revision = codes "r";
}

abbrev pub accepted : AuthenticatedClaimsV1
accepted = record {
  principal = record {
    issuer = codes "broker";
    subject = codes "user";
    tenant_id = none;
    roles = codes "reader" ∷ codes "writer" ∷ [];
    scopes = [];
    acr = none;
    amr = [];
    actor = none;
    auth_time = some 10;
    expires_at = some 20;
    session_id = none;
  };
  decision_id = codes "d";
  policy_revision = codes "r";
}

accepted-IsTrusted : IsTrusted (λ body. some success) 200 [] accepted
unfolding parse_authn_response new_principal validate_text with_tenant_id with_roles
    validated_tokens with_scopes with_acr with_amr with_times with_session_id validated_deployment
accepted-IsTrusted = parse_authn_response-IsTrusted (λ body. some success) 200 [] accepted refl

parse_authn_response-IsTrusted_example : IsTrusted (λ body. some success) 200 [] accepted
unfolding parse_authn_response new_principal validate_text with_tenant_id with_roles
    validated_tokens with_scopes with_acr with_amr with_times with_session_id validated_deployment
parse_authn_response-IsTrusted_example =
    parse_authn_response-IsTrusted (λ body. some success) 200 [] accepted refl

abbrev unauthorized : ℕ
unauthorized = 401

parse_authn_response_unauthenticated_iff_example :
    (parse_authn_response (λ body. some success) unauthorized [] ≡ unauthenticated)
    ↔ (unauthorized ≡ 401)
parse_authn_response_unauthenticated_iff_example =
    parse_authn_response_unauthenticated_iff (λ body. some success) unauthorized []

deployed : IsDeployment (codes "s") (codes "a" ∷ [])
unfolding validated_deployment sort dedup
deployed = validated_deployment-IsDeployment (codes "s") (codes "a" ∷ []) refl

into_context_of_valid_example :
    (into_context accepted (codes "s") (codes "a" ∷ [])
      ≡ ok (
          authenticated_of
            (codes "s", codes "a" ∷ [])
            accepted.principal
            accepted.decision_id
            accepted.policy_revision))
    × IsValidContext (
        authenticated_of
          (codes "s", codes "a" ∷ [])
          accepted.principal
          accepted.decision_id
          accepted.policy_revision)
into_context_of_valid_example =
    into_context_of_valid accepted (codes "s") (codes "a" ∷ []) (accepted-IsTrusted.valid) deployed

parse_auth_context-IsValidContext_example :
    IsValidContext sample
    × ((v : Bytes) × (http.get_all inserted auth_context_header ≡ v ∷ [])
        × (decode_auth_context http codecs v ≡ ok sample))
unfolding codecs parse_auth_context decode_auth_context try_context anonymous_context
    validated_deployment
parse_auth_context-IsValidContext_example =
    parse_auth_context-IsValidContext http http_laws codecs inserted sample encoded-decodes
