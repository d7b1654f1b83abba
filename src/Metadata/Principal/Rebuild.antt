-- ===== src/Metadata/Principal/Rebuild.antt =====
-- The builders accept what is valid, and then set the field and no other.
use wasi_http_middleware.Prelude.{
  ℕ, ◌≤◌, true, false, List, [], ◌≡◌, ap, ◌∙◌, arith, ltb, Bytes, codes, Option, none, ok, err,
  ◌>>=◌, if◌then◌else◌, if_false,
}
use wasi_http_middleware.Metadata.{
  invalid_collection, max_identity_value_len, max_context_value_len, max_session_value_len,
  max_scope_value_len,
}
use wasi_http_middleware.Metadata.Field.{IsTokens, validated_tokens_of_IsTokens}
use wasi_http_middleware.Metadata.Principal.{
  PrincipalV1, new_principal, with_tenant_id, with_roles, scopes_len, with_scopes, with_acr,
  with_amr, is_reversed, with_times, with_session_id,
}
use wasi_http_middleware.Metadata.Principal.Valid.{
  IsOptionalText, two_texts_of_valid, validate_optional_of_IsOptionalText,
}
use wasi_http_middleware.Metadata.{is_valid_text}

-- What `PrincipalV1::new` returns.
abbrev pub bare_principal : Bytes → Bytes → PrincipalV1
bare_principal issuer subject = record {
  issuer = issuer;
  subject = subject;
  tenant_id = none;
  roles = [];
  scopes = [];
  acr = none;
  amr = [];
  actor = none;
  auth_time = none;
  expires_at = none;
  session_id = none;
}

pub new_principal_of_valid :
    (issuer subject : Bytes)
    → is_valid_text issuer max_identity_value_len ≡ true
    → is_valid_text subject max_identity_value_len ≡ true
    → new_principal issuer subject ≡ ok (bare_principal issuer subject)
unfolding new_principal
new_principal_of_valid issuer subject =
    two_texts_of_valid (codes "issuer") (codes "subject") issuer subject max_identity_value_len
      (bare_principal issuer subject)

module _ (p : PrincipalV1) where
  pub with_tenant_id_of_valid :
      (value : Option Bytes)
      → IsOptionalText value max_identity_value_len
      → with_tenant_id p value ≡ ok (record p { tenant_id = value })
  unfolding with_tenant_id
  with_tenant_id_of_valid value h =
      ap (λ m. m >>= λ _. ok (record p { tenant_id = value }))
        (validate_optional_of_IsOptionalText (codes "tenant_id") value max_identity_value_len h)

  pub with_roles_of_valid :
      (values : List Bytes)
      → IsTokens values
      → with_roles p values ≡ ok (record p { roles = values })
  unfolding with_roles
  with_roles_of_valid values h =
      ap (λ m. m >>= λ out. ok (record p { roles = out }))
        (validated_tokens_of_IsTokens (codes "roles") values h)

  pub with_scopes_of_valid :
      (values : List Bytes)
      → IsTokens values
      → scopes_len values ≤ max_scope_value_len
      → with_scopes p values ≡ ok (record p { scopes = values })
  unfolding with_scopes
  with_scopes_of_valid values h k =
      let short : ltb max_scope_value_len (scopes_len values) ≡ false = ground arith in
      ap
        (λ m. m >>= λ out.
          if ltb max_scope_value_len (scopes_len out)
          then err (invalid_collection (codes "scopes"))
          else ok (record p { scopes = out }))
        (validated_tokens_of_IsTokens (codes "scopes") values h)
      ∙ if_false _ _ short

  pub with_acr_of_valid :
      (value : Option Bytes)
      → IsOptionalText value max_context_value_len
      → with_acr p value ≡ ok (record p { acr = value })
  unfolding with_acr
  with_acr_of_valid value h =
      ap (λ m. m >>= λ _. ok (record p { acr = value }))
        (validate_optional_of_IsOptionalText (codes "acr") value max_context_value_len h)

  pub with_amr_of_valid :
      (values : List Bytes) → IsTokens values → with_amr p values ≡ ok (record p { amr = values })
  unfolding with_amr
  with_amr_of_valid values h =
      ap (λ m. m >>= λ out. ok (record p { amr = out }))
        (validated_tokens_of_IsTokens (codes "amr") values h)

  pub with_times_of_valid :
      (auth_time expires_at : Option ℕ)
      → is_reversed auth_time expires_at ≡ false
      → with_times p auth_time expires_at
        ≡ ok (record p { auth_time = auth_time; expires_at = expires_at })
  unfolding with_times
  with_times_of_valid auth_time expires_at h = if_false _ _ h

  pub with_session_id_of_valid :
      (value : Option Bytes)
      → IsOptionalText value max_session_value_len
      → with_session_id p value ≡ ok (record p { session_id = value })
  unfolding with_session_id
  with_session_id_of_valid value h =
      ap (λ m. m >>= λ _. ok (record p { session_id = value }))
        (validate_optional_of_IsOptionalText (codes "session_id") value max_session_value_len h)
