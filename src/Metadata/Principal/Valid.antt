-- ===== src/Metadata/Principal/Valid.antt =====
-- The invariant of a principal: each builder establishes its part of it and keeps the rest, and a
-- valid principal is rebuilt from its own fields.
use wasi_http_middleware.Prelude.{
  ℕ, ◌≤◌, true, false, List, [], ◌≡◌, refl, ap, ◌∙◌, arith, ltb, Bytes, codes, Option, none, some,
  Result, ok, err, ◌>>=◌, >>=-eq-ok, if◌then◌else◌, if_err-eq-ok, ok-injective,
}
use wasi_http_middleware.Metadata.{
  MetadataError, invalid_collection, is_valid_text, validate_text, validated_tokens,
  max_identity_value_len, max_context_value_len, max_session_value_len, max_scope_value_len,
}
use wasi_http_middleware.Metadata.Field.{
  IsTokens, validate_text-eq-ok, validate_text_of_valid, validated_tokens-IsTokens,
}
use wasi_http_middleware.Metadata.Principal.{
  ActorV1, new_actor, PrincipalV1, new_principal, validate_optional, with_tenant_id, with_roles,
  total_length, scopes_len, with_scopes, with_acr, with_amr, with_actor, is_reversed, with_times,
  with_session_id,
}

-- A text field that is absent or valid.
abbrev pub IsOptionalText : Option Bytes → ℕ → Type 0
IsOptionalText none maximum = Unit
IsOptionalText (some value) maximum = is_valid_text value maximum ≡ true

pub record IsValidActor (a : ActorV1) : Type 0 where
  pub issuer : is_valid_text a.issuer max_identity_value_len ≡ true
  pub subject : is_valid_text a.subject max_identity_value_len ≡ true

abbrev pub IsOptionalActor : Option ActorV1 → Type 0
IsOptionalActor none = Unit
IsOptionalActor (some a) = IsValidActor a

pub record IsValidPrincipal (p : PrincipalV1) : Type 0 where
  pub issuer : is_valid_text p.issuer max_identity_value_len ≡ true
  pub subject : is_valid_text p.subject max_identity_value_len ≡ true
  pub tenant_id : IsOptionalText p.tenant_id max_identity_value_len
  pub roles : IsTokens p.roles
  pub scopes : IsTokens p.scopes
  pub scopes_bounded : scopes_len p.scopes ≤ max_scope_value_len
  pub acr : IsOptionalText p.acr max_context_value_len
  pub amr : IsTokens p.amr
  pub actor : IsOptionalActor p.actor
  pub times : is_reversed p.auth_time p.expires_at ≡ false
  pub session_id : IsOptionalText p.session_id max_session_value_len

validate_optional-eq-ok :
    (field : Bytes) (value : Option Bytes) (maximum : ℕ) {u : Unit {0}}
    → validate_optional field value maximum ≡ ok u
    → IsOptionalText value maximum
validate_optional-eq-ok field none maximum h = tt
validate_optional-eq-ok field (some value) maximum h = validate_text-eq-ok field value maximum h

pub validate_optional_of_IsOptionalText :
    (field : Bytes) (value : Option Bytes) (maximum : ℕ)
    → IsOptionalText value maximum
    → validate_optional field value maximum ≡ ok tt
validate_optional_of_IsOptionalText field none maximum h = refl
validate_optional_of_IsOptionalText field (some value) maximum h =
    validate_text_of_valid field value maximum h

abbrev pub done : {A : Type 0} → A → Result MetadataError A
done r = ok r

-- Two texts validated in turn.
pub two_texts-eq-ok :
    {A : Type 0} (f g a b : Bytes) (n : ℕ) {r c : A}
    → (validate_text f a n >>= λ _. validate_text g b n >>= λ _. done r) ≡ ok c
    → (is_valid_text a n ≡ true) × (is_valid_text b n ≡ true) × (r ≡ c)
two_texts-eq-ok f g a b n {r} h =
    let (_, first, h') =
      >>=-eq-ok (validate_text f a n) (λ _. validate_text g b n >>= λ _. ok r) h in
    let (_, second, same) = >>=-eq-ok (validate_text g b n) (λ _. ok r) h' in
    (validate_text-eq-ok f a n first, validate_text-eq-ok g b n second, cc)

pub two_texts_of_valid :
    {A : Type 0} (f g a b : Bytes) (n : ℕ) (r : A)
    → is_valid_text a n ≡ true
    → is_valid_text b n ≡ true
    → (validate_text f a n >>= λ _. validate_text g b n >>= λ _. done r) ≡ ok r
two_texts_of_valid f g a b n r h k =
    ap (λ m. m >>= λ _. validate_text g b n >>= λ _. ok r) (validate_text_of_valid f a n h)
    ∙ ap (λ m. m >>= λ _. ok r) (validate_text_of_valid g b n k)

pub new_actor-IsValidActor :
    (issuer subject : Bytes) {a : ActorV1} → new_actor issuer subject ≡ ok a → IsValidActor a
unfolding new_actor
new_actor-IsValidActor issuer subject h =
    let (i, s, same) =
      two_texts-eq-ok (codes "actor.issuer") (codes "actor.subject") issuer subject
        max_identity_value_len h in
    rw (← same) (record { issuer = i; subject = s })

pub new_actor_of_IsValidActor : {a : ActorV1} → IsValidActor a → new_actor a.issuer a.subject ≡ ok a
unfolding new_actor
new_actor_of_IsValidActor {a} v =
    two_texts_of_valid (codes "actor.issuer") (codes "actor.subject") a.issuer a.subject
      max_identity_value_len a v.issuer v.subject

nil-IsTokens : IsTokens []
nil-IsTokens = record { canonical = tt; tokens = refl; bounded = omega arith }

pub new_principal-IsValidPrincipal :
    (issuer subject : Bytes) {p : PrincipalV1}
    → new_principal issuer subject ≡ ok p
    → IsValidPrincipal p
unfolding new_principal total_length
new_principal-IsValidPrincipal issuer subject h =
    let (i, s, same) =
      two_texts-eq-ok (codes "issuer") (codes "subject") issuer subject max_identity_value_len h in
    rw (← same) (record {
      issuer = i;
      subject = s;
      tenant_id = tt;
      roles = nil-IsTokens;
      scopes = nil-IsTokens;
      scopes_bounded = omega arith;
      acr = tt;
      amr = nil-IsTokens;
      actor = tt;
      times = refl;
      session_id = tt;
    })

module _ {p : PrincipalV1} (v : IsValidPrincipal p) where
  pub with_tenant_id-IsValidPrincipal :
      (value : Option Bytes) {q : PrincipalV1} → with_tenant_id p value ≡ ok q → IsValidPrincipal q
  unfolding with_tenant_id
  with_tenant_id-IsValidPrincipal value h =
      let (_, valid, same) =
        >>=-eq-ok (validate_optional (codes "tenant_id") value max_identity_value_len)
          (λ _. ok (record p { tenant_id = value })) h in
      let text = validate_optional-eq-ok (codes "tenant_id") value max_identity_value_len valid in
      rw (← ok-injective same) (assumption)

  pub with_roles-IsValidPrincipal :
      (values : List Bytes) {q : PrincipalV1} → with_roles p values ≡ ok q → IsValidPrincipal q
  unfolding with_roles
  with_roles-IsValidPrincipal values h =
      let (out, valid, same) =
        >>=-eq-ok (validated_tokens (codes "roles") values) (λ out. ok (record p { roles = out }))
          h in
      let tokens = validated_tokens-IsTokens (codes "roles") values valid in
      rw (← ok-injective same) (assumption)

  pub with_scopes-IsValidPrincipal :
      (values : List Bytes) {q : PrincipalV1} → with_scopes p values ≡ ok q → IsValidPrincipal q
  unfolding with_scopes
  with_scopes-IsValidPrincipal values h =
      let (out, valid, h') =
        >>=-eq-ok (validated_tokens (codes "scopes") values)
          (λ out.
            if ltb max_scope_value_len (scopes_len out)
            then err (invalid_collection (codes "scopes"))
            else ok (record p { scopes = out }))
          h in
      let (long, same) = if_err-eq-ok (ltb max_scope_value_len (scopes_len out)) _ h' in
      let tokens = validated_tokens-IsTokens (codes "scopes") values valid in
      let bound : scopes_len out ≤ max_scope_value_len = ground arith in
      rw (← ok-injective same) (assumption)

  pub with_acr-IsValidPrincipal :
      (value : Option Bytes) {q : PrincipalV1} → with_acr p value ≡ ok q → IsValidPrincipal q
  unfolding with_acr
  with_acr-IsValidPrincipal value h =
      let (_, valid, same) =
        >>=-eq-ok (validate_optional (codes "acr") value max_context_value_len)
          (λ _. ok (record p { acr = value })) h in
      let text = validate_optional-eq-ok (codes "acr") value max_context_value_len valid in
      rw (← ok-injective same) (assumption)

  pub with_amr-IsValidPrincipal :
      (values : List Bytes) {q : PrincipalV1} → with_amr p values ≡ ok q → IsValidPrincipal q
  unfolding with_amr
  with_amr-IsValidPrincipal values h =
      let (out, valid, same) =
        >>=-eq-ok (validated_tokens (codes "amr") values) (λ out. ok (record p { amr = out })) h in
      let tokens = validated_tokens-IsTokens (codes "amr") values valid in
      rw (← ok-injective same) (assumption)

  pub with_actor-IsValidPrincipal :
      (actor : Option ActorV1) → IsOptionalActor actor → IsValidPrincipal (with_actor p actor)
  unfolding with_actor
  with_actor-IsValidPrincipal actor h = assumption

  pub with_times-IsValidPrincipal :
      (auth_time expires_at : Option ℕ) {q : PrincipalV1}
      → with_times p auth_time expires_at ≡ ok q
      → IsValidPrincipal q
  unfolding with_times
  with_times-IsValidPrincipal auth_time expires_at h =
      let (ordered, same) = if_err-eq-ok (is_reversed auth_time expires_at) _ h in
      rw (← ok-injective same) (assumption)

  pub with_session_id-IsValidPrincipal :
      (value : Option Bytes) {q : PrincipalV1} → with_session_id p value ≡ ok q → IsValidPrincipal q
  unfolding with_session_id
  with_session_id-IsValidPrincipal value h =
      let (_, valid, same) =
        >>=-eq-ok (validate_optional (codes "session_id") value max_session_value_len)
          (λ _. ok (record p { session_id = value })) h in
      let text = validate_optional-eq-ok (codes "session_id") value max_session_value_len valid in
      rw (← ok-injective same) (assumption)
