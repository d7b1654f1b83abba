-- ===== src/Components/Trusted.antt =====
-- The headers of a request that an authenticating component passes on: one description for
-- components/authn-policy, which edits a list of fields, and components/secure-defaults, which edits the
-- host's fields.
use wasi_http_middleware.Prelude.{
  Bool, true, false, ◌&&◌, ◌||◌, List, [], ◌∷◌, ◌++◌, ◌≡◌, inl, inr, refl, sym, ◌∙◌, arith, Bytes,
  any, if◌then◌else◌, Bool-cases, ◌=b◌,
}
use wasi_http_middleware.Text.{
  to_ascii_lowercase, lower, eq_ignore_ascii_case, eq_ignore_ascii_case_comm,
  eq_ignore_ascii_case_congr,
}
use wasi_http_middleware.Metadata.{request_id_header, auth_context_header, reserved_auth_prefix}
use wasi_http_middleware.Policy.Credentials.{authorization}
use wasi_http_middleware.ComponentSupport.HeaderList.{
  Header, is_named, header_values, has_prefix, contains_header_name, remove_header,
  remove_headers_with_prefix, set_header,
}
use wasi_http_middleware.ComponentSupport.HeaderList.Laws.{
  header_values_of_absent, contains_header_name_congr, header_values-remove_header,
  header_values-set_header,
}
use wasi_http_middleware.ComponentSupport.HeaderList.Prefix.{
  has_prefix_congr, header_values-remove_headers_with_prefix,
}
use wasi_http_middleware.ComponentSupport.Fields.Diff.{mentions}
use wasi_http_middleware.ComponentSupport.Messages.Forward.{edited}
use wasi_http_middleware.Components.AuthnPolicy.{trusted_fields}
use wasi_http_middleware.Components.SecureDefaults.{reserved_names, untrusted_names}
use wasi_http_middleware.Components.SecureDefaults.Handle.{trusted_replacements}

-- What a name is left with: one identifier, one context, no credential, nothing else that is reserved, and
-- its own values under every other name. Names are compared without regard to case.
abbrev pub trusted_values : Bytes → Bytes → (Bytes → List Bytes) → Bytes → List Bytes
trusted_values context request_id before name =
    if eq_ignore_ascii_case request_id_header name
    then request_id ∷ []
    else if eq_ignore_ascii_case auth_context_header name
    then context ∷ []
    else if eq_ignore_ascii_case authorization name || has_prefix reserved_auth_prefix name
    then []
    else before name

pub header_values-trusted_fields :
    (fields : List Header) (context request_id name : Bytes)
    → header_values (trusted_fields fields context request_id) name
      ≡ trusted_values context request_id (header_values fields) name
unfolding trusted_fields
header_values-trusted_fields fields context request_id name =
    let bare = remove_header fields authorization in
    let clean = remove_headers_with_prefix bare reserved_auth_prefix in
    let named = set_header clean auth_context_header context in
    ground (
      arith,
      header_values-set_header named request_id_header request_id name,
      header_values-set_header clean auth_context_header context name,
      header_values-remove_headers_with_prefix bare reserved_auth_prefix name,
      header_values-remove_header fields authorization name,
    )

pub mentions-reserved_names :
    (fields : List Header) (name : Bytes)
    → mentions (reserved_names fields) name
      ≡ (has_prefix reserved_auth_prefix name && contains_header_name fields name)
unfolding reserved_names contains_header_name is_named
mentions-reserved_names [] name = ground arith
mentions-reserved_names (header ∷ fields) name =
    let ih = mentions-reserved_names fields name in
    elim (Bool-cases (eq_ignore_ascii_case header.name name)) [
      | inl e ↦
          let same = has_prefix_congr reserved_auth_prefix header.name name e in
          elim (Bool-cases (has_prefix reserved_auth_prefix header.name)) [
            | inl p ↦ rw (p, e, ← same) (rw p refl)
            | inr p ↦ rw (p, e) (ih ∙ rw (sym same ∙ p) refl)
          ]
      | inr e ↦ elim (Bool-cases (has_prefix reserved_auth_prefix header.name)) [
        | inl p ↦ rw (p, e) ih
        | inr p ↦ rw (p, e) ih
      ]
    ]

mentions-append :
    (xs ys : List Bytes) (name : Bytes)
    → mentions (xs ++ ys) name ≡ (mentions xs name || mentions ys name)
mentions-append [] ys name = refl
mentions-append (x ∷ xs) ys name = ground (arith, mentions-append xs ys name)

mentions-untrusted_names :
    (fields : List Header) (name : Bytes)
    → mentions (untrusted_names fields) name ≡ (
        (contains_header_name fields authorization && eq_ignore_ascii_case authorization name)
        || (has_prefix reserved_auth_prefix name && contains_header_name fields name))
unfolding untrusted_names contains_header_name
mentions-untrusted_names fields name = elim (Bool-cases (any (is_named authorization) fields)) [
  | inl e ↦ rw (e) (ground (arith, mentions-reserved_names fields name))
  | inr e ↦ rw (e) (mentions-reserved_names fields name)
]

-- The two replacements have different names.
distinct :
    (name : Bytes)
    → eq_ignore_ascii_case auth_context_header name ≡ true
    → eq_ignore_ascii_case request_id_header name ≡ false
unfolding eq_ignore_ascii_case to_ascii_lowercase lower ◌=b◌
distinct name h =
    eq_ignore_ascii_case_comm request_id_header name
    ∙ sym (eq_ignore_ascii_case_congr auth_context_header name request_id_header h)

-- A name that is deleted only where it occurs has no values either way.
conclude :
    (a h p c : Bool) (values : List Bytes)
    → (c ≡ false → values ≡ [])
    → (a ≡ true → h ≡ c)
    → (if (h && a) || (p && c) then [] else values) ≡ (if a || p then [] else values)
conclude true true p c values absent same = refl
conclude true false true true values absent same = refl
conclude true false true false values absent same = absent refl
conclude true false false c values absent same = absent (sym (same refl))
conclude false true true true values absent same = refl
conclude false true true false values absent same = absent refl
conclude false true false c values absent same = refl
conclude false false true true values absent same = refl
conclude false false true false values absent same = absent refl
conclude false false false c values absent same = refl

-- The edit of the host's fields leaves the same values under every name as the edit of the list.
pub edited-untrusted_names :
    (fields : List Header) (context request_id name : Bytes)
    → edited
        (untrusted_names fields)
        (trusted_replacements context request_id)
        (header_values fields)
        name
      ≡ trusted_values context request_id (header_values fields) name
unfolding contains_header_name header_values is_named
edited-untrusted_names fields context request_id name =
    let deleted =
      conclude (eq_ignore_ascii_case authorization name) (contains_header_name fields authorization)
        (has_prefix reserved_auth_prefix name) (contains_header_name fields name)
        (header_values fields name) (header_values_of_absent fields name)
        (contains_header_name_congr fields authorization name) in
    elim (Bool-cases (eq_ignore_ascii_case auth_context_header name)) [
      | inl e ↦ rw (e, distinct name e) refl
      | inr e ↦ elim (Bool-cases (eq_ignore_ascii_case request_id_header name)) [
        | inl e1 ↦ rw (e, e1) refl
        | inr e1 ↦ rw (e, e1, mentions-untrusted_names fields name) deleted
      ]
    ]
