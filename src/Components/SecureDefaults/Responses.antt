-- ===== src/Components/SecureDefaults/Responses.antt =====
-- What every response of components/secure-defaults carries.
use wasi_http_middleware.Prelude.{
  true, false, List, [], ◌∷◌, ◌++◌, append-nil, ◌≡◌, inl, inr, refl, ap, ◌∙◌, arith, Bytes, codes,
  Option, none, some, ◌=b◌, ok, if◌then◌else◌, if_true, if_false, Bool-cases,
}
use wasi_http_middleware.Text.{lower, to_ascii_lowercase, eq_ignore_ascii_case}
use wasi_http_middleware.HttpCrate.{HttpCrate, IsHttpCrate}
use wasi_http_middleware.Metadata.{request_id_header, reserved_auth_prefix}
use wasi_http_middleware.Policy.SecurityHeaders.{content_type_options, referrer_policy}
use wasi_http_middleware.Policy.Cors.Names.{HasCorsNames}
use wasi_http_middleware.ComponentSupport.HeaderList.{
  Header, is_named, header_values, has_prefix, get_prefix, contains_header_name,
}
use wasi_http_middleware.ComponentSupport.HeaderList.Laws.{
  header_values-append, header_values_of_absent, contains_header_name-append,
}
use wasi_http_middleware.ComponentSupport.Fields.Diff.{mentions}
use wasi_http_middleware.ComponentSupport.Messages.{HostHttp, edit_response_headers}
use wasi_http_middleware.ComponentSupport.Messages.Host.{IsHostHttp}
use wasi_http_middleware.ComponentSupport.Messages.Forward.{
  IsReturned, edited, edit_response_headers-IsReturned,
}
use wasi_http_middleware.Components.Trusted.{mentions-reserved_names}
use wasi_http_middleware.Components.SecureDefaults.{
  reserved_names, cors_replacements, request_id_fields, final_fields, finalize_response,
}
use wasi_http_middleware.Components.SecureDefaults.Replacements.{
  is_foreign, unreserved, reserved-is_foreign, cors_replacements-foreign,
}

-- A response with the security headers, and with no reserved header in any spelling.
pub record IsSecured (host : HostHttp) (after : host.Response) : Type 0 where
  pub nosniff :
      host.fields.get (host.response_parts after).headers content_type_options
      ≡ codes "nosniff" ∷ []
  pub referrer :
      host.fields.get (host.response_parts after).headers referrer_policy
      ≡ codes "strict-origin-when-cross-origin" ∷ []
  pub unreserved_names :
      (name : Bytes)
      → has_prefix reserved_auth_prefix name ≡ true
      → host.fields.get (host.response_parts after).headers name ≡ []

-- The replacements that do not come from a decision.
abbrev front : Option Bytes → List Header
front request_id =
    record { name = content_type_options; value = codes "nosniff" }
    ∷ record { name = referrer_policy; value = codes "strict-origin-when-cross-origin" }
    ∷ request_id_fields request_id

front-nosniff :
    (request_id : Option Bytes)
    → header_values (front request_id) content_type_options ≡ codes "nosniff" ∷ []
unfolding header_values is_named eq_ignore_ascii_case to_ascii_lowercase lower ◌=b◌
    request_id_fields
front-nosniff none = refl
front-nosniff (some id) = refl

front-referrer :
    (request_id : Option Bytes)
    → header_values (front request_id) referrer_policy
      ≡ codes "strict-origin-when-cross-origin" ∷ []
unfolding header_values is_named eq_ignore_ascii_case to_ascii_lowercase lower ◌=b◌
    request_id_fields
front-referrer none = refl
front-referrer (some id) = refl

front-holds :
    (request_id : Option Bytes)
    → (contains_header_name (front request_id) content_type_options ≡ true)
      × (contains_header_name (front request_id) referrer_policy ≡ true)
unfolding contains_header_name is_named eq_ignore_ascii_case to_ascii_lowercase lower ◌=b◌
    request_id_fields
front-holds request_id = (refl, refl)

front-unreserved :
    (request_id : Option Bytes) (name : Bytes)
    → has_prefix reserved_auth_prefix name ≡ true
    → contains_header_name (front request_id) name ≡ false
unfolding contains_header_name is_named has_prefix get_prefix eq_ignore_ascii_case
    to_ascii_lowercase lower ◌=b◌ request_id_fields
front-unreserved none name h =
    rw (unreserved content_type_options name refl h, unreserved referrer_policy name refl h) refl
front-unreserved (some id) name h =
    rw
      (
        unreserved content_type_options name refl h,
        unreserved referrer_policy name refl h,
        unreserved request_id_header name refl h,
      )
      refl

module _ {http : HttpCrate} (laws : IsHttpCrate http) {host : HostHttp}
    (on_host : IsHostHttp host) where
  open host use {Response, response_parts, fields}

  module _ (original : List Header) (m : http.HeaderMap) (request_id : Option Bytes) (name : Bytes)
      (held : HasCorsNames laws m) (foreign : is_foreign name ≡ true) where
    contains-final_fields :
        contains_header_name (final_fields http original m request_id) name
        ≡ contains_header_name (front request_id) name
    unfolding final_fields
    contains-final_fields =
        contains_header_name-append (front request_id) (cors_replacements http original m) name
        ∙ ground (arith, cors_replacements-foreign laws m original name held foreign)

    header_values-final_fields :
        header_values (final_fields http original m request_id) name
        ≡ header_values (front request_id) name
    unfolding final_fields
    header_values-final_fields =
        header_values-append (front request_id) (cors_replacements http original m) name
        ∙ ap (λ vs. header_values (front request_id) name ++ vs)
            (header_values_of_absent (cors_replacements http original m) name
              (cors_replacements-foreign laws m original name held foreign))
        ∙ append-nil (header_values (front request_id) name)

  finalize_response-IsReturned :
      (response after : Response) (m : http.HeaderMap) (request_id : Option Bytes)
      → finalize_response http host response m request_id ≡ ok after
      → IsReturned host response after (
          edited
            (reserved_names (host.copy_all (response_parts response).headers))
            (final_fields http (host.copy_all (response_parts response).headers) m request_id)
            (fields.get (response_parts response).headers))
  unfolding finalize_response edit_response_headers
  finalize_response-IsReturned response after m request_id h =
      let original = host.copy_all (response_parts response).headers in
      edit_response_headers-IsReturned on_host response after (reserved_names original)
        (final_fields http original m request_id) h

  -- What `finalize_response` returns is secured, when the map of the decision has names of the protocol
  -- only.
  pub finalize_response-IsSecured :
      (response after : Response) (m : http.HeaderMap) (request_id : Option Bytes)
      → HasCorsNames laws m
      → finalize_response http host response m request_id ≡ ok after
      → IsSecured host after
  unfolding eq_ignore_ascii_case to_ascii_lowercase lower ◌=b◌
  finalize_response-IsSecured response after m request_id held h =
      let s = (response_parts response).headers in
      let original = host.copy_all s in
      let returned = finalize_response-IsReturned response after m request_id h in
      let (has_options, has_referrer) = front-holds request_id in
      record {
        nosniff =
            returned.held content_type_options
            ∙ if_true _ _ (
                contains-final_fields original m request_id content_type_options held refl
                ∙ has_options)
            ∙ header_values-final_fields original m request_id content_type_options held refl
            ∙ front-nosniff request_id;
        referrer =
            returned.held referrer_policy
            ∙ if_true _ _ (
                contains-final_fields original m request_id referrer_policy held refl
                ∙ has_referrer)
            ∙ header_values-final_fields original m request_id referrer_policy held refl
            ∙ front-referrer request_id;
        unreserved_names = λ name reserved.
            returned.held name
            ∙ if_false _ _ (
                contains-final_fields original m request_id name held
                  (reserved-is_foreign name reserved)
                ∙ front-unreserved request_id name reserved)
            ∙ bare original s name reserved;
      }
    where
      bare :
          (original : List Header) (s : fields.State) (name : Bytes)
          → has_prefix reserved_auth_prefix name ≡ true
          → (if mentions (reserved_names (host.copy_all s)) name then [] else fields.get s name)
            ≡ []
      bare original s name reserved =
          elim (Bool-cases (contains_header_name (host.copy_all s) name)) [
            | inl e ↦ rw (mentions-reserved_names (host.copy_all s) name, reserved, e) refl
            | inr e ↦
                rw (mentions-reserved_names (host.copy_all s) name, reserved, e)
                  (on_host.get-copy_all s name ∙ header_values_of_absent (host.copy_all s) name e)
          ]
