-- ===== src/ComponentSupport/Messages.antt =====
-- The functions of crates/component-support/src/lib.rs that rebuild a request or a response around edited
-- headers, and `empty_response`. The host's `request` and `response` resources are parameters: a setter
-- returns the new state. Body and trailers are handed over whole, and the future that reports the
-- transmission is not modelled.
pub mod Host
pub mod Forward
use wasi_http_middleware.Prelude.{
  ℕ, Bool, List, [], ◌∷◌, ◌++◌, ◌≡◌, any, Bytes, codes, Option, none, some, Result, ok, err, ◌>>=◌,
  map_err, if◌then◌else◌,
}
use wasi_http_middleware.ComponentSupport.HeaderList.{Header, header_values, contains_header_name}
use wasi_http_middleware.ComponentSupport.Fields.{HostFields, apply_header_diff, apply_header_edits}

-- `wasip3::http::types::Method`
pub data Method : Type 0 where
  get head post put delete connect options trace patch : Method
  other : Bytes → Method

-- What the getters of a request return, and what `consume-body` takes out of it.
pub record RequestParts (State Scheme Options Body Trailers : Type 0) : Type 0 where
  pub method : Method
  pub scheme : Option Scheme
  pub path_with_query : Option Bytes
  pub authority : Option Bytes
  pub options : Option Options
  pub headers : State
  pub body : Body
  pub trailers : Trailers

pub record ResponseParts (State Body Trailers : Type 0) : Type 0 where
  pub status : ℕ
  pub headers : State
  pub body : Body
  pub trailers : Trailers

-- The part of `wasi:http/types` that the functions call.
pub record HostHttp : Type 1 where
  pub fields : HostFields
  pub copy_all : fields.State → List Header
  pub from_list : List Header → Result fields.HeaderError fields.State
  pub Scheme : Type 0
  pub Options : Type 0
  pub Body : Type 0
  pub Trailers : Type 0
  -- The contents of a message that is made without any
  pub empty_body : Body
  -- The future behind a dropped writer, whose value is `Ok(None)`
  pub no_trailers : Trailers
  pub ErrorCode : Type 0
  pub internal_error : ErrorCode
  pub http_request_header_section_size : ErrorCode
  pub http_response_header_section_size : ErrorCode
  pub Request : Type 0
  pub request_parts : Request → RequestParts fields.State Scheme Options Body Trailers
  pub new_request : fields.State → Option Body → Trailers → Option Options → Request
  pub set_method : Request → Method → Result (Unit {0}) Request
  pub set_scheme : Request → Option Scheme → Result (Unit {0}) Request
  pub set_path_with_query : Request → Option Bytes → Result (Unit {0}) Request
  pub set_authority : Request → Option Bytes → Result (Unit {0}) Request
  pub Response : Type 0
  pub response_parts : Response → ResponseParts fields.State Body Trailers
  pub new_response : fields.State → Option Body → Trailers → Response
  pub set_status_code : Response → ℕ → Result (Unit {0}) Response

-- The headers of `empty_response`, with the length that it adds.
unfoldable pub with_content_length : List Header → List Header
unfolding contains_header_name
with_content_length headers =
    if contains_header_name headers (codes "content-length")
    then headers
    else headers ++ record { name = codes "content-length"; value = codes "0" } ∷ []

module _ (host : HostHttp) where
  open host use {
    fields, copy_all, from_list, empty_body, no_trailers, ErrorCode, internal_error, Request,
    request_parts, new_request, set_method, set_scheme, set_path_with_query, set_authority,
    Response, response_parts, new_response, set_status_code,
  }

  unfoldable pub request_headers : Request → List Header
  request_headers request = copy_all (request_parts request).headers

  unfoldable pub response_headers : Response → List Header
  response_headers response = copy_all (response_parts response).headers

  -- `request_header_error`, `response_header_error`
  abbrev pub request_header_error : ErrorCode
  request_header_error = host.http_request_header_section_size

  abbrev pub response_header_error : ErrorCode
  response_header_error = host.http_response_header_section_size

  unfoldable pub restore_request_metadata :
      Request → Method → Option host.Scheme → Option Bytes → Option Bytes → Result ErrorCode Request
  restore_request_metadata request method scheme path_with_query authority =
      map_err
        (set_method request method >>= λ r. set_scheme r scheme >>= λ r.
          set_path_with_query r path_with_query >>= λ r. set_authority r authority)
        internal_error

  -- What follows the edit of the headers in both functions on requests.
  unfoldable pub rebuild_request : Request → fields.State → Result ErrorCode Request
  unfolding restore_request_metadata
  rebuild_request request forwarded_headers =
      let parts = request_parts request in
      let forwarded =
        new_request forwarded_headers (some parts.body) parts.trailers parts.options in
      restore_request_metadata forwarded parts.method parts.scheme parts.path_with_query
        parts.authority

  unfoldable pub replace_request_headers_from_original :
      Request → List Header → List Header → Result ErrorCode Request
  unfolding apply_header_diff rebuild_request
  replace_request_headers_from_original request original_fields headers = do
    forwarded_headers ←
        map_err (apply_header_diff fields (request_parts request).headers original_fields headers)
          request_header_error
    rebuild_request request forwarded_headers

  unfoldable pub replace_request_headers : Request → List Header → Result ErrorCode Request
  unfolding replace_request_headers_from_original request_headers
  replace_request_headers request headers =
      replace_request_headers_from_original request (request_headers request) headers

  unfoldable pub edit_request_headers :
      Request → List Bytes → List Header → Result ErrorCode Request
  unfolding apply_header_edits rebuild_request
  edit_request_headers request delete_names replacements = do
    forwarded_headers ←
        map_err
          (apply_header_edits fields (request_parts request).headers delete_names replacements)
          request_header_error
    rebuild_request request forwarded_headers

  -- What follows the edit of the headers in the functions on responses.
  unfoldable pub rebuild_response : Response → fields.State → Result ErrorCode Response
  rebuild_response response forwarded_headers =
      let parts = response_parts response in
      map_err
        (set_status_code (new_response forwarded_headers (some parts.body) parts.trailers)
          parts.status)
        internal_error

  unfoldable pub replace_response_headers_from_original :
      Response → List Header → List Header → Result ErrorCode Response
  unfolding apply_header_diff rebuild_response
  replace_response_headers_from_original response original_fields headers = do
    forwarded_headers ←
        map_err (apply_header_diff fields (response_parts response).headers original_fields headers)
          response_header_error
    rebuild_response response forwarded_headers

  unfoldable pub replace_response_headers : Response → List Header → Result ErrorCode Response
  unfolding replace_response_headers_from_original response_headers
  replace_response_headers response headers =
      replace_response_headers_from_original response (response_headers response) headers

  unfoldable pub edit_response_headers_from_original :
      Response → fields.State → List Bytes → List Header → Result ErrorCode Response
  unfolding apply_header_edits rebuild_response
  edit_response_headers_from_original response original_headers delete_names replacements = do
    forwarded_headers ←
        map_err (apply_header_edits fields original_headers delete_names replacements)
          response_header_error
    rebuild_response response forwarded_headers

  unfoldable pub edit_response_headers :
      Response → List Bytes → List Header → Result ErrorCode Response
  unfolding edit_response_headers_from_original
  edit_response_headers response delete_names replacements =
      edit_response_headers_from_original response (response_parts response).headers delete_names
        replacements

  unfoldable pub empty_response : ℕ → List Header → Result ErrorCode Response
  unfolding with_content_length
  empty_response status headers = do
    made ← map_err (from_list (with_content_length headers)) response_header_error
    map_err (set_status_code (new_response made none no_trailers) status) internal_error
