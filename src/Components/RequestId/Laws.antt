-- ===== src/Components/RequestId/Laws.antt =====
-- What components/request-id forwards and returns.
use wasi_http_middleware.Prelude.{
  ℕ, true, List, [], ◌∷◌, ◌≡◌, refl, ap, ◌∙◌, sym, Bytes, length, all, Option, none, some, ok,
  >>=-eq-ok, if◌then◌else◌,
}
use wasi_http_middleware.Text.{eq_ignore_ascii_case}
use wasi_http_middleware.Metadata.{request_id_header}
use wasi_http_middleware.Policy.RequestId.{is_valid_request_id}
use wasi_http_middleware.ComponentSupport.HeaderList.{set_header}
use wasi_http_middleware.ComponentSupport.HeaderList.Laws.{header_values-set_header}
use wasi_http_middleware.ComponentSupport.RequestId.{request_id_prefix_bytes}
use wasi_http_middleware.ComponentSupport.RequestId.Codec.{is_byte}
use wasi_http_middleware.ComponentSupport.RequestId.Fresh.{generated_request_id-IsValid}
use wasi_http_middleware.ComponentSupport.Messages.{
  HostHttp, request_headers, response_headers, replace_request_headers,
}
use wasi_http_middleware.ComponentSupport.Messages.Host.{IsHostHttp}
use wasi_http_middleware.ComponentSupport.Messages.Forward.{
  IsForwarded, IsReturned, replace_request_headers-IsForwarded, replace_response_headers-IsReturned,
}
use wasi_http_middleware.Components.{Handler, valid_text-IsValid, supplied_request_id}
use wasi_http_middleware.Components.RequestId.{
  supplied_or_generated, canonical_request_id, handle_identified, handle,
}

-- One value under the name of identifiers, and all others as they were.
abbrev pub identified_values : Bytes → (Bytes → List Bytes) → Bytes → List Bytes
identified_values request_id before name =
    if eq_ignore_ascii_case request_id_header name then request_id ∷ [] else before name

-- The exchange that a handler had with the downstream one.
pub record IsIdentified (host : HostHttp) (downstream : Handler host) (request : host.Request)
    (after : host.Response) (request_id : Bytes) : Type 0 where
  pub valid : is_valid_request_id request_id ≡ true
  pub sent : host.Request
  pub forwarded :
      IsForwarded host request sent
        (identified_values request_id (host.fields.get (host.request_parts request).headers))
  pub answer : host.Response
  pub received : downstream sent ≡ ok answer
  pub returned :
      IsReturned host answer after
        (identified_values request_id (host.fields.get (host.response_parts answer).headers))

canonical_request_id-IsValid :
    (prefix : List ℕ) (o : Option Bytes) (sequence : ℕ)
    → ((t : Bytes) → o ≡ some t → is_valid_request_id t ≡ true)
    → length prefix ≡ request_id_prefix_bytes
    → all is_byte prefix ≡ true
    → is_valid_request_id (supplied_or_generated prefix o sequence).0 ≡ true
unfolding supplied_or_generated
canonical_request_id-IsValid prefix (some value) sequence valid long bytes = valid value refl
canonical_request_id-IsValid prefix none sequence valid long bytes =
    (generated_request_id-IsValid prefix sequence long bytes).1

-- With a prefix of sixteen bytes, a handler that returns a response has chosen one valid identifier. The
-- downstream handler saw the request with it as its only identifier, and the response carries it as its
-- only one; both are otherwise unchanged.
pub handle-IsIdentified :
    {host : HostHttp} (laws : IsHostHttp host) (prefix : List ℕ) (downstream : Handler host)
    (request : host.Request) (sequence : ℕ) (after : host.Response)
    → length prefix ≡ request_id_prefix_bytes
    → all is_byte prefix ≡ true
    → (handle host prefix downstream request sequence).0 ≡ ok after
    → (request_id : Bytes) × IsIdentified host downstream request after request_id
unfolding handle handle_identified canonical_request_id supplied_request_id request_headers
    response_headers
handle-IsIdentified {host} laws prefix downstream request sequence after long bytes h =
    let s = (host.request_parts request).headers in
    let id = (canonical_request_id prefix (request_headers host request) sequence).0 in
    let named = set_header (request_headers host request) request_id_header id in
    let (sent, e1, h1) = >>=-eq-ok (replace_request_headers host request named) _ h in
    let (answer, e2, h2) = >>=-eq-ok (downstream sent) _ h1 in
    let t = (host.response_parts answer).headers in
    let named' = set_header (response_headers host answer) request_id_header id in
    let f = replace_request_headers-IsForwarded laws request sent named e1 in
    let r = replace_response_headers-IsReturned laws answer after named' h2 in
    (
      id,
      record {
        valid =
            canonical_request_id-IsValid prefix (supplied_request_id (request_headers host request))
              sequence (λ x. valid_text-IsValid _) long bytes;
        sent = sent;
        forwarded = record {
          parts = f.parts;
          held = λ name.
              f.held name
              ∙ header_values-set_header (host.copy_all s) request_id_header id name
              ∙ ap (λ vs. identified_values id (λ _. vs) name) (sym (laws.get-copy_all s name));
        };
        answer = answer;
        received = e2;
        returned = record {
          parts = r.parts;
          held = λ name.
              r.held name
              ∙ header_values-set_header (host.copy_all t) request_id_header id name
              ∙ ap (λ vs. identified_values id (λ _. vs) name) (sym (laws.get-copy_all t name));
        };
      },
    )
