-- ===== src/Components/SecurityHeaders/Laws.antt =====
-- What components/security-headers returns.
use wasi_http_middleware.Prelude.{
  List, [], ◌∷◌, ◌≡◌, ap, ◌∙◌, sym, arith, Bytes, codes, ok, >>=-eq-ok, if◌then◌else◌,
}
use wasi_http_middleware.Text.{eq_ignore_ascii_case}
use wasi_http_middleware.Policy.SecurityHeaders.{content_type_options, referrer_policy}
use wasi_http_middleware.ComponentSupport.HeaderList.{Header, header_values, set_header}
use wasi_http_middleware.ComponentSupport.HeaderList.Laws.{header_values-set_header}
use wasi_http_middleware.ComponentSupport.Messages.{HostHttp, response_headers}
use wasi_http_middleware.ComponentSupport.Messages.Host.{IsHostHttp}
use wasi_http_middleware.ComponentSupport.Messages.Forward.{
  IsReturned, replace_response_headers-IsReturned,
}
use wasi_http_middleware.Components.{Handler}
use wasi_http_middleware.Components.SecurityHeaders.{secured, handle}

-- The two fixed values, and all others as they were.
abbrev pub secured_values : (Bytes → List Bytes) → Bytes → List Bytes
secured_values before name =
    if eq_ignore_ascii_case referrer_policy name
    then codes "strict-origin-when-cross-origin" ∷ []
    else if eq_ignore_ascii_case content_type_options name
    then codes "nosniff" ∷ []
    else before name

header_values-secured :
    (fields : List Header) (name : Bytes)
    → header_values (secured fields) name ≡ secured_values (header_values fields) name
unfolding secured
header_values-secured fields name = ground (
  arith,
  header_values-set_header (set_header fields content_type_options (codes "nosniff"))
      referrer_policy (codes "strict-origin-when-cross-origin") name,
  header_values-set_header fields content_type_options (codes "nosniff") name,
)

-- A response that the handler returns is the one from downstream with the two security headers, each with its
-- one value in every spelling, and is otherwise unchanged.
pub handle-IsReturned :
    {host : HostHttp} (laws : IsHostHttp host) (downstream : Handler host) (request : host.Request)
    (after : host.Response)
    → handle host downstream request ≡ ok after
    → (answer : host.Response) × (downstream request ≡ ok answer)
      × IsReturned host answer after
          (secured_values (host.fields.get (host.response_parts answer).headers))
unfolding handle response_headers
handle-IsReturned {host} laws downstream request after h =
    let (answer, e, h1) = >>=-eq-ok (downstream request) _ h in
    let s = (host.response_parts answer).headers in
    let r = replace_response_headers-IsReturned laws answer after (secured (host.copy_all s)) h1 in
    (
      answer,
      e,
      record {
        parts = r.parts;
        held = λ name.
            r.held name
            ∙ header_values-secured (host.copy_all s) name
            ∙ ap (λ vs. secured_values (λ _. vs) name) (sym (laws.get-copy_all s name));
      },
    )
