-- ===== src/Examples/Components.antt =====
-- Runs of the handlers under components/.
use wasi_http_middleware.Prelude.{
  ℕ, ◌⊎◌, any, ◌=b◌, true, List, [], ◌∷◌, ◌≡◌, refl, Bytes, codes, none, some, ok,
}
use wasi_http_middleware.Metadata.{validated_deployment, auth_context_header, request_id_header}
use wasi_http_middleware.ComponentSupport.HeaderList.{Header, header_values}
use wasi_http_middleware.ComponentSupport.HeaderMap.{to_header_map}
use wasi_http_middleware.ComponentSupport.Messages.{get, request_headers, response_headers}
use wasi_http_middleware.AuthnRuntime.Config.{Variable, from_environment}
use wasi_http_middleware.Components.{Handler}
use wasi_http_middleware.Policy.Cors.Evaluate.{allow_origin, vary}
use wasi_http_middleware.Components.AuthnPolicy
use wasi_http_middleware.Components.AuthnPolicy.Laws.{admit-IsAdmitted}
use wasi_http_middleware.Components.AuthnPolicy.Responses.{
  HidesReserved, stripped_values, handle-HidesReserved,
}
use wasi_http_middleware.Components.Admission.{IsAdmitted}
use wasi_http_middleware.Components.RequestId
use wasi_http_middleware.Components.RequestId.Laws.{IsIdentified, handle-IsIdentified}
use wasi_http_middleware.Components.Cors.{add_cors_headers}
use wasi_http_middleware.Components.Cors.Keys.{is_key_list}
use wasi_http_middleware.Components.Cors.Laws.{add_cors_headers-IsReturned}
use wasi_http_middleware.ComponentSupport.Messages.Forward.{edited, IsReturned}
use wasi_http_middleware.Components.SecureDefaults.{policy_headers, cors_replacements}
use wasi_http_middleware.Components.SecureDefaults.Laws.{IsCrossed, admit_secure-IsAdmitted}
use wasi_http_middleware.Components.SecureDefaults.Responses.{IsSecured}
use wasi_http_middleware.Components.SecureDefaults.Secured.{handle-IsSecured}
use wasi_http_middleware.Text.{join, is_utf8, starts_with}
use wasi_http_middleware.Policy.Cors.Config.{wildcard}
use wasi_http_middleware.Components.Vary.{has_token, merged_vary_origin}
use wasi_http_middleware.Components.Vary.Laws.{tokens_of, merged_vary_origin_covers}
use wasi_http_middleware.Components.SecureDefaults.Handle
use wasi_http_middleware.Examples.Http.{http, http_laws, Field}
use wasi_http_middleware.Examples.Host.{named}
use wasi_http_middleware.Examples.Codecs.{codecs}
use wasi_http_middleware.Examples.Auth.{encoded}
use wasi_http_middleware.Examples.Messages.{messages, messages_laws}
use wasi_http_middleware.Examples.Runtime.{no_address, no_success, no_exchange}

abbrev environment : List Variable
environment =
    (codes "WASI_MIDDLEWARE_AUTHN_BROKER_URL", codes "https://app.example")
    ∷ (codes "WASI_MIDDLEWARE_AUTHN_MODE", codes "optional")
    ∷ (codes "WASI_MIDDLEWARE_SERVICE_ID", codes "s")
    ∷ (codes "WASI_MIDDLEWARE_AUTHN_AUDIENCES", codes "a")
    ∷ (codes "WASI_MIDDLEWARE_CORS_ORIGINS", codes "*")
    ∷ []

abbrev prefix : List ℕ
prefix = codes "native-test-id-1"

-- A client's own reserved header, in another spelling.
unfoldable request : messages.Request
unfolding messages
request = record {
  method = get;
  scheme = some (codes "https");
  path_with_query = some (codes "/");
  authority = none;
  options = none;
  headers =
      named (codes "Accept") (codes "a")
      ∷ named (codes "Origin") (codes "o")
      ∷ named (codes "X-Wasi-Auth-User") (codes "root")
      ∷ named (codes "x-request-id") (codes "id")
      ∷ [];
  body = codes "body";
  trailers = [];
}

-- What both components send on, in the order in which each leaves the fields.
unfoldable sent : List Header → messages.Request
unfolding messages
sent headers = record {
  method = get;
  scheme = some (codes "https");
  path_with_query = some (codes "/");
  authority = none;
  options = none;
  headers = named (codes "Accept") (codes "a") ∷ named (codes "Origin") (codes "o") ∷ headers;
  body = codes "body";
  trailers = [];
}

admit-IsAdmitted_example :
    (headers : List Field) × (to_header_map http (request_headers messages request) ≡ ok headers)
    × ((request_id : Bytes) × IsAdmitted messages http codecs no_address no_success no_exchange 0
          environment headers request
          (sent (named request_id_header (codes "id") ∷ named auth_context_header encoded ∷ []))
          request_id)
unfolding messages request sent AuthnPolicy.admit from_environment validated_deployment codecs
admit-IsAdmitted_example =
    admit-IsAdmitted messages_laws http codecs no_address no_success no_exchange 0 environment
      prefix request
      (sent (named request_id_header (codes "id") ∷ named auth_context_header encoded ∷ [])) 0 refl

abbrev granted : List Field
granted = (allow_origin, codes "*") ∷ (vary, codes "Origin") ∷ []

admit_secure-IsAdmitted_example :
    (headers : List Field) × (policy_headers http (request_headers messages request) ≡ ok headers)
    × IsCrossed http messages environment request headers granted
    × IsAdmitted messages http codecs no_address no_success no_exchange 0 environment headers
        request
        (sent (named auth_context_header encoded ∷ named request_id_header (codes "id") ∷ []))
        (codes "id")
unfolding messages request sent Handle.admit from_environment is_utf8 starts_with
    validated_deployment codecs
admit_secure-IsAdmitted_example =
    admit_secure-IsAdmitted messages_laws http codecs no_address no_success no_exchange 0
      environment prefix request
      (sent (named auth_context_header encoded ∷ named request_id_header (codes "id") ∷ [])) 0
      granted (codes "id") refl

-- A downstream response that leaks a reserved header and sets one of the security headers.
unfoldable downstream : Handler messages
unfolding messages
downstream sent = ok (record {
  status = 201;
  headers =
      named (codes "X-Wasi-Auth-Leak") (codes "x")
      ∷ named (codes "Referrer-Policy") (codes "unsafe-url")
      ∷ named (codes "Vary") (codes "accept, Origin")
      ∷ [];
  body = codes "answer";
  trailers = [];
})

unfoldable secured : messages.Response
unfolding messages
secured = record {
  status = 201;
  headers =
      named (codes "x-content-type-options") (codes "nosniff")
      ∷ named (codes "referrer-policy") (codes "strict-origin-when-cross-origin")
      ∷ named (codes "x-request-id") (codes "id")
      ∷ named (codes "access-control-allow-origin") (codes "*")
      ∷ named (codes "vary") (codes "accept, Origin")
      ∷ [];
  body = codes "answer";
  trailers = [];
}

handle-IsSecured_example : IsSecured messages secured
unfolding messages request downstream secured Handle.handle from_environment is_utf8 starts_with
    validated_deployment codecs
handle-IsSecured_example =
    handle-IsSecured http_laws messages_laws codecs no_address no_success no_exchange 0 environment
      prefix downstream request 0 secured refl

unfoldable identified : messages.Response
unfolding messages
identified = record {
  status = 201;
  headers =
      named (codes "X-Wasi-Auth-Leak") (codes "x")
      ∷ named (codes "Referrer-Policy") (codes "unsafe-url")
      ∷ named (codes "Vary") (codes "accept, Origin")
      ∷ named (codes "x-request-id") (codes "id")
      ∷ [];
  body = codes "answer";
  trailers = [];
}

handle-IsIdentified_example :
    (request_id : Bytes) × IsIdentified messages downstream request identified request_id
unfolding messages request downstream identified RequestId.handle is_utf8
handle-IsIdentified_example =
    handle-IsIdentified messages_laws prefix downstream request 0 identified refl refl refl

-- Two `vary` fields of a response, with a token in two spellings.
abbrev varied : List Header
varied =
    named (codes "Vary") (codes "Accept, cookie")
    ∷ named (codes "server") (codes "x")
    ∷ named (codes "vary") (codes "ACCEPT")
    ∷ []

merged_vary_origin_covers_example :
    ((any (λ t. t =b wildcard) (tokens_of (header_values varied vary)) ≡ true)
      × (merged_vary_origin varied ≡ wildcard))
    ⊎ ((tokens : List Bytes) × (merged_vary_origin varied ≡ join (codes ", ") tokens)
        × (has_token tokens (codes "origin") ≡ true)
        × ((k : Bytes)
            → has_token (tokens_of (header_values varied vary)) k ≡ true
            → has_token tokens k ≡ true))
unfolding header_values is_utf8
merged_vary_origin_covers_example = merged_vary_origin_covers varied refl

unfoldable varied_response : List Header → messages.Response
unfolding messages
varied_response headers = record {
  status = 201;
  headers = headers;
  body = codes "answer";
  trailers = [];
}

abbrev merged : List Header
merged =
    named (codes "server") (codes "x")
    ∷ named (codes "access-control-allow-origin") (codes "*")
    ∷ named (codes "vary") (codes "Accept, cookie, Origin")
    ∷ []

add_cors_headers-IsReturned_example :
    IsReturned messages (varied_response varied) (varied_response merged) (
      edited []
        (cors_replacements http (response_headers messages (varied_response varied)) granted)
        (messages.fields.get (messages.response_parts (varied_response varied)).headers))
unfolding messages varied_response is_key_list add_cors_headers is_utf8
add_cors_headers-IsReturned_example =
    add_cors_headers-IsReturned http_laws messages_laws granted (varied_response varied)
      (varied_response merged) refl refl

abbrev stripped : List Header
stripped =
    named (codes "Referrer-Policy") (codes "unsafe-url")
    ∷ named (codes "Vary") (codes "accept, Origin")
    ∷ []

unfoldable answered : List Header → messages.Response
unfolding messages
answered headers = record { status = 201; headers = headers; body = codes "answer"; trailers = [] }

handle-HidesReserved_example :
    HidesReserved messages (answered stripped)
    × (((AuthnPolicy.admit messages http codecs no_address no_success no_exchange 0 environment
            prefix request 0).0
          ≡ AuthnPolicy.respond (ok (answered stripped)))
        ⊎ ((sent : messages.Request) × (response : messages.Response) × ((AuthnPolicy.admit messages
                http codecs no_address no_success no_exchange 0 environment prefix request 0).0
              ≡ AuthnPolicy.forward sent)
            × (downstream sent ≡ ok response)
            × IsReturned messages response (answered stripped) (stripped_values messages response)))
unfolding messages request downstream answered AuthnPolicy.handle from_environment is_utf8
    starts_with validated_deployment codecs
handle-HidesReserved_example =
    handle-HidesReserved messages_laws http codecs no_address no_success no_exchange 0 environment
      prefix downstream request 0 (answered stripped) refl
