-- ===== src/Components/RequestId.antt =====
-- `handle` of components/request-id. The sequence of generated identifiers is passed along.
pub mod Laws
use wasi_http_middleware.Prelude.{ℕ, List, Bytes, Option, none, some, Result, ◌>>=◌}
use wasi_http_middleware.Metadata.{request_id_header}
use wasi_http_middleware.ComponentSupport.HeaderList.{Header, set_header}
use wasi_http_middleware.ComponentSupport.RequestId.{generated_request_id}
use wasi_http_middleware.ComponentSupport.Messages.{
  HostHttp, request_headers, response_headers, replace_request_headers, replace_response_headers,
}
use wasi_http_middleware.Components.{Handler, supplied_request_id}

unfoldable pub supplied_or_generated : List ℕ → Option Bytes → ℕ → Bytes × ℕ
unfolding generated_request_id
supplied_or_generated prefix (some value) sequence = (value, sequence)
supplied_or_generated prefix none sequence = generated_request_id prefix sequence

unfoldable pub canonical_request_id : List ℕ → List Header → ℕ → Bytes × ℕ
unfolding supplied_request_id supplied_or_generated
canonical_request_id prefix headers sequence =
    supplied_or_generated prefix (supplied_request_id headers) sequence

module _ (host : HostHttp) where
  -- The handler behind the choice of the identifier.
  unfoldable pub handle_identified : Handler host → Bytes → Handler host
  unfolding set_header request_headers response_headers replace_request_headers
      replace_response_headers
  handle_identified downstream request_id request = do
    request' ←
        replace_request_headers host request
          (set_header (request_headers host request) request_id_header request_id)
    response ← downstream request'
    replace_response_headers host response
        (set_header (response_headers host response) request_id_header request_id)

  unfoldable pub handle :
      List ℕ → Handler host → host.Request → ℕ → Result host.ErrorCode host.Response × ℕ
  unfolding canonical_request_id handle_identified request_headers
  handle prefix downstream request sequence =
      let (request_id, sequence') =
        canonical_request_id prefix (request_headers host request) sequence in
      (handle_identified downstream request_id request, sequence')
