-- ===== src/Components/SecurityHeaders.antt =====
-- `handle` of components/security-headers.
pub mod Laws
use wasi_http_middleware.Prelude.{List, codes, Result, ◌>>=◌}
use wasi_http_middleware.Policy.SecurityHeaders.{content_type_options, referrer_policy}
use wasi_http_middleware.ComponentSupport.HeaderList.{Header, set_header}
use wasi_http_middleware.ComponentSupport.Messages.{
  HostHttp, response_headers, replace_response_headers,
}
use wasi_http_middleware.Components.{Handler}

unfoldable pub secured : List Header → List Header
unfolding set_header
secured headers =
    set_header (set_header headers content_type_options (codes "nosniff")) referrer_policy
      (codes "strict-origin-when-cross-origin")

unfoldable pub handle : (host : HostHttp) → Handler host → Handler host
unfolding secured response_headers replace_response_headers
handle host downstream request = do
  response ← downstream request
  replace_response_headers host response (secured (response_headers host response))
