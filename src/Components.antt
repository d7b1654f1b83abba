-- ===== src/Components.antt =====
-- The middleware components under components/: what their handlers share. A handler is a function of the
-- downstream handler that it imports. The environment is fixed while a component runs, so that a
-- `OnceLock` always holds what its initialiser computes from it.
pub mod RequestId
pub mod SecurityHeaders
pub mod AuthnPolicy
pub mod Cors
pub mod Vary
pub mod SecureDefaults
pub mod Trusted
pub mod Admission
use wasi_http_middleware.Prelude.{
  true, ◌≡◌, arith, List, [], ◌∷◌, Bytes, codes, Option, none, some, Result, ok_or, if◌then◌else◌,
}
use wasi_http_middleware.Text.{from_utf8}
use wasi_http_middleware.HttpCrate.{HttpCrate}
use wasi_http_middleware.Metadata.{request_id_header}
use wasi_http_middleware.Policy.RequestId.{is_valid_request_id}
use wasi_http_middleware.ComponentSupport.HeaderList.{Header, single_header_value}
use wasi_http_middleware.ComponentSupport.Messages.{
  Method, get, head, post, put, delete, connect, options, trace, patch, other, HostHttp,
}

abbrev pub Handler : HostHttp → Type 0
Handler host = host.Request → Result host.ErrorCode host.Response

-- `handle` of components/passthrough
unfoldable pub passthrough_handle : (host : HostHttp) → Handler host → Handler host
passthrough_handle host downstream request = downstream request

-- The `if let` chain on a borrowed value, with `from_utf8` and the test of the text.
unfoldable pub valid_text : Option Bytes → Option Bytes
unfolding is_valid_request_id
valid_text none = none
valid_text (some value) = elim (from_utf8 value) [
  | none ↦ none
  | some text ↦ if is_valid_request_id text then some text else none
]

pub valid_text-IsValid :
    (o : Option Bytes) {text : Bytes} → valid_text o ≡ some text → is_valid_request_id text ≡ true
unfolding valid_text
valid_text-IsValid none h = cc
valid_text-IsValid (some value) h = ground arith

unfoldable pub supplied_request_id : List Header → Option Bytes
unfolding valid_text single_header_value
supplied_request_id headers = valid_text (single_header_value headers request_id_header)

-- `vec![("retry-after".to_owned(), b"1".to_vec())]`
abbrev pub retry_after : List Header
retry_after = record { name = codes "retry-after"; value = codes "1" } ∷ []

unfoldable pub method_text : Method → Bytes
method_text get = codes "GET"
method_text head = codes "HEAD"
method_text post = codes "POST"
method_text put = codes "PUT"
method_text delete = codes "DELETE"
method_text connect = codes "CONNECT"
method_text options = codes "OPTIONS"
method_text trace = codes "TRACE"
method_text patch = codes "PATCH"
method_text (other value) = value

unfoldable pub to_http_method : HttpCrate → Method → Result (Unit {0}) Bytes
unfolding method_text
to_http_method http method = ok_or (http.method_from_bytes (method_text method)) tt
