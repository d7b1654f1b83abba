-- ===== src/ComponentSupport/Messages/Host.antt =====
-- What the functions of crates/component-support/src/lib.rs rely on of the host's messages.
use wasi_http_middleware.Prelude.{ℕ, List, ◌≡◌, Bytes, Option, none, some, ok}
use wasi_http_middleware.ComponentSupport.HeaderList.{Header, header_values}
use wasi_http_middleware.ComponentSupport.Fields.{IsHostFields}
use wasi_http_middleware.ComponentSupport.Messages.{Method, get, HostHttp}

-- What wit/deps/http.wit documents of the resources.
pub record IsHostHttp (host : HostHttp) : Type 0 where
  pub on_fields : IsHostFields host.fields
  pub get-copy_all :
      (s : host.fields.State) (name : Bytes)
      → host.fields.get s name ≡ header_values (host.copy_all s) name
  pub get-from_list :
      (headers : List Header) (s : host.fields.State) (name : Bytes)
      → host.from_list headers ≡ ok s
      → host.fields.get s name ≡ header_values headers name
  pub parts-new_request :
      (s : host.fields.State) (body : host.Body) (trailers : host.Trailers)
      (options : Option host.Options)
      → host.request_parts (host.new_request s (some body) trailers options) ≡ (record {
        method = get;
        scheme = none;
        path_with_query = none;
        authority = none;
        options = options;
        headers = s;
        body = body;
        trailers = trailers;
      })
  pub parts-set_method :
      (r s : host.Request) (method : Method)
      → host.set_method r method ≡ ok s
      → host.request_parts s ≡ record (host.request_parts r) { method = method }
  pub parts-set_scheme :
      (r s : host.Request) (scheme : Option host.Scheme)
      → host.set_scheme r scheme ≡ ok s
      → host.request_parts s ≡ record (host.request_parts r) { scheme = scheme }
  pub parts-set_path_with_query :
      (r s : host.Request) (path : Option Bytes)
      → host.set_path_with_query r path ≡ ok s
      → host.request_parts s ≡ record (host.request_parts r) { path_with_query = path }
  pub parts-set_authority :
      (r s : host.Request) (authority : Option Bytes)
      → host.set_authority r authority ≡ ok s
      → host.request_parts s ≡ record (host.request_parts r) { authority = authority }
  pub parts-new_response :
      (s : host.fields.State) (body : host.Body) (trailers : host.Trailers)
      → host.response_parts (host.new_response s (some body) trailers)
        ≡ (record { status = 200; headers = s; body = body; trailers = trailers })
  pub parts-new_response_none :
      (s : host.fields.State) (trailers : host.Trailers)
      → host.response_parts (host.new_response s none trailers)
        ≡ (record { status = 200; headers = s; body = host.empty_body; trailers = trailers })
  pub parts-set_status_code :
      (r s : host.Response) (status : ℕ)
      → host.set_status_code r status ≡ ok s
      → host.response_parts s ≡ record (host.response_parts r) { status = status }
