-- ===== src/Examples/Messages.antt =====
-- A host whose messages are the parts that they carry, and whose setters always succeed.
use wasi_http_middleware.Prelude.{
  List, [], refl, sym, ap, Bytes, codes, Option, none, ok, ok-injective,
}
use mathlib.Core.Option.{get_or}
use wasi_http_middleware.ComponentSupport.HeaderList.{Header, header_values}
use wasi_http_middleware.ComponentSupport.Messages.{get, RequestParts, ResponseParts, HostHttp}
use wasi_http_middleware.ComponentSupport.Messages.Host.{IsHostHttp}
use wasi_http_middleware.Examples.Host.{host, host_laws}

abbrev pub Request : Type 0
Request = RequestParts (List Header) Bytes (Unit {0}) Bytes Bytes

abbrev pub Response : Type 0
Response = ResponseParts (List Header) Bytes Bytes

abbrev pub new_request : List Header → Option Bytes → Bytes → Option (Unit {0}) → Request
new_request headers contents trailers options = record {
  method = get;
  scheme = none;
  path_with_query = none;
  authority = none;
  options = options;
  headers = headers;
  body = get_or contents [];
  trailers = trailers;
}

unfoldable pub messages : HostHttp
unfolding host
messages = record {
  fields = host;
  copy_all = λ s. s;
  from_list = λ headers. ok headers;
  Scheme = Bytes;
  Options = Unit {0};
  Body = Bytes;
  Trailers = Bytes;
  empty_body = [];
  no_trailers = [];
  ErrorCode = Bytes;
  internal_error = codes "internal";
  http_request_header_section_size = codes "request headers";
  http_response_header_section_size = codes "response headers";
  Request = Request;
  request_parts = λ r. r;
  new_request = new_request;
  set_method = λ r method. ok (record r { method = method });
  set_scheme = λ r scheme. ok (record r { scheme = scheme });
  set_path_with_query = λ r path. ok (record r { path_with_query = path });
  set_authority = λ r authority. ok (record r { authority = authority });
  Response = Response;
  response_parts = λ r. r;
  new_response = λ s contents trailers. record {
    status = 200;
    headers = s;
    body = get_or contents [];
    trailers = trailers;
  };
  set_status_code = λ r status. ok (record r { status = status });
}

pub messages_laws : IsHostHttp messages
unfolding messages host
messages_laws = record {
  on_fields = host_laws;
  get-copy_all = λ s name. refl;
  get-from_list = λ headers s name h. ap (λ x. header_values x name) (sym (ok-injective h));
  parts-new_request = λ s body trailers options. refl;
  parts-set_method = λ r s method h. sym (ok-injective h);
  parts-set_scheme = λ r s scheme h. sym (ok-injective h);
  parts-set_path_with_query = λ r s path h. sym (ok-injective h);
  parts-set_authority = λ r s authority h. sym (ok-injective h);
  parts-new_response = λ s body trailers. refl;
  parts-new_response_none = λ s trailers. refl;
  parts-set_status_code = λ r s status h. sym (ok-injective h);
}
