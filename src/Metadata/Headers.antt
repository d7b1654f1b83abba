-- ===== src/Metadata/Headers.antt =====
-- The header functions: removing the reserved names, inserting one context and reading it back.
pub mod Laws
use wasi_http_middleware.Prelude.{
  Bool, true, false, List, [], ◌∷◌, Bytes, codes, filter, Result, ok, err,
}
use wasi_http_middleware.Text.{starts_with}
use wasi_http_middleware.HttpCrate.{HttpCrate}
use wasi_http_middleware.Metadata.{
  MetadataError, missing_header, duplicate_header, auth_context_header, reserved_auth_prefix,
}
use wasi_http_middleware.Metadata.Context.{AuthContextV1}
use wasi_http_middleware.Metadata.Codec.{Encodings, encode_auth_context, decode_auth_context}

unfoldable pub is_reserved : Bytes → Bool
unfolding starts_with
is_reserved name = starts_with name reserved_auth_prefix

module _ (http : HttpCrate) where
  open http use {HeaderMap, keys, remove}

  -- `for name in reserved { headers.remove(name); }`
  pub remove_names : HeaderMap → List Bytes → HeaderMap
  remove_names headers [] = headers
  remove_names headers (name ∷ names) = remove_names (remove headers name) names

  unfoldable pub strip_reserved_auth_headers : HeaderMap → HeaderMap
  unfolding is_reserved remove_names
  strip_reserved_auth_headers headers = remove_names headers (filter is_reserved (keys headers))

module _ (http : HttpCrate) (codecs : Encodings) where
  open http use {HeaderValue, HeaderMap, get_all, insert}

  -- The map that the caller holds afterwards, with the result.
  unfoldable pub insert_auth_context :
      HeaderMap → AuthContextV1 → HeaderMap × Result MetadataError (Unit {0})
  unfolding encode_auth_context strip_reserved_auth_headers
  insert_auth_context headers context = elim (encode_auth_context http codecs context) [
    | ok value ↦
        (insert (strip_reserved_auth_headers http headers) auth_context_header value, ok tt)
    | err e ↦ (headers, err e)
  ]

  pub decode_single : List HeaderValue → Result MetadataError AuthContextV1
  unfolding decode_auth_context
  decode_single [] = err (missing_header (codes "auth_context"))
  decode_single (value ∷ []) = decode_auth_context http codecs value
  decode_single (value ∷ _ ∷ _) = err (duplicate_header (codes "auth_context"))

  unfoldable pub parse_auth_context : HeaderMap → Result MetadataError AuthContextV1
  unfolding decode_single
  parse_auth_context headers = decode_single (get_all headers auth_context_header)
