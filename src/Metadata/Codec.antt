-- ===== src/Metadata/Codec.antt =====
-- `encode_auth_context` and `decode_auth_context`, over the crates that they call.
pub mod Laws
use wasi_http_middleware.Prelude.{
  ℕ, Bool, true, false, ◌&&◌, ◌||◌, List, [], ◌∷◌, ◌≡◌, Bytes, length, ltb, is_empty, all, within,
  Option, none, some, Result, ok, err, ◌>>=◌, ◌>>◌, guard, ok_or, ◌=b◌, if◌then◌else◌,
}
use wasi_http_middleware.HttpCrate.{HttpCrate}
use wasi_http_middleware.Metadata.{
  MetadataError, context_too_large, invalid_encoding, invalid_schema, max_auth_context_encoded_len,
}
use wasi_http_middleware.Metadata.Context.{AuthContextV1}
use wasi_http_middleware.Metadata.Wire.{WireContext, to_wire_context, try_context}

-- `serde_json` at the wire context, and `base64` in the alphabet `URL_SAFE_NO_PAD`.
pub record Encodings : Type 0 where
  pub to_vec : WireContext → Option Bytes
  pub from_slice : Bytes → Option WireContext
  pub base64_encode : Bytes → Bytes
  pub base64_decode : Bytes → Option Bytes

-- What these crates document: reading what was written gives the value back, the JSON of a structure
-- is not empty, and base64 text is visible ASCII, empty only for no bytes.
pub record IsEncodings (codecs : Encodings) : Type 0 where
  pub from_slice-to_vec :
      (wire : WireContext) (json : Bytes)
      → codecs.to_vec wire ≡ some json
      → codecs.from_slice json ≡ some wire
  pub to_vec_nonempty :
      (wire : WireContext) (json : Bytes) → codecs.to_vec wire ≡ some json → is_empty json ≡ false
  pub decode-encode : (s : Bytes) → codecs.base64_decode (codecs.base64_encode s) ≡ some s
  pub encode_visible : (s : Bytes) → all (within 32 126) (codecs.base64_encode s) ≡ true
  pub encode_empty : (s : Bytes) → is_empty (codecs.base64_encode s) ≡ is_empty s

-- `if encoded.len() > MAX_AUTH_CONTEXT_ENCODED_LEN { return Err(...); }`
unfoldable pub check_size : Bytes → Result MetadataError (Unit {0})
check_size encoded =
    if ltb max_auth_context_encoded_len (length encoded) then err context_too_large else ok tt

-- The bounds on a text that is to be decoded.
unfoldable pub check_encoded_len : Bytes → Result MetadataError (Unit {0})
check_encoded_len encoded =
    if is_empty encoded || ltb max_auth_context_encoded_len (length encoded)
    then err (
        if ltb max_auth_context_encoded_len (length encoded)
        then context_too_large
        else invalid_encoding)
    else ok tt

module _ (http : HttpCrate) (codecs : Encodings) where
  open http use {HeaderValue, value_from_str, to_str, set_sensitive}
  open codecs use {to_vec, from_slice, base64_encode, base64_decode}

  unfoldable pub encode_auth_context : AuthContextV1 → Result MetadataError HeaderValue
  unfolding to_wire_context check_size
  encode_auth_context context = do
    json ← ok_or (to_vec (to_wire_context context)) invalid_schema
    let encoded = base64_encode json
    check_size encoded
    value ← ok_or (value_from_str encoded) invalid_encoding
    ok (set_sensitive value true)

  unfoldable pub decode_auth_context : HeaderValue → Result MetadataError AuthContextV1
  unfolding try_context check_encoded_len ◌=b◌
  decode_auth_context value = do
    encoded ← ok_or (to_str value) invalid_encoding
    check_encoded_len encoded
    decoded ← ok_or (base64_decode encoded) invalid_encoding
    guard (base64_encode decoded =b encoded) invalid_encoding
    wire ← ok_or (from_slice decoded) invalid_schema
    try_context wire
