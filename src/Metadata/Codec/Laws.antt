-- ===== src/Metadata/Codec/Laws.antt =====
-- Decoding accepts only valid contexts in canonical text, and reads back what was encoded.
use wasi_http_middleware.Prelude.{
  ◌≤◌, true, false, ◌≡◌, sym, ap, ◌∙◌, arith, Bytes, length, is_empty, some, ok, guard, guard-eq-ok,
  ok_or, ok_or-eq-ok, ◌=b◌, =b_iff, =b_refl, >>=-eq-ok, ok-injective, bind_of_ok, ok_or_of_some,
  guard_of_true,
}
use wasi_http_middleware.HttpCrate.{HttpCrate, IsHttpCrate}
use wasi_http_middleware.Metadata.{invalid_encoding, invalid_schema, max_auth_context_encoded_len}
use wasi_http_middleware.Metadata.Context.{AuthContextV1}
use wasi_http_middleware.Metadata.Context.Valid.{IsValidContext}
use wasi_http_middleware.Metadata.Wire.{WireContext, to_wire_context, try_context}
use wasi_http_middleware.Metadata.Wire.RoundTrip.{try_context-IsValidContext, try_context-to_wire}
use wasi_http_middleware.Metadata.Codec.{
  Encodings, IsEncodings, encode_auth_context, check_size, check_encoded_len, decode_auth_context,
}

check_size-eq-ok :
    (s : Bytes) {u : Unit {0}} → check_size s ≡ ok u → length s ≤ max_auth_context_encoded_len
unfolding check_size
check_size-eq-ok s h = ground arith

check_encoded_len-eq-ok :
    (s : Bytes) {u : Unit {0}}
    → check_encoded_len s ≡ ok u
    → length s ≤ max_auth_context_encoded_len
unfolding check_encoded_len
check_encoded_len-eq-ok s h = ground arith

check_encoded_len_of_bounded :
    (s : Bytes)
    → is_empty s ≡ false
    → length s ≤ max_auth_context_encoded_len
    → check_encoded_len s ≡ ok tt
unfolding check_encoded_len
check_encoded_len_of_bounded s h k = ground arith

module _ (http : HttpCrate) (codecs : Encodings) where
  open http use {HeaderValue, as_bytes, value_from_str, to_str, set_sensitive}
  open codecs use {to_vec, from_slice, base64_encode, base64_decode}

  -- What is known of a value that was decoded.
  pub record Decoded (value : HeaderValue) (c : AuthContextV1) : Type 0 where
    pub json : Bytes
    pub wire : WireContext
    pub text : to_str value ≡ some (base64_encode json)
    pub bounded : length (base64_encode json) ≤ max_auth_context_encoded_len
    pub parsed : from_slice json ≡ some wire
    pub accepted : try_context wire ≡ ok c

  decode_auth_context-Decoded :
      (value : HeaderValue) {c : AuthContextV1}
      → decode_auth_context http codecs value ≡ ok c
      → Decoded value c
  unfolding decode_auth_context
  decode_auth_context-Decoded value h =
      let (encoded, e0, h0) = >>=-eq-ok (ok_or (to_str value) invalid_encoding) _ h in
      let (_, e1, h1) = >>=-eq-ok (check_encoded_len encoded) _ h0 in
      let (json, e2, h2) = >>=-eq-ok (ok_or (base64_decode encoded) invalid_encoding) _ h1 in
      let (_, e3, h3) = >>=-eq-ok (guard (base64_encode json =b encoded) invalid_encoding) _ h2 in
      let (wire, e4, h4) = >>=-eq-ok (ok_or (from_slice json) invalid_schema) _ h3 in
      let same = (=b_iff (base64_encode json) encoded).0 (guard-eq-ok _ _ e3) in
      let short = check_encoded_len-eq-ok encoded e1 in
      record {
        json = json;
        wire = wire;
        text = ok_or-eq-ok (to_str value) _ e0 ∙ ap some (sym same);
        bounded = rw same short;
        parsed = ok_or-eq-ok (from_slice json) _ e4;
        accepted = h4;
      }

  -- Every context that is decoded is valid.
  pub decode_auth_context-IsValidContext :
      (value : HeaderValue) {c : AuthContextV1}
      → decode_auth_context http codecs value ≡ ok c
      → IsValidContext c
  decode_auth_context-IsValidContext value h =
      let d = decode_auth_context-Decoded value h in try_context-IsValidContext d.wire d.accepted

  module _ (laws : IsHttpCrate http) (codec_laws : IsEncodings codecs) where
    -- What is known of a context that was encoded.
    pub record Encoded (c : AuthContextV1) (value : HeaderValue) : Type 0 where
      pub json : Bytes
      pub written : to_vec (to_wire_context c) ≡ some json
      pub bounded : length (base64_encode json) ≤ max_auth_context_encoded_len
      pub bytes : as_bytes value ≡ base64_encode json

    pub encode_auth_context-Encoded :
        (c : AuthContextV1) {value : HeaderValue}
        → encode_auth_context http codecs c ≡ ok value
        → Encoded c value
    unfolding encode_auth_context
    encode_auth_context-Encoded c h =
        let (json, e0, h0) = >>=-eq-ok (ok_or (to_vec (to_wire_context c)) invalid_schema) _ h in
        let (_, e1, h1) = >>=-eq-ok (check_size (base64_encode json)) _ h0 in
        let (v, e2, h2) =
          >>=-eq-ok (ok_or (value_from_str (base64_encode json)) invalid_encoding) _ h1 in
        let short = check_size-eq-ok (base64_encode json) e1 in
        let stored = laws.from_str-as_bytes (base64_encode json) v (ok_or-eq-ok _ _ e2) in
        record {
          json = json;
          written = ok_or-eq-ok (to_vec (to_wire_context c)) _ e0;
          bounded = short;
          bytes = ap as_bytes (sym (ok-injective h2)) ∙ laws.set_sensitive-as_bytes v true ∙ stored;
        }

    -- A valid context that is encoded is decoded to itself.
    pub decode-encode_auth_context :
        (c : AuthContextV1) (value : HeaderValue)
        → IsValidContext c
        → encode_auth_context http codecs c ≡ ok value
        → decode_auth_context http codecs value ≡ ok c
    unfolding decode_auth_context
    decode-encode_auth_context c value v h =
        let e = encode_auth_context-Encoded c h in
        let text : to_str value ≡ some (base64_encode e.json) =
          laws.to_str_visible value (rw e.bytes (codec_laws.encode_visible e.json))
          ∙ ap some e.bytes in
        let filled : is_empty (base64_encode e.json) ≡ false =
          codec_laws.encode_empty e.json ∙ codec_laws.to_vec_nonempty _ e.json e.written in
        let parsed = codec_laws.from_slice-to_vec _ e.json e.written in
        bind_of_ok _ (ok_or_of_some _ text)
        ∙ bind_of_ok _ (check_encoded_len_of_bounded _ filled e.bounded)
        ∙ bind_of_ok _ (ok_or_of_some _ (codec_laws.decode-encode e.json))
        ∙ bind_of_ok _ (guard_of_true _ (=b_refl (base64_encode e.json)))
        ∙ bind_of_ok _ (ok_or_of_some _ parsed)
        ∙ try_context-to_wire c v
