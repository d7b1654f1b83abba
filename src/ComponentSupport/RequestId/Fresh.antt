-- ===== src/ComponentSupport/RequestId/Fresh.antt =====
-- Generated request ids are valid, and distinct within an instance until the sequence wraps.
use wasi_http_middleware.Prelude.{
  ℕ, zero, suc, ◌+◌, ◌/◌, ◌%◌, ◌^◌, ◌<◌, true, ◌&&◌, &&-elim, List, [], ◌∷◌, ◌++◌, ◌≡◌, ◌≢◌, refl,
  sym, ap, ◌∙◌, arith, Bytes, all, all-append, length, length-append,
}
use wasi_http_middleware.Text.{is_token_byte}
use wasi_http_middleware.Policy.RequestId.{is_valid_request_id}
use wasi_http_middleware.ComponentSupport.RequestId.{
  hex, byte_at, to_be_bytes, encode_bytes, encode_request_id, generated_request_id,
  request_id_prefix_bytes, request_id_capacity,
}
use wasi_http_middleware.ComponentSupport.RequestId.Codec.{
  is_byte, decode_bytes, decode-encode_bytes, from_be_bytes, from-to_be_bytes, length-to_be_bytes,
  all-to_be_bytes, length-encode_bytes, all_below, all_below-elim,
}

++-cancel : (p xs ys : List ℕ) → p ++ xs ≡ p ++ ys → xs ≡ ys
++-cancel [] xs ys h = h
++-cancel (b ∷ p) xs ys h = ++-cancel p xs ys (cc)

is_byte-append :
    (prefix : List ℕ) (sequence : ℕ)
    → all is_byte prefix ≡ true
    → all is_byte (prefix ++ to_be_bytes 8 sequence) ≡ true
is_byte-append prefix sequence h =
    all-append is_byte prefix (to_be_bytes 8 sequence) ∙ rw (h) (all-to_be_bytes 8 sequence)

-- With one prefix of bytes, equal ids come from equal 64-bit sequence numbers.
pub encode_request_id-injective :
    (prefix : List ℕ) (s t : ℕ)
    → all is_byte prefix ≡ true
    → s < 2 ^ 64
    → t < 2 ^ 64
    → encode_request_id prefix s ≡ encode_request_id prefix t
    → s ≡ t
unfolding encode_request_id
encode_request_id-injective prefix s t bytes hs ht h =
    let decoded =
      sym (decode-encode_bytes (prefix ++ to_be_bytes 8 s) (is_byte-append prefix s bytes))
      ∙ ap decode_bytes h
      ∙ decode-encode_bytes (prefix ++ to_be_bytes 8 t) (is_byte-append prefix t bytes) in
    let words = ++-cancel prefix (to_be_bytes 8 s) (to_be_bytes 8 t) decoded in
    sym (from-to_be_bytes 8 s (omega arith))
    ∙ ap (from_be_bytes 0) words
    ∙ from-to_be_bytes 8 t (omega arith)

digits-IsToken :
    (b : ℕ)
    → b < 256
    → (is_token_byte (byte_at hex (b / 16)) && is_token_byte (byte_at hex (b % 16))) ≡ true
unfolding all_below
digits-IsToken b h =
    all_below-elim 256
      (λ b. is_token_byte (byte_at hex (b / 16)) && is_token_byte (byte_at hex (b % 16))) refl b h

encode_bytes-IsToken :
    (bytes : List ℕ) → all is_byte bytes ≡ true → all is_token_byte (encode_bytes bytes) ≡ true
unfolding encode_bytes
encode_bytes-IsToken [] h = refl
encode_bytes-IsToken (b ∷ bytes) h =
    let (first, rest) = &&-elim (is_byte b) (all is_byte bytes) h in
    let (high, low) =
      &&-elim (is_token_byte (byte_at hex (b / 16))) (is_token_byte (byte_at hex (b % 16)))
        (digits-IsToken b (ground (arith, first))) in
    rw (high, low) (encode_bytes-IsToken bytes rest)

encode_request_id-IsToken :
    (prefix : List ℕ) (sequence : ℕ)
    → all is_byte prefix ≡ true
    → all is_token_byte (encode_request_id prefix sequence) ≡ true
unfolding encode_request_id
encode_request_id-IsToken prefix sequence bytes =
    encode_bytes-IsToken (prefix ++ to_be_bytes 8 sequence) (is_byte-append prefix sequence bytes)

pub length-encode_request_id :
    (prefix : List ℕ) (sequence : ℕ)
    → length prefix ≡ request_id_prefix_bytes
    → length (encode_request_id prefix sequence) ≡ request_id_capacity
unfolding encode_request_id
length-encode_request_id prefix sequence h = omega (
  arith,
  length-encode_bytes (prefix ++ to_be_bytes 8 sequence),
  length-append prefix (to_be_bytes 8 sequence),
  h,
  length-to_be_bytes 8 sequence,
)

-- With a prefix of sixteen bytes, every generated id has 48 bytes and is valid as a request id.
pub generated_request_id-IsValid :
    (prefix : List ℕ) (sequence : ℕ)
    → length prefix ≡ request_id_prefix_bytes
    → all is_byte prefix ≡ true
    → (length ((generated_request_id prefix sequence).0) ≡ request_id_capacity)
      × (is_valid_request_id ((generated_request_id prefix sequence).0) ≡ true)
unfolding generated_request_id is_valid_request_id
generated_request_id-IsValid prefix sequence h bytes =
    let long = length-encode_request_id prefix sequence h in
    let tokens = encode_request_id-IsToken prefix sequence bytes in
    (long, valid_of (encode_request_id prefix sequence) long tokens)
  where
    valid_of :
        (text : Bytes)
        → length text ≡ request_id_capacity
        → all is_token_byte text ≡ true
        → is_valid_request_id text ≡ true
    valid_of [] long tokens = absurd (omega (arith, long))
    valid_of (c ∷ text) long tokens = rw (tokens, long) refl

-- The sequence number before the id with the given index, in an instance that starts at 0.
abbrev pub sequence_after : List ℕ → ℕ → ℕ
sequence_after prefix zero = 0
sequence_after prefix (suc n) = (generated_request_id prefix (sequence_after prefix n)).1

sequence_after-eq : (prefix : List ℕ) (n : ℕ) → sequence_after prefix n ≡ n % 2 ^ 64
unfolding generated_request_id
sequence_after-eq prefix zero = refl
sequence_after-eq prefix (suc n) =
    ap (λ m. (m + 1) % 2 ^ 64) (sequence_after-eq prefix n) ∙ omega arith

-- With a prefix of bytes, the ids that an instance generates are distinct until the sequence wraps.
pub generated_request_id_distinct :
    (prefix : List ℕ) (m n : ℕ)
    → all is_byte prefix ≡ true
    → m < n
    → n < 2 ^ 64
    → (generated_request_id prefix (sequence_after prefix m)).0
      ≢ (generated_request_id prefix (sequence_after prefix n)).0
unfolding generated_request_id
generated_request_id_distinct prefix m n bytes hm hn same =
    let s = sequence_after prefix m in
    let t = sequence_after prefix n in
    let hs : s ≡ m = omega (arith, sequence_after-eq prefix m) in
    let ht : t ≡ n = omega (arith, sequence_after-eq prefix n) in
    let e = encode_request_id-injective prefix s t bytes (omega arith) (omega arith) same in
    omega arith
