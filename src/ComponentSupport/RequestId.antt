-- ===== src/ComponentSupport/RequestId.antt =====
-- `generated_request_id` and `encode_request_id` of crates/component-support/src/lib.rs. The prefix of the
-- component instance comes from the host's random source, and is a parameter.
use wasi_http_middleware.Prelude.{
  ℕ, zero, suc, ◌+◌, ◌*◌, ◌/◌, ◌%◌, ◌^◌, Bool, List, [], ◌∷◌, ◌++◌, Bytes, codes,
}
pub mod Codec
pub mod Fresh

-- `REQUEST_ID_PREFIX_BYTES`
abbrev pub request_id_prefix_bytes : ℕ
request_id_prefix_bytes = 16

-- `REQUEST_ID_CAPACITY`
abbrev pub request_id_capacity : ℕ
request_id_capacity = (request_id_prefix_bytes + 8) * 2

-- `HEX`
abbrev pub hex : Bytes
hex = codes "0123456789abcdef"

-- `HEX[index]`. An index is a half of a byte, and is in range.
abbrev pub byte_at : Bytes → ℕ → ℕ
byte_at [] index = 0
byte_at (b ∷ bytes) zero = b
byte_at (b ∷ bytes) (suc index) = byte_at bytes index

-- `to_be_bytes` of a word of `width` bytes
unfoldable pub to_be_bytes : ℕ → ℕ → List ℕ
to_be_bytes zero word = []
to_be_bytes (suc width) word = to_be_bytes width (word / 256) ++ word % 256 ∷ []

-- The loop of `encode_request_id`: two digits for each byte.
unfoldable pub encode_bytes : List ℕ → Bytes
encode_bytes [] = []
encode_bytes (byte ∷ bytes) = byte_at hex (byte / 16) ∷ byte_at hex (byte % 16) ∷ encode_bytes bytes

unfoldable pub encode_request_id : List ℕ → ℕ → Bytes
unfolding encode_bytes to_be_bytes
encode_request_id prefix sequence = encode_bytes (prefix ++ to_be_bytes 8 sequence)

-- `generated_request_id`: the id, and the sequence that `fetch_add` leaves, which wraps.
unfoldable pub generated_request_id : List ℕ → ℕ → Bytes × ℕ
unfolding encode_request_id
generated_request_id prefix sequence = (encode_request_id prefix sequence, (sequence + 1) % 2 ^ 64)
