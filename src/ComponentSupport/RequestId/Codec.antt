-- ===== src/ComponentSupport/RequestId/Codec.antt =====
-- The digits of a request id determine its bytes.
use wasi_http_middleware.Prelude.{
  ℕ, zero, suc, ◌+◌, ◌-◌, ◌*◌, ◌/◌, ◌%◌, ◌^◌, ◌<◌, Bool, true, ◌&&◌, &&-elim, List, [], ◌∷◌, ◌++◌,
  ◌≡◌, refl, ap, ◌∙◌, arith, Bytes, all, all-append, length, length-append, ltb, ◌==◌, ==_iff,
  if◌then◌else◌, Bool-cases, inl, inr,
}
use wasi_http_middleware.ComponentSupport.RequestId.{hex, byte_at, to_be_bytes, encode_bytes}

unfoldable pub all_below : ℕ → (ℕ → Bool) → Bool
all_below zero p = true
all_below (suc n) p = p n && all_below n p

pub all_below-elim : (n : ℕ) (p : ℕ → Bool) → all_below n p ≡ true → (k : ℕ) → k < n → p k ≡ true
unfolding all_below
all_below-elim zero p h k small = absurd (ground arith)
all_below-elim (suc n) p h k small =
    let (last, before) = &&-elim (p n) (all_below n p) h in
    elim (Bool-cases (k == n)) [
      | inl e ↦ rw ((==_iff k n).0 e) last
      | inr e ↦ all_below-elim n p before k (ground (arith, e))
    ]

-- A digit's value.
abbrev digit_value : ℕ → ℕ
digit_value c = if ltb c 58 then c - 48 else c - 87

abbrev pub is_byte : ℕ → Bool
is_byte b = ltb b 256

abbrev is_byte_digits : ℕ → Bool
is_byte_digits b = 16 * digit_value (byte_at hex (b / 16)) + digit_value (byte_at hex (b % 16)) == b

byte_digits :
    (b : ℕ)
    → b < 256
    → 16 * digit_value (byte_at hex (b / 16)) + digit_value (byte_at hex (b % 16)) ≡ b
unfolding all_below
byte_digits b h = (==_iff _ _).0 (all_below-elim 256 is_byte_digits refl b h)

unfoldable pub decode_bytes : Bytes → List ℕ
decode_bytes (high ∷ low ∷ digits) = (16 * digit_value high + digit_value low) ∷ decode_bytes digits
decode_bytes _ = []

pub decode-encode_bytes :
    (bytes : List ℕ) → all is_byte bytes ≡ true → decode_bytes (encode_bytes bytes) ≡ bytes
unfolding decode_bytes encode_bytes
decode-encode_bytes [] h = refl
decode-encode_bytes (b ∷ bytes) h =
    let (first, rest) = &&-elim (is_byte b) (all is_byte bytes) h in
    cc (byte_digits b (ground (arith, first)), decode-encode_bytes bytes rest)

-- The value of a word's bytes.
unfoldable pub from_be_bytes : ℕ → List ℕ → ℕ
from_be_bytes word [] = word
from_be_bytes word (b ∷ bytes) = from_be_bytes (word * 256 + b) bytes

from_be_bytes-append :
    (word : ℕ) (bytes : List ℕ) (b : ℕ)
    → from_be_bytes word (bytes ++ b ∷ []) ≡ from_be_bytes word bytes * 256 + b
unfolding from_be_bytes
from_be_bytes-append word [] b = refl
from_be_bytes-append word (c ∷ bytes) b = from_be_bytes-append (word * 256 + c) bytes b

pub from-to_be_bytes :
    (width word : ℕ) → word < 256 ^ width → from_be_bytes 0 (to_be_bytes width word) ≡ word
unfolding to_be_bytes from_be_bytes
from-to_be_bytes zero word h = omega arith
from-to_be_bytes (suc width) word h =
    from_be_bytes-append 0 (to_be_bytes width (word / 256)) (word % 256)
    ∙ ap (λ n. n * 256 + word % 256) (from-to_be_bytes width (word / 256) (omega arith))
    ∙ omega arith

pub length-to_be_bytes : (width word : ℕ) → length (to_be_bytes width word) ≡ width
unfolding to_be_bytes
length-to_be_bytes zero word = refl
length-to_be_bytes (suc width) word =
    length-append (to_be_bytes width (word / 256)) (word % 256 ∷ [])
    ∙ rw (length-to_be_bytes width (word / 256)) (omega arith)

pub all-to_be_bytes : (width word : ℕ) → all is_byte (to_be_bytes width word) ≡ true
unfolding to_be_bytes
all-to_be_bytes zero word = refl
all-to_be_bytes (suc width) word =
    all-append is_byte (to_be_bytes width (word / 256)) (word % 256 ∷ [])
    ∙ rw (all-to_be_bytes width (word / 256)) (ground arith)

pub length-encode_bytes : (bytes : List ℕ) → length (encode_bytes bytes) ≡ 2 * length bytes
unfolding encode_bytes
length-encode_bytes [] = refl
length-encode_bytes (b ∷ bytes) = omega (arith, length-encode_bytes bytes)
