-- ===== src/Text/Utf8.antt =====
-- UTF-8: the validity test of `str::from_utf8`, the characters of a text, and `trim`.
use wasi_http_middleware.Prelude.{
  ℕ, ◌+◌, ◌*◌, ◌/◌, ◌%◌, Bool, true, false, ◌&&◌, ◌||◌, List, [], ◌∷◌, ◌++◌, ltb, ◌==◌, within,
  if◌then◌else◌, Bytes, Option, none, some,
}
use mathlib.Core.List.{reverse}

abbrev continuation : ℕ → Bool
continuation = within 0x80 0xBF

-- The second byte of a three-byte sequence: no overlong form, no surrogate.
abbrev second_of_three : ℕ → ℕ → Bool
second_of_three a b =
    if a == 0xE0
    then within 0xA0 0xBF b
    else if a == 0xED
    then within 0x80 0x9F b
    else continuation b

-- The second byte of a four-byte sequence: no overlong form, nothing above U+10FFFF.
abbrev second_of_four : ℕ → ℕ → Bool
second_of_four a b =
    if a == 0xF0
    then within 0x90 0xBF b
    else if a == 0xF4
    then within 0x80 0x8F b
    else continuation b

-- What `from_utf8` accepts.
unfoldable pub is_utf8 : Bytes → Bool
is_utf8 [] = true
is_utf8 (a ∷ []) = ltb a 0x80
is_utf8 (a ∷ b ∷ []) = (ltb a 0x80 && is_utf8 (b ∷ [])) || (within 0xC2 0xDF a && continuation b)
is_utf8 (a ∷ b ∷ c ∷ []) =
    let one = ltb a 0x80 && is_utf8 (b ∷ c ∷ []) in
    let two = within 0xC2 0xDF a && continuation b && is_utf8 (c ∷ []) in
    one || two || (within 0xE0 0xEF a && second_of_three a b && continuation c)
is_utf8 (a ∷ b ∷ c ∷ d ∷ s) = elim (ltb a 0x80) [
  | true ↦ is_utf8 (b ∷ c ∷ d ∷ s)
  | false ↦ elim (within 0xC2 0xDF a) [
    | true ↦ elim (continuation b) [ true ↦ is_utf8 (c ∷ d ∷ s) | false ↦ false ]
    | false ↦ elim (within 0xE0 0xEF a) [
      | true ↦ elim (second_of_three a b && continuation c) [
        | true ↦ is_utf8 (d ∷ s)
        | false ↦ false
      ]
      | false ↦
          elim (within 0xF0 0xF4 a && second_of_four a b && continuation c && continuation d) [
            | true ↦ is_utf8 s
            | false ↦ false
          ]
    ]
  ]
]

-- `String::from_utf8`, `str::from_utf8`
abbrev pub from_utf8 : Bytes → Option Bytes
from_utf8 s = if is_utf8 s then some s else none

-- `str::chars`, of a valid text.
unfoldable pub chars : Bytes → List ℕ
chars [] = []
chars (a ∷ []) = a ∷ []
chars (a ∷ b ∷ []) = elim (ltb a 0xC0) [
  | true ↦ a ∷ chars (b ∷ [])
  | false ↦ ((a % 32) * 64 + b % 64) ∷ []
]
chars (a ∷ b ∷ c ∷ []) = elim (ltb a 0xC0) [
  | true ↦ a ∷ chars (b ∷ c ∷ [])
  | false ↦ elim (ltb a 0xE0) [
    | true ↦ ((a % 32) * 64 + b % 64) ∷ chars (c ∷ [])
    | false ↦ ((a % 16) * 4096 + (b % 64) * 64 + c % 64) ∷ []
  ]
]
chars (a ∷ b ∷ c ∷ d ∷ s) = elim (ltb a 0xC0) [
  | true ↦ a ∷ chars (b ∷ c ∷ d ∷ s)
  | false ↦ elim (ltb a 0xE0) [
    | true ↦ ((a % 32) * 64 + b % 64) ∷ chars (c ∷ d ∷ s)
    | false ↦ elim (ltb a 0xF0) [
      | true ↦ ((a % 16) * 4096 + (b % 64) * 64 + c % 64) ∷ chars (d ∷ s)
      | false ↦ ((a % 8) * 262144 + (b % 64) * 4096 + (c % 64) * 64 + d % 64) ∷ chars s
    ]
  ]
]

-- `char::len_utf8`'s encoding, `char::encode_utf8`
abbrev pub encode_char : ℕ → Bytes
encode_char c =
    if ltb c 0x80
    then c ∷ []
    else if ltb c 0x800
    then (0xC0 + c / 64) ∷ (0x80 + c % 64) ∷ []
    else if ltb c 0x10000
    then (0xE0 + c / 4096) ∷ (0x80 + (c / 64) % 64) ∷ (0x80 + c % 64) ∷ []
    else (0xF0 + c / 262144)
      ∷ (0x80 + (c / 4096) % 64)
      ∷ (0x80 + (c / 64) % 64)
      ∷ (0x80 + c % 64)
      ∷ []

unfoldable pub encode_chars : List ℕ → Bytes
encode_chars [] = []
encode_chars (c ∷ cs) = encode_char c ++ encode_chars cs

-- `char::is_control`: the general category Cc.
abbrev pub is_control : ℕ → Bool
is_control c = ltb c 32 || within 127 159 c

-- `char::is_whitespace`: the property White_Space.
abbrev pub is_whitespace : ℕ → Bool
is_whitespace c =
    within 9 13 c
    || c == 32
    || c == 0x85
    || c == 0xA0
    || c == 0x1680
    || within 0x2000 0x200A c
    || c == 0x2028
    || c == 0x2029
    || c == 0x202F
    || c == 0x205F
    || c == 0x3000

unfoldable pub trim_start : List ℕ → List ℕ
trim_start [] = []
trim_start (c ∷ cs) = if is_whitespace c then trim_start cs else c ∷ cs

-- `str::trim`
unfoldable pub trim : Bytes → Bytes
unfolding chars encode_chars trim_start
trim s = encode_chars (reverse (trim_start (reverse (trim_start (chars s)))))
