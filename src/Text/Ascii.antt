-- ===== src/Text/Ascii.antt =====
-- Tests and case of single bytes, and case-insensitive comparison.
use wasi_http_middleware.Prelude.{
  ℕ, ◌+◌, Bool, true, ◌||◌, [], ◌∷◌, map, ◌≡◌, refl, ap, arith, ltb, ◌==◌, within, if◌then◌else◌,
  Bytes, all, ◌=b◌, =b_iff, =b_comm, ◌↔◌,
}

-- `u8::is_ascii_alphanumeric`
abbrev pub is_ascii_alphanumeric : ℕ → Bool
is_ascii_alphanumeric c = within b'0' b'9' c || within b'A' b'Z' c || within b'a' b'z' c

-- `u8::is_ascii_control`
abbrev pub is_ascii_control : ℕ → Bool
is_ascii_control c = ltb c 32 || c == 127

-- `u8::is_ascii_whitespace`
abbrev pub is_ascii_whitespace : ℕ → Bool
is_ascii_whitespace c = c == 32 || c == 9 || c == 10 || c == 12 || c == 13

-- `str::is_ascii`
abbrev pub is_ascii : Bytes → Bool
is_ascii = all (λ c. ltb c 128)

unfoldable pub lower : ℕ → ℕ
lower c = if within b'A' b'Z' c then c + 32 else c

pub lower_idem : (c : ℕ) → lower (lower c) ≡ lower c
unfolding lower
lower_idem c = ground arith

-- `str::to_ascii_lowercase`
unfoldable pub to_ascii_lowercase : Bytes → Bytes
unfolding lower
to_ascii_lowercase = map lower

pub to_ascii_lowercase_idem :
    (s : Bytes) → to_ascii_lowercase (to_ascii_lowercase s) ≡ to_ascii_lowercase s
unfolding to_ascii_lowercase
to_ascii_lowercase_idem [] = refl
to_ascii_lowercase_idem (c ∷ s) = cc (lower_idem c, to_ascii_lowercase_idem s)

-- `str::eq_ignore_ascii_case`
unfoldable pub eq_ignore_ascii_case : Bytes → Bytes → Bool
unfolding to_ascii_lowercase ◌=b◌
eq_ignore_ascii_case a b = to_ascii_lowercase a =b to_ascii_lowercase b

pub eq_ignore_ascii_case_iff :
    (a b : Bytes)
    → (eq_ignore_ascii_case a b ≡ true) ↔ (to_ascii_lowercase a ≡ to_ascii_lowercase b)
unfolding eq_ignore_ascii_case
eq_ignore_ascii_case_iff a b = =b_iff (to_ascii_lowercase a) (to_ascii_lowercase b)

pub eq_ignore_ascii_case_refl : (a : Bytes) → eq_ignore_ascii_case a a ≡ true
eq_ignore_ascii_case_refl a = (eq_ignore_ascii_case_iff a a).1 refl

pub eq_ignore_ascii_case_lower :
    (a b : Bytes) → eq_ignore_ascii_case (to_ascii_lowercase a) b ≡ eq_ignore_ascii_case a b
unfolding eq_ignore_ascii_case
eq_ignore_ascii_case_lower a b = ap (λ s. s =b to_ascii_lowercase b) (to_ascii_lowercase_idem a)

pub eq_ignore_ascii_case_comm : (a b : Bytes) → eq_ignore_ascii_case a b ≡ eq_ignore_ascii_case b a
unfolding eq_ignore_ascii_case
eq_ignore_ascii_case_comm a b = =b_comm (to_ascii_lowercase a) (to_ascii_lowercase b)

-- Two names that are equal but for case compare alike with every third.
pub eq_ignore_ascii_case_congr :
    (a b c : Bytes)
    → eq_ignore_ascii_case a b ≡ true
    → eq_ignore_ascii_case a c ≡ eq_ignore_ascii_case b c
unfolding eq_ignore_ascii_case
eq_ignore_ascii_case_congr a b c h =
    ap (λ s. s =b to_ascii_lowercase c) ((eq_ignore_ascii_case_iff a b).0 h)

-- `-`, `_`, `.`, `:` and `/` beside the letters and digits: the source's token alphabet.
abbrev pub is_token_byte : ℕ → Bool
is_token_byte c =
    is_ascii_alphanumeric c || (c == b'-' || c == b'_' || c == b'.' || c == b':' || c == b'/')
