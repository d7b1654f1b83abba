-- ===== src/Policy/Path/Spec.antt =====
-- What `normalize_policy_path` of crates/policy-core/src/lib.rs is to do, without its loop and its tests: an
-- escape is read by its digits' places in a table, and what is forbidden is listed.
use wasi_http_middleware.Prelude.{
  ℕ, suc, ◌+◌, ◌*◌, ◌≤◌, Bool, true, false, not, ◌&&◌, List, [], ◌∷◌, Option, none, some, ◌==◌, ◌≡◌,
  leb, Bytes, codes, any, contains, length, if◌then◌else◌,
}
use wasi_http_middleware.Text.{
  lower, contains_byte, contains_text, starts_with, split_rest, is_utf8,
}

-- The place of a byte in a text.
unfoldable pub index_of : ℕ → Bytes → Option ℕ
index_of c [] = none
index_of c (d ∷ s) =
    let later = index_of c s in
    if c == d then some 0 else elim later [ none ↦ none | some n ↦ some (suc n) ]

abbrev pub hex_digits : Bytes
hex_digits = codes "0123456789abcdef"

-- A byte is the digit of a value, in either case.
abbrev pub IsDigit : ℕ → ℕ → Type 0
IsDigit byte value = index_of (lower byte) hex_digits ≡ some value

-- A byte that may stand in a path: no control character, percent sign, backslash or fragment.
abbrev pub is_path_byte : ℕ → Bool
is_path_byte c = leb 32 c && not (c == 127) && not (contains_byte c (codes "%\\#"))

-- A byte that an escape may stand for: neither separates anything.
abbrev pub is_escapable : ℕ → Bool
is_escapable c = is_path_byte c && not (contains_byte c (codes "/?"))

-- A byte that decoding neither changes nor refuses, and that ends no path.
abbrev pub is_plain_byte : ℕ → Bool
is_plain_byte c = is_path_byte c && not (c == b'?')

-- `d` is `s` with each escape `%ab` replaced once by the byte that it spells, and only path bytes are left.
pub data Decodes : Bytes → Bytes → Type 0 where
  done : Decodes [] []
  literal : {c : ℕ} {s d : Bytes} → is_path_byte c ≡ true → Decodes s d → Decodes (c ∷ s) (c ∷ d)
  escape :
      {c a b h l : ℕ} {s d : Bytes}
      → c ≡ b'%'
      → IsDigit a h
      → IsDigit b l
      → is_escapable (16 * h + l) ≡ true
      → Decodes s d
      → Decodes (c ∷ a ∷ b ∷ s) ((16 * h + l) ∷ d)

abbrev pub dot_segments : List Bytes
dot_segments = codes "." ∷ codes ".." ∷ []

-- When the part before the query is normalised to `p`.
pub record Normalizes (raw p : Bytes) : Type 0 where
  pub raw_absolute : starts_with raw (codes "/") ≡ true
  pub raw_bounded : length raw ≤ 8192
  pub decodes : Decodes raw p
  pub text : is_utf8 p ≡ true
  pub no_empty_segment : contains_text p (codes "//") ≡ false
  pub no_dot_segment : any (contains dot_segments) (split_rest b'/' p) ≡ false
