-- ===== src/Policy/Path.antt =====
-- `normalize_policy_path` of crates/policy-core/src/lib.rs.
pub mod Spec
mod Digits
mod Decodes
pub mod Laws
use Prim.Native.Nat.{bit_or}
use wasi_http_middleware.Prelude.{
  ℕ, ◌+◌, ◌-◌, ◌*◌, ◌%◌, Bool, true, false, not, ◌&&◌, ◌||◌, List, [], ◌∷◌, ◌++◌, Option, none,
  some, ltb, leb, ◌==◌, within, if◌then◌else◌, Bytes, codes, length, any, is_empty, Result, ok, err,
  ◌>>=◌, ok_or, ◌=b◌,
}
use wasi_http_middleware.Text.{
  is_ascii_control, is_utf8, split_first, split_rest, starts_with, contains_text,
}
use wasi_http_middleware.Policy.{PolicyError, invalid_path}

-- `MAX_POLICY_PATH_LEN`
abbrev pub max_policy_path_len : ℕ
max_policy_path_len = 8 * 1024

unfoldable pub hex_value : ℕ → Option ℕ
hex_value byte =
    if within b'0' b'9' byte
    then some (byte - b'0')
    else if within b'a' b'f' byte
    then some (byte - b'a' + 10)
    else if within b'A' b'F' byte
    then some (byte - b'A' + 10)
    else none

-- `(high << 4) | low` on bytes
abbrev pub combine : ℕ → ℕ → ℕ
combine high low = bit_or (high * 16 % 256) low

-- The decoded bytes that an escape may not stand for.
abbrev pub is_escape_rejected : ℕ → Bool
is_escape_rejected b =
    b == b'%' || b == b'/' || b == b'\\' || b == b'?' || b == b'#' || is_ascii_control b

abbrev pub is_literal_rejected : ℕ → Bool
is_literal_rejected b = b == b'\\' || b == b'#' || is_ascii_control b

-- One round of the loop at an escape: `decoded` with the byte that two hexadecimal digits spell.
pub push_escape : Bytes → Option ℕ → Option ℕ → Result PolicyError Bytes
push_escape decoded none low = err invalid_path
push_escape decoded (some high) none = err invalid_path
push_escape decoded (some high) (some low) =
    let byte = combine high low in
    if is_escape_rejected byte then err invalid_path else ok (decoded ++ byte ∷ [])

-- One round at any other byte.
pub push_literal : Bytes → ℕ → Result PolicyError Bytes
push_literal decoded byte =
    if is_literal_rejected byte then err invalid_path else ok (decoded ++ byte ∷ [])

-- The `while` loop, over the input from `index` on.
pub decode : Bytes → Bytes → Result PolicyError Bytes
unfolding push_escape push_literal hex_value
decode decoded [] = ok decoded
decode decoded (byte ∷ []) =
    if byte == b'%' then push_escape decoded none none else push_literal decoded byte
decode decoded (byte ∷ a ∷ []) = elim (byte == b'%') [
  | true ↦ push_escape decoded (hex_value a) none
  | false ↦ (do decoded' ← push_literal decoded byte; decode decoded' (a ∷ []))
]
decode decoded (byte ∷ a ∷ b ∷ s) = elim (byte == b'%') [
  | true ↦ (do decoded' ← push_escape decoded (hex_value a) (hex_value b); decode decoded' s)
  | false ↦ (do decoded' ← push_literal decoded byte; decode decoded' (a ∷ b ∷ s))
]

abbrev pub is_dot_segment : Bytes → Bool
is_dot_segment segment = segment =b codes "." || segment =b codes ".."

-- The checks on the decoded path.
abbrev pub is_ambiguous : Bytes → Bool
is_ambiguous decoded =
    ltb max_policy_path_len (length decoded)
    || contains_text decoded (codes "//")
    || any is_dot_segment (split_rest b'/' decoded)

-- The last test: the decoded bytes are text, and name one place.
pub check_decoded : Bytes → Result PolicyError Bytes
check_decoded decoded =
    if not (is_utf8 decoded) || is_ambiguous decoded then err invalid_path else ok decoded

-- What follows the cut at the query.
pub normalize_raw : Bytes → Result PolicyError Bytes
unfolding decode check_decoded split_first split_rest starts_with contains_text is_utf8 ◌=b◌
normalize_raw raw_path =
    if is_empty raw_path
    then ok (codes "/")
    else if not (starts_with raw_path (codes "/")) || ltb max_policy_path_len (length raw_path)
    then err invalid_path
    else (do decoded ← decode [] raw_path; check_decoded decoded)

unfoldable pub normalize_policy_path : Bytes → Result PolicyError Bytes
unfolding normalize_raw
normalize_policy_path path_with_query = normalize_raw (split_first b'?' path_with_query)
