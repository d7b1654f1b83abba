-- ===== src/ComponentSupport/HeaderList.antt =====
-- The operations on a `Vec<Header>` of crates/component-support/src/lib.rs. A field is a name and a value;
-- names are compared without regard to case.
use wasi_http_middleware.Prelude.{
  ℕ, zero, suc, Bool, true, false, not, ◌&&◌, ◌||◌, List, [], ◌∷◌, ◌++◌, map, ◌≡◌, ◌≢◌, ◌↔◌, refl,
  sym, ap, ◌∙◌, arith, Bytes, codes, length, any, filter, Option, none, some, if◌then◌else◌, within,
}
use wasi_http_middleware.Text.{
  to_ascii_lowercase, eq_ignore_ascii_case, eq_ignore_ascii_case_iff, eq_ignore_ascii_case_lower,
  eq_ignore_ascii_case_congr,
}
pub mod Laws
pub mod Prefix

pub record Header : Type 0 where
  pub name : Bytes
  pub value : Bytes

-- `candidate.eq_ignore_ascii_case(name)`
unfoldable pub is_named : Bytes → Header → Bool
unfolding eq_ignore_ascii_case
is_named name header = eq_ignore_ascii_case header.name name

unfoldable pub header_values : List Header → Bytes → List Bytes
unfolding is_named
header_values headers name =
    map (λ (header : Header). header.value) (filter (is_named name) headers)

unfoldable pub only_value : List Bytes → Option Bytes
only_value [] = none
only_value (value ∷ []) = some value
only_value (value ∷ _ ∷ _) = none

unfoldable pub single_header_value : List Header → Bytes → Option Bytes
unfolding only_value header_values
single_header_value headers name = only_value (header_values headers name)

unfoldable pub remove_header : List Header → Bytes → List Header
unfolding is_named
remove_header headers name = filter (λ header. not (is_named name header)) headers

-- `str::get(..n)`: nothing past the end or inside a character
unfoldable pub get_prefix : ℕ → Bytes → Option Bytes
get_prefix zero [] = some []
get_prefix zero (b ∷ text) = if within 128 191 b then none else some []
get_prefix (suc n) [] = none
get_prefix (suc n) (b ∷ text) = elim (get_prefix n text) [
  | none ↦ none
  | some start ↦ some (b ∷ start)
]

unfoldable pub has_prefix : Bytes → Bytes → Bool
unfolding get_prefix eq_ignore_ascii_case
has_prefix prefix name = elim (get_prefix (length prefix) name) [
  | none ↦ false
  | some start ↦ eq_ignore_ascii_case start prefix
]

unfoldable pub remove_headers_with_prefix : List Header → Bytes → List Header
unfolding has_prefix
remove_headers_with_prefix headers prefix =
    filter (λ (header : Header). not (has_prefix prefix header.name)) headers

unfoldable pub set_header : List Header → Bytes → Bytes → List Header
unfolding remove_header to_ascii_lowercase
set_header headers name value =
    remove_header headers name ++ record { name = to_ascii_lowercase name; value = value } ∷ []

unfoldable pub contains_header_name : List Header → Bytes → Bool
unfolding is_named
contains_header_name headers name = any (is_named name) headers
