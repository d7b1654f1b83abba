-- ===== src/Components/Vary.antt =====
-- The merge of `Origin` into the `vary` fields, in components/cors and components/secure-defaults: the loop
-- is the same text in both.
pub mod Laws
use wasi_http_middleware.Prelude.{
  Bool, List, [], ◌∷◌, ◌++◌, Bytes, codes, any, Option, none, some, ◌=b◌, if◌then◌else◌,
}
use wasi_http_middleware.Text.{from_utf8, join, eq_ignore_ascii_case}
use wasi_http_middleware.Policy.Cors.Config.{split_csv, wildcard}
use wasi_http_middleware.Policy.Cors.Evaluate.{vary}
use wasi_http_middleware.ComponentSupport.HeaderList.{Header, header_values, set_header}

abbrev pub has_token : List Bytes → Bytes → Bool
has_token tokens token = any (λ existing. eq_ignore_ascii_case existing token) tokens

unfoldable pub add_token : List Bytes → Bytes → List Bytes
unfolding eq_ignore_ascii_case
add_token tokens token = if has_token tokens token then tokens else tokens ++ token ∷ []

-- The inner loop; `none` is its early return on a wildcard.
unfoldable pub add_tokens : List Bytes → List Bytes → Option (List Bytes)
unfolding add_token ◌=b◌
add_tokens tokens [] = some tokens
add_tokens tokens (token ∷ incoming) =
    let rest = add_tokens (add_token tokens token) incoming in
    if token =b wildcard then none else rest

-- The outer loop: a value that is not text clears the tokens and ends it.
unfoldable pub collect_tokens : List Bytes → List Bytes → Option (List Bytes)
unfolding add_tokens split_csv
collect_tokens tokens [] = some tokens
collect_tokens tokens (value ∷ values) = elim (from_utf8 value) [
  | none ↦ some []
  | some text ↦ elim (add_tokens tokens (split_csv text)) [
    | none ↦ none
    | some tokens' ↦ collect_tokens tokens' values
  ]
]

unfoldable pub with_origin : List Bytes → List Bytes
unfolding eq_ignore_ascii_case
with_origin tokens =
    if has_token tokens (codes "origin") then tokens else tokens ++ codes "Origin" ∷ []

-- `merge_vary_origin` of components/cors
unfoldable pub merge_vary_origin : List Header → List Header
unfolding collect_tokens with_origin join set_header header_values
merge_vary_origin headers = elim (collect_tokens [] (header_values headers vary)) [
  | none ↦ set_header headers vary wildcard
  | some tokens ↦ set_header headers vary (join (codes ", ") (with_origin tokens))
]

-- `merged_vary_origin` of components/secure-defaults
unfoldable pub merged_vary_origin : List Header → Bytes
unfolding collect_tokens with_origin join header_values
merged_vary_origin headers = elim (collect_tokens [] (header_values headers vary)) [
  | none ↦ wildcard
  | some tokens ↦ join (codes ", ") (with_origin tokens)
]
