-- ===== src/Components/Vary/Laws.antt =====
-- The merged `vary` value keeps every cache key of the response, and has `Origin`.
use wasi_http_middleware.Prelude.{
  ap, Bool, true, false, ◌||◌, List, [], ◌∷◌, ◌++◌, ◌≡◌, ◌⊎◌, inl, inr, refl, sym, ◌∙◌, arith,
  Bytes, codes, all, any, none, some, if◌then◌else◌, Bool-cases, Option-cases, &&-elim, ◌=b◌,
}
use wasi_http_middleware.Text.{join, is_utf8, lower, to_ascii_lowercase, eq_ignore_ascii_case}
use wasi_http_middleware.Policy.Cors.Config.{split_csv, wildcard}
use wasi_http_middleware.Policy.Cors.Evaluate.{vary}
use wasi_http_middleware.ComponentSupport.HeaderList.{Header, header_values}
use wasi_http_middleware.ComponentSupport.HeaderList.Laws.{header_values-set_header}
use wasi_http_middleware.ComponentSupport.Fields.Diff.{mentions-append, mentions_congr}
use wasi_http_middleware.Components.Vary.{
  has_token, add_token, add_tokens, collect_tokens, with_origin, merge_vary_origin,
  merged_vary_origin,
}

-- The tokens of the values of a response.
unfoldable pub tokens_of : List Bytes → List Bytes
unfolding split_csv
tokens_of [] = []
tokens_of (value ∷ values) = split_csv value ++ tokens_of values

has_token-add_token :
    (tokens : List Bytes) (t k : Bytes)
    → (has_token tokens k ≡ true → has_token (add_token tokens t) k ≡ true)
      × (eq_ignore_ascii_case t k ≡ true → has_token (add_token tokens t) k ≡ true)
unfolding add_token
has_token-add_token tokens t k = elim (Bool-cases (has_token tokens t)) [
  | inl e ↦ rw (e) (λ h. h, λ h. sym (mentions_congr tokens t k h) ∙ e)
  | inr e ↦ rw (e) (
    λ h. mentions-append tokens t k ∙ rw h refl,
    λ h. mentions-append tokens t k ∙ ground (arith, h),
  )
]

any-append : (p : Bytes → Bool) (xs ys : List Bytes) → any p (xs ++ ys) ≡ (any p xs || any p ys)
any-append p [] ys = refl
any-append p (x ∷ xs) ys = ground (arith, any-append p xs ys)

-- A loop that runs to its end keeps what there was and adds what comes.
has_token-add_tokens :
    (tokens incoming out : List Bytes) (k : Bytes)
    → add_tokens tokens incoming ≡ some out
    → (has_token tokens k || has_token incoming k) ≡ true
    → has_token out k ≡ true
unfolding add_tokens
has_token-add_tokens tokens [] out k h t =
    let same : tokens ≡ out = cc in rw (← same) (ground (arith, t))
has_token-add_tokens tokens (x ∷ incoming) out k h t = elim (Bool-cases (x =b wildcard)) [
  | inl e ↦ absurd (cc (rw (e, add_tokens) at h))
  | inr e ↦
      let (kept, added) = has_token-add_token tokens x k in
      has_token-add_tokens (add_token tokens x) incoming out k (rw (e, add_tokens) at h)
        (either kept added)
]
  where
    either :
        (has_token tokens k ≡ true → has_token (add_token tokens x) k ≡ true)
        → (eq_ignore_ascii_case x k ≡ true → has_token (add_token tokens x) k ≡ true)
        → (has_token (add_token tokens x) k || has_token incoming k) ≡ true
    either kept added = ground arith

add_tokens-eq-none :
    (tokens incoming : List Bytes)
    → add_tokens tokens incoming ≡ none
    → any (λ t. t =b wildcard) incoming ≡ true
unfolding add_tokens
add_tokens-eq-none tokens [] h = absurd (cc)
add_tokens-eq-none tokens (x ∷ incoming) h = elim (Bool-cases (x =b wildcard)) [
  | inl e ↦ ground (arith, e)
  | inr e ↦
      let rest = add_tokens-eq-none (add_token tokens x) incoming (rw (e, add_tokens) at h) in
      ground (arith, rest)
]

collect_tokens-keeps :
    (tokens values out : List Bytes) (k : Bytes)
    → all is_utf8 values ≡ true
    → collect_tokens tokens values ≡ some out
    → (has_token tokens k || has_token (tokens_of values) k) ≡ true
    → has_token out k ≡ true
unfolding collect_tokens tokens_of
collect_tokens-keeps tokens [] out k texts h t =
    let same : tokens ≡ out = cc in rw (← same) (ground (arith, t))
collect_tokens-keeps tokens (value ∷ values) out k texts h t =
    let text = (&&-elim (is_utf8 value) (all is_utf8 values) texts).0 in
    let others = (&&-elim (is_utf8 value) (all is_utf8 values) texts).1 in
    let h' = rw (text, collect_tokens) at h in
    let joined =
      any-append (λ existing. eq_ignore_ascii_case existing k) (split_csv value)
        (tokens_of values) in
    elim (Option-cases (add_tokens tokens (split_csv value))) [
      | inl e ↦ absurd (cc (rw (e) at h'))
      | inr (next, e) ↦ collect_tokens-keeps next values out k others (rw (e) at h') (
          either (has_token tokens k) (has_token (split_csv value) k)
            (has_token (tokens_of values) k) (ground (arith, joined, t))
            (has_token-add_tokens tokens (split_csv value) next k e))
    ]
  where
    either :
        (a b c : Bool) {out_has : Bool}
        → (a || (b || c)) ≡ true
        → ((a || b) ≡ true → out_has ≡ true)
        → (out_has || c) ≡ true
    either a b true h f = ground arith
    either true b false h f = ground (arith, f refl)
    either false true false h f = ground (arith, f refl)
    either false false false h f = absurd (cc)

collect_tokens-eq-none :
    (tokens values : List Bytes)
    → all is_utf8 values ≡ true
    → collect_tokens tokens values ≡ none
    → any (λ t. t =b wildcard) (tokens_of values) ≡ true
unfolding collect_tokens tokens_of
collect_tokens-eq-none tokens [] texts h = absurd (cc)
collect_tokens-eq-none tokens (value ∷ values) texts h =
    let text = (&&-elim (is_utf8 value) (all is_utf8 values) texts).0 in
    let others = (&&-elim (is_utf8 value) (all is_utf8 values) texts).1 in
    let h' = rw (text, collect_tokens) at h in
    let joined = any-append (λ t. t =b wildcard) (split_csv value) (tokens_of values) in
    elim (Option-cases (add_tokens tokens (split_csv value))) [
      | inl e ↦ ground (arith, joined, add_tokens-eq-none tokens (split_csv value) e)
      | inr (next, e) ↦
          ground (arith, joined, collect_tokens-eq-none next values others (rw (e) at h'))
    ]

has_token-with_origin :
    (tokens : List Bytes) (k : Bytes)
    → (has_token tokens k ≡ true → has_token (with_origin tokens) k ≡ true)
      × (has_token (with_origin tokens) (codes "origin") ≡ true)
unfolding with_origin eq_ignore_ascii_case to_ascii_lowercase lower ◌=b◌
has_token-with_origin tokens k = elim (Bool-cases (has_token tokens (codes "origin"))) [
  | inl e ↦ rw (e) (λ h. h, e)
  | inr e ↦ rw (e) (
    λ h. mentions-append tokens (codes "Origin") k ∙ rw h refl,
    mentions-append tokens (codes "Origin") (codes "origin") ∙ ground arith,
  )
]

-- When all `vary` values are text, the merged value is a wildcard, which one of them has, or it lists tokens
-- among which are `Origin` and every token of these values, without regard to case.
pub merged_vary_origin_covers :
    (headers : List Header)
    → all is_utf8 (header_values headers vary) ≡ true
    → ((any (λ t. t =b wildcard) (tokens_of (header_values headers vary)) ≡ true)
        × (merged_vary_origin headers ≡ wildcard))
      ⊎ ((tokens : List Bytes) × (merged_vary_origin headers ≡ join (codes ", ") tokens)
          × (has_token tokens (codes "origin") ≡ true)
          × ((k : Bytes)
              → has_token (tokens_of (header_values headers vary)) k ≡ true
              → has_token tokens k ≡ true))
unfolding merged_vary_origin
merged_vary_origin_covers headers texts =
    let values = header_values headers vary in
    elim (Option-cases (collect_tokens [] values)) [
      | inl e ↦ inl (collect_tokens-eq-none [] values texts e, rw (e, merged_vary_origin) refl)
      | inr (tokens, e) ↦ inr (
        with_origin tokens,
        rw (e, merged_vary_origin) refl,
        (has_token-with_origin tokens []).1,
        λ k h.
            (has_token-with_origin tokens k).0
              (collect_tokens-keeps [] values tokens k texts e (ground (arith, h))),
      )
    ]

-- The merged value depends on the `vary` values only.
pub merged_vary_origin_congr :
    (a b : List Header)
    → header_values a vary ≡ header_values b vary
    → merged_vary_origin a ≡ merged_vary_origin b
unfolding merged_vary_origin
merged_vary_origin_congr a b h =
    ap
      (λ vs. elim (collect_tokens [] vs) [
        | none ↦ wildcard
        | some tokens ↦ join (codes ", ") (with_origin tokens)
      ])
      h

-- The edit of components/cors leaves under `vary` just the value that components/secure-defaults replaces it
-- with, in any spelling, and every other name as it was.
pub header_values-merge_vary_origin :
    (headers : List Header) (name : Bytes)
    → header_values (merge_vary_origin headers) name ≡ (
        if eq_ignore_ascii_case vary name
        then merged_vary_origin headers ∷ []
        else header_values headers name)
unfolding merged_vary_origin merge_vary_origin
header_values-merge_vary_origin headers name =
    elim (Option-cases (collect_tokens [] (header_values headers vary))) [
      | inl e ↦
          rw (e, merged_vary_origin, merge_vary_origin)
            (header_values-set_header headers vary wildcard name)
      | inr (tokens, e) ↦
          rw (e, merged_vary_origin, merge_vary_origin)
            (header_values-set_header headers vary (join (codes ", ") (with_origin tokens)) name)
    ]
