-- ===== src/Components/SecureDefaults/Replacements.antt =====
-- Which names the replacements of a response of components/secure-defaults have.
use wasi_http_middleware.Prelude.{
  Bool, true, false, not, List, [], ◌∷◌, map, ◌≡◌, inl, inr, refl, sym, ap, ◌∙◌, arith, Bytes, all,
  contains, is_empty, ◌=b◌, =b_iff, =b_refl, Bool-cases,
}
use wasi_http_middleware.Text.{lower, to_ascii_lowercase, eq_ignore_ascii_case}
use wasi_http_middleware.HttpCrate.{HttpCrate, IsHttpCrate}
use wasi_http_middleware.Metadata.{reserved_auth_prefix}
use wasi_http_middleware.Policy.Cors.Evaluate.{vary}
use wasi_http_middleware.Policy.Cors.Names.{cors_names, HasCorsNames}
use wasi_http_middleware.ComponentSupport.HeaderList.{
  Header, is_named, has_prefix, get_prefix, contains_header_name,
}
use wasi_http_middleware.ComponentSupport.HeaderList.Laws.{contains_header_name-append}
use wasi_http_middleware.ComponentSupport.HeaderList.Prefix.{has_prefix_congr}
use wasi_http_middleware.ComponentSupport.HeaderMap.{fields_of}
use wasi_http_middleware.Components.SecureDefaults.{replacements_of, cors_replacements}

-- No name of the protocol is this one, in any spelling.
abbrev pub is_foreign : Bytes → Bool
is_foreign name = all (λ k. not (eq_ignore_ascii_case k name)) cors_names

foreign_name :
    (names : List Bytes) (k name : Bytes)
    → contains names k ≡ true
    → all (λ n. not (eq_ignore_ascii_case n name)) names ≡ true
    → eq_ignore_ascii_case k name ≡ false
foreign_name [] k name h a = cc
foreign_name (n ∷ names) k name h a = elim (Bool-cases (n =b k)) [
  | inl e ↦
      let same = (=b_iff n k).0 e in ground (arith, ap (λ x. eq_ignore_ascii_case x name) same)
  | inr e ↦ foreign_name names k name (ground arith) (ground arith)
]

-- A reserved name is neither of the other names.
pub unreserved :
    (known name : Bytes)
    → has_prefix reserved_auth_prefix known ≡ false
    → has_prefix reserved_auth_prefix name ≡ true
    → eq_ignore_ascii_case known name ≡ false
unreserved known name h k = elim (Bool-cases (eq_ignore_ascii_case known name)) [
  | inl e ↦ let same = has_prefix_congr reserved_auth_prefix known name e in absurd (cc)
  | inr e ↦ e
]

pub reserved-is_foreign :
    (name : Bytes) → has_prefix reserved_auth_prefix name ≡ true → is_foreign name ≡ true
unfolding has_prefix get_prefix eq_ignore_ascii_case to_ascii_lowercase lower ◌=b◌
reserved-is_foreign name h = go cors_names refl
  where
    go :
        (names : List Bytes)
        → all (λ k. not (has_prefix reserved_auth_prefix k)) names ≡ true
        → all (λ k. not (eq_ignore_ascii_case k name)) names ≡ true
    go [] a = refl
    go (n ∷ names) a = elim (Bool-cases (has_prefix reserved_auth_prefix n)) [
      | inl e ↦ absurd (ground (arith, e))
      | inr e ↦ rw (unreserved n name e h) (go names (ground (arith, e)))
    ]

module _ {http : HttpCrate} (laws : IsHttpCrate http) where
  open http use {HeaderMap, keys, get_all, contains_key}

  contains-cors_names :
      (m : HeaderMap) (k : Bytes)
      → HasCorsNames laws m
      → contains_key m k ≡ true
      → contains cors_names k ≡ true
  contains-cors_names m k held h = elim (Bool-cases (contains cors_names k)) [
    | inl e ↦ e
    | inr e ↦
        let empty = ap (λ vs. not (is_empty vs)) (held k e) in
        absurd (cc (laws.contains_key-eq m k, empty))
  ]

  pub fields_of_other :
      (m : HeaderMap) (k name : Bytes)
      → eq_ignore_ascii_case k name ≡ false
      → contains_header_name (fields_of http m k) name ≡ false
  unfolding contains_header_name is_named
  fields_of_other m k name h = go (get_all m k)
    where
      go :
          (vs : List http.HeaderValue)
          → contains_header_name (map (λ v. record { name = k; value = http.as_bytes v }) vs) name
            ≡ false
      go [] = refl
      go (v ∷ vs) = rw h (go vs)

  pub replacements_of-other :
      (m : HeaderMap) (ks : List Bytes) (name : Bytes)
      → ((k : Bytes) → contains ks k ≡ true → eq_ignore_ascii_case k name ≡ false)
      → contains_header_name (replacements_of http m ks) name ≡ false
  unfolding replacements_of contains_header_name
  replacements_of-other m [] name h = refl
  replacements_of-other m (k ∷ ks) name h =
      let rest = replacements_of-other m ks name (λ x held. h x (ground arith)) in
      elim (Bool-cases (k =b vary)) [
        | inl e ↦ rw e rest
        | inr e ↦
            let first = fields_of_other m k name (h k (ground (arith, =b_refl k))) in
            rw (e) (
              contains_header_name-append (fields_of http m k) (replacements_of http m ks) name
              ∙ rw (first, rest) refl)
      ]

  -- A foreign name has no replacement that comes from a decision.
  pub cors_replacements-foreign :
      (m : HeaderMap) (original : List Header) (name : Bytes)
      → HasCorsNames laws m
      → is_foreign name ≡ true
      → contains_header_name (cors_replacements http original m) name ≡ false
  unfolding cors_replacements contains_header_name is_named
  cors_replacements-foreign m original name held foreign =
      let first = replacements_of-other m (keys m) name (λ k found.
        foreign_name cors_names k name
          (contains-cors_names m k held (sym (laws.contains-keys m k) ∙ found)) foreign) in
      let vary_other = foreign_name cors_names vary name refl foreign in
      contains_header_name-append (replacements_of http m (keys m)) _ name
      ∙ rw first (elim (Bool-cases (contains_key m vary)) [
        | inl e ↦ rw (e, vary_other) refl
        | inr e ↦ rw e refl
      ])
