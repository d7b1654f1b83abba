-- ===== src/Policy/Cors/Valid.antt =====
-- What a configuration that was accepted satisfies.
use wasi_http_middleware.Prelude.{
  Bool, true, false, not, ◌&&◌, List, [], ◌∷◌, map, ◌≡◌, refl, Bytes, codes, is_empty, any, all,
  contains, Option, none, some, ◌=b◌, Result, ok, err, >>=-eq-ok, ok-injective, if_err-eq-ok,
  collect, &&-intro, =b_refl, all_of_not-any,
}
use wasi_http_middleware.Text.{trim, to_ascii_lowercase, to_ascii_lowercase_idem}
use wasi_http_middleware.Text.Sorted.{IsCanonical, dedup-sort-IsCanonical, all-dedup-sort}
use wasi_http_middleware.HttpCrate.{HttpCrate, IsHttpCrate}
use wasi_http_middleware.Policy.{PolicyError, invalid_configuration}
use wasi_http_middleware.Policy.Cors.Config.{
  CorsConfig, non_empty, wildcard, is_valid_cors_origin, collect_origins, read_method, read_header,
  check_origins, check_methods, new_cors_config,
}

-- A header name in lower case.
abbrev pub is_lower : Bytes → Bool
is_lower name = to_ascii_lowercase name =b name

module _ (http : HttpCrate) where
  open http use {method_set, header_name}

  pub record IsValidConfig (config : CorsConfig) : Type 0 where
    pub some_origin : is_empty config.origins ≡ false
    pub distinct_origins : IsCanonical config.origins
    pub valid_origins : all (is_valid_cors_origin http) config.origins ≡ true
    -- Credentials are never combined with the wildcard.
    pub explicit : (config.allow_credentials && contains config.origins wildcard) ≡ false
    pub some_method : is_empty config.methods ≡ false
    pub lower_headers : all is_lower config.headers ≡ true
    pub distinct_headers : IsCanonical config.headers

  check_origins-eq-ok :
      (origins : List Bytes) (credentials : Bool) {u : Unit {0}}
      → check_origins http origins credentials ≡ ok u
      → (is_empty origins ≡ false)
        × ((credentials && contains origins wildcard) ≡ false)
        × (all (is_valid_cors_origin http) origins ≡ true)
  unfolding check_origins
  check_origins-eq-ok origins credentials h =
      let (filled, h0) = if_err-eq-ok (is_empty origins) _ h in
      let (explicit, h1) = if_err-eq-ok (credentials && contains origins wildcard) _ h0 in
      let (valid, _) =
        if_err-eq-ok (any (λ origin. not (is_valid_cors_origin http origin)) origins) _ h1 in
      (filled, explicit, all_of_not-any (is_valid_cors_origin http) origins valid)

  read_header-is_lower :
      (header : Bytes) {name : Bytes} → read_header http header ≡ ok name → is_lower name ≡ true
  unfolding read_header
  read_header-is_lower header {name} h =
      let normalized = to_ascii_lowercase (trim header) in
      rw (← held (header_name normalized) h)
        (rw (to_ascii_lowercase_idem (trim header)) (=b_refl normalized))
    where
      held :
          (o : Option Bytes) {n : Bytes}
          → (elim o [
            | none ↦ err (invalid_configuration (codes "invalid CORS header"))
            | some _ ↦ ok n
          ])
            ≡ ok name
          → n ≡ name
      held none e = absurd (cc)
      held (some k) e = ok-injective e

  check_methods-eq-ok :
      (methods : List Bytes) {u : Unit {0}}
      → check_methods methods ≡ ok u
      → is_empty methods ≡ false
  unfolding check_methods
  check_methods-eq-ok methods h = let (filled, _) = if_err-eq-ok (is_empty methods) _ h in filled

  collect_origins-IsCanonical : (origins : List Bytes) → IsCanonical (collect_origins origins)
  unfolding collect_origins
  collect_origins-IsCanonical origins = dedup-sort-IsCanonical (non_empty (map trim origins))

  collect-all :
      (f : Bytes → Result PolicyError Bytes) (p : Bytes → Bool)
      → ((x y : Bytes) → f x ≡ ok y → p y ≡ true)
      → (xs : List Bytes) {ys : List Bytes} → collect f xs ≡ ok ys
      → all p ys ≡ true
  unfolding collect
  collect-all f p each [] h = rw (← ok-injective h) refl
  collect-all f p each (x ∷ xs) h =
      let (y, first, h0) = >>=-eq-ok (f x) _ h in
      let (ys, rest, h1) = >>=-eq-ok (collect f xs) _ h0 in
      rw (← ok-injective h1)
        (&&-intro (p y) (all p ys) (each x y first) (collect-all f p each xs rest))

  -- Every configuration that the constructor returns is valid.
  pub new_cors_config-IsValidConfig :
      (laws : IsHttpCrate http) (origins methods headers : List Bytes) (credentials : Bool)
      (config : CorsConfig)
      → new_cors_config http origins methods headers credentials ≡ ok config
      → IsValidConfig config
  unfolding new_cors_config
  new_cors_config-IsValidConfig laws origins methods headers credentials config h =
      let (_, e0, h0) = >>=-eq-ok (check_origins http (collect_origins origins) credentials) _ h in
      let (ms, e1, h1) = >>=-eq-ok (collect (read_method http) methods) _ h0 in
      let (_, e2, h2) = >>=-eq-ok (check_methods (method_set ms)) _ h1 in
      let (hs, e3, h3) = >>=-eq-ok (collect (read_header http) headers) _ h2 in
      let (filled, explicit, valid) =
        check_origins-eq-ok (collect_origins origins) credentials e0 in
      let lower =
        collect-all (read_header http) is_lower (λ x y. read_header-is_lower x) headers e3 in
      rw (← ok-injective h3) (record {
        some_origin = filled;
        distinct_origins = collect_origins-IsCanonical origins;
        valid_origins = valid;
        explicit = explicit;
        some_method = check_methods-eq-ok (method_set ms) e2;
        lower_headers = all-dedup-sort is_lower hs lower;
        distinct_headers = dedup-sort-IsCanonical hs;
      })
