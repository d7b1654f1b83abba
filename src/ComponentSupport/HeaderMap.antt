-- ===== src/ComponentSupport/HeaderMap.antt =====
-- `to_header_map`, `from_header_map` and `merge_header_map` of crates/component-support/src/lib.rs.
use wasi_http_middleware.Prelude.{
  Bool, true, ◌||◌, List, [], ◌∷◌, ◌++◌, map, ◌≡◌, refl, sym, ap, ◌∙◌, arith, Bytes, codes, some,
  if◌then◌else◌, ◌=b◌, Result, ok, ◌>>=◌, >>=-eq-ok, ok-injective, ok_or, ok_or-eq-ok, append_assoc,
  append-nil, if_true, if_false, Bool-cases, inl, inr,
}
use wasi_http_middleware.Text.{eq_ignore_ascii_case, to_ascii_lowercase, starts_with}
use wasi_http_middleware.ComponentSupport.HeaderList.Laws.{header_values-append}
use wasi_http_middleware.HttpCrate.{HttpCrate, IsHttpCrate}
use wasi_http_middleware.ComponentSupport.HeaderList.{
  Header, header_values, is_named, remove_header,
}

unfoldable pub is_sensitive_header : Bytes → Bool
unfolding starts_with ◌=b◌
is_sensitive_header name =
    (name =b codes "authorization"
      || name =b codes "proxy-authorization"
      || name =b codes "cookie"
      || name =b codes "set-cookie")
    || starts_with name (codes "x-wasi-auth-")

module _ (http : HttpCrate) where
  open http use {
    HeaderValue, HeaderMap, new_map, get_all, keys, append, header_name, value_from_bytes, as_bytes,
    set_sensitive,
  }

  abbrev pub marked : Bytes → HeaderValue → HeaderValue
  marked name value = if is_sensitive_header name then set_sensitive value true else value

  -- The loop of `to_header_map`.
  unfoldable pub append_fields : HeaderMap → List Header → Result (Unit {0}) HeaderMap
  unfolding is_sensitive_header
  append_fields output [] = ok output
  append_fields output (header ∷ headers) = do
    name ← ok_or (header_name header.name) tt
    value ← ok_or (value_from_bytes header.value) tt
    append_fields (append output name (marked name value)) headers

  unfoldable pub to_header_map : List Header → Result (Unit {0}) HeaderMap
  unfolding append_fields
  to_header_map headers = append_fields new_map headers

  -- The fields of one name, in the order of its values.
  abbrev pub fields_of : HeaderMap → Bytes → List Header
  fields_of headers name =
      map (λ value. record { name = name; value = as_bytes value }) (get_all headers name)

  unfoldable pub fields_of_names : HeaderMap → List Bytes → List Header
  fields_of_names headers [] = []
  fields_of_names headers (name ∷ names) = fields_of headers name ++ fields_of_names headers names

  unfoldable pub from_header_map : HeaderMap → List Header
  unfolding fields_of_names
  from_header_map headers = fields_of_names headers (keys headers)

  unfoldable pub merge_names : List Header → HeaderMap → List Bytes → List Header
  unfolding remove_header
  merge_names target source [] = target
  merge_names target source (name ∷ names) =
      merge_names (remove_header target name ++ fields_of source name) source names

  unfoldable pub merge_header_map : List Header → HeaderMap → List Header
  unfolding merge_names
  merge_header_map target source = merge_names target source (keys source)

module _ {http : HttpCrate} (laws : IsHttpCrate http) where
  open http use {
    HeaderValue, HeaderMap, new_map, get_all, append, header_name, value_from_bytes, as_bytes,
  }

  as_bytes-marked :
      (name : Bytes) (value : HeaderValue) → as_bytes (marked http name value) ≡ as_bytes value
  as_bytes-marked name value = elim (Bool-cases (is_sensitive_header name)) [
    | inl e ↦ rw (e) (laws.set_sensitive-as_bytes value true)
    | inr e ↦ rw (e) refl
  ]

  map-append_one :
      (vs : List HeaderValue) (v : HeaderValue)
      → map as_bytes (vs ++ v ∷ []) ≡ map as_bytes vs ++ as_bytes v ∷ []
  map-append_one [] v = refl
  map-append_one (w ∷ vs) v = ap (λ bs. as_bytes w ∷ bs) (map-append_one vs v)

  header_values_one :
      (header : Header) (name : Bytes)
      → header_values (header ∷ []) name
        ≡ (if eq_ignore_ascii_case header.name name then header.value ∷ [] else [])
  unfolding header_values is_named
  header_values_one header name = ground arith

  -- One step of the loop, under a name in lower case.
  get_all-append_field :
      (output : HeaderMap) (header : Header) (key : Bytes) (value : HeaderValue) (name : Bytes)
      → to_ascii_lowercase name ≡ name
      → header_name header.name ≡ some key
      → value_from_bytes header.value ≡ some value
      → map as_bytes (get_all (append output key (marked http key value)) name)
        ≡ map as_bytes (get_all output name) ++ header_values (header ∷ []) name
  unfolding eq_ignore_ascii_case
  get_all-append_field output header key value name low named held =
      let same : (key =b name) ≡ eq_ignore_ascii_case header.name name =
        cc (low, laws.header_name-eq header.name key named) in
      let bytes = as_bytes-marked key value ∙ laws.from_bytes-as_bytes header.value value held in
      let got = laws.get_all-append output key name (marked http key value) in
      elim (Bool-cases (key =b name)) [
        | inl e ↦
            ap (map as_bytes) (got ∙ if_true _ _ e)
            ∙ map-append_one (get_all output name) (marked http key value)
            ∙ ap (λ b. map as_bytes (get_all output name) ++ b ∷ []) bytes
            ∙ ap (λ vs. map as_bytes (get_all output name) ++ vs)
                (sym (header_values_one header name ∙ if_true _ _ (sym same ∙ e)))
        | inr e ↦
            ap (map as_bytes) (got ∙ if_false _ _ e)
            ∙ sym (append-nil (map as_bytes (get_all output name)))
            ∙ ap (λ vs. map as_bytes (get_all output name) ++ vs)
                (sym (header_values_one header name ∙ if_false _ _ (sym same ∙ e)))
      ]

  get_all-append_fields :
      (output m : HeaderMap) (headers : List Header) (name : Bytes)
      → to_ascii_lowercase name ≡ name
      → append_fields http output headers ≡ ok m
      → map as_bytes (get_all m name)
        ≡ map as_bytes (get_all output name) ++ header_values headers name
  unfolding append_fields header_values
  get_all-append_fields output m [] name low h =
      ap (λ x. map as_bytes (get_all x name)) (sym (ok-injective h))
      ∙ sym (append-nil (map as_bytes (get_all output name)))
  get_all-append_fields output m (header ∷ headers) name low h =
      let (key, e0, r0) = >>=-eq-ok (ok_or (header_name header.name) tt) _ h in
      let (value, e1, r1) = >>=-eq-ok (ok_or (value_from_bytes header.value) tt) _ r0 in
      let step =
        get_all-append_field output header key value name low
          (ok_or-eq-ok (header_name header.name) _ e0)
          (ok_or-eq-ok (value_from_bytes header.value) _ e1) in
      get_all-append_fields (append output key (marked http key value)) m headers name low r1
      ∙ ap (λ vs. vs ++ header_values headers name) step
      ∙ append_assoc (map as_bytes (get_all output name)) (header_values (header ∷ []) name)
          (header_values headers name)
      ∙ ap (λ vs. map as_bytes (get_all output name) ++ vs)
          (sym (header_values-append (header ∷ []) headers name))

  -- A successful conversion collapses nothing: under every name in lower case the map has the bytes of the
  -- list's values, each of them and in their order.
  pub get_all-to_header_map :
      (m : HeaderMap) (headers : List Header) (name : Bytes)
      → to_ascii_lowercase name ≡ name
      → to_header_map http headers ≡ ok m
      → map as_bytes (get_all m name) ≡ header_values headers name
  unfolding to_header_map
  get_all-to_header_map m headers name low h =
      get_all-append_fields new_map m headers name low h
      ∙ ap (λ vs. map as_bytes vs ++ header_values headers name) (laws.get_all-new_map name)
