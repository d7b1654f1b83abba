-- ===== src/Examples/Http.antt =====
-- A small `http` crate: a header map is a list of pairs, a value is its bytes.
use wasi_http_middleware.Prelude.{
  false, not, ◌||◌, List, [], ◌∷◌, ◌++◌, map, ◌≡◌, refl, sym, ap, ◌∙◌, arith, Bytes, codes,
  is_empty, all, within, filter, contains, Option, none, some, ◌=b◌, =b_iff, =b_comm, if◌then◌else◌,
  Bool-cases, inl, inr,
}
use wasi_http_middleware.Text.{to_ascii_lowercase, is_token_byte, starts_with, sort, dedup}
use wasi_http_middleware.Text.Sorted.{contains-dedup-sort, is_empty-dedup-sort}
use wasi_http_middleware.HttpCrate.{HttpCrate, IsHttpCrate}

abbrev pub Field : Type 0
Field = Bytes × Bytes

abbrev pub field_values : List Field → Bytes → List Bytes
field_values fields name =
    map (λ (field : Field). field.1) (filter (λ (field : Field). field.0 =b name) fields)

abbrev pub without : List Field → Bytes → List Field
without fields name = filter (λ (field : Field). not (field.0 =b name)) fields

abbrev visible : Bytes → Option Bytes
visible s = if all (within 32 126) s then some s else none

abbrev token : Bytes → Option Bytes
token s = if is_empty s || not (all is_token_byte s) then none else some s

abbrev pub http : HttpCrate
http = record {
  header_name =
      λ s. if is_empty s || not (all is_token_byte s) then none else some (to_ascii_lowercase s);
  HeaderValue = Bytes;
  value_from_bytes = visible;
  value_from_str = visible;
  value_from_static = λ s. s;
  as_bytes = λ v. v;
  to_str = visible;
  set_sensitive = λ v b. v;
  HeaderMap = List Field;
  new_map = [];
  get_all = field_values;
  contains_key = λ m n. not (is_empty (field_values m n));
  keys = λ m. map (λ (field : Field). field.0) m;
  append = λ m n v. m ++ (n, v) ∷ [];
  insert = λ m n v. without m n ++ (n, v) ∷ [];
  remove = without;
  method_from_bytes = token;
  method_set = λ ms. dedup (sort ms);
  Uri = Bytes × Bytes;
  parse_uri = λ s.
      if starts_with s (codes "https://app.example")
      then some (codes "https", codes "app.example")
      else none;
  scheme_str = λ uri. some (uri.0);
  uri_authority = λ uri. some (uri.1);
  uri_host = λ uri. some (uri.1);
  path_and_query = λ uri. none;
}

visible-eq : (s v : Bytes) → visible s ≡ some v → v ≡ s
visible-eq s v h = ground arith

token-eq : (s v : Bytes) → token s ≡ some v → v ≡ s
token-eq s v h = ground arith

field_values-append :
    (m : List Field) (n k v : Bytes)
    → field_values (m ++ (n, v) ∷ []) k
      ≡ (if n =b k then field_values m k ++ v ∷ [] else field_values m k)
field_values-append [] n k v = ground arith
field_values-append ((a, b) ∷ m) n k v = elim (Bool-cases (a =b k)) [
  | inl e ↦ ground (arith, e, field_values-append m n k v)
  | inr e ↦ ground (arith, e, field_values-append m n k v)
]

field_values-without :
    (m : List Field) (n k : Bytes)
    → field_values (without m n) k ≡ (if n =b k then [] else field_values m k)
field_values-without [] n k = ground arith
field_values-without ((a, b) ∷ m) n k =
    let ih = field_values-without m n k in
    elim (Bool-cases (a =b n)) [
      | inl e ↦
          let same : (a =b k) ≡ (n =b k) = ap (λ x. x =b k) ((=b_iff a n).0 e) in
          ground (arith, e, same, ih)
      | inr e ↦ elim (Bool-cases (a =b k)) [
        | inl e1 ↦
            let differs : (n =b k) ≡ false =
              =b_comm n k ∙ ap (λ x. x =b n) (sym ((=b_iff a k).0 e1)) ∙ e in
            ground (arith, e, e1, differs, ih)
        | inr e1 ↦ ground (arith, e, e1, ih)
      ]
    ]

contains-names :
    (m : List Field) (n : Bytes)
    → contains (map (λ (field : Field). field.0) m) n ≡ not (is_empty (field_values m n))
contains-names [] n = refl
contains-names ((a, b) ∷ m) n = ground (arith, contains-names m n)

field_values-insert :
    (m : List Field) (n k v : Bytes)
    → field_values (without m n ++ (n, v) ∷ []) k ≡ (if n =b k then v ∷ [] else field_values m k)
field_values-insert m n k v =
    ground (arith, field_values-append (without m n) n k v, field_values-without m n k)

pub http_laws : IsHttpCrate http
http_laws = record {
  header_name-eq = λ s n h. ground arith;
  from_bytes-as_bytes = λ s v h. visible-eq s v h;
  from_str-as_bytes = λ s v h. visible-eq s v h;
  from_static-as_bytes = λ s h. refl;
  to_str-as_bytes = λ v s h. sym (visible-eq v s h);
  to_str_visible = λ v h. rw (h) refl;
  from_str_visible = λ s h. (s, rw (h) refl);
  set_sensitive-as_bytes = λ v b. refl;
  get_all-new_map = λ n. refl;
  contains_key-eq = λ m n. refl;
  contains-keys = contains-names;
  get_all-append = field_values-append;
  get_all-insert = field_values-insert;
  get_all-remove = field_values-without;
  method_from_bytes-eq = token-eq;
  contains-method_set = contains-dedup-sort;
  is_empty-method_set = is_empty-dedup-sort;
}
