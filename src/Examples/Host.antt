-- ===== src/Examples/Host.antt =====
-- A host's field list, whose mutations always succeed, and the edits of header lists.
use wasi_http_middleware.Prelude.{
  Bool, true, false, List, [], ◌∷◌, ◌++◌, map, ◌≡◌, refl, sym, ap, ◌∙◌, arith, Bytes, if◌then◌else◌,
  ok, append-nil, ok-injective,
}
use wasi_http_middleware.Text.{eq_ignore_ascii_case}
use wasi_http_middleware.ComponentSupport.HeaderList.{
  Header, is_named, header_values, remove_header,
}
use wasi_http_middleware.ComponentSupport.HeaderList.Laws.{
  header_values-append, header_values-remove_header,
}
use wasi_http_middleware.ComponentSupport.Fields.{HostFields, IsHostFields}

abbrev pub named : Bytes → Bytes → Header
named name value = record { name = name; value = value }

abbrev pub all_named : Bytes → List Bytes → List Header
all_named name values = map (named name) values

unfoldable pub host : HostFields
unfolding header_values remove_header
host = record {
  HeaderError = Unit {0};
  State = List Header;
  get = header_values;
  set = λ s name values. ok (remove_header s name ++ all_named name values);
  delete = λ s name. ok (remove_header s name);
  append = λ s name value. ok (s ++ named name value ∷ []);
}

header_values-all_named :
    (name other : Bytes) (values : List Bytes)
    → header_values (all_named name values) other
      ≡ (if eq_ignore_ascii_case name other then values else [])
unfolding header_values is_named
header_values-all_named name other [] = ground arith
header_values-all_named name other (v ∷ values) =
    ground (arith, header_values-all_named name other values)

append_either :
    (b : Bool) (old new : List Bytes) {xs ys : List Bytes}
    → xs ≡ (if b then [] else old)
    → ys ≡ (if b then new else [])
    → xs ++ ys ≡ (if b then new else old)
append_either true old new h k = rw (h, k) refl
append_either false old new h k = rw (h, k) (append-nil old)

append_kept :
    (b : Bool) (old new : List Bytes) {ys : List Bytes}
    → ys ≡ (if b then new else [])
    → old ++ ys ≡ (if b then old ++ new else old)
append_kept true old new k = rw (k) refl
append_kept false old new k = rw (k) (append-nil old)

pub host_laws : IsHostFields host
unfolding host
host_laws = record {
  get-set = λ s t name other values h.
      ap (λ x. header_values x other) (sym (ok-injective h))
      ∙ header_values-append (remove_header s name) (all_named name values) other
      ∙ append_either (eq_ignore_ascii_case name other) (header_values s other) values
          (header_values-remove_header s name other) (header_values-all_named name other values);
  get-delete = λ s t name other h.
      ap (λ x. header_values x other) (sym (ok-injective h))
      ∙ header_values-remove_header s name other;
  get-append = λ s t name other value h.
      ap (λ x. header_values x other) (sym (ok-injective h))
      ∙ header_values-append s (named name value ∷ []) other
      ∙ append_kept (eq_ignore_ascii_case name other) (header_values s other) (value ∷ [])
          (header_values-all_named name other (value ∷ []));
}
