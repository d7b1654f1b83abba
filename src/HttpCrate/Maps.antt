-- ===== src/HttpCrate/Maps.antt =====
-- Header maps: what a chain of removals leaves, and names that a map lacks.
use wasi_http_middleware.Prelude.{
  Bool, false, not, ◌&&◌, List, [], ◌∷◌, ◌≡◌, refl, sym, ap, ◌∙◌, arith, Bytes, is_empty, contains,
  filter, ◌=b◌, =b_iff, Bool-cases, inl, inr,
}
use wasi_http_middleware.HttpCrate.Interface.{HttpCrate, IsHttpCrate}

pub contains-filter :
    (p : Bytes → Bool) (ns : List Bytes) (n : Bytes)
    → contains (filter p ns) n ≡ (p n && contains ns n)
contains-filter p [] n = ground arith
contains-filter p (k ∷ ns) n = elim (Bool-cases (k =b n)) [
  | inl same ↦ let e : k ≡ n = (=b_iff k n).0 same in ground (arith, contains-filter p ns n, ap p e)
  | inr other ↦ ground (arith, contains-filter p ns n)
]

module _ {http : HttpCrate} (laws : IsHttpCrate http) where
  open http use {HeaderValue, HeaderMap, get_all, contains_key, keys, remove}

  pub get_all_of_absent :
      (m : HeaderMap) (n : Bytes) → contains (keys m) n ≡ false → get_all m n ≡ []
  get_all_of_absent m n h =
      nil_of (get_all m n) (sym (laws.contains_key-eq m n) ∙ sym (laws.contains-keys m n) ∙ h)
    where
      nil_of : (vs : List HeaderValue) → not (is_empty vs) ≡ false → vs ≡ []
      nil_of [] e = refl
      nil_of (v ∷ vs) e = cc
