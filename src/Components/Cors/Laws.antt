-- ===== src/Components/Cors/Laws.antt =====
-- components/cors and components/secure-defaults give a response the same headers.
use wasi_http_middleware.Prelude.{
  is_empty, ok, if_ok_else-eq-ok, true, false, not, List, [], ◌∷◌, ◌++◌, append-nil, map, ◌≡◌, inl,
  inr, refl, sym, ap, ◌∙◌, arith, Bytes, contains, is_empty, if_false, Bool-cases, ◌=b◌, =b_refl,
}
use wasi_http_middleware.Text.{eq_ignore_ascii_case, eq_ignore_ascii_case_refl}
use wasi_http_middleware.HttpCrate.{HttpCrate, IsHttpCrate}
use wasi_http_middleware.Policy.Cors.Evaluate.{vary}
use wasi_http_middleware.ComponentSupport.HeaderList.{
  Header, is_named, header_values, contains_header_name, remove_header,
}
use wasi_http_middleware.ComponentSupport.HeaderList.Laws.{contains_header_name-append}
use wasi_http_middleware.ComponentSupport.HeaderMap.{fields_of}
use wasi_http_middleware.ComponentSupport.Messages.{HostHttp, response_headers}
use wasi_http_middleware.ComponentSupport.Messages.Host.{IsHostHttp}
use wasi_http_middleware.ComponentSupport.Messages.Forward.{
  edited, IsReturned, replace_response_headers-IsReturned,
}
use wasi_http_middleware.Components.Vary.Laws.{merged_vary_origin_congr}
use wasi_http_middleware.Components.Cors.{merge_keys, merge_cors_headers, add_cors_headers}
use wasi_http_middleware.Components.SecureDefaults.{replacements_of, cors_replacements}
use wasi_http_middleware.Components.SecureDefaults.Replacements.{
  replacements_of-other, fields_of_other,
}
use wasi_http_middleware.Components.Cors.Keys.{
  is_key_list, other_keys, is_key_list-tail, not_vary, later_key,
}
use wasi_http_middleware.Components.Cors.Steps.{merged_step, vary_step}

module _ {http : HttpCrate} (laws : IsHttpCrate http) where
  open http use {HeaderMap, HeaderValue, keys, get_all, contains_key, as_bytes}

  fields_of_same :
      (m : HeaderMap) (k name : Bytes)
      → eq_ignore_ascii_case k name ≡ true
      → contains_key m k ≡ true
      → contains_header_name (fields_of http m k) name ≡ true
  unfolding contains_header_name is_named
  fields_of_same m k name same held = go (get_all m k) (sym (laws.contains_key-eq m k) ∙ held)
    where
      go :
          (vs : List HeaderValue)
          → not (is_empty vs) ≡ true
          → contains_header_name (map (λ v. record { name = k; value = as_bytes v }) vs) name ≡ true
      go [] h = cc
      go (v ∷ vs) h = rw same refl

  header_values-merge_keys :
      (target : List Header) (m : HeaderMap) (ks : List Bytes) (name : Bytes)
      → is_key_list ks ≡ true
      → ((k : Bytes) → contains ks k ≡ true → contains_key m k ≡ true)
      → header_values (merge_keys http target m ks) name
        ≡ edited [] (replacements_of http m ks) (header_values target) name
  unfolding merge_keys replacements_of contains_header_name
  header_values-merge_keys target m [] name listed held = refl
  header_values-merge_keys target m (k ∷ ks) name listed held =
      let keys_of : is_key_list ks ≡ true = is_key_list-tail k ks listed in
      let held_of = λ (x : Bytes) (c : contains ks x ≡ true). held x (later_key k ks x c) in
      elim (Bool-cases (k =b vary)) [
        | inl e ↦ rw e (header_values-merge_keys target m ks name keys_of held_of)
        | inr e ↦
            let F = fields_of http m k in
            let R = replacements_of http m ks in
            let ih =
              header_values-merge_keys (remove_header target k ++ F) m ks name keys_of held_of in
            rw e (
              merged_step target F R k name ih
                (λ same. replacements_of-other laws m ks name (other_keys k ks name listed same))
                (λ same. fields_of_same m k name same (held k (ground (arith, =b_refl k))))
                (λ other. fields_of_other laws m k name other))
      ]

  -- The keys other than `vary` do not touch it.
  vary_untouched :
      (m : HeaderMap) (ks : List Bytes) (name : Bytes)
      → is_key_list ks ≡ true
      → eq_ignore_ascii_case vary name ≡ true
      → contains_header_name (replacements_of http m ks) name ≡ false
  unfolding replacements_of contains_header_name
  vary_untouched m [] name listed same = refl
  vary_untouched m (k ∷ ks) name listed same =
      let rest = vary_untouched m ks name (is_key_list-tail k ks listed) same in
      elim (Bool-cases (k =b vary)) [
        | inl e ↦ rw e rest
        | inr e ↦
            let first = fields_of_other laws m k name (not_vary k ks name listed same e) in
            rw e (
              contains_header_name-append (fields_of http m k) (replacements_of http m ks) name
              ∙ rw (first, rest) refl)
      ]

  -- On a map whose names are lower case and come once each, the list of fields that components/cors merges has
  -- under every name the values that the replacements of components/secure-defaults leave there.
  pub header_values-merge_cors_headers :
      (target : List Header) (m : HeaderMap) (name : Bytes)
      → is_key_list (keys m) ≡ true
      → header_values (merge_cors_headers http target m) name
        ≡ edited [] (cors_replacements http target m) (header_values target) name
  unfolding merge_cors_headers cors_replacements
  header_values-merge_cors_headers target m name listed =
      let merged = merge_keys http target m (keys m) in
      let R = replacements_of http m (keys m) in
      let held = λ (k : Bytes) (c : contains (keys m) k ≡ true). sym (laws.contains-keys m k) ∙ c in
      let at = λ (n : Bytes). header_values-merge_keys target m (keys m) n listed held in
      elim (Bool-cases (contains_key m vary)) [
        | inr e ↦ rw e (at name ∙ rw (append-nil R) refl)
        | inl e ↦
            let untouched =
              vary_untouched m (keys m) vary listed (eq_ignore_ascii_case_refl vary) in
            let same = merged_vary_origin_congr merged target (at vary ∙ if_false _ _ untouched) in
            rw e (
              vary_step target merged R name (at name) same (vary_untouched m (keys m) name listed))
      ]

nil_of_is_empty : (ks : List Bytes) → is_empty ks ≡ true → ks ≡ []
nil_of_is_empty [] h = refl
nil_of_is_empty (k ∷ ks) h = cc

module _ {http : HttpCrate} (laws : IsHttpCrate http) where
  open http use {HeaderMap, keys, contains_key}

  -- A map without names has no replacements.
  cors_replacements_of_empty :
      (original : List Header) (m : HeaderMap)
      → keys m ≡ []
      → cors_replacements http original m ≡ []
  unfolding cors_replacements replacements_of
  cors_replacements_of_empty original m none_of =
      let bare = sym (laws.contains-keys m vary) ∙ ap (λ ks. contains ks vary) none_of in
      rw (none_of, bare) refl

  -- A response that components/cors returns with the headers of a decision, whose names are lower case and come
  -- once each, has under every name the values that the replacements of components/secure-defaults leave
  -- there, and the status, body and trailers that it came with.
  pub add_cors_headers-IsReturned :
      {host : HostHttp} (on_host : IsHostHttp host) (m : HeaderMap) (response after : host.Response)
      → is_key_list (keys m) ≡ true
      → add_cors_headers http host m response ≡ ok after
      → IsReturned host response after (
          edited []
            (cors_replacements http (response_headers host response) m)
            (host.fields.get (host.response_parts response).headers))
  unfolding add_cors_headers response_headers
  add_cors_headers-IsReturned {host} on_host m response after listed h =
      let s = (host.response_parts response).headers in
      let original = host.copy_all s in
      elim (if_ok_else-eq-ok (is_empty (keys m)) response h) [
        | inl (empty, same) ↦ rw same (record {
          parts = refl;
          held = λ name.
              rw (cors_replacements_of_empty original m (nil_of_is_empty (keys m) empty)) refl;
        })
        | inr (_, replaced) ↦
            let r =
              replace_response_headers-IsReturned on_host response after
                (merge_cors_headers http original m) replaced in
            record {
              parts = r.parts;
              held = λ name.
                  r.held name
                  ∙ header_values-merge_cors_headers laws original m name listed
                  ∙ ap (λ vs. edited [] (cors_replacements http original m) (λ _. vs) name)
                      (sym (on_host.get-copy_all s name));
            }
      ]
