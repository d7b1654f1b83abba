-- ===== src/ComponentSupport/Fields/Edits.antt =====
-- `apply_header_edits` deletes and replaces the names it is given, and no others.
use wasi_http_middleware.Prelude.{
  Bool, true, false, List, [], ◌∷◌, ◌++◌, append_assoc, append-nil, map, ◌≡◌, inl, inr, refl, sym,
  ap, ◌∙◌, arith, Bytes, if◌then◌else◌, ok, >>=-eq-ok, ok-injective, map_err, map_err-eq-ok,
  Bool-cases,
}
use wasi_http_middleware.Text.{eq_ignore_ascii_case}
use wasi_http_middleware.ComponentSupport.HeaderList.{
  Header, is_named, header_values, contains_header_name,
}
use wasi_http_middleware.ComponentSupport.HeaderList.Laws.{header_values_of_absent}
use wasi_http_middleware.ComponentSupport.Fields.{
  HostFields, IsHostFields, unique_names, unique_replacement_names, delete_all, append_all,
  apply_header_edits,
}
use wasi_http_middleware.ComponentSupport.Fields.Diff.{
  mentions, mentions-unique_from, mentions-names,
}

-- The three loops together, under one name: `d` and `r` say whether it is deleted and replaced.
conclude :
    (d r : Bool) (before : List Bytes) {deleted cleared after values : List Bytes}
    → (r ≡ false → values ≡ [])
    → deleted ≡ (if d then [] else before)
    → cleared ≡ (if r then [] else deleted)
    → after ≡ cleared ++ values
    → after ≡ (if r then values else if d then [] else before)
conclude d true before lacks_r h k l = l ∙ rw (k) refl
conclude d false before {cleared = cleared} lacks_r h k l =
    l ∙ ap (λ vs. cleared ++ vs) (lacks_r refl) ∙ append-nil cleared ∙ k ∙ h

module _ {host : HostFields} (laws : IsHostFields host) where
  open host use {State, get, delete, append}

  get-delete_all :
      (s t : State) (names : List Bytes) (name : Bytes)
      → delete_all host s names ≡ ok t
      → get t name ≡ (if mentions names name then [] else get s name)
  unfolding delete_all
  get-delete_all s t [] name h = ap (λ x. get x name) (sym (ok-injective h))
  get-delete_all s t (n ∷ names) name h =
      let (s', deleted, r) = >>=-eq-ok (map_err (delete s n) tt) _ h in
      let step = laws.get-delete s s' n name (map_err-eq-ok (delete s n) tt deleted) in
      ground (arith, step, get-delete_all s' t names name r)

  get-append_all :
      (s t : State) (replacements : List Header) (name : Bytes)
      → append_all host s replacements ≡ ok t
      → get t name ≡ get s name ++ header_values replacements name
  unfolding append_all header_values is_named
  get-append_all s t [] name h =
      ap (λ x. get x name) (sym (ok-injective h)) ∙ sym (append-nil (get s name))
  get-append_all s t (x ∷ replacements) name h =
      let (s', appended, r) = >>=-eq-ok (map_err (append s x.name x.value) tt) _ h in
      let step =
        laws.get-append s s' x.name name x.value
          (map_err-eq-ok (append s x.name x.value) tt appended) in
      let ih = get-append_all s' t replacements name r in
      elim (Bool-cases (eq_ignore_ascii_case x.name name)) [
        | inl e ↦
            let appended_value : get s' name ≡ get s name ++ x.value ∷ [] =
              ground (arith, step, e) in
            rw (e) (
              ih
              ∙ ap (λ vs. vs ++ header_values replacements name) appended_value
              ∙ append_assoc (get s name) (x.value ∷ []) (header_values replacements name))
        | inr e ↦ ground (arith, e, step, ih)
      ]

  -- A successful edit leaves under a replaced name exactly its replacements, in their order; a deleted
  -- name that is not replaced loses its values; every other name keeps its own.
  pub get-apply_header_edits :
      (s t : State) (delete_names : List Bytes) (replacements : List Header)
      → apply_header_edits host s delete_names replacements ≡ ok t
      → (name : Bytes)
      → get t name ≡ (
          if contains_header_name replacements name
          then header_values replacements name
          else if mentions delete_names name
          then []
          else get s name)
  unfolding apply_header_edits unique_names unique_replacement_names
  get-apply_header_edits s t delete_names replacements h name =
      let (s', d1, r1) = >>=-eq-ok (delete_all host s (unique_names delete_names)) _ h in
      let (s'', d2, r2) =
        >>=-eq-ok (delete_all host s' (unique_replacement_names replacements)) _ r1 in
      let first = get-delete_all s s' (unique_names delete_names) name d1 in
      let second = get-delete_all s' s'' (unique_replacement_names replacements) name d2 in
      let third = get-append_all s'' t replacements name r2 in
      let in_deleted = mentions-unique_from [] delete_names name in
      let in_replaced =
        mentions-unique_from [] (map (λ (x : Header). x.name) replacements) name
        ∙ mentions-names replacements name in
      conclude (mentions delete_names name) (contains_header_name replacements name) (get s name)
        (header_values_of_absent replacements name) (first ∙ rw (in_deleted) refl)
        (second ∙ rw (in_replaced) refl) third
