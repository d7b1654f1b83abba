-- ===== src/ComponentSupport/Fields.antt =====
-- `apply_header_diff`, `apply_header_edits` and their helpers in crates/component-support/src/lib.rs. The
-- host's `fields` resource is a parameter; a mutation of it returns its new state. On an error the
-- callers drop the clone that they edited, so an error carries no state.
use wasi_http_middleware.Prelude.{
  ℕ, Bool, true, false, not, ◌&&◌, ◌||◌, List, [], ◌∷◌, ◌++◌, map, ◌≡◌, refl, Bytes, any, Option,
  none, some, if◌then◌else◌, ◌=b◌, Result, ok, err, ◌>>=◌, map_err,
}
use wasi_http_middleware.Text.{eq_ignore_ascii_case}
use wasi_http_middleware.ComponentSupport.HeaderList.{Header, header_values, contains_header_name}
pub mod Diff
pub mod Edits

-- `wasi:http/types` `fields`
pub record HostFields : Type 1 where
  pub HeaderError : Type 0
  pub State : Type 0
  pub get : State → Bytes → List Bytes
  pub set : State → Bytes → List Bytes → Result HeaderError State
  pub delete : State → Bytes → Result HeaderError State
  pub append : State → Bytes → Bytes → Result HeaderError State

-- What wit/deps/http.wit documents of them. Field names are compared without regard to case.
pub record IsHostFields (host : HostFields) : Type 0 where
  pub get-set :
      (s t : host.State) (name other : Bytes) (values : List Bytes)
      → host.set s name values ≡ ok t
      → host.get t other ≡ (if eq_ignore_ascii_case name other then values else host.get s other)
  pub get-delete :
      (s t : host.State) (name other : Bytes)
      → host.delete s name ≡ ok t
      → host.get t other ≡ (if eq_ignore_ascii_case name other then [] else host.get s other)
  pub get-append :
      (s t : host.State) (name other value : Bytes)
      → host.append s name value ≡ ok t
      → host.get t other ≡ (
          if eq_ignore_ascii_case name other
          then host.get s other ++ value ∷ []
          else host.get s other)

-- The loop of the three `unique_*` functions: each name the first time it comes.
unfoldable pub unique_from : List Bytes → List Bytes → List Bytes
unfolding eq_ignore_ascii_case
unique_from unique [] = unique
unique_from unique (name ∷ names) =
    if any (λ existing. eq_ignore_ascii_case existing name) unique
    then unique_from unique names
    else unique_from (unique ++ name ∷ []) names

unfoldable pub unique_names : List Bytes → List Bytes
unfolding unique_from
unique_names names = unique_from [] names

unfoldable pub unique_replacement_names : List Header → List Bytes
unfolding unique_from
unique_replacement_names replacements =
    unique_from [] (map (λ (header : Header). header.name) replacements)

unfoldable pub unique_header_names : List Header → List Bytes
unfolding unique_from
unique_header_names headers = unique_from [] (map (λ (header : Header). header.name) headers)

unfoldable pub same_values : List Bytes → List Bytes → Bool
unfolding ◌=b◌
same_values [] [] = true
same_values (v ∷ vs) (w ∷ ws) = v =b w && same_values vs ws
same_values _ _ = false

unfoldable pub header_values_equal : List Header → List Header → Bytes → Bool
unfolding same_values header_values
header_values_equal original desired name =
    same_values (header_values original name) (header_values desired name)

module _ (host : HostFields) where
  open host use {State, set, delete, append}

  unfoldable pub delete_all : State → List Bytes → Result (Unit {0}) State
  delete_all fields [] = ok fields
  delete_all fields (name ∷ names) = do
    fields' ← map_err (delete fields name) tt
    delete_all fields' names

  -- The first loop of `apply_header_diff`.
  unfoldable pub delete_missing : State → List Header → List Bytes → Result (Unit {0}) State
  unfolding contains_header_name
  delete_missing fields desired [] = ok fields
  delete_missing fields desired (name ∷ names) =
      if contains_header_name desired name
      then delete_missing fields desired names
      else (do fields' ← map_err (delete fields name) tt; delete_missing fields' desired names)

  -- The second loop of `apply_header_diff`.
  unfoldable pub set_changed :
      State → List Header → List Header → List Bytes → Result (Unit {0}) State
  unfolding header_values_equal header_values
  set_changed fields original desired [] = ok fields
  set_changed fields original desired (name ∷ names) =
      if header_values_equal original desired name
      then set_changed fields original desired names
      else (do
        fields' ← map_err (set fields name (header_values desired name)) tt
        set_changed fields' original desired names)

  unfoldable pub apply_header_diff : State → List Header → List Header → Result (Unit {0}) State
  unfolding delete_missing set_changed unique_header_names
  apply_header_diff fields original desired = do
    fields' ← delete_missing fields desired (unique_header_names original)
    set_changed fields' original desired (unique_header_names desired)

  unfoldable pub append_all : State → List Header → Result (Unit {0}) State
  append_all fields [] = ok fields
  append_all fields (replacement ∷ replacements) = do
    fields' ← map_err (append fields replacement.name replacement.value) tt
    append_all fields' replacements

  unfoldable pub apply_header_edits : State → List Bytes → List Header → Result (Unit {0}) State
  unfolding delete_all append_all unique_names unique_replacement_names
  apply_header_edits fields delete_names replacements = do
    fields' ← delete_all fields (unique_names delete_names)
    fields'' ← delete_all fields' (unique_replacement_names replacements)
    append_all fields'' replacements
