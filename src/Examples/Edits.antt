-- ===== src/Examples/Edits.antt =====
-- Runs of crates/component-support/src/lib.rs.
use wasi_http_middleware.Prelude.{
  ℕ, true, List, [], ◌∷◌, map, ◌≡◌, ◌≢◌, refl, arith, Bytes, codes, length, if◌then◌else◌,
}
use wasi_http_middleware.Text.{eq_ignore_ascii_case, to_ascii_lowercase}
use wasi_http_middleware.Policy.RequestId.{is_valid_request_id}
use wasi_http_middleware.ComponentSupport.HeaderList.{
  Header, header_values, set_header, contains_header_name,
}
use wasi_http_middleware.ComponentSupport.HeaderList.Laws.{header_values-set_header}
use wasi_http_middleware.ComponentSupport.HeaderMap.{to_header_map, get_all-to_header_map}
use wasi_http_middleware.ComponentSupport.Fields.{apply_header_diff, apply_header_edits}
use wasi_http_middleware.ComponentSupport.Fields.Diff.{get-apply_header_diff, mentions}
use wasi_http_middleware.ComponentSupport.Fields.Edits.{get-apply_header_edits}
use wasi_http_middleware.ComponentSupport.RequestId.{generated_request_id, request_id_capacity}
use wasi_http_middleware.ComponentSupport.RequestId.Fresh.{
  generated_request_id-IsValid, sequence_after, generated_request_id_distinct,
}
use wasi_http_middleware.Examples.Http.{http, http_laws}
use wasi_http_middleware.Examples.Host.{host, host_laws, named}

abbrev original : List Header
original =
    named (codes "Accept") (codes "a")
    ∷ named (codes "x-old") (codes "b")
    ∷ named (codes "accept") (codes "c")
    ∷ []

abbrev desired : List Header
desired = named (codes "accept") (codes "d") ∷ named (codes "x-new") (codes "e") ∷ []

abbrev edited : List Header
edited = named (codes "accept") (codes "d") ∷ named (codes "x-new") (codes "e") ∷ []

get-apply_header_diff_example :
    header_values edited (codes "ACCEPT") ≡ header_values desired (codes "ACCEPT")
unfolding host apply_header_diff
get-apply_header_diff_example =
    get-apply_header_diff host_laws original edited original desired (λ name. refl) refl
      (codes "ACCEPT")

abbrev replaced : List Header
replaced = named (codes "x-old") (codes "b") ∷ named (codes "X-Trace") (codes "t") ∷ []

get-apply_header_edits_example : header_values replaced (codes "x-trace") ≡ (
    if contains_header_name (named (codes "X-Trace") (codes "t") ∷ []) (codes "x-trace")
    then header_values (named (codes "X-Trace") (codes "t") ∷ []) (codes "x-trace")
    else if mentions (codes "ACCEPT" ∷ []) (codes "x-trace")
    then []
    else header_values original (codes "x-trace"))
unfolding host apply_header_edits
get-apply_header_edits_example =
    get-apply_header_edits host_laws original replaced (codes "ACCEPT" ∷ [])
      (named (codes "X-Trace") (codes "t") ∷ []) refl (codes "x-trace")

header_values-set_header_example :
    header_values (set_header original (codes "Accept") (codes "z")) (codes "x-old") ≡ (
      if eq_ignore_ascii_case (codes "Accept") (codes "x-old")
      then codes "z" ∷ []
      else header_values original (codes "x-old"))
header_values-set_header_example =
    header_values-set_header original (codes "Accept") (codes "z") (codes "x-old")

abbrev converted : List (Bytes × Bytes)
converted =
    (codes "accept", codes "a") ∷ (codes "x-old", codes "b") ∷ (codes "accept", codes "c") ∷ []

get_all-to_header_map_example :
    map http.as_bytes (http.get_all converted (codes "accept"))
    ≡ header_values original (codes "accept")
unfolding to_header_map to_ascii_lowercase
get_all-to_header_map_example =
    get_all-to_header_map http_laws converted original (codes "accept") refl refl

abbrev prefix : List ℕ
prefix = codes "native-test-id-1"

generated_request_id-IsValid_example :
    (length ((generated_request_id prefix 7).0) ≡ request_id_capacity)
    × (is_valid_request_id ((generated_request_id prefix 7).0) ≡ true)
generated_request_id-IsValid_example = generated_request_id-IsValid prefix 7 refl refl

generated_request_id_distinct_example :
    (generated_request_id prefix (sequence_after prefix 1)).0
    ≢ (generated_request_id prefix (sequence_after prefix 3)).0
generated_request_id_distinct_example =
    generated_request_id_distinct prefix 1 3 refl (omega arith) (omega arith)
