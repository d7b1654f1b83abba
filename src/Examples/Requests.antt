-- ===== src/Examples/Requests.antt =====
-- Runs of the paths, request ids, credentials and security headers of crates/policy-core/src/lib.rs.
use wasi_http_middleware.Prelude.{
  ℕ, ◌+◌, ◌≤◌, true, List, [], ◌∷◌, ◌≡◌, ◌⊎◌, ◌↔◌, refl, Bytes, codes, length, some, ok, ◌=b◌,
}
use wasi_http_middleware.Text.{split_first}
use wasi_http_middleware.Policy.Path.{normalize_policy_path}
use wasi_http_middleware.Policy.Path.Spec.{Normalizes}
use wasi_http_middleware.Policy.Path.Laws.{
  IsSafePath, normalize_policy_path_iff, normalize_policy_path-IsSafePath,
  normalize_policy_path_fixed_iff,
}
use wasi_http_middleware.Policy.RequestId.{
  is_valid_request_id, canonicalize, canonicalize-IsValid, canonicalize_total, IsAccepted,
}
use wasi_http_middleware.Policy.Credentials.{
  authorization, authorization_value, authorization_value-some_iff, max_authorization_len,
}
use wasi_http_middleware.Examples.Http.{http, Field}

abbrev raw : Bytes
raw = codes "/a%20b/c?x=%2F"

abbrev normal : Bytes
normal = codes "/a b/c"

normalize_policy_path_iff_example : (normalize_policy_path raw ≡ ok normal) ↔ (
    ((split_first b'?' raw ≡ []) × (normal ≡ codes "/")) ⊎ Normalizes (split_first b'?' raw) normal)
normalize_policy_path_iff_example = normalize_policy_path_iff raw normal

normalize_policy_path-IsSafePath_example : IsSafePath normal
unfolding normalize_policy_path
normalize_policy_path-IsSafePath_example = normalize_policy_path-IsSafePath raw normal refl

normalize_policy_path_fixed_iff_example :
    (normalize_policy_path normal ≡ ok normal) ↔ IsSafePath normal
normalize_policy_path_fixed_iff_example = normalize_policy_path_fixed_iff normal

-- A generator that counts.
abbrev counted : ℕ → Bytes × ℕ
counted n = (codes "id", n + 1)

abbrev headers : List Field
headers = (codes "x-request-id", codes "abc") ∷ (codes "authorization", codes "Bearer t") ∷ []

canonicalize-IsValid_example :
    (is_valid_request_id (codes "abc") ≡ true)
    × ((IsAccepted http headers (codes "abc") × (◌≡◌ {A = ℕ} 5 5)) ⊎ (counted 5 ≡ (codes "abc", 5)))
unfolding canonicalize ◌=b◌
canonicalize-IsValid_example = canonicalize-IsValid http headers counted 5 5 (codes "abc") refl

canonicalize_total_example : (value : Bytes) × ((canonicalize http headers counted 5).0 ≡ ok value)
unfolding is_valid_request_id
canonicalize_total_example = canonicalize_total http headers counted 5 refl

authorization_value-some_iff_example :
    (authorization_value http headers ≡ ok (some (codes "Bearer t"))) ↔ (
      (v : Bytes) × (http.get_all headers authorization ≡ v ∷ [])
      × (http.to_str v ≡ some (codes "Bearer t"))
      × (length (codes "Bearer t") ≤ max_authorization_len))
authorization_value-some_iff_example = authorization_value-some_iff http headers (codes "Bearer t")
