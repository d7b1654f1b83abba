-- ===== src/Examples/Cors.antt =====
-- Runs of `CorsConfig` of crates/policy-core/src/lib.rs.
use wasi_http_middleware.Prelude.{
  true, false, List, [], ◌∷◌, map, ◌≡◌, ◌⊎◌, refl, Bytes, codes, contains, some, ok, ◌=b◌,
}
use wasi_http_middleware.Text.{sort, dedup, trim, to_ascii_lowercase, starts_with}
use wasi_http_middleware.Policy.Credentials.{single_text_header}
use wasi_http_middleware.Policy.Cors.Config.{CorsConfig, new_cors_config, wildcard}
use wasi_http_middleware.Policy.Cors.Evaluate.{
  CorsDecision, allow_origin, origin_header, allows_origin, evaluate,
}
use wasi_http_middleware.Policy.Cors.Outcome.{Outcome, answered_origin, evaluate-Outcome}
use wasi_http_middleware.Policy.Cors.Safety.{evaluate-allow_origin, evaluate-allow_credentials}
use wasi_http_middleware.Policy.Cors.Valid.{IsValidConfig, new_cors_config-IsValidConfig}
use wasi_http_middleware.Examples.Http.{http, http_laws, Field}

abbrev app : Bytes
app = codes "https://app.example"

abbrev config : CorsConfig
config = record {
  origins = app ∷ [];
  methods = codes "GET" ∷ codes "POST" ∷ [];
  headers = codes "content-type" ∷ [];
  allow_credentials = true;
}

config-IsValidConfig : IsValidConfig http config
unfolding new_cors_config trim sort dedup to_ascii_lowercase starts_with
config-IsValidConfig =
    new_cors_config-IsValidConfig http http_laws (app ∷ []) (codes "GET" ∷ codes "POST" ∷ [])
      (codes "Content-Type" ∷ []) true config refl

new_cors_config-IsValidConfig_example : IsValidConfig http config
unfolding new_cors_config trim sort dedup to_ascii_lowercase starts_with
new_cors_config-IsValidConfig_example =
    new_cors_config-IsValidConfig http http_laws (app ∷ []) (codes "GET" ∷ codes "POST" ∷ [])
      (codes "Content-Type" ∷ []) true config refl

abbrev preflight : List Field
preflight =
    (codes "origin", app)
    ∷ (codes "access-control-request-method", codes "POST")
    ∷ (codes "access-control-request-headers", codes "Content-Type")
    ∷ []

abbrev decision : CorsDecision http
decision = record {
  response_headers =
      (codes "access-control-allow-origin", app)
      ∷ (codes "vary", codes "Origin")
      ∷ (codes "access-control-allow-credentials", codes "true")
      ∷ (codes "access-control-allow-methods", codes "GET, POST")
      ∷ (codes "access-control-allow-headers", codes "content-type")
      ∷ [];
  status = some 204;
}

evaluate-Outcome_example : Outcome http config (codes "OPTIONS") preflight decision
unfolding evaluate to_ascii_lowercase
evaluate-Outcome_example =
    evaluate-Outcome http_laws config (codes "OPTIONS") preflight decision refl

evaluate-allow_origin_example :
    (map http.as_bytes (http.get_all decision.response_headers allow_origin) ≡ [])
    ⊎ ((origin : Bytes) × (single_text_header http preflight origin_header ≡ ok (some origin))
        × (allows_origin http config origin ≡ true)
        × (map http.as_bytes (http.get_all decision.response_headers allow_origin)
            ≡ answered_origin config origin ∷ []))
unfolding evaluate to_ascii_lowercase
evaluate-allow_origin_example =
    evaluate-allow_origin http_laws config (codes "OPTIONS") preflight decision refl

evaluate-allow_credentials_example :
    (origin : Bytes) × (single_text_header http preflight origin_header ≡ ok (some origin))
    × (contains config.origins origin ≡ true)
    × (contains config.origins wildcard ≡ false)
    × (map http.as_bytes (http.get_all decision.response_headers allow_origin) ≡ origin ∷ [])
unfolding evaluate to_ascii_lowercase ◌=b◌
evaluate-allow_credentials_example =
    evaluate-allow_credentials http_laws config (codes "OPTIONS") preflight decision
      config-IsValidConfig refl refl
