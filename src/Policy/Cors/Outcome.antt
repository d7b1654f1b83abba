-- ===== src/Policy/Cors/Outcome.antt =====
-- The cases of `CorsConfig::evaluate`, apart from its order of tests.
use wasi_http_middleware.Prelude.{
  true, false, not, List, [], ◌≡◌, ◌⊎◌, inl, inr, refl, sym, ap, ◌∙◌, arith, Bytes, any, all,
  contains, Option, none, some, ok, >>=-eq-ok, ok-injective, ok_or-eq-ok, if_ok_else-eq-ok, ok_or,
  collect, if◌then◌else◌, all_of_not-any,
}
use mathlib.Core.Option.{get_or}
use mathlib.Core.Option
use wasi_http_middleware.HttpCrate.{HttpCrate, IsHttpCrate}
use wasi_http_middleware.Policy.{invalid_header}
use wasi_http_middleware.Policy.Credentials.{single_text_header}
use wasi_http_middleware.Policy.Cors.Config.{CorsConfig, split_csv, wildcard}
use wasi_http_middleware.Policy.Cors.Evaluate.{
  CorsDecision, allows_origin, evaluate, evaluate_origin, evaluate_preflight,
  evaluate_requested_headers, granted_headers, header_value, is_preflight, origin_header,
  pass_through, preflight_headers, read_requested_header, rejected_for_origin, request_headers,
  request_method,
}

-- The origin that an allowed request is answered with.
abbrev pub answered_origin : CorsConfig → Bytes → Bytes
answered_origin config origin = if contains config.origins wildcard then wildcard else origin

module _ (http : HttpCrate) where
  open http use {HeaderValue, HeaderMap, value_from_str, method_from_bytes}

  -- A preflight request whose method and headers are all configured.
  pub record IsGrantedPreflight (config : CorsConfig) (headers granted : HeaderMap)
      (d : CorsDecision http) : Type 0 where
    pub method : Bytes
    pub has_method : single_text_header http headers request_method ≡ ok (some method)
    pub allows_method : contains config.methods method ≡ true
    pub text : Option Bytes
    pub has_text : single_text_header http headers request_headers ≡ ok text
    pub names : List Bytes
    pub has_names :
        collect (read_requested_header http) (get_or (Option.map split_csv text) []) ≡ ok names
    pub allows_names : all (contains config.headers) names ≡ true
    pub complete : preflight_headers http config granted ≡ ok (d.response_headers)
    pub no_content : d.status ≡ some 204

  abbrev pub Refuses : CorsDecision http → Type 0
  Refuses d = d ≡ rejected_for_origin http 403

  -- Why a request is refused: its origin, the method it asks for, or a header it asks for.
  pub data Refusal (config : CorsConfig) (headers : HeaderMap) : Type 0 where
    foreign_origin :
        (origin : Bytes)
        → single_text_header http headers origin_header ≡ ok (some origin)
        → allows_origin http config origin ≡ false
        → Refusal config headers
    foreign_method :
        (method : Bytes)
        → single_text_header http headers request_method ≡ ok (some method)
        → contains config.methods method ≡ false
        → Refusal config headers
    foreign_header :
        (text : Option Bytes) (names : List Bytes)
        → single_text_header http headers request_headers ≡ ok text
        → collect (read_requested_header http) (get_or (Option.map split_csv text) []) ≡ ok names
        → any (λ name. not (contains config.headers name)) names ≡ true
        → Refusal config headers

  -- A request from an allowed origin.
  pub record IsGranted (config : CorsConfig) (method : Bytes) (headers : HeaderMap)
      (d : CorsDecision http) : Type 0 where
    pub origin : Bytes
    pub has_origin : single_text_header http headers origin_header ≡ ok (some origin)
    pub allows : allows_origin http config origin ≡ true
    pub value : HeaderValue
    pub has_value : value_from_str (answered_origin config origin) ≡ some value
    pub answer :
        ((is_preflight http method headers ≡ false)
          × (d ≡ record { response_headers = granted_headers http config value; status = none }))
        ⊎ ((is_preflight http method headers ≡ true)
            × IsGrantedPreflight config headers (granted_headers http config value) d)

  pub data Outcome (config : CorsConfig) (method : Bytes) (headers : HeaderMap)
      (d : CorsDecision http) : Type 0 where
    absent :
        single_text_header http headers origin_header ≡ ok none
        → d ≡ pass_through http
        → Outcome config method headers d
    refused : Refusal config headers → Refuses d → Outcome config method headers d
    granted : IsGranted config method headers d → Outcome config method headers d

module _ {http : HttpCrate} (laws : IsHttpCrate http) where
  open http use {HeaderValue, HeaderMap, value_from_str, method_from_bytes}

  preflight-IsGranted :
      (config : CorsConfig) (headers grants : HeaderMap) (d : CorsDecision http)
      → evaluate_preflight http config headers grants ≡ ok d
      → (Refusal http config headers × Refuses http d)
        ⊎ IsGrantedPreflight http config headers grants d
  unfolding evaluate_preflight evaluate_requested_headers
  preflight-IsGranted config headers grants d h =
      let (text, h1, r1) = >>=-eq-ok (single_text_header http headers request_method) _ h in
      let (value, h2, r2) = >>=-eq-ok (ok_or text invalid_header) _ r1 in
      let (method, h3, r3) = >>=-eq-ok (ok_or (method_from_bytes value) invalid_header) _ r2 in
      elim (if_ok_else-eq-ok (not (contains config.methods method)) _ r3) [
        | inl (foreign, e) ↦
            let same =
              laws.method_from_bytes-eq value method (ok_or-eq-ok (method_from_bytes value) _ h3) in
            inl (
              foreign_method value (h1 ∙ ap ok (ok_or-eq-ok text _ h2))
                  (rw (← same) (ground arith)),
              e,
            )
        | inr (listed, r4) ↦
            let (names_text, h4, r5) =
              >>=-eq-ok (single_text_header http headers request_headers) _ r4 in
            let (names, h5, r6) =
              >>=-eq-ok
                (collect (read_requested_header http) (get_or (Option.map split_csv names_text) []))
                _ r5 in
            elim (if_ok_else-eq-ok (any (λ name. not (contains config.headers name)) names) _ r6) [
              | inl (foreign, e) ↦ inl (foreign_header names_text names h4 h5 foreign, e)
              | inr (all_listed, r7) ↦
                  let (complete, h6, r8) = >>=-eq-ok (preflight_headers http config grants) _ r7 in
                  let same =
                    laws.method_from_bytes-eq value method
                      (ok_or-eq-ok (method_from_bytes value) _ h3) in
                  inr (record {
                    method = value;
                    has_method = h1 ∙ ap ok (ok_or-eq-ok text _ h2);
                    allows_method = rw (← same) (ground arith);
                    text = names_text;
                    has_text = h4;
                    names = names;
                    has_names = h5;
                    allows_names = all_of_not-any (contains config.headers) names all_listed;
                    complete = rw (← ok-injective r8) h6;
                    no_content = rw (← ok-injective r8) refl;
                  })
            ]
      ]

  -- A decision is one of three: the request names no origin and nothing is added; the request is
  -- refused with status 403; or the origin is an allowed one and is answered, a preflight only when the
  -- method and every header it asks for are configured.
  pub evaluate-Outcome :
      (config : CorsConfig) (method : Bytes) (headers : HeaderMap) (d : CorsDecision http)
      → evaluate http config method headers ≡ ok d
      → Outcome http config method headers d
  unfolding evaluate evaluate_origin
  evaluate-Outcome config method headers d h =
      let (found, e, rest) = >>=-eq-ok (single_text_header http headers origin_header) _ h in
      go found e rest
    where
      go :
          (found : Option Bytes)
          → single_text_header http headers origin_header ≡ ok found
          → evaluate_origin http config method headers found ≡ ok d
          → Outcome http config method headers d
      go none e r = absent e (sym (ok-injective r))
      go (some origin) e r = elim (if_ok_else-eq-ok (not (allows_origin http config origin)) _ r) [
        | inl (foreign, e1) ↦ refused (foreign_origin origin e (ground arith)) e1
        | inr (allowed, r1) ↦
            let (value, h2, r2) =
              >>=-eq-ok (header_value http (answered_origin config origin)) _ r1 in
            let held = ok_or-eq-ok (value_from_str (answered_origin config origin)) _ h2 in
            let answered : ((is_preflight http method headers ≡ false)
                    × (d ≡ record {
                      response_headers = granted_headers http config value;
                      status = none;
                    }))
                  ⊎ ((is_preflight http method headers ≡ true)
                      × IsGrantedPreflight http config headers (granted_headers http config value)
                          d)
                → Outcome http config method headers d =
              λ answer. granted (record {
                origin = origin;
                has_origin = e;
                allows = ground arith;
                value = value;
                has_value = held;
                answer = answer;
              }) in
            elim (if_ok_else-eq-ok (not (is_preflight http method headers)) _ r2) [
              | inl (plain, e3) ↦ answered (inl (ground arith, e3))
              | inr (preflight, r3) ↦
                  elim (preflight-IsGranted config headers (granted_headers http config value) d
                    r3) [
                      | inl (why, e4) ↦ refused why e4
                      | inr p ↦ answered (inr (ground arith, p))
                    ]
            ]
      ]
