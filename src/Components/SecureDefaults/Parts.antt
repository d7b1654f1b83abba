-- ===== src/Components/SecureDefaults/Parts.antt =====
-- The identifier of components/secure-defaults, and the end of its handler before the call.
use wasi_http_middleware.Prelude.{
  ℕ, Bool, true, List, ◌≡◌, refl, ap, Bytes, Option, none, some, Result, ok, err, if_ok-eq-ok,
}
use wasi_http_middleware.HttpCrate.{HttpCrate}
use wasi_http_middleware.Metadata.Codec.{Encodings}
use wasi_http_middleware.Policy.RequestId.{is_valid_request_id}
use wasi_http_middleware.AuthnRuntime.Authenticate.{AuthnOutcome, pass, reject}
use wasi_http_middleware.ComponentSupport.HeaderList.{Header}
use wasi_http_middleware.ComponentSupport.RequestId.{generated_request_id}
use wasi_http_middleware.ComponentSupport.Messages.{HostHttp, edit_request_headers}
use wasi_http_middleware.Components.{supplied_request_id}
use wasi_http_middleware.Components.SecureDefaults.{
  untrusted_names, forward, forward_or, valid_or_generated, canonical_request_id,
}
use wasi_http_middleware.Components.SecureDefaults.Handle.{trusted_replacements, answer_outcome}
use wasi_http_middleware.Components.{valid_text-IsValid}

valid_or_generated-IsValid :
    (http : HttpCrate) (host : HostHttp) (prefix : List ℕ) (o : Option Bytes) (sequence : ℕ)
    {text : Bytes}
    → ((t : Bytes) → o ≡ some t → is_valid_request_id t ≡ true)
    → (valid_or_generated http host prefix o sequence).0 ≡ ok text
    → is_valid_request_id text ≡ true
unfolding valid_or_generated
valid_or_generated-IsValid http host prefix (some value) sequence valid h =
    valid _ (ap (λ (r : Result host.ErrorCode Bytes). elim r [ ok t ↦ some t | err e ↦ none ]) h)
valid_or_generated-IsValid http host prefix none sequence valid h =
    let made = generated_request_id prefix sequence in
    let (tested, same) = if_ok-eq-ok (is_valid_request_id made.0) host.internal_error h in
    rw same at tested

pub canonical_request_id-IsValid :
    (http : HttpCrate) (host : HostHttp) (prefix : List ℕ) (fields : List Header) (sequence : ℕ)
    {text : Bytes}
    → (canonical_request_id http host prefix fields sequence).0 ≡ ok text
    → is_valid_request_id text ≡ true
unfolding canonical_request_id supplied_request_id
canonical_request_id-IsValid http host prefix fields sequence h =
    valid_or_generated-IsValid http host prefix (supplied_request_id fields) sequence
      (λ t. valid_text-IsValid _) h

module _ {http : HttpCrate} {host : HostHttp} where
  open host use {Request, ErrorCode}

  pub forward_or-eq-forward :
      (cors_headers : http.HeaderMap) (request_id : Bytes) (r : Result ErrorCode Request)
      {after : Request} {cors : http.HeaderMap} {id : Bytes}
      → forward_or http host cors_headers request_id r ≡ forward after cors id
      → (r ≡ ok after) × (cors_headers ≡ cors) × (request_id ≡ id)
  unfolding forward_or
  forward_or-eq-forward cors_headers request_id (ok request) h = (cc, cc, cc)
  forward_or-eq-forward cors_headers request_id (err e) h = absurd (cc)

  module _ {codecs : Encodings} {ip_is_loopback : Bytes → Option Bool} where
    pub answer_outcome-eq-forward :
        (request : Request) (fields : List Header) (realm : Bytes) (cors_headers : http.HeaderMap)
        (request_id : Bytes) (outcome : AuthnOutcome http codecs ip_is_loopback) {after : Request}
        {cors : http.HeaderMap} {id : Bytes}
        → answer_outcome http host codecs ip_is_loopback request fields realm cors_headers
            request_id outcome
          ≡ forward after cors id
        → (context : http.HeaderValue) × (outcome ≡ pass context)
          × (edit_request_headers host request
                (untrusted_names fields)
                (trusted_replacements (http.as_bytes context) request_id)
              ≡ ok after)
          × (cors_headers ≡ cors)
          × (request_id ≡ id)
    unfolding answer_outcome
    answer_outcome-eq-forward request fields realm cors_headers request_id (pass context) h =
        let (made, same, id_same) = forward_or-eq-forward cors_headers request_id _ h in
        (context, refl, made, same, id_same)
    answer_outcome-eq-forward request fields realm cors_headers request_id (reject rejection) h =
        absurd (cc)
