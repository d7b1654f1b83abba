-- ===== src/Authn/Outcomes.antt =====
-- What the two entry points of crates/authn/src/lib.rs do to the request, whatever they answer.
use wasi_http_middleware.Prelude.{
  ℕ, false, [], ◌≡◌, refl, ap, arith, Bytes, Option, some, Result, ok, err, ◌=b◌, if◌then◌else◌,
  if_err-eq-ok,
}
use wasi_http_middleware.HttpCrate.{HttpCrate, IsHttpCrate}
use wasi_http_middleware.Metadata.Context.{AuthContextV1}
use wasi_http_middleware.Metadata.Headers.{is_reserved}
use wasi_http_middleware.Metadata.Headers.Laws.{get_all-strip_reserved_auth_headers}
use wasi_http_middleware.Policy.Credentials.{authorization}
use wasi_http_middleware.Authn.{
  AuthnRejection, invalid_credentials, VerifiedAuthContext, is_expired, expiry, validate_lifetime,
  Request, sanitize_headers, finish,
}

-- A context that passes has no time of expiry, or one behind `now`.
pub validate_lifetime-eq-ok :
    (context : AuthContextV1) (now : ℕ) {u : Unit {0}}
    → validate_lifetime context now ≡ ok u
    → is_expired (expiry context.principal) now ≡ false
unfolding validate_lifetime
validate_lifetime-eq-ok context now h =
    (if_err-eq-ok (is_expired (expiry context.principal) now) invalid_credentials h).0

-- The extension afterwards.
pub installed :
    Option VerifiedAuthContext
    → Result AuthnRejection VerifiedAuthContext
    → Option VerifiedAuthContext
installed before (ok verified) = some verified
installed before (err rejection) = before

module _ (http : HttpCrate) {B : Type 0} where
  -- The request afterwards has no credential and no reserved header, and all else as it came; its
  -- extension is replaced by the context that is answered, and kept on an error.
  pub record IsSanitized (before : Request http B)
      (answer : Result AuthnRejection VerifiedAuthContext × Request http B) : Type 0 where
    pub headers_after :
        (name : Bytes)
        → http.get_all answer.1.headers name ≡ (
            if authorization =b name
            then []
            else if is_reserved name
            then []
            else http.get_all before.headers name)
    pub rest_after : answer.1.rest ≡ before.rest
    pub verified_after : answer.1.verified ≡ installed before.verified answer.0

  pub finish-eq-ok :
      (request : Request http B) (r : Result AuthnRejection AuthContextV1) {v : VerifiedAuthContext}
      → (finish http request r).0 ≡ ok v
      → r ≡ ok v.context
  unfolding finish
  finish-eq-ok request (ok context) h =
      ap
        (λ (m : Result AuthnRejection VerifiedAuthContext). elim m [
          | ok w ↦ ok w.context
          | err e ↦ err e
        ])
        h
  finish-eq-ok request (err rejection) h = cc

  pub finish-eq-err :
      (request : Request http B) (r : Result AuthnRejection AuthContextV1) {e : AuthnRejection}
      → (finish http request r).0 ≡ err e
      → r ≡ err e
  unfolding finish
  finish-eq-err request (ok context) h = cc
  finish-eq-err request (err rejection) h = cc

  pub finish_of_ok :
      (request : Request http B) {r : Result AuthnRejection AuthContextV1} {c : AuthContextV1}
      → r ≡ ok c
      → (finish http request r).0 ≡ ok (record { context = c })
  unfolding finish
  finish_of_ok request h = rw h refl

  module _ (laws : IsHttpCrate http) where
    get_all-sanitize_headers :
        (request : Request http B) (name : Bytes)
        → http.get_all (sanitize_headers http request).headers name ≡ (
            if authorization =b name
            then []
            else if is_reserved name
            then []
            else http.get_all request.headers name)
    unfolding sanitize_headers
    get_all-sanitize_headers request name = ground (
      arith,
      get_all-strip_reserved_auth_headers http laws (http.remove request.headers authorization)
          name,
      laws.get_all-remove request.headers authorization name,
    )

    pub finish-IsSanitized :
        (request : Request http B) (r : Result AuthnRejection AuthContextV1)
        → IsSanitized request (finish http (sanitize_headers http request) r)
    unfolding finish sanitize_headers installed
    finish-IsSanitized request (ok context) = record {
      headers_after = get_all-sanitize_headers request;
      rest_after = refl;
      verified_after = refl;
    }
    finish-IsSanitized request (err rejection) = record {
      headers_after = get_all-sanitize_headers request;
      rest_after = refl;
      verified_after = refl;
    }
