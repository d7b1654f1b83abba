-- ===== src/Authn/Ingress/Laws.antt =====
-- Which requests `accept_trusted_ingress` of crates/authn/src/lib.rs accepts.
use wasi_http_middleware.Prelude.{
  ℕ, Bool, true, false, not, ◌≡◌, ◌↔◌, inl, inr, refl, ap, sym, ◌∙◌, arith, is_empty, Result, ok,
  err, ◌>>=◌, >>=-eq-ok, ok-injective, map_err, map_err-eq-ok, if_err-eq-ok, Bool-cases, ◌=b◌,
}
use wasi_http_middleware.HttpCrate.{HttpCrate, IsHttpCrate}
use wasi_http_middleware.Metadata.{MetadataError}
use wasi_http_middleware.Metadata.Context.{AuthContextV1}
use wasi_http_middleware.Metadata.Context.Valid.{IsValidContext}
use wasi_http_middleware.Metadata.Codec.{Encodings, IsEncodings, encode_auth_context}
use wasi_http_middleware.Metadata.Headers.{is_reserved, insert_auth_context, parse_auth_context}
use wasi_http_middleware.Metadata.Headers.Laws.{
  get_all-insert_auth_context, insert_auth_context_err, parse-insert_auth_context,
}
use wasi_http_middleware.Text.{starts_with}
use wasi_http_middleware.Policy.Credentials.{authorization}
use wasi_http_middleware.Authn.{
  AuthenticationConfig, AuthnRejection, invalid_boundary, VerifiedAuthContext, is_expired, expiry,
  validate_lifetime, Request, sanitize_headers,
}
use wasi_http_middleware.Authn.Ingress.{
  TrustedIngressConfig, is_bound_to, accept, accept_trusted_ingress,
}
use wasi_http_middleware.Authn.Outcomes.{
  validate_lifetime-eq-ok, IsSanitized, finish-eq-ok, finish-eq-err, finish_of_ok,
  finish-IsSanitized,
}
use wasi_http_middleware.Authn.Ingress.Bound.{
  IsBoundTo, is_bound_to-eq-true, is_bound_to_of_IsBoundTo,
}

accept-eq-ok :
    (config : AuthenticationConfig) (now : ℕ) (had : Bool)
    (parsed : Result MetadataError AuthContextV1) {c : AuthContextV1}
    → accept config now had parsed ≡ ok c
    → (had ≡ false)
      × (parsed ≡ ok c)
      × IsBoundTo config c
      × (is_expired (expiry c.principal) now ≡ false)
unfolding accept
accept-eq-ok config now had parsed {c} h =
    let (bare, h0) = if_err-eq-ok had invalid_boundary h in
    let (context, e1, h1) = >>=-eq-ok (map_err parsed invalid_boundary) _ h0 in
    let (bound, h2) = if_err-eq-ok (not (is_bound_to config context)) invalid_boundary h1 in
    let (_, e3, h3) = >>=-eq-ok (map_err (validate_lifetime context now) invalid_boundary) _ h2 in
    let same : context ≡ c = ok-injective h3 in
    rw (← same) (
      bare,
      map_err-eq-ok parsed invalid_boundary e1,
      is_bound_to-eq-true config context (ground arith),
      validate_lifetime-eq-ok context now
          (map_err-eq-ok (validate_lifetime context now) invalid_boundary e3),
    )

accept_of_ok :
    (config : AuthenticationConfig) (now : ℕ) (had : Bool)
    (parsed : Result MetadataError AuthContextV1) {c : AuthContextV1}
    → had ≡ false
    → parsed ≡ ok c
    → IsBoundTo config c
    → is_expired (expiry c.principal) now ≡ false
    → accept config now had parsed ≡ ok c
unfolding accept validate_lifetime
accept_of_ok config now had parsed {c} bare read bound alive =
    rw (bare, read, is_bound_to_of_IsBoundTo config c bound, alive) refl

accept-eq-err :
    (config : AuthenticationConfig) (now : ℕ) (had : Bool)
    (parsed : Result MetadataError AuthContextV1) {e : AuthnRejection}
    → accept config now had parsed ≡ err e
    → e ≡ invalid_boundary
unfolding accept
accept-eq-err config now true parsed h = cc
accept-eq-err config now false (err x) h = cc
accept-eq-err config now false (ok c) {e} h = elim (Bool-cases (is_bound_to config c)) [
  | inl bound ↦ go (validate_lifetime c now) (rw bound at h)
  | inr other ↦ cc (rw other at h)
]
  where
    go :
        (r : Result AuthnRejection (Unit {0}))
        → (map_err r invalid_boundary >>= λ _. ok c) ≡ err e
        → e ≡ invalid_boundary
    go (ok u) k = cc
    go (err x) k = cc

module _ (http : HttpCrate) (codecs : Encodings) where
  -- An insertion adds no credential.
  contains_key-insert_auth_context :
      (laws : IsHttpCrate http) (headers : http.HeaderMap) (c : AuthContextV1)
      → http.contains_key headers authorization ≡ false
      → http.contains_key (insert_auth_context http codecs headers c).0 authorization ≡ false
  unfolding is_reserved starts_with ◌=b◌
  contains_key-insert_auth_context laws headers c bare = go (encode_auth_context http codecs c) refl
    where
      go :
          (r : Result MetadataError http.HeaderValue)
          → encode_auth_context http codecs c ≡ r
          → http.contains_key (insert_auth_context http codecs headers c).0 authorization ≡ false
      go (ok v) e =
          laws.contains_key-eq (insert_auth_context http codecs headers c).0 authorization
          ∙ ap (λ vs. not (is_empty vs))
              (get_all-insert_auth_context http laws codecs headers c v authorization e)
          ∙ sym (laws.contains_key-eq headers authorization)
          ∙ bare
      go (err x) e = rw (insert_auth_context_err http laws codecs headers c x e) bare

module _ (http : HttpCrate) (codecs : Encodings) (now : ℕ) {B : Type 0} where
  -- Why a request is accepted.
  pub record IsAccepted (ingress : TrustedIngressConfig) (request : Request http B)
      (context : AuthContextV1) : Type 0 where
    pub bare : http.contains_key request.headers authorization ≡ false
    pub read : parse_auth_context http codecs request.headers ≡ ok context
    pub bound : IsBoundTo ingress.config context
    pub alive : is_expired (expiry context.principal) now ≡ false

  -- A request is accepted with a context exactly when it has no `authorization` header, its reserved header
  -- is one value that reads as this context, the context is of the configured service and shares an
  -- audience with the configuration, and it has not expired. Every refusal is `invalid_boundary`.
  pub accept_trusted_ingress-ok_iff :
      (ingress : TrustedIngressConfig) (request : Request http B)
      → ((v : VerifiedAuthContext)
          → ((accept_trusted_ingress http codecs now ingress request).0 ≡ ok v)
            ↔ IsAccepted ingress request v.context)
        × ((e : AuthnRejection)
            → (accept_trusted_ingress http codecs now ingress request).0 ≡ err e
            → e ≡ invalid_boundary)
  unfolding accept_trusted_ingress
  accept_trusted_ingress-ok_iff ingress request = (λ v. (to v, from v), refused)
    where
      outcome : Result AuthnRejection AuthContextV1
      outcome =
          accept ingress.config now (http.contains_key request.headers authorization)
            (parse_auth_context http codecs request.headers)

      to :
          (v : VerifiedAuthContext)
          → (accept_trusted_ingress http codecs now ingress request).0 ≡ ok v
          → IsAccepted ingress request v.context
      to v h =
          let (bare, read, bound, alive) =
            accept-eq-ok ingress.config now _ _
              (finish-eq-ok http (sanitize_headers http request) outcome h) in
          record { bare = bare; read = read; bound = bound; alive = alive }

      from :
          (v : VerifiedAuthContext)
          → IsAccepted ingress request v.context
          → (accept_trusted_ingress http codecs now ingress request).0 ≡ ok v
      from v a =
          finish_of_ok http (sanitize_headers http request)
            (accept_of_ok ingress.config now _ _ a.bare a.read a.bound a.alive)

      refused :
          (e : AuthnRejection)
          → (accept_trusted_ingress http codecs now ingress request).0 ≡ err e
          → e ≡ invalid_boundary
      refused e h =
          accept-eq-err ingress.config now _ _
            (finish-eq-err http (sanitize_headers http request) outcome h)

  -- Whatever is answered, the request loses its `authorization` header and all reserved headers and keeps
  -- the values of every other name and the rest; the accepted context becomes its extension, and an
  -- error leaves the extension as it was.
  pub accept_trusted_ingress-IsSanitized :
      (laws : IsHttpCrate http) (ingress : TrustedIngressConfig) (request : Request http B)
      → IsSanitized http request (accept_trusted_ingress http codecs now ingress request)
  unfolding accept_trusted_ingress
  accept_trusted_ingress-IsSanitized laws ingress request = finish-IsSanitized http laws request _

  -- What an ingress inserts, this function accepts: after `insert_auth_context` put a valid context in the
  -- headers without an error, a request with these headers and no `authorization` is answered with this
  -- very context, when it is bound to the configuration and has not expired.
  pub accept-insert_auth_context :
      (laws : IsHttpCrate http) (codec_laws : IsEncodings codecs) (ingress : TrustedIngressConfig)
      (request : Request http B) (headers : http.HeaderMap) (c : AuthContextV1)
      → IsValidContext c
      → http.contains_key headers authorization ≡ false
      → (insert_auth_context http codecs headers c).1 ≡ ok tt
      → request.headers ≡ (insert_auth_context http codecs headers c).0
      → IsBoundTo ingress.config c
      → is_expired (expiry c.principal) now ≡ false
      → (accept_trusted_ingress http codecs now ingress request).0 ≡ ok (record { context = c })
  accept-insert_auth_context laws codec_laws ingress request headers c valid bare inserted same
        bound alive =
      ((accept_trusted_ingress-ok_iff ingress request).0 (record { context = c })).1 (record {
        bare = rw same (contains_key-insert_auth_context http codecs laws headers c bare);
        read =
            rw same
              (parse-insert_auth_context http laws codecs codec_laws headers c valid inserted);
        bound = bound;
        alive = alive;
      })
