-- ===== src/AuthnRuntime/Url.antt =====
-- `parse_broker_url` and the tests on its host in crates/authn-runtime/src/lib.rs.
use wasi_http_middleware.Prelude.{
  Bool, true, false, not, ◌&&◌, ◌||◌, [], ◌∷◌, ◌≡◌, arith, Bytes, codes, length, is_empty, ltb,
  Option, none, some, ◌=b◌, ◌==◌, Result, ok, err, ◌>>=◌, >>=-eq-ok, ok-injective, if_err-eq-ok,
  ok_or, ok_or-eq-ok, if◌then◌else◌,
}
use mathlib.Core.List.{reverse}
use mathlib.Core.Option.{get_or}
use wasi_http_middleware.Text.{contains_byte, eq_ignore_ascii_case}
use wasi_http_middleware.HttpCrate.{HttpCrate}
use wasi_http_middleware.AuthnRuntime.{AuthnConfigError, invalid_broker_url, max_broker_url_len}

pub data Scheme : Type 0 where
  https http : Scheme

-- `str::strip_prefix`
pub strip_prefix : Bytes → Bytes → Option Bytes
strip_prefix s [] = some s
strip_prefix [] (p ∷ prefix) = none
strip_prefix (c ∷ s) (p ∷ prefix) = if c == p then strip_prefix s prefix else none

-- `str::strip_suffix`, by the prefix of the reversed text
pub strip_suffix : Bytes → Bytes → Option Bytes
unfolding strip_prefix
strip_suffix s suffix = elim (strip_prefix (reverse s) (reverse suffix)) [
  | none ↦ none
  | some rest ↦ some (reverse rest)
]

-- `trim_start_matches(['[', ']'])`
pub trim_brackets_start : Bytes → Bytes
trim_brackets_start [] = []
trim_brackets_start (c ∷ s) =
    let rest = trim_brackets_start s in if c == b'[' || c == b']' then rest else c ∷ s

pub trim_brackets : Bytes → Bytes
unfolding trim_brackets_start
trim_brackets s = reverse (trim_brackets_start (reverse (trim_brackets_start s)))

module _ (http : HttpCrate) (ip_is_loopback : Bytes → Option Bool) where
  open http use {Uri, parse_uri, scheme_str, uri_authority, uri_host, path_and_query}

  pub is_spin_internal_host : Uri → Bool
  unfolding strip_suffix
  is_spin_internal_host uri = elim (uri_host uri) [
    | none ↦ false
    | some host ↦ elim (strip_suffix host (codes ".spin.internal")) [
      | none ↦ false
      | some service ↦ not (is_empty service) && not (contains_byte b'.' service)
    ]
  ]

  -- `ip_is_loopback` is `str::parse::<IpAddr>` with `IpAddr::is_loopback` of its result.
  pub is_loopback_host : Uri → Bool
  unfolding trim_brackets eq_ignore_ascii_case
  is_loopback_host uri = elim (uri_host uri) [
    | none ↦ false
    | some host ↦
        eq_ignore_ascii_case host (codes "localhost")
        || get_or (ip_is_loopback (trim_brackets host)) false
  ]

  pub broker_scheme : Uri → Bool → Option Bytes → Result AuthnConfigError Scheme
  unfolding is_spin_internal_host is_loopback_host ◌=b◌
  broker_scheme uri allow_insecure_loopback none = err invalid_broker_url
  broker_scheme uri allow_insecure_loopback (some scheme) =
      if scheme =b codes "https"
      then ok https
      else if scheme =b codes "http" && is_spin_internal_host uri
      then ok Scheme.http
      else if scheme =b codes "http" && (allow_insecure_loopback && is_loopback_host uri)
      then ok Scheme.http
      else err invalid_broker_url

  pub record BrokerUrl : Type 0 where
    pub scheme : Scheme
    pub authority : Bytes
    pub path_with_query : Bytes

  unfoldable pub parse_broker_url : Bytes → Bool → Result AuthnConfigError BrokerUrl
  unfolding broker_scheme
  parse_broker_url value allow_insecure_loopback =
      if is_empty value || ltb max_broker_url_len (length value)
      then err invalid_broker_url
      else (do
        uri ← ok_or (parse_uri value) invalid_broker_url
        authority ← ok_or (uri_authority uri) invalid_broker_url
        if contains_byte b'@' authority then err invalid_broker_url else (do
          scheme ← broker_scheme uri allow_insecure_loopback (scheme_str uri)
          ok (record {
            scheme = scheme;
            authority = authority;
            path_with_query = get_or (path_and_query uri) (codes "/");
          })))

  broker_scheme-http :
      (uri : Uri) (allow : Bool) (scheme : Option Bytes)
      → broker_scheme uri allow scheme ≡ ok Scheme.http
      → (is_spin_internal_host uri || (allow && is_loopback_host uri)) ≡ true
  unfolding broker_scheme
  broker_scheme-http uri allow none h = absurd (cc)
  broker_scheme-http uri allow (some scheme) h = ground arith

  -- A broker is reached without TLS only inside the host, or on a loopback host with the opt-in; the
  -- authority of an accepted URL names no user.
  pub parse_broker_url-IsSafe :
      (value : Bytes) (allow : Bool) (url : BrokerUrl)
      → parse_broker_url value allow ≡ ok url
      → (contains_byte b'@' url.authority ≡ false)
        × (url.scheme ≡ Scheme.http
            → (uri : Uri) × (parse_uri value ≡ some uri)
              × ((is_spin_internal_host uri || (allow && is_loopback_host uri)) ≡ true))
  unfolding parse_broker_url
  parse_broker_url-IsSafe value allow url h =
      let (_, h0) = if_err-eq-ok (is_empty value || ltb max_broker_url_len (length value)) _ h in
      let (uri, e1, h1) = >>=-eq-ok (ok_or (parse_uri value) invalid_broker_url) _ h0 in
      let (authority, e2, h2) = >>=-eq-ok (ok_or (uri_authority uri) invalid_broker_url) _ h1 in
      let (plain, h3) = if_err-eq-ok (contains_byte b'@' authority) _ h2 in
      let (scheme, e4, h4) = >>=-eq-ok (broker_scheme uri allow (scheme_str uri)) _ h3 in
      let same = ok-injective h4 in
      rw (← same) (
        plain,
        λ e. (
          uri,
          ok_or-eq-ok (parse_uri value) _ e1,
          broker_scheme-http uri allow (scheme_str uri) (rw (← e) e4),
        ),
      )
