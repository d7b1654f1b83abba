-- ===== src/Policy/SecurityHeaders.antt =====
-- `apply_security_headers` of crates/policy-core/src/lib.rs.
use wasi_http_middleware.Prelude.{[], ◌∷◌, ◌≡◌, ap, ◌∙◌, Bytes, codes, ◌=b◌, if◌then◌else◌}
use wasi_http_middleware.HttpCrate.{HttpCrate, IsHttpCrate}

abbrev pub content_type_options : Bytes
content_type_options = codes "x-content-type-options"

abbrev pub referrer_policy : Bytes
referrer_policy = codes "referrer-policy"

module _ (http : HttpCrate) where
  open http use {HeaderValue, HeaderMap, get_all, insert, value_from_static}

  unfoldable pub apply_security_headers : HeaderMap → HeaderMap
  apply_security_headers headers =
      insert (insert headers content_type_options (value_from_static (codes "nosniff")))
        referrer_policy (value_from_static (codes "strict-origin-when-cross-origin"))

  -- Afterwards the two headers have just the fixed values, and every other header is unchanged.
  pub get_all-apply_security_headers :
      (laws : IsHttpCrate http) (headers : HeaderMap) (name : Bytes)
      → get_all (apply_security_headers headers) name ≡ (
          if referrer_policy =b name
          then value_from_static (codes "strict-origin-when-cross-origin") ∷ []
          else if content_type_options =b name
          then value_from_static (codes "nosniff") ∷ []
          else get_all headers name)
  unfolding apply_security_headers
  get_all-apply_security_headers laws headers name =
      let nosniff = value_from_static (codes "nosniff") in
      laws.get_all-insert (insert headers content_type_options nosniff) referrer_policy name
        (value_from_static (codes "strict-origin-when-cross-origin"))
      ∙ ap
          (λ vs.
            if referrer_policy =b name
            then value_from_static (codes "strict-origin-when-cross-origin") ∷ []
            else vs)
          (laws.get_all-insert headers content_type_options name nosniff)
