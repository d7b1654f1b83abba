-- ===== src/Metadata/Headers/Laws.antt =====
-- What the header functions leave in the map, and that an inserted context is read back.
use wasi_http_middleware.Prelude.{
  List, [], ◌∷◌, ◌≡◌, refl, ap, ◌∙◌, arith, Bytes, contains, filter, Result, ok, err, ◌=b◌, =b_refl,
  if◌then◌else◌, if_true,
}
use wasi_http_middleware.HttpCrate.{HttpCrate, IsHttpCrate}
use wasi_http_middleware.HttpCrate.Maps.{contains-filter, get_all_of_absent}
use wasi_http_middleware.Metadata.{MetadataError, auth_context_header}
use wasi_http_middleware.Metadata.Context.{AuthContextV1}
use wasi_http_middleware.Metadata.Context.Valid.{IsValidContext}
use wasi_http_middleware.Metadata.Codec.{
  Encodings, IsEncodings, encode_auth_context, decode_auth_context,
}
use wasi_http_middleware.Metadata.Codec.Laws.{
  decode-encode_auth_context, decode_auth_context-IsValidContext,
}
use wasi_http_middleware.Metadata.Headers.{
  is_reserved, remove_names, strip_reserved_auth_headers, insert_auth_context, decode_single,
  parse_auth_context,
}

module _ (http : HttpCrate) (codecs : Encodings) where
  open http use {HeaderValue, HeaderMap, get_all}

  parse_of_single :
      (m : HeaderMap) (v : HeaderValue)
      → get_all m auth_context_header ≡ v ∷ []
      → parse_auth_context http codecs m ≡ decode_auth_context http codecs v
  unfolding parse_auth_context
  parse_of_single m v h = ap (decode_single http codecs) h

  parse_auth_context-eq-ok :
      (m : HeaderMap) (c : AuthContextV1)
      → parse_auth_context http codecs m ≡ ok c
      → (v : HeaderValue) × (get_all m auth_context_header ≡ v ∷ [])
        × (decode_auth_context http codecs v ≡ ok c)
  unfolding parse_auth_context
  parse_auth_context-eq-ok m c = go (get_all m auth_context_header)
    where
      go :
          (vs : List HeaderValue)
          → decode_single http codecs vs ≡ ok c
          → (v : HeaderValue) × (vs ≡ v ∷ []) × (decode_auth_context http codecs v ≡ ok c)
      go [] e = cc
      go (v ∷ []) e = (v, refl, e)
      go (v ∷ w ∷ vs) e = cc

module _ (http : HttpCrate) (laws : IsHttpCrate http) where
  open http use {HeaderValue, HeaderMap, get_all, contains_key, keys, remove, insert}

  get_all-remove_names :
      (m : HeaderMap) (ns : List Bytes) (k : Bytes)
      → get_all (remove_names http m ns) k ≡ (if contains ns k then [] else get_all m k)
  unfolding remove_names
  get_all-remove_names m [] k = refl
  get_all-remove_names m (n ∷ ns) k =
      ground (arith, get_all-remove_names (remove m n) ns k, laws.get_all-remove m n k)

  -- Exactly the reserved names are removed, with all their values; the others keep theirs.
  pub get_all-strip_reserved_auth_headers :
      (m : HeaderMap) (k : Bytes)
      → get_all (strip_reserved_auth_headers http m) k ≡ (if is_reserved k then [] else get_all m k)
  unfolding strip_reserved_auth_headers
  get_all-strip_reserved_auth_headers m k = ground (
    arith,
    get_all-remove_names m (filter is_reserved (keys m)) k,
    contains-filter is_reserved (keys m) k,
    get_all_of_absent laws m k,
  )

  module _ (codecs : Encodings) where
    -- A context that is encoded leaves its one value under its name, every other reserved header is
    -- removed, and all others keep their values.
    pub get_all-insert_auth_context :
        (m : HeaderMap) (c : AuthContextV1) (v : HeaderValue) (k : Bytes)
        → encode_auth_context http codecs c ≡ ok v
        → get_all (insert_auth_context http codecs m c).0 k
          ≡ (if auth_context_header =b k then v ∷ [] else if is_reserved k then [] else get_all m k)
    unfolding insert_auth_context
    get_all-insert_auth_context m c v k h =
        rw (h, insert_auth_context)
          (laws.get_all-insert (strip_reserved_auth_headers http m) auth_context_header k v
            ∙ ap (λ vs. if auth_context_header =b k then v ∷ [] else vs)
                (get_all-strip_reserved_auth_headers m k))

    pub insert_auth_context_err :
        (m : HeaderMap) (c : AuthContextV1) (e : MetadataError)
        → encode_auth_context http codecs c ≡ err e
        → insert_auth_context http codecs m c ≡ (m, err e)
    unfolding insert_auth_context
    insert_auth_context_err m c e h = rw (h, insert_auth_context)

    -- A valid context that was inserted without an error is the one that is read, whatever the map held
    -- before.
    pub parse-insert_auth_context :
        (codec_laws : IsEncodings codecs) (m : HeaderMap) (c : AuthContextV1)
        → IsValidContext c
        → (insert_auth_context http codecs m c).1 ≡ ok tt
        → parse_auth_context http codecs (insert_auth_context http codecs m c).0 ≡ ok c
    parse-insert_auth_context codec_laws m c valid h = go (encode_auth_context http codecs c) refl
      where
        go :
            (r : Result MetadataError HeaderValue)
            → encode_auth_context http codecs c ≡ r
            → parse_auth_context http codecs (insert_auth_context http codecs m c).0 ≡ ok c
        go (ok v) e =
            let held =
              get_all-insert_auth_context m c v auth_context_header e
              ∙ if_true (v ∷ []) _ (=b_refl auth_context_header) in
            parse_of_single http codecs _ v held
            ∙ decode-encode_auth_context http codecs laws codec_laws c v valid e
        go (err x) e = absurd (
            cc (
              h,
              ap (λ (p : HeaderMap × Result MetadataError (Unit {0})). p.1)
                  (insert_auth_context_err m c x e),
            ))

    -- A context that is read is valid, and stands in the map as a single value.
    pub parse_auth_context-IsValidContext :
        (m : HeaderMap) (c : AuthContextV1)
        → parse_auth_context http codecs m ≡ ok c
        → IsValidContext c
          × ((v : HeaderValue) × (get_all m auth_context_header ≡ v ∷ [])
              × (decode_auth_context http codecs v ≡ ok c))
    parse_auth_context-IsValidContext m c h =
        let (v, held, decoded) = parse_auth_context-eq-ok http codecs m c h in
        (decode_auth_context-IsValidContext http codecs v decoded, (v, held, decoded))
