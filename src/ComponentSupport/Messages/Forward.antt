-- ===== src/ComponentSupport/Messages/Forward.antt =====
-- What the rebuilt messages of crates/component-support/src/lib.rs carry.
use wasi_http_middleware.Prelude.{
  ℕ, not, ◌&&◌, append-nil, List, [], ◌∷◌, ◌≡◌, inl, inr, refl, sym, ap, ◌∙◌, arith, Bytes, codes,
  none, some, ok, >>=-eq-ok, map_err, map_err-eq-ok, if◌then◌else◌, Bool-cases,
}
use wasi_http_middleware.Text.{eq_ignore_ascii_case}
use wasi_http_middleware.ComponentSupport.HeaderList.{
  Header, is_named, header_values, contains_header_name,
}
use wasi_http_middleware.ComponentSupport.HeaderList.Laws.{
  header_values-append, contains_header_name_congr, header_values_of_absent,
}
use wasi_http_middleware.ComponentSupport.Fields.{apply_header_diff, apply_header_edits}
use wasi_http_middleware.ComponentSupport.Fields.Diff.{mentions, get-apply_header_diff}
use wasi_http_middleware.ComponentSupport.Fields.Edits.{get-apply_header_edits}
use wasi_http_middleware.ComponentSupport.Messages.Host.{IsHostHttp}
use wasi_http_middleware.ComponentSupport.Messages.{
  HostHttp, request_headers, response_headers, rebuild_request, replace_request_headers,
  edit_request_headers, rebuild_response, replace_response_headers,
  replace_response_headers_from_original, replace_request_headers_from_original,
  edit_response_headers, edit_response_headers_from_original, with_content_length, empty_response,
  restore_request_metadata,
}

module _ (host : HostHttp) where
  open host use {Request, request_parts, Response, response_parts}

  -- A request with other headers: their values are given by name, and every other part is the same.
  pub record IsForwarded (before after : Request) (values : Bytes → List Bytes) : Type 0 where
    pub parts :
        request_parts after
        ≡ record (request_parts before) { headers = (request_parts after).headers }
    pub held : (name : Bytes) → host.fields.get (request_parts after).headers name ≡ values name

  -- A response with other headers.
  pub record IsReturned (before after : Response) (values : Bytes → List Bytes) : Type 0 where
    pub parts :
        response_parts after
        ≡ record (response_parts before) { headers = (response_parts after).headers }
    pub held : (name : Bytes) → host.fields.get (response_parts after).headers name ≡ values name

-- The values under a name after an edit.
abbrev pub edited : List Bytes → List Header → (Bytes → List Bytes) → Bytes → List Bytes
edited delete_names replacements before name =
    if contains_header_name replacements name
    then header_values replacements name
    else if mentions delete_names name
    then []
    else before name

-- The field that `empty_response` adds.
abbrev length_header : Header
length_header = record { name = codes "content-length"; value = codes "0" }

module _ {host : HostHttp} (laws : IsHostHttp host) where
  open host use {fields, Request, request_parts, new_request, Response, response_parts}

  parts-rebuild_request :
      (request after : Request) (s : fields.State)
      → rebuild_request host request s ≡ ok after
      → request_parts after ≡ record (request_parts request) { headers = s }
  unfolding rebuild_request restore_request_metadata
  parts-rebuild_request request after s h =
      let p = request_parts request in
      let made = new_request s (some p.body) p.trailers p.options in
      let chain = map_err-eq-ok _ host.internal_error h in
      let (r1, e1, h1) = >>=-eq-ok (host.set_method made p.method) _ chain in
      let (r2, e2, h2) = >>=-eq-ok (host.set_scheme r1 p.scheme) _ h1 in
      let (r3, e3, h3) = >>=-eq-ok (host.set_path_with_query r2 p.path_with_query) _ h2 in
      let l0 = laws.parts-new_request s p.body p.trailers p.options in
      let l1 = laws.parts-set_method made r1 p.method e1 in
      let l2 = laws.parts-set_scheme r1 r2 p.scheme e2 in
      let l3 = laws.parts-set_path_with_query r2 r3 p.path_with_query e3 in
      let l4 = laws.parts-set_authority r3 after p.authority h3 in rw (l4, l3, l2, l1, l0) refl

  parts-rebuild_response :
      (response after : Response) (s : fields.State)
      → rebuild_response host response s ≡ ok after
      → response_parts after ≡ record (response_parts response) { headers = s }
  unfolding rebuild_response
  parts-rebuild_response response after s h =
      let p = response_parts response in
      let made = host.new_response s (some p.body) p.trailers in
      let l1 =
        laws.parts-set_status_code made after p.status
          (map_err-eq-ok (host.set_status_code made p.status) host.internal_error h) in
      rw (l1, laws.parts-new_response s p.body p.trailers) refl

  rebuild_request-IsForwarded :
      (request after : Request) (s : fields.State) (values : Bytes → List Bytes)
      → rebuild_request host request s ≡ ok after
      → ((name : Bytes) → fields.get s name ≡ values name)
      → IsForwarded host request after values
  rebuild_request-IsForwarded request after s values h held =
      let same = parts-rebuild_request request after s h in
      record {
        parts = rw same refl;
        held = λ name. ap (λ p. fields.get p.headers name) same ∙ held name;
      }

  rebuild_response-IsReturned :
      (response after : Response) (s : fields.State) (values : Bytes → List Bytes)
      → rebuild_response host response s ≡ ok after
      → ((name : Bytes) → fields.get s name ≡ values name)
      → IsReturned host response after values
  rebuild_response-IsReturned response after s values h held =
      let same = parts-rebuild_response response after s h in
      record {
        parts = rw same refl;
        held = λ name. ap (λ p. fields.get p.headers name) same ∙ held name;
      }

  -- A request that `edit_request_headers` returns has the values that the edit gives to each name, and the
  -- method, scheme, path, authority, options, body and trailers of the one it was given.
  pub edit_request_headers-IsForwarded :
      (request after : Request) (delete_names : List Bytes) (replacements : List Header)
      → edit_request_headers host request delete_names replacements ≡ ok after
      → IsForwarded host request after
          (edited delete_names replacements (fields.get (request_parts request).headers))
  unfolding edit_request_headers
  edit_request_headers-IsForwarded request after delete_names replacements h =
      let s0 = (request_parts request).headers in
      let (s, e, r) =
        >>=-eq-ok (map_err (apply_header_edits fields s0 delete_names replacements) _) _ h in
      let edit = map_err-eq-ok (apply_header_edits fields s0 delete_names replacements) _ e in
      rebuild_request-IsForwarded request after s _ r
        (get-apply_header_edits laws.on_fields s0 s delete_names replacements edit)

  -- A request that `replace_request_headers` returns has under every name the values of the given list, and
  -- the method, scheme, path, authority, options, body and trailers of the one it was given.
  pub replace_request_headers-IsForwarded :
      (request after : Request) (headers : List Header)
      → replace_request_headers host request headers ≡ ok after
      → IsForwarded host request after (header_values headers)
  unfolding replace_request_headers replace_request_headers_from_original request_headers
  replace_request_headers-IsForwarded request after headers h =
      let s0 = (request_parts request).headers in
      let original = host.copy_all s0 in
      let (s, e, r) = >>=-eq-ok (map_err (apply_header_diff fields s0 original headers) _) _ h in
      let edit = map_err-eq-ok (apply_header_diff fields s0 original headers) _ e in
      rebuild_request-IsForwarded request after s _ r
        (get-apply_header_diff laws.on_fields s0 s original headers (laws.get-copy_all s0) edit)

  pub edit_response_headers-IsReturned :
      (response after : Response) (delete_names : List Bytes) (replacements : List Header)
      → edit_response_headers host response delete_names replacements ≡ ok after
      → IsReturned host response after
          (edited delete_names replacements (fields.get (response_parts response).headers))
  unfolding edit_response_headers edit_response_headers_from_original
  edit_response_headers-IsReturned response after delete_names replacements h =
      let s0 = (response_parts response).headers in
      let (s, e, r) =
        >>=-eq-ok (map_err (apply_header_edits fields s0 delete_names replacements) _) _ h in
      let edit = map_err-eq-ok (apply_header_edits fields s0 delete_names replacements) _ e in
      rebuild_response-IsReturned response after s _ r
        (get-apply_header_edits laws.on_fields s0 s delete_names replacements edit)

  -- A response that `replace_response_headers` returns has under every name the values of the given list,
  -- and the status, body and trailers of the one it was given.
  pub replace_response_headers-IsReturned :
      (response after : Response) (headers : List Header)
      → replace_response_headers host response headers ≡ ok after
      → IsReturned host response after (header_values headers)
  unfolding replace_response_headers replace_response_headers_from_original response_headers
  replace_response_headers-IsReturned response after headers h =
      let s0 = (response_parts response).headers in
      let original = host.copy_all s0 in
      let (s, e, r) = >>=-eq-ok (map_err (apply_header_diff fields s0 original headers) _) _ h in
      let edit = map_err-eq-ok (apply_header_diff fields s0 original headers) _ e in
      rebuild_response-IsReturned response after s _ r
        (get-apply_header_diff laws.on_fields s0 s original headers (laws.get-copy_all s0) edit)

  header_values_one :
      (name : Bytes)
      → header_values (length_header ∷ []) name
        ≡ (if eq_ignore_ascii_case (codes "content-length") name then codes "0" ∷ [] else [])
  unfolding header_values is_named
  header_values_one name = ground arith

  header_values-with_content_length :
      (headers : List Header) (name : Bytes)
      → header_values (with_content_length headers) name ≡ (
          if not (contains_header_name headers (codes "content-length"))
            && eq_ignore_ascii_case (codes "content-length") name
          then codes "0" ∷ []
          else header_values headers name)
  unfolding with_content_length is_named
  header_values-with_content_length headers name =
      elim (Bool-cases (contains_header_name headers (codes "content-length"))) [
        | inl present ↦ rw present refl
        | inr absent ↦
            let joined = header_values-append headers (length_header ∷ []) name in
            elim (Bool-cases (eq_ignore_ascii_case (codes "content-length") name)) [
              | inl same ↦
                  let congr =
                    contains_header_name_congr headers (codes "content-length") name same in
                  let bare = header_values_of_absent headers name (sym congr ∙ absent) in
                  rw (absent, same) (joined ∙ rw (bare, header_values_one name) (rw same refl))
              | inr other ↦
                  rw (absent, other)
                    (joined
                      ∙ rw (header_values_one name, other)
                          (append-nil (header_values headers name)))
            ]
      ]

  -- An empty response has the given status, no contents and no trailers. Under every name it has the values of
  -- the given list, and a `content-length` of 0 when the list has none.
  pub empty_response-eq-ok :
      (status : ℕ) (headers : List Header) (made : Response)
      → empty_response host status headers ≡ ok made
      → ((response_parts made).status ≡ status)
        × ((response_parts made).body ≡ host.empty_body)
        × ((response_parts made).trailers ≡ host.no_trailers)
        × ((name : Bytes)
            → fields.get (response_parts made).headers name ≡ (
                if not (contains_header_name headers (codes "content-length"))
                  && eq_ignore_ascii_case (codes "content-length") name
                then codes "0" ∷ []
                else header_values headers name))
  unfolding empty_response
  empty_response-eq-ok status headers made h =
      let (s, e, r) = >>=-eq-ok (map_err (host.from_list (with_content_length headers)) _) _ h in
      let listed = map_err-eq-ok (host.from_list (with_content_length headers)) _ e in
      let blank = host.new_response s none host.no_trailers in
      let same =
        laws.parts-set_status_code blank made status
          (map_err-eq-ok (host.set_status_code blank status) host.internal_error r) in
      rw (same, laws.parts-new_response_none s host.no_trailers)
        (
          refl,
          refl,
          refl,
          λ name.
              laws.get-from_list (with_content_length headers) s name listed
              ∙ header_values-with_content_length headers name,
        )
