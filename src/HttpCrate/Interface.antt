-- ===== src/HttpCrate/Interface.antt =====
-- The `http` crate as the sources use it: a parameter of the model. A `HeaderName` is the text of its
-- `as_str`, which is lower case; two names are equal when these texts are.
use wasi_http_middleware.Prelude.{
  Bool, true, not, List, [], ◌∷◌, ◌++◌, ◌≡◌, Option, some, Bytes, is_empty, ◌=b◌, if◌then◌else◌,
  all, within, contains,
}
use wasi_http_middleware.Text.{to_ascii_lowercase}

pub record HttpCrate : Type 1 where
  -- `HeaderName::from_bytes`
  pub header_name : Bytes → Option Bytes
  pub HeaderValue : Type 0
  -- `HeaderValue::from_bytes`, `from_str`, `from_static`
  pub value_from_bytes : Bytes → Option HeaderValue
  pub value_from_str : Bytes → Option HeaderValue
  pub value_from_static : Bytes → HeaderValue
  pub as_bytes : HeaderValue → Bytes
  pub to_str : HeaderValue → Option Bytes
  pub set_sensitive : HeaderValue → Bool → HeaderValue
  pub HeaderMap : Type 0
  pub new_map : HeaderMap
  pub get_all : HeaderMap → Bytes → List HeaderValue
  pub contains_key : HeaderMap → Bytes → Bool
  -- `HeaderMap::keys`, each name once
  pub keys : HeaderMap → List Bytes
  pub append : HeaderMap → Bytes → HeaderValue → HeaderMap
  pub insert : HeaderMap → Bytes → HeaderValue → HeaderMap
  pub remove : HeaderMap → Bytes → HeaderMap
  -- `Method::from_bytes`, as the text of the method
  pub method_from_bytes : Bytes → Option Bytes
  -- The methods in the order in which a `BTreeSet<Method>` lists them, each once
  pub method_set : List Bytes → List Bytes
  pub Uri : Type 0
  -- `str::parse::<Uri>`
  pub parse_uri : Bytes → Option Uri
  pub scheme_str : Uri → Option Bytes
  pub uri_authority : Uri → Option Bytes
  pub uri_host : Uri → Option Bytes
  pub path_and_query : Uri → Option Bytes

-- What the crate documents of these operations.
pub record IsHttpCrate (http : HttpCrate) : Type 0 where
  pub header_name-eq : (s n : Bytes) → http.header_name s ≡ some n → n ≡ to_ascii_lowercase s
  pub from_bytes-as_bytes :
      (s : Bytes) (v : http.HeaderValue) → http.value_from_bytes s ≡ some v → http.as_bytes v ≡ s
  pub from_str-as_bytes :
      (s : Bytes) (v : http.HeaderValue) → http.value_from_str s ≡ some v → http.as_bytes v ≡ s
  pub from_static-as_bytes :
      (s : Bytes) → all (within 32 126) s ≡ true → http.as_bytes (http.value_from_static s) ≡ s
  pub to_str-as_bytes :
      (v : http.HeaderValue) (s : Bytes) → http.to_str v ≡ some s → http.as_bytes v ≡ s
  -- Visible ASCII is text, and is a value.
  pub to_str_visible :
      (v : http.HeaderValue)
      → all (within 32 126) (http.as_bytes v) ≡ true
      → http.to_str v ≡ some (http.as_bytes v)
  pub from_str_visible :
      (s : Bytes)
      → all (within 32 126) s ≡ true
      → (v : http.HeaderValue) × (http.value_from_str s ≡ some v)
  pub set_sensitive-as_bytes :
      (v : http.HeaderValue) (b : Bool) → http.as_bytes (http.set_sensitive v b) ≡ http.as_bytes v
  pub get_all-new_map : (n : Bytes) → http.get_all http.new_map n ≡ []
  pub contains_key-eq :
      (m : http.HeaderMap) (n : Bytes) → http.contains_key m n ≡ not (is_empty (http.get_all m n))
  pub contains-keys :
      (m : http.HeaderMap) (n : Bytes) → contains (http.keys m) n ≡ http.contains_key m n
  pub get_all-append :
      (m : http.HeaderMap) (n k : Bytes) (v : http.HeaderValue)
      → http.get_all (http.append m n v) k
        ≡ (if n =b k then http.get_all m k ++ v ∷ [] else http.get_all m k)
  pub get_all-insert :
      (m : http.HeaderMap) (n k : Bytes) (v : http.HeaderValue)
      → http.get_all (http.insert m n v) k ≡ (if n =b k then v ∷ [] else http.get_all m k)
  pub get_all-remove :
      (m : http.HeaderMap) (n k : Bytes)
      → http.get_all (http.remove m n) k ≡ (if n =b k then [] else http.get_all m k)
  pub method_from_bytes-eq : (s m : Bytes) → http.method_from_bytes s ≡ some m → m ≡ s
  pub contains-method_set :
      (ms : List Bytes) (m : Bytes) → contains (http.method_set ms) m ≡ contains ms m
  pub is_empty-method_set : (ms : List Bytes) → is_empty (http.method_set ms) ≡ is_empty ms
