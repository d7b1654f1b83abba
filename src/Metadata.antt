-- ===== src/Metadata.antt =====
-- crates/metadata/src/lib.rs: the trusted authentication context, its validation and its headers.
-- Errors, constants and the tests on single fields stand here; the rest is in the children.
pub mod Field
pub mod Principal
pub mod Context
pub mod Wire
pub mod Codec
pub mod Headers
use wasi_http_middleware.Prelude.{
  ℕ, Bool, true, false, not, ◌&&◌, ◌*◌, List, [], ◌∷◌, Bytes, codes, length, leb, is_empty, any,
  all, Result, ok, err, if◌then◌else◌, ◌=b◌, ◌>>=◌, ◌>>◌, guard, ltb, ◌||◌,
}
use wasi_http_middleware.Text.{
  chars, trim, is_control, is_ascii, is_ascii_whitespace, is_token_byte, sort, dedup,
}

-- `REQUEST_ID_HEADER`
abbrev pub request_id_header : Bytes
request_id_header = codes "x-request-id"

-- `AUTH_CONTEXT_HEADER`
abbrev pub auth_context_header : Bytes
auth_context_header = codes "x-wasi-auth-context"

-- `AUTH_CONTEXT_VERSION`
abbrev pub auth_context_version : ℕ
auth_context_version = 1

-- `MAX_AUTH_CONTEXT_ENCODED_LEN`
abbrev pub max_auth_context_encoded_len : ℕ
max_auth_context_encoded_len = 8 * 1024

-- `RESERVED_AUTH_PREFIX`
abbrev pub reserved_auth_prefix : Bytes
reserved_auth_prefix = codes "x-wasi-auth-"

abbrev pub max_identity_value_len : ℕ
max_identity_value_len = 512

abbrev pub max_context_value_len : ℕ
max_context_value_len = 256

abbrev pub max_session_value_len : ℕ
max_session_value_len = 512

abbrev pub max_collection_items : ℕ
max_collection_items = 64

abbrev pub max_audiences : ℕ
max_audiences = 16

abbrev pub max_scope_value_len : ℕ
max_scope_value_len = 2048

-- `MetadataError`, with the name of the field or header where it has one.
pub data MetadataError : Type 0 where
  invalid_text invalid_collection : Bytes → MetadataError
  invalid_time_range : MetadataError
  duplicate_header missing_header : Bytes → MetadataError
  context_too_large invalid_encoding invalid_schema : MetadataError
  unsupported_version : ℕ → MetadataError

-- The value `valid` of `validate_text`.
pub is_valid_text : Bytes → ℕ → Bool
is_valid_text value maximum =
    not (is_empty value)
    && leb (length value) maximum
    && trim value =b value
    && not (any is_control (chars value))

unfoldable pub validate_text : Bytes → Bytes → ℕ → Result MetadataError (Unit {0})
unfolding is_valid_text trim chars ◌=b◌
validate_text field value maximum =
    if is_valid_text value maximum then ok tt else err (invalid_text field)

-- The second test of `validate_ascii_text`.
abbrev pub is_unbroken_ascii : Bytes → Bool
is_unbroken_ascii value = is_ascii value && not (any is_ascii_whitespace value)

unfoldable pub validate_ascii_text : Bytes → Bytes → ℕ → Result MetadataError (Unit {0})
unfolding validate_text
validate_ascii_text field value maximum = do
  validate_text field value maximum
  if is_unbroken_ascii value then ok tt else err (invalid_text field)

unfoldable pub is_token : Bytes → Bool
is_token value = not (is_empty value) && leb (length value) 128 && all is_token_byte value

unfoldable pub validated_tokens : Bytes → List Bytes → Result MetadataError (List Bytes)
unfolding is_token sort dedup
validated_tokens field values =
    if ltb max_collection_items (length values) || any (λ value. not (is_token value)) values
    then err (invalid_collection field)
    else ok (dedup (sort values))

-- `for audience in &audiences { validate_ascii_text(...)?; }`
pub validate_audiences : List Bytes → Result MetadataError (Unit {0})
unfolding validate_ascii_text
validate_audiences [] = ok tt
validate_audiences (audience ∷ audiences) = do
  validate_ascii_text (codes "audience") audience max_context_value_len
  validate_audiences audiences

unfoldable pub validated_deployment : Bytes → List Bytes → Result MetadataError (Bytes × List Bytes)
unfolding is_token validate_audiences sort dedup
validated_deployment service_id audiences =
    if not (is_token service_id)
    then err (invalid_text (codes "service_id"))
    else if is_empty audiences || ltb max_audiences (length audiences)
    then err (invalid_collection (codes "audiences"))
    else (do validate_audiences audiences; ok (service_id, dedup (sort audiences)))
