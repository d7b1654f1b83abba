-- ===== src/ComponentSupport.antt =====
-- crates/component-support/src/lib.rs: lists of header fields, request ids, and edits of a host's fields.
pub mod HeaderList
pub mod RequestId
pub mod HeaderMap
pub mod Fields
pub mod Messages
