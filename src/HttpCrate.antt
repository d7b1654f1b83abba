-- ===== src/HttpCrate.antt =====
-- The `http` crate as the sources use it, and what follows from its documented behaviour.
mod Interface
pub mod Maps
pub use Interface.*
