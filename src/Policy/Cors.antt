-- ===== src/Policy/Cors.antt =====
-- `CorsConfig` of crates/policy-core/src/lib.rs. A `BTreeSet<String>` is its sorted list of texts.
pub mod Config
pub mod Evaluate
pub mod Valid
pub mod Outcome
pub mod Safety
pub mod Names
pub use Config.*
pub use Evaluate.*
