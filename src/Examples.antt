-- ===== src/Examples.antt =====
-- Instances of the parameters, and runs of the theorems at concrete inputs.
pub mod Http
pub mod Host
pub mod Codecs
mod Edits
mod Auth
mod Runtime
mod Cors
mod Requests
mod Messages
mod Components
mod Authn
mod Broker
