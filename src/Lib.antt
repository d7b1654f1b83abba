-- ===== src/Lib.antt =====
-- WASI HTTP middleware: what its crates decide.
--
-- The repository builds HTTP middleware components. A component gets a request, applies a policy, and
-- forwards the request or answers it. The components stand under components/, and authentication in
-- crates/authn-runtime/src/lib.rs and, in the process of a service, crates/authn/src/lib.rs. The
-- policies stand in crates/policy-core/src/lib.rs, the identity that they pass on in
-- crates/metadata/src/lib.rs, and the handling of header fields that all components share in
-- crates/component-support/src/lib.rs.
--
-- Files:
--   Prelude, Prelude/*: tests into Bool, lists of bytes, results with `?` as bind.
--   Text, Text/*: the parts of `str` that the sources use, over lists of bytes, and `BTreeSet<String>` and
--     sorted vectors as `dedup (sort ...)`.
--   HttpCrate, HttpCrate/*: the http crate as a record of operations and a record of the laws that it
--     documents. A header name is its lower-case text.
--   Metadata, Metadata/*: crates/metadata. Field has the validators' results, Principal and Context the
--     identity types with their builders, Wire the serialized form, Codec the header value, Headers the
--     functions on header maps. serde_json and base64 are the record Encodings with its laws.
--   Policy, Policy/*: crates/policy-core. Path is normalize_policy_path, Path/Spec its
--     specification without the code's tests, RequestId is RequestIdPolicy,
--     Credentials the single-value headers, Claims the broker's answer, Cors the configuration and the
--     evaluation of CORS.
--   ComponentSupport, ComponentSupport/*: crates/component-support. HeaderList has the operations on a
--     Vec<Header>, HeaderMap the conversions, RequestId the generator, Fields the edits of the host's
--     fields resource, which is a record of operations with the laws of wit/deps/http.wit.
--     Messages has the functions that rebuild a request or a response; its host is a record too.
--   AuthnRuntime, AuthnRuntime/*: crates/authn-runtime. Url is parse_broker_url, Config is from_environment
--     in five stages, Authenticate is authenticate_with_diagnostics. The reading of an IP address and the
--     broker's answer to a call are parameters, and the number of calls in flight is an argument. InFlight is
--     InFlightGuard as a step relation on any number of tasks, and Body the collection of the broker's body,
--     where `select` of the futures crate on a read and a timer is the record Timers with its laws.
--   Authn, Authn/*: crates/authn. Authenticate is Authenticator::authenticate_request with the transport as
--     a parameter, Ingress is accept_trusted_ingress. The clock is an argument.
--   Components, Components/*: the handlers under components/. A handler is a function of the handler that
--     follows it; RequestId, SecurityHeaders, AuthnPolicy, Cors and SecureDefaults are one component each,
--     Vary is the merge of Origin into the vary fields that two of them share, and Trusted and Admission
--     describe what an authenticating component passes on. A handler that authenticates is cut at its call
--     of the next one: admit is what comes before it, and complete what follows.
--   Examples, Examples/*: instances of the parameters, and runs at concrete inputs.
--
-- Numbers are natural numbers; the request id sequence wraps at 2 ^ 64. A text is the list of its UTF-8
-- bytes. Loops are structural recursion over the input that is left, so there is no fuel. A function
-- that changes a map returns it.
--
-- Not modelled: Debug output and diagnostics, the making of the request to the broker in
-- crates/authn-runtime (call_broker, exchange_with_broker), random prefixes and clocks, which are
-- arguments, the transmission of streams, the test components and the scripts.
pub mod Prelude
pub mod Text
pub mod HttpCrate
pub mod Metadata
pub mod Policy
pub mod ComponentSupport
pub mod AuthnRuntime
pub mod Authn
pub mod Components
pub mod Examples
