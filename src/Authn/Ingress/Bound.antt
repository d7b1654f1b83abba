-- ===== src/Authn/Ingress/Bound.antt =====
-- When `accept_trusted_ingress` of crates/authn/src/lib.rs takes a context to be bound to its configuration.
use wasi_http_middleware.Prelude.{
  true, List, [], ◌∷◌, ◌≡◌, inl, inr, refl, ap, arith, any, contains, Bytes, Bool-cases, ◌=b◌,
  =b_iff, =b_refl,
}
use wasi_http_middleware.Metadata.Context.{AuthContextV1}
use wasi_http_middleware.Authn.{AuthenticationConfig}
use wasi_http_middleware.Authn.Ingress.{shares_audience, is_bound_to}

-- The service is the configured one, and some audience is in both lists.
pub record IsBoundTo (config : AuthenticationConfig) (context : AuthContextV1) : Type 0 where
  pub service : context.service_id ≡ config.service_id
  pub audience : Bytes
  pub expected : contains config.audiences audience ≡ true
  pub held : contains context.audiences audience ≡ true

any_eq-contains : (xs : List Bytes) (e : Bytes) → any (λ a. a =b e) xs ≡ contains xs e
any_eq-contains [] e = refl
any_eq-contains (x ∷ xs) e = ground (arith, any_eq-contains xs e)

shares_audience-eq-true :
    (expected actual : List Bytes)
    → shares_audience expected actual ≡ true
    → (a : Bytes) × (contains expected a ≡ true) × (contains actual a ≡ true)
unfolding shares_audience
shares_audience-eq-true [] actual h = cc
shares_audience-eq-true (e ∷ es) actual h = elim (Bool-cases (contains actual e)) [
  | inl found ↦ (e, ground (arith, =b_refl e), found)
  | inr missing ↦
      let (a, first, second) =
        shares_audience-eq-true es actual (ground (arith, any_eq-contains actual e)) in
      (a, ground arith, second)
]

shares_audience_of_contains :
    (expected actual : List Bytes) (a : Bytes)
    → contains expected a ≡ true
    → contains actual a ≡ true
    → shares_audience expected actual ≡ true
unfolding shares_audience
shares_audience_of_contains [] actual a h k = cc
shares_audience_of_contains (e ∷ es) actual a h k = elim (Bool-cases (e =b a)) [
  | inl same ↦
      let e_a = (=b_iff e a).0 same in
      ground (arith, any_eq-contains actual e, ap (contains actual) e_a)
  | inr other ↦ ground (arith, shares_audience_of_contains es actual a)
]

pub is_bound_to-eq-true :
    (config : AuthenticationConfig) (context : AuthContextV1)
    → is_bound_to config context ≡ true
    → IsBoundTo config context
unfolding is_bound_to
is_bound_to-eq-true config context h =
    let (a, expected, held) =
      shares_audience-eq-true config.audiences context.audiences (ground arith) in
    record {
      service = (=b_iff context.service_id config.service_id).0 (ground arith);
      audience = a;
      expected = expected;
      held = held;
    }

pub is_bound_to_of_IsBoundTo :
    (config : AuthenticationConfig) (context : AuthContextV1)
    → IsBoundTo config context
    → is_bound_to config context ≡ true
unfolding is_bound_to
is_bound_to_of_IsBoundTo config context b = ground (
  arith,
  (=b_iff context.service_id config.service_id).1 b.service,
  shares_audience_of_contains config.audiences context.audiences b.audience b.expected b.held,
)
