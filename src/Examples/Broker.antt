-- ===== src/Examples/Broker.antt =====
-- Runs of the in-flight guard and of the broker's body in crates/authn-runtime/src/lib.rs.
use wasi_http_middleware.Prelude.{
  ℕ, ◌≤◌, true, List, [], ◌∷◌, ◌≡◌, inl, inr, refl, arith, codes, length, Option, none, some, leb,
  if◌then◌else◌, Bool-cases,
}
use wasi_http_middleware.AuthnRuntime.InFlight.{
  Reachable, here, next, step, load, exchange, idle, loaded, holding, start, IsCounted,
  Reachable-IsCounted,
}
use wasi_http_middleware.AuthnRuntime.Body.{
  Timers, IsTimers, Read, complete, dropped, Received, max_broker_response_size,
  collect_broker_response, collect_broker_response-Received,
}

-- Two tasks with a limit of one: both read the counter, one acquires, and the other has to read it again.
raced :
    Reachable 1
      (record { in_flight = 0; phases = start 2 })
      (record { in_flight = 1; phases = holding ∷ loaded 0 ∷ [] })
unfolding start
raced =
    next (next (next here (step [] (idle ∷ []) load)) (step (loaded 0 ∷ []) [] load))
      (step [] (loaded 0 ∷ []) (exchange (omega arith) refl))

Reachable-IsCounted_example :
    IsCounted 1 (record { in_flight = 1; phases = holding ∷ loaded 0 ∷ [] })
Reachable-IsCounted_example =
    Reachable-IsCounted 1 2 (record { in_flight = 1; phases = holding ∷ loaded 0 ∷ [] })
      (omega arith) raced

-- A future that ends with the timer comes first.
abbrev timers : Timers
timers = record {
  select = λ future wait. elim future [
    | none ↦ none
    | some (took, t) ↦ if leb took wait then some t else none
  ];
}

timers_laws : IsTimers timers
timers_laws = record {
  select-eq-some = λ {T} future wait {t} h. taken future wait t h;
  select_of_earlier = λ {T} took wait t h. ground arith;
}
  where
    taken :
        {T : Type 0} (future : Option (ℕ × T)) (wait : ℕ) (t : T)
        → timers.select future wait ≡ some t
        → (took : ℕ) × (future ≡ some (took, t)) × (took ≤ wait)
    taken none wait t h = cc
    taken (some (took, v)) wait t h = elim (Bool-cases (leb took wait)) [
      | inl e ↦ (took, cc (rw e at h), ground arith)
      | inr e ↦ absurd (cc (rw e at h))
    ]

abbrev reads : List Read
reads =
    record { now = 110; future = some (15, (complete, codes "ab")) }
    ∷ record { now = 125; future = some (25, (dropped, codes "c")) }
    ∷ []

collect_broker_response-Received_example :
    Received 100 50 50 [] reads (codes "abc")
    × (length (codes "abc") ≤ max_broker_response_size)
    × (true ≡ true)
unfolding collect_broker_response
collect_broker_response-Received_example =
    collect_broker_response-Received timers_laws 100 50 true [] reads (codes "abc") refl
