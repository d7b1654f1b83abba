-- ===== src/AuthnRuntime/InFlight.antt =====
-- `InFlightGuard` of crates/authn-runtime/src/lib.rs: tasks that acquire and drop guards in any interleaving.
-- A task's phase is the point of `acquire` or of the guard's life that it has reached; `usize` has 32 bits.
use wasi_http_middleware.Prelude.{
  ℕ, zero, suc, ◌+◌, ◌-◌, ◌%◌, ◌^◌, ◌≤◌, ◌<◌, List, [], ◌∷◌, ◌++◌, ◌≡◌, refl, sym, ◌∙◌, arith,
}
use wasi_http_middleware.AuthnRuntime.{max_max_in_flight}

pub data Phase : Type 0 where
  idle : Phase
  -- In the loop, with what was last read of the counter
  loaded : ℕ → Phase
  holding : Phase
  refused dropped : Phase

-- One atomic action: what it does to the counter and to the phase of the task that takes it.
pub data Action (maximum : ℕ) (counter : ℕ) : Phase → Phase → ℕ → Type 0 where
  load : Action maximum counter idle (loaded counter) counter
  refuse :
      {current : ℕ} → maximum ≤ current → Action maximum counter (loaded current) refused counter
  exchange :
      {current : ℕ}
      → current < maximum
      → counter ≡ current
      → Action maximum counter (loaded current) holding ((current + 1) % 2 ^ 32)
  -- `compare_exchange_weak` may fail whatever the counter is.
  retry :
      {current : ℕ}
      → current < maximum
      → Action maximum counter (loaded current) (loaded counter) counter
  drop : Action maximum counter holding dropped ((counter + (2 ^ 32 - 1)) % 2 ^ 32)

pub record Tasks : Type 0 where
  pub in_flight : ℕ
  pub phases : List Phase

-- One of the tasks takes an action.
pub data Step (maximum : ℕ) : Tasks → Tasks → Type 0 where
  step :
      {counter counter' : ℕ} {p q : Phase} (before after : List Phase)
      → Action maximum counter p q counter'
      → Step maximum
          (record { in_flight = counter; phases = before ++ p ∷ after })
          (record { in_flight = counter'; phases = before ++ q ∷ after })

pub data Reachable (maximum : ℕ) : Tasks → Tasks → Type 0 where
  here : {s : Tasks} → Reachable maximum s s
  next : {s t u : Tasks} → Reachable maximum s t → Step maximum t u → Reachable maximum s u

-- How many guards a phase stands for.
unfoldable pub guards_of : Phase → ℕ
guards_of idle = 0
guards_of (loaded current) = 0
guards_of holding = 1
guards_of refused = 0
guards_of dropped = 0

unfoldable pub guards : List Phase → ℕ
unfolding guards_of
guards [] = 0
guards (p ∷ phases) = guards_of p + guards phases

unfoldable pub start : ℕ → List Phase
start zero = []
start (suc n) = idle ∷ start n

-- The counter is the number of guards, and within the limit.
pub record IsCounted (maximum : ℕ) (s : Tasks) : Type 0 where
  pub counted : s.in_flight ≡ guards s.phases
  pub bounded : s.in_flight ≤ maximum

guards-split :
    (before after : List Phase) (p : Phase)
    → guards (before ++ p ∷ after) ≡ guards_of p + (guards before + guards after)
unfolding guards
guards-split [] after p = omega arith
guards-split (b ∷ before) after p = omega (arith, guards-split before after p)

-- An action changes the counter as it changes the guards of its task, and keeps to the limit.
action-counts :
    (maximum counter counter' rest : ℕ) (p q : Phase)
    → maximum ≤ max_max_in_flight
    → Action maximum counter p q counter'
    → counter ≡ guards_of p + rest
    → counter ≤ maximum
    → (counter' ≡ guards_of q + rest) × (counter' ≤ maximum)
unfolding guards_of
action-counts maximum counter counter' rest p q small load h b = (h, b)
action-counts maximum counter counter' rest p q small (refuse full) h b = (h, b)
action-counts maximum counter counter' rest p q small (exchange low same) h b =
    (omega arith, omega arith)
action-counts maximum counter counter' rest p q small (retry low) h b = (h, b)
action-counts maximum counter counter' rest p q small drop h b = (omega arith, omega arith)

Step-IsCounted :
    (maximum : ℕ) (s t : Tasks)
    → maximum ≤ max_max_in_flight
    → Step maximum s t
    → IsCounted maximum s
    → IsCounted maximum t
Step-IsCounted maximum s t small (step {counter} {counter'} {p} {q} before after action) c =
    let rest = guards before + guards after in
    let (counted, bounded) =
      action-counts maximum counter counter' rest p q small action
        (c.counted ∙ guards-split before after p) c.bounded in
    record { counted = counted ∙ sym (guards-split before after q); bounded = bounded }

guards-start : (n : ℕ) → guards (start n) ≡ 0
unfolding guards start
guards-start zero = refl
guards-start (suc n) = omega (arith, guards-start n)

Reachable-preserves :
    (maximum : ℕ) (s t : Tasks)
    → maximum ≤ max_max_in_flight
    → Reachable maximum s t
    → IsCounted maximum s
    → IsCounted maximum t
Reachable-preserves maximum s t small here c = c
Reachable-preserves maximum s t small (next {t = u} before last) c =
    Step-IsCounted maximum u t small last (Reachable-preserves maximum s u small before c)

-- From any number of idle tasks and a counter of 0, under every interleaving and every failure of the
-- exchange, the counter is the number of guards that are held and never exceeds the limit, which is at
-- most 1024: it neither overflows nor goes below 0.
pub Reachable-IsCounted :
    (maximum n : ℕ) (s : Tasks)
    → maximum ≤ max_max_in_flight
    → Reachable maximum (record { in_flight = 0; phases = start n }) s
    → IsCounted maximum s
Reachable-IsCounted maximum n s small path =
    Reachable-preserves maximum _ s small path
      (record { counted = sym (guards-start n); bounded = omega arith })
