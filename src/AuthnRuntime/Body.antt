-- ===== src/AuthnRuntime/Body.antt =====
-- `with_deadline` and `collect_broker_response` of crates/authn-runtime/src/lib.rs. The monotonic clock, the
-- timer and the stream are parameters: a read is the reading of the clock when it starts, the time that it
-- takes, if it ever ends, and what it ends with. Times are in nanoseconds.
use wasi_http_middleware.Prelude.{
  ℕ, ◌+◌, ◌-◌, ◌*◌, ◌≤◌, ◌<◌, Bool, true, ◌&&◌, List, [], ◌∷◌, ◌++◌, false, ◌≡◌, refl, sym, ◌∙◌,
  arith, Bytes, length, length-append, ltb, leb, Option, none, some, Result, ok, err, ◌>>=◌,
  >>=-eq-ok, ok_or, ok_or-eq-ok, if◌then◌else◌, Bool-cases, inl, inr, if_false,
}
use wasi_http_middleware.AuthnRuntime.Authenticate.{BrokerCallError, deadline, response_body}

abbrev pub max_broker_response_size : ℕ
max_broker_response_size = 64 * 1024

pub data StreamResult : Type 0 where
  complete dropped cancelled : StreamResult

pub record Read : Type 0 where
  pub now : ℕ
  pub future : Option (ℕ × (StreamResult × Bytes))

-- `select` of the futures crate on a future and on `wait_for` of the monotonic clock, which waits for a given
-- time. A future is the time that it takes and its value, or nothing when it never ends. The result is the
-- value when the future comes first, and nothing when the timer does.
pub record Timers : Type 1 where
  pub select : {T : Type 0} → Option (ℕ × T) → ℕ → Option T

-- The first of the two wins. Which one it is when both end at once is left open.
pub record IsTimers (timers : Timers) : Type 1 where
  pub select-eq-some :
      {T : Type 0} (future : Option (ℕ × T)) (wait : ℕ) {t : T}
      → timers.select future wait ≡ some t
      → (took : ℕ) × (future ≡ some (took, t)) × (took ≤ wait)
  pub select_of_earlier :
      {T : Type 0} (took wait : ℕ) (t : T)
      → took < wait
      → timers.select (some (took, t)) wait ≡ some t

-- `timeout_ns.checked_sub(elapsed).filter(|remaining| *remaining > 0)`; the first subtraction saturates.
unfoldable pub remaining_time : ℕ → ℕ → ℕ → Option ℕ
remaining_time started timeout_ns now =
    let elapsed = now - started in
    if leb elapsed timeout_ns && ltb 0 (timeout_ns - elapsed)
    then some (timeout_ns - elapsed)
    else none

unfoldable pub with_deadline :
    (timers : Timers) {T : Type 0} → ℕ → ℕ → ℕ → Option (ℕ × T) → Result BrokerCallError T
unfolding remaining_time
with_deadline timers started timeout_ns now future = do
  remaining ← ok_or (remaining_time started timeout_ns now) deadline
  ok_or (timers.select future remaining) deadline

-- The `match` on a read that is within the bound; `rest` is what the loop does next. `published` says whether
-- the result's reader is still there.
unfoldable pub absorb :
    Bool
    → Bytes
    → StreamResult
    → Option (Result BrokerCallError Bytes)
    → Option (Result BrokerCallError Bytes)
absorb published grown complete rest = rest
absorb published grown dropped rest = some (if published then ok grown else err response_body)
absorb published grown cancelled rest = some (err response_body)

-- What the loop returns; `none` while it waits for a read.
unfoldable pub collect_broker_response :
    Timers → ℕ → ℕ → Bool → Bytes → List Read → Option (Result BrokerCallError Bytes)
unfolding with_deadline absorb
collect_broker_response timers started timeout_ns published output [] = none
collect_broker_response timers started timeout_ns published output (read ∷ reads) =
    elim (with_deadline timers started timeout_ns read.now read.future) [
      | err e ↦ some (err e)
      | ok (status, chunk) ↦
          let rest =
            collect_broker_response timers started timeout_ns published (output ++ chunk) reads in
          if ltb max_broker_response_size (length output + length chunk)
          then some (err response_body)
          else absorb published (output ++ chunk) status rest
    ]

-- A read that starts before the deadline, ends with the given result no later than `limit` after the call
-- started, and keeps to the bound.
pub record InTime (started timeout_ns limit : ℕ) (output : Bytes) (read : Read)
    (status : StreamResult) (chunk : Bytes) : Type 0 where
  pub took : ℕ
  pub starts : read.now - started < timeout_ns
  pub ends : (read.now - started) + took ≤ limit
  pub result : read.future ≡ some (took, (status, chunk))
  pub small : length output + length chunk ≤ max_broker_response_size

-- How a body was received: every read was in time, and the last of them, and no other, ended the stream.
pub data Received (started timeout_ns limit : ℕ) : Bytes → List Read → Bytes → Type 0 where
  last :
      {output chunk : Bytes} {read : Read} {reads : List Read}
      → InTime started timeout_ns limit output read dropped chunk
      → Received started timeout_ns limit output (read ∷ reads) (output ++ chunk)
  more :
      {output chunk body : Bytes} {read : Read} {reads : List Read}
      → InTime started timeout_ns limit output read complete chunk
      → Received started timeout_ns limit (output ++ chunk) reads body
      → Received started timeout_ns limit output (read ∷ reads) body

module _ {timers : Timers} (laws : IsTimers timers) where
  with_deadline-eq-ok :
      {T : Type 0} (started timeout_ns now : ℕ) (future : Option (ℕ × T)) {t : T}
      → with_deadline timers started timeout_ns now future ≡ ok t
      → (took : ℕ) × (now - started < timeout_ns)
        × ((now - started) + took ≤ timeout_ns)
        × (future ≡ some (took, t))
  unfolding with_deadline remaining_time
  with_deadline-eq-ok started timeout_ns now future h =
      let (left, e, r) = >>=-eq-ok (ok_or (remaining_time started timeout_ns now) deadline) _ h in
      let some_left = ok_or-eq-ok (remaining_time started timeout_ns now) deadline e in
      let (took, found, early) =
        laws.select-eq-some future left (ok_or-eq-ok (timers.select future left) deadline r) in
      (took, ground (arith, some_left), ground (arith, some_left, early), found)

  -- A read that ends strictly before the deadline is not cut off.
  with_deadline_of_early :
      {T : Type 0} (started timeout_ns now took : ℕ) (t : T)
      → (now - started) + took < timeout_ns
      → with_deadline timers started timeout_ns now (some (took, t)) ≡ ok t
  unfolding with_deadline remaining_time
  with_deadline_of_early started timeout_ns now took t h =
      let left : remaining_time started timeout_ns now ≡ some (timeout_ns - (now - started)) =
        ground (arith, h) in
      let kept = laws.select_of_earlier took (timeout_ns - (now - started)) t (omega (arith, h)) in
      rw (left, ok_or) (rw (kept, ok_or) refl)

  with_deadline-InTime :
      (started timeout_ns limit : ℕ)
      → limit < timeout_ns
      → {output chunk : Bytes} {read : Read} {status : StreamResult}
      → InTime started timeout_ns limit output read status chunk
      → with_deadline timers started timeout_ns read.now read.future ≡ ok (status, chunk)
  with_deadline-InTime started timeout_ns limit early {output} {chunk} {read} {status} r =
      rw r.result (
        with_deadline_of_early started timeout_ns read.now r.took (status, chunk)
          (omega (arith, r.ends, early)))

  -- A body that is returned is within 64 KiB, and its receipt was published. Each of its reads started before
  -- the deadline and ended by it, `timeout_ns` after `started`, and kept to the bound; the last of them, and
  -- no other, ended the stream.
  pub collect_broker_response-Received :
      (started timeout_ns : ℕ) (published : Bool) (output : Bytes) (reads : List Read)
      (body : Bytes)
      → collect_broker_response timers started timeout_ns published output reads ≡ some (ok body)
      → Received started timeout_ns timeout_ns output reads body
        × (length body ≤ max_broker_response_size)
        × (published ≡ true)
  unfolding collect_broker_response
  collect_broker_response-Received started timeout_ns published output [] body h = absurd (cc)
  collect_broker_response-Received started timeout_ns published output (read ∷ reads) body h =
      go (with_deadline timers started timeout_ns read.now read.future)
        (λ grown. collect_broker_response-Received started timeout_ns published grown reads body)
        refl h
    where
      Result_of : Bytes → List Read → Type 0
      Result_of start rest =
          Received started timeout_ns timeout_ns start rest body
          × (length body ≤ max_broker_response_size)
          × (published ≡ true)

      Later : Type 0
      Later =
          (grown : Bytes)
          → collect_broker_response timers started timeout_ns published grown reads ≡ some (ok body)
          → Result_of grown reads

      absorbed :
          (status : StreamResult) (chunk : Bytes)
          → Later
          → InTime started timeout_ns timeout_ns output read status chunk
          → absorb published
              (output ++ chunk)
              status
              (collect_broker_response timers started timeout_ns published (output ++ chunk) reads)
            ≡ some (ok body)
          → Result_of output (read ∷ reads)
      absorbed complete chunk later timely k =
          let (received, bounded, known) = later (output ++ chunk) k in
          (more timely received, bounded, known)
      absorbed dropped chunk later timely k = elim (Bool-cases published) [
        | inl e ↦
            let same : output ++ chunk ≡ body = cc (rw (e, absorb) at k) in
            (
              rw (← same) (last timely),
              rw (← same) (omega (arith, timely.small, length-append output chunk)),
              e,
            )
        | inr e ↦ absurd (cc (rw (e, absorb) at k))
      ]
      absorbed cancelled chunk later timely k = absurd (cc)

      go :
          (r : Result BrokerCallError (StreamResult × Bytes))
          → Later
          → with_deadline timers started timeout_ns read.now read.future ≡ r
          → elim r [
            | err e ↦ some (err e)
            | ok (status, chunk) ↦
                if ltb max_broker_response_size (length output + length chunk)
                then some (err response_body)
                else absorb published (output ++ chunk) status (
                    collect_broker_response timers started timeout_ns published
                      (output ++ chunk)
                      reads)
          ]
            ≡ some (ok body)
          → Result_of output (read ∷ reads)
      go (err e) later read_as k = absurd (cc)
      go (ok (status, chunk)) later read_as k =
          let (took, starts, ends, result) =
            with_deadline-eq-ok started timeout_ns read.now read.future read_as in
          elim (Bool-cases (ltb max_broker_response_size (length output + length chunk))) [
            | inl over ↦ absurd (cc (rw over at k))
            | inr within_bound ↦
                absorbed status chunk later
                  (record {
                    took = took;
                    starts = starts;
                    ends = ends;
                    result = result;
                    small = ground arith;
                  })
                  (sym (if_false _ _ within_bound) ∙ k)
          ]

  -- The other way round: a body that is received within a limit before the deadline is returned, when its
  -- receipt is published.
  collect_broker_response_of_Received :
      (started timeout_ns limit : ℕ)
      → limit < timeout_ns
      → {output body : Bytes} {reads : List Read}
      → Received started timeout_ns limit output reads body
      → collect_broker_response timers started timeout_ns true output reads ≡ some (ok body)
  unfolding collect_broker_response absorb
  collect_broker_response_of_Received started timeout_ns limit early
        (last {output} {chunk} {read} {reads} r) =
      let known = with_deadline-InTime started timeout_ns limit early r in
      let fits : ltb max_broker_response_size (length output + length chunk) ≡ false =
        ground (arith, r.small) in
      rw (known, collect_broker_response) (if_false _ _ fits)
  collect_broker_response_of_Received started timeout_ns limit early
        (more {output} {chunk} {body} {read} {reads} r later) =
      let known = with_deadline-InTime started timeout_ns limit early r in
      let fits : ltb max_broker_response_size (length output + length chunk) ≡ false =
        ground (arith, r.small) in
      rw (known, collect_broker_response)
        (if_false _ _ fits
          ∙ collect_broker_response_of_Received started timeout_ns limit early later)
