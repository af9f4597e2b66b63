-- ===== src/Breaker/Reach.antt =====
-- What holds of every breaker that its callers can bring about, and what that makes the half-open
-- state do.
use argus_mcp.Base.{
  ℕ, zero, suc, ◌+◌, ◌≤◌, ◌<◌, String, ◌≡◌, ◌↔◌, true, List, [], ◌∷◌, arith, ltb, if◌then◌else◌,
}
use argus_mcp.Breaker.{
  CircuitState, CircuitBreaker, init, allows_request, record_failure, Event, step, run,
}

-- A closed circuit is below its threshold, and any other has reached it.
abbrev pub Counted : CircuitState → ℕ → ℕ → Type 0
Counted CircuitState.closed failures threshold = failures < threshold
Counted _ failures threshold = threshold ≤ failures

pub record IsSound (threshold cooldown : ℕ) (cb : CircuitBreaker) : Type 0 where
  pub threshold_eq : cb.failure_threshold ≡ threshold
  pub cooldown_eq : cb.cooldown_seconds ≡ cooldown
  pub positive : 0 < threshold
  pub counted : Counted cb.state cb.consecutive_failures threshold

module _ (threshold cooldown : ℕ) where
  step-IsSound :
      (cb : CircuitBreaker) (e : Event)
      → IsSound threshold cooldown cb
      → IsSound threshold cooldown (step cb e)
  unfolding step
  step-IsSound cb (Event.asks now) s = ground arith
  step-IsSound cb (Event.succeeds now) s = ground arith
  step-IsSound cb (Event.fails now) s = ground arith
  step-IsSound cb Event.resets s = ground arith

  pub run-IsSound :
      (cb : CircuitBreaker) (es : List Event)
      → IsSound threshold cooldown cb
      → IsSound threshold cooldown (run cb es)
  unfolding run
  run-IsSound cb [] s = s
  run-IsSound cb (e ∷ es) s = run-IsSound (step cb e) es (step-IsSound cb e s)

  pub init-IsSound :
      (name : String) → 0 < threshold → IsSound threshold cooldown (init name threshold cooldown)
  unfolding init
  init-IsSound name h = ground arith

  reopens :
      (cb : CircuitBreaker) (now later : ℕ)
      → IsSound threshold cooldown cb
      → cb.state ≡ CircuitState.half_open
      → let cb' = record_failure now cb in
        (cb'.state ≡ CircuitState.opened)
        × (((allows_request later cb').0 ≡ true) ↔ (now + cooldown ≤ later))
  unfolding record_failure allows_request
  reopens cb now later s e = ground arith

-- After any history of a breaker with a positive threshold, the threshold and the cooldown are those
-- it was made with, a closed circuit has fewer consecutive failures than the threshold, and an open
-- or half-open one has at least as many.
pub run-Counted :
    (name : String) (threshold cooldown : ℕ) (es : List Event)
    → 0 < threshold
    → let cb = run (init name threshold cooldown) es in
      (cb.failure_threshold ≡ threshold)
      × (cb.cooldown_seconds ≡ cooldown)
      × Counted cb.state cb.consecutive_failures threshold
run-Counted name threshold cooldown es h =
    let s =
      run-IsSound threshold cooldown (init name threshold cooldown) es
        (init-IsSound threshold cooldown name h) in
    (s.threshold_eq, s.cooldown_eq, s.counted)

-- If after some history of a breaker with a positive threshold the circuit is half-open, then one
-- failure opens it, and it lets a request through again exactly from a full cooldown after that
-- failure on.
pub half_open_fails :
    (name : String) (threshold cooldown now later : ℕ) (es : List Event)
    → 0 < threshold
    → (run (init name threshold cooldown) es).state ≡ CircuitState.half_open
    → let cb = record_failure now (run (init name threshold cooldown) es) in
      (cb.state ≡ CircuitState.opened)
      × (((allows_request later cb).0 ≡ true) ↔ (now + cooldown ≤ later))
half_open_fails name threshold cooldown now later es h e =
    reopens threshold cooldown _ now later
      (run-IsSound threshold cooldown (init name threshold cooldown) es
        (init-IsSound threshold cooldown name h))
      e

-- `n` failures at the times `at 0`, `at 1`, ….
pub failures : (ℕ → ℕ) → ℕ → List Event
failures at zero = []
failures at (suc n) = Event.fails (at 0) ∷ failures (λ i. at (suc i)) n

stays_open :
    (n : ℕ) (at : ℕ → ℕ) (cb : CircuitBreaker)
    → cb.state ≡ CircuitState.opened
    → (run cb (failures at n)).state ≡ CircuitState.opened
unfolding run failures step record_failure
stays_open zero at cb e = e
stays_open (suc n) at cb e =
    stays_open n (λ i. at (suc i)) (record_failure (at 0) cb) (ground arith)

counts :
    (n : ℕ) (at : ℕ → ℕ) (cb : CircuitBreaker)
    → cb.state ≡ CircuitState.closed
    → cb.consecutive_failures < cb.failure_threshold
    → (run cb (failures at n)).state ≡ (
        if ltb (cb.consecutive_failures + n) cb.failure_threshold
        then CircuitState.closed
        else CircuitState.opened)
unfolding run failures step record_failure
counts zero at cb e h = ground arith
counts (suc n) at cb e h = ground (
  arith,
  counts n (λ i. at (suc i)) (record_failure (at 0) cb),
  stays_open n (λ i. at (suc i)) (record_failure (at 0) cb),
)

-- A new breaker with a positive threshold is still closed after `n` failures in a row, at whatever
-- times, exactly if `n` is below the threshold, and is open otherwise.
pub trips :
    (name : String) (threshold cooldown n : ℕ) (at : ℕ → ℕ)
    → 0 < threshold
    → (run (init name threshold cooldown) (failures at n)).state
      ≡ (if ltb n threshold then CircuitState.closed else CircuitState.opened)
unfolding init
trips name threshold cooldown n at h = ground (arith, counts n at (init name threshold cooldown))
