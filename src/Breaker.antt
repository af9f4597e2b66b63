-- ===== src/Breaker.antt =====
-- argus_mcp/bridge/health/circuit_breaker.py: the circuit breaker of one backend. A reading of
-- `time.monotonic()` is the argument `now`, a number of ticks; a difference of two times compared
-- with a duration is written as a sum, which is the same test and never negative.
pub mod Reach
mod Tests
use argus_mcp.Base.{ℕ, ◌+◌, Bool, true, false, String, ◌&&◌, leb, if◌then◌else◌, List, [], ◌∷◌}

pub data CircuitState : Type 0 where
  closed opened half_open : CircuitState

pub record CircuitBreaker : Type 0 where
  pub name : String
  pub failure_threshold : ℕ
  pub cooldown_seconds : ℕ
  pub state : CircuitState
  pub consecutive_failures : ℕ
  pub last_failure_time : ℕ
  pub last_success_time : ℕ

unfoldable pub init : String → ℕ → ℕ → CircuitBreaker
init name threshold cooldown = record {
  name = name;
  failure_threshold = threshold;
  cooldown_seconds = cooldown;
  state = CircuitState.closed;
  consecutive_failures = 0;
  last_failure_time = 0;
  last_success_time = 0;
}

-- `elapsed >= self.cooldown_seconds`
abbrev pub cooled : ℕ → CircuitBreaker → Bool
cooled now cb = leb (cb.last_failure_time + cb.cooldown_seconds) now

-- The `state` property writes `_state` when an open circuit has cooled down.
unfoldable pub refresh : ℕ → CircuitBreaker → CircuitBreaker
refresh now cb = elim cb.state [
  | CircuitState.opened ↦ if cooled now cb then record cb { state = CircuitState.half_open } else cb
  | _ ↦ cb
]

abbrev pub passes : CircuitState → Bool
passes CircuitState.opened = false
passes _ = true

-- `allows_request` returns the breaker that it leaves beside its answer.
unfoldable pub allows_request : ℕ → CircuitBreaker → Bool × CircuitBreaker
unfolding refresh
allows_request now cb = let cb' = refresh now cb in (passes cb'.state, cb')

unfoldable pub record_success : ℕ → CircuitBreaker → CircuitBreaker
record_success now cb = record cb {
  state = CircuitState.closed;
  consecutive_failures = 0;
  last_success_time = now;
}

unfoldable pub record_failure : ℕ → CircuitBreaker → CircuitBreaker
record_failure now cb =
    let failures = cb.consecutive_failures + 1 in
    let counted : CircuitBreaker = record cb {
      consecutive_failures = failures;
      last_failure_time = now;
    } in
    if passes cb.state && leb cb.failure_threshold failures
    then record counted { state = CircuitState.opened }
    else counted

unfoldable pub reset : CircuitBreaker → CircuitBreaker
reset cb = record cb { state = CircuitState.closed; consecutive_failures = 0 }

-- What the callers of a breaker do to it, in the order in which they do it.
pub data Event : Type 0 where
  asks succeeds fails : ℕ → Event
  resets : Event

unfoldable pub step : CircuitBreaker → Event → CircuitBreaker
unfolding allows_request record_success record_failure reset
step cb (Event.asks now) = (allows_request now cb).1
step cb (Event.succeeds now) = record_success now cb
step cb (Event.fails now) = record_failure now cb
step cb Event.resets = reset cb

unfoldable pub run : CircuitBreaker → List Event → CircuitBreaker
run cb [] = cb
run cb (e ∷ es) = run (step cb e) es
