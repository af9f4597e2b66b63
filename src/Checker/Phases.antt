-- ===== src/Checker/Phases.antt =====
-- What health checks do to the life cycle phase of a backend, and when they hide capabilities.
use argus_mcp.Base.{
  ℕ, ◌+◌, ◌≤◌, ◌<◌, ◌≡◌, ◌≢◌, ◌↔◌, ◌⊎◌, refl, Bool, true, false, String, Option, none, some, List,
  [], ◌∷◌, arith, any, leb, if◌then◌else◌, text_keys, eq_iff,
}
use argus_mcp.Base.Dict.{get, get-insert}
use argus_mcp.Breaker
use argus_mcp.Breaker.{CircuitState, CircuitBreaker}
use argus_mcp.Breaker.Reach.{IsSound}
use argus_mcp.Runtime.{
  BackendPhase, BackendStatusRecord, transition, add_condition, is_valid_backend_transition,
}
use argus_mcp.Checker.{
  HealthState, BackendHealth, Config, Round, answers, raises, Effect, hides, rediscovers, notifies,
  target_phase, sync_status_record, check_backend, checks, check, Board, probed, missing, or_fresh,
  put_status,
}

module _ (show_ms : ℕ → String) where
  -- A health check moves the phase of a record along the table of valid transitions, to the phase
  -- of the observed health, or not at all.
  pub sync-phase :
      (h : BackendHealth) (r : BackendStatusRecord ℕ)
      → let r' = sync_status_record show_ms h r in
        (r'.phase ≡ r.phase)
        ⊎ ((is_valid_backend_transition r.phase r'.phase ≡ true)
            × (target_phase h.state ≡ some r'.phase))
  unfolding sync_status_record transition add_condition
  sync-phase h r = ground arith

  sync-failed :
      (h : BackendHealth) (r : BackendStatusRecord ℕ)
      → r.phase ≡ BackendPhase.failed
      → (sync_status_record show_ms h r).phase ≡ BackendPhase.failed
  unfolding sync_status_record transition add_condition is_valid_backend_transition
  sync-failed h r e = ground arith

abbrev pub is_hiding : Effect → Bool
is_hiding (hides n) = true
is_hiding _ = false

abbrev pub IsFailed : Option (BackendStatusRecord ℕ) → Type 0
IsFailed none = ⊥
IsFailed (some r) = r.phase ≡ BackendPhase.failed

module _ (show_ms : ℕ → String) (c : Config) (name : String) where
  check-IsFailed :
      (r : Round) (h : BackendHealth) (s : Option (BackendStatusRecord ℕ))
      → IsFailed s
      → IsFailed (check_backend show_ms c name r h s).status
  unfolding check_backend
  check-IsFailed r h none f = absurd f
  check-IsFailed r h (some s) f = ground (
    arith,
    sync-failed show_ms
        (record (probed c r (record h { circuit = (Breaker.allows_request r.asked h.circuit).1 })) {
          last_check = r.checked;
        })
        s,
    sync-failed show_ms
        (record (missing r (record h { circuit = (Breaker.allows_request r.asked h.circuit).1 })) {
          last_check = r.checked;
        })
        s,
  )

  -- Whatever the rounds of a backend whose record is FAILED observe, its record stays FAILED.
  pub checks-IsFailed :
      (rs : List Round) (h : BackendHealth) (s : Option (BackendStatusRecord ℕ))
      → IsFailed s
      → IsFailed (checks show_ms c name rs h s).status
  unfolding checks
  checks-IsFailed [] h s f = f
  checks-IsFailed (r ∷ rs) h s f =
      checks-IsFailed rs (check_backend show_ms c name r h s).health
        (check_backend show_ms c name r h s).status (check-IsFailed r h s f)

  -- A quick answer of a backend that was UNHEALTHY, while its circuit lets the check through, makes
  -- it HEALTHY, closes the circuit and has its capabilities discovered again; and its record, FAILED
  -- since the backend became unhealthy, stays FAILED.
  pub recovery_keeps_failed :
      (r : Round) (ms : ℕ) (h : BackendHealth) (s : BackendStatusRecord ℕ)
      → h.state ≡ HealthState.unhealthy
      → s.phase ≡ BackendPhase.failed
      → (Breaker.allows_request r.asked h.circuit).0 ≡ true
      → r.session ≡ true
      → r.session_after ≡ true
      → r.probe ≡ answers ms
      → ms ≤ c.degraded_latency_ms
      → let res = check_backend show_ms c name r h (some s) in
        (res.health.state ≡ HealthState.healthy)
        × (res.health.circuit.state ≡ CircuitState.closed)
        × (res.effects
            ≡ rediscovers name ∷ notifies name HealthState.unhealthy HealthState.healthy ∷ [])
        × IsFailed res.status
  unfolding check_backend Breaker.record_success
  recovery_keeps_failed r ms h s u f allowed session after answer quick =
      (ground arith, ground arith, ground arith, check-IsFailed r h (some s) f)

  -- A check of a backend hides its capabilities exactly if the circuit let the check through, the
  -- backend had a session, and the probe left it UNHEALTHY; so a missing session makes a backend
  -- UNHEALTHY and hides nothing.
  pub hides_iff :
      (r : Round) (h : BackendHealth) (s : Option (BackendStatusRecord ℕ))
      → let res = check_backend show_ms c name r h s in
        (any is_hiding res.effects ≡ true) ↔ (
          ((Breaker.allows_request r.asked h.circuit).0 ≡ true)
          × (r.session ≡ true)
          × (res.health.state ≡ HealthState.unhealthy))
  unfolding check_backend
  hides_iff r h s = ground arith

  -- With a sound breaker and a cooldown that outlasts the reading of the clock, a failed probe of a
  -- backend whose circuit was let through leaves it UNHEALTHY, with its capabilities hidden, exactly
  -- if the failures in a row have reached the threshold, and DEGRADED otherwise.
  pub failed_probe :
      (r : Round) (text : String) (h : BackendHealth) (s : Option (BackendStatusRecord ℕ))
      → IsSound c.failure_threshold c.cooldown h.circuit
      → (Breaker.allows_request r.asked h.circuit).0 ≡ true
      → r.session ≡ true
      → r.probe ≡ raises text
      → r.reread < r.recorded + c.cooldown
      → let res = check_backend show_ms c name r h s in
        (res.health.state ≡ (
          if leb c.failure_threshold (h.circuit.consecutive_failures + 1)
          then HealthState.unhealthy
          else HealthState.degraded))
        × (any is_hiding res.effects ≡ leb c.failure_threshold (h.circuit.consecutive_failures + 1))
        × (res.health.circuit.consecutive_failures ≡ h.circuit.consecutive_failures + 1)
        × (res.health.last_error ≡ some text)
  unfolding check_backend Breaker.record_failure Breaker.allows_request
  failed_probe r text h s sound allowed session raised soon = ground arith

  -- A check of one backend leaves the health and the status record of every other one as they were.
  pub check_others :
      (r : Round) (b : Board) (other : String)
      → name ≢ other
      → let b' = (check show_ms c name r b).0 in
        (get b'.health other ≡ get b.health other) × (get b'.statuses other ≡ get b.statuses other)
  unfolding check
  check_others r b other h =
      let res =
        check_backend show_ms c name r (or_fresh c name (get b.health name))
          (get b.statuses name) in
      (
        rw (get-insert b.health name res.health other) (ground (arith, eq_iff name other)),
        kept res.status,
      )
    where
      kept :
          (s : Option (BackendStatusRecord ℕ))
          → get (put_status name s b.statuses) other ≡ get b.statuses other
      kept none = refl
      kept (some x) = rw (get-insert b.statuses name x other) (ground (arith, eq_iff name other))
