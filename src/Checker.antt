-- ===== src/Checker.antt =====
-- argus_mcp/bridge/health/checker.py: one check of one backend. What the check reads from outside is
-- the argument `Round`; the calls that it makes on the registry and on the callback are returned
-- as a list of effects. Latencies are whole milliseconds.
mod Phases
mod Tests
use Prim.Native.String.{◌++◌ as append}
use argus_mcp.Base.{
  ℕ, Bool, true, false, String, Option, none, some, List, [], ◌∷◌, ◌++◌, ltb, if◌then◌else◌,
  text_keys, ◌==◌, not,
}
use argus_mcp.Base.Dict.{Dict, get, insert}
use argus_mcp.Breaker
use argus_mcp.Breaker.{CircuitBreaker}
use argus_mcp.Runtime.{BackendPhase, BackendStatusRecord, transition, add_condition, value}

pub data HealthState : Type 0 where
  healthy degraded unhealthy unknown : HealthState

pub record BackendHealth : Type 0 where
  pub state : HealthState
  pub circuit : CircuitBreaker
  pub last_check : ℕ
  pub last_latency_ms : ℕ
  pub last_error : Option String

pub record Config : Type 0 where
  pub failure_threshold : ℕ
  pub cooldown : ℕ
  pub degraded_latency_ms : ℕ

-- What `list_tools` did within the probe timeout: it answered, or it raised this text.
pub data Probe : Type 0 where
  answers : ℕ → Probe
  raises : String → Probe

-- The readings of the clock, the sessions that the manager gives before and after the probe, and
-- the probe.
pub record Round : Type 0 where
  pub asked : ℕ
  pub recorded : ℕ
  pub reread : ℕ
  pub checked : ℕ
  pub session : Bool
  pub session_after : Bool
  pub probe : Probe

pub data Effect : Type 0 where
  hides : String → Effect
  rediscovers : String → Effect
  notifies : String → HealthState → HealthState → Effect

unfoldable pub fresh : Config → String → BackendHealth
fresh c name = record {
  state = HealthState.unknown;
  circuit = Breaker.init name c.failure_threshold c.cooldown;
  last_check = 0;
  last_latency_ms = 0;
  last_error = none;
}

abbrev pub same_state : HealthState → HealthState → Bool
same_state HealthState.healthy HealthState.healthy = true
same_state HealthState.degraded HealthState.degraded = true
same_state HealthState.unhealthy HealthState.unhealthy = true
same_state HealthState.unknown HealthState.unknown = true
same_state _ _ = false

abbrev pub same_phase : BackendPhase → BackendPhase → Bool
same_phase BackendPhase.pending BackendPhase.pending = true
same_phase BackendPhase.initializing BackendPhase.initializing = true
same_phase BackendPhase.retrying BackendPhase.retrying = true
same_phase BackendPhase.ready BackendPhase.ready = true
same_phase BackendPhase.degraded BackendPhase.degraded = true
same_phase BackendPhase.failed BackendPhase.failed = true
same_phase BackendPhase.shutting_down BackendPhase.shutting_down = true
same_phase _ _ = false

-- `phase_map`
unfoldable pub target_phase : HealthState → Option BackendPhase
target_phase HealthState.healthy = some BackendPhase.ready
target_phase HealthState.degraded = some BackendPhase.degraded
target_phase HealthState.unhealthy = some BackendPhase.failed
target_phase HealthState.unknown = none

-- `last_error or "Health check failed"`
abbrev error_text : Option String → String
error_text none = "Health check failed"
error_text (some e) = if e == "" then "Health check failed" else e

-- `show_ms` is the text of a latency with no decimals.
module _ (show_ms : ℕ → String) where
  pub message : BackendHealth → String
  message h = elim h.state [
    | HealthState.degraded ↦ append "High latency: " (append (show_ms h.last_latency_ms) "ms")
    | HealthState.unhealthy ↦ error_text h.last_error
    | _ ↦ append "Healthy (" (append (show_ms h.last_latency_ms) "ms)")
  ]

  abbrev skipped : BackendPhase → String → String
  skipped p m = append "Skipped transition to " (append (value p) (append ": " m))

  -- `_sync_status_record`, on the record that the manager has for the backend.
  unfoldable pub sync_status_record : BackendHealth → BackendStatusRecord ℕ → BackendStatusRecord ℕ
  unfolding target_phase
  sync_status_record h r = elim (target_phase h.state) [
    | none ↦ r
    | some p ↦ if same_phase p r.phase then r else elim (transition p (message h) r) [
      | some r' ↦ record r' { last_latency_ms = some h.last_latency_ms }
      | none ↦ add_condition "HealthCheck" "Warning" (skipped p (message h)) r
    ]
  ]

-- The probe and what it does to the health of the backend.
unfoldable pub probed : Config → Round → BackendHealth → BackendHealth
probed c r h = elim r.probe [
  | answers ms ↦ record h {
    state = if ltb c.degraded_latency_ms ms then HealthState.degraded else HealthState.healthy;
    circuit = Breaker.record_success r.recorded h.circuit;
    last_latency_ms = ms;
    last_error = none;
  }
  | raises text ↦
      let (allowed, cb) =
        Breaker.allows_request r.reread (Breaker.record_failure r.recorded h.circuit) in
      record h {
        state = if allowed then HealthState.degraded else HealthState.unhealthy;
        circuit = cb;
        last_error = some text;
      }
]

unfoldable pub missing : Round → BackendHealth → BackendHealth
missing r h = record h {
  state = HealthState.unhealthy;
  circuit = Breaker.record_failure r.recorded h.circuit;
  last_error = some "No active session";
}

-- `_hide_backend_capabilities` and `_restore_backend_capabilities`, the latter only with a session.
unfoldable pub visibility : String → Round → HealthState → HealthState → List Effect
visibility name r old HealthState.unhealthy = hides name ∷ []
visibility name r HealthState.unhealthy HealthState.healthy =
    if r.session_after then rediscovers name ∷ [] else []
visibility name r HealthState.unhealthy HealthState.degraded =
    if r.session_after then rediscovers name ∷ [] else []
visibility name r _ _ = []

unfoldable pub notify : String → HealthState → HealthState → List Effect
notify name old new = if same_state old new then [] else notifies name old new ∷ []

pub record Checked : Type 0 where
  pub health : BackendHealth
  pub status : Option (BackendStatusRecord ℕ)
  pub effects : List Effect

-- The records of the checker and of the manager, by backend name.
pub record Board : Type 0 where
  pub health : Dict String BackendHealth
  pub statuses : Dict String (BackendStatusRecord ℕ)

abbrev or_fresh : Config → String → Option BackendHealth → BackendHealth
or_fresh c name none = fresh c name
or_fresh c name (some h) = h

abbrev put_status :
    String
    → Option (BackendStatusRecord ℕ)
    → Dict String (BackendStatusRecord ℕ)
    → Dict String (BackendStatusRecord ℕ)
put_status name none d = d
put_status name (some r) d = insert d name r

-- `reset_backend`, of a backend that the checker knows.
unfoldable pub reset_backend : String → Board → Board
reset_backend name b = elim (get b.health name) [
  | none ↦ b
  | some h ↦ record b {
    health =
        insert b.health name
          (record h { state = HealthState.unknown; circuit = Breaker.reset h.circuit });
  }
]

module _ (show_ms : ℕ → String) (c : Config) where
  abbrev synced : BackendHealth → Option (BackendStatusRecord ℕ) → Option (BackendStatusRecord ℕ)
  synced h none = none
  synced h (some r) = some (sync_status_record show_ms h r)

  -- `_check` from the circuit's answer on.
  unfoldable pub check_backend :
      String → Round → BackendHealth → Option (BackendStatusRecord ℕ) → Checked
  unfolding probed missing visibility notify
  check_backend name r h status =
      let (allowed, cb) = Breaker.allows_request r.asked h.circuit in
      let h' : BackendHealth = record h { circuit = cb } in
      if not allowed
      then record { health = h'; status = status; effects = [] }
      else if r.session
      then (let new : BackendHealth = record (probed c r h') { last_check = r.checked } in
          record {
            health = new;
            status = synced new status;
            effects = visibility name r h.state new.state ++ notify name h.state new.state;
          })
      else (let new : BackendHealth = record (missing r h') { last_check = r.checked } in
          record {
            health = new;
            status = synced new status;
            effects = notify name h.state new.state;
          })

  -- `_check`: the health record is made at the first check, and both records are written back.
  unfoldable pub check : String → Round → Board → Board × List Effect
  check name r b =
      let res = check_backend name r (or_fresh c name (get b.health name)) (get b.statuses name) in
      (
        record b {
          health = insert b.health name res.health;
          statuses = put_status name res.status b.statuses;
        },
        res.effects,
      )

  -- The rounds of one backend, one after another.
  unfoldable pub checks :
      String → List Round → BackendHealth → Option (BackendStatusRecord ℕ) → Checked
  checks name [] h status = record { health = h; status = status; effects = [] }
  checks name (r ∷ rs) h status =
      let res = check_backend name r h status in
      let rest = checks name rs res.health res.status in
      record rest { effects = res.effects ++ rest.effects }
