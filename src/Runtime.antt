-- ===== src/Runtime.antt =====
-- argus_mcp/runtime/models.py: the life cycle of the service and of a backend.
pub mod Service
pub mod Phases
mod Tests
use argus_mcp.Base.{
  Bool, true, false, String, ◌==◌, text_keys, Option, none, some, List, [], ◌∷◌, ◌++◌,
  if◌then◌else◌,
}

pub data ServiceState : Type 0 where
  pending starting running stopping stopped error : ServiceState

-- `target in _VALID_TRANSITIONS.get(current, frozenset())`
unfoldable pub is_valid_transition : ServiceState → ServiceState → Bool
is_valid_transition ServiceState.pending ServiceState.starting = true
is_valid_transition ServiceState.starting ServiceState.running = true
is_valid_transition ServiceState.starting ServiceState.error = true
is_valid_transition ServiceState.running ServiceState.stopping = true
is_valid_transition ServiceState.stopping ServiceState.stopped = true
is_valid_transition ServiceState.stopping ServiceState.error = true
is_valid_transition ServiceState.error ServiceState.starting = true
is_valid_transition ServiceState.error ServiceState.stopping = true
is_valid_transition _ _ = false

pub data BackendPhase : Type 0 where
  pending initializing retrying ready degraded failed shutting_down : BackendPhase

unfoldable pub is_valid_backend_transition : BackendPhase → BackendPhase → Bool
is_valid_backend_transition BackendPhase.pending BackendPhase.initializing = true
is_valid_backend_transition BackendPhase.initializing BackendPhase.ready = true
is_valid_backend_transition BackendPhase.initializing BackendPhase.failed = true
is_valid_backend_transition BackendPhase.retrying BackendPhase.initializing = true
is_valid_backend_transition BackendPhase.retrying BackendPhase.failed = true
is_valid_backend_transition BackendPhase.ready BackendPhase.degraded = true
is_valid_backend_transition BackendPhase.ready BackendPhase.failed = true
is_valid_backend_transition BackendPhase.ready BackendPhase.shutting_down = true
is_valid_backend_transition BackendPhase.degraded BackendPhase.ready = true
is_valid_backend_transition BackendPhase.degraded BackendPhase.failed = true
is_valid_backend_transition BackendPhase.degraded BackendPhase.shutting_down = true
is_valid_backend_transition BackendPhase.failed BackendPhase.initializing = true
is_valid_backend_transition BackendPhase.failed BackendPhase.retrying = true
is_valid_backend_transition BackendPhase.failed BackendPhase.shutting_down = true
is_valid_backend_transition _ _ = false

-- `new_phase.value`
pub value : BackendPhase → String
value BackendPhase.pending = "pending"
value BackendPhase.initializing = "initializing"
value BackendPhase.retrying = "retrying"
value BackendPhase.ready = "ready"
value BackendPhase.degraded = "degraded"
value BackendPhase.failed = "failed"
value BackendPhase.shutting_down = "shutting_down"

-- The time stamp is left out: nothing reads it back but a display.
pub record BackendCondition : Type 0 where
  pub type : String
  pub status : String
  pub message : String

pub record BackendStatusRecord {ℓ} (Latency : Type ℓ) : Type ℓ where
  pub phase : BackendPhase
  pub last_latency_ms : Option Latency
  pub error : Option String
  pub conditions : List BackendCondition

-- `ok_phases` and `warn_phases`
unfoldable pub status_of : BackendPhase → String
status_of BackendPhase.ready = "OK"
status_of BackendPhase.degraded = "Warning"
status_of BackendPhase.initializing = "Warning"
status_of BackendPhase.shutting_down = "Warning"
status_of _ = "Error"

-- The error that a transition leaves: a failure with a message sets it, READY clears it.
unfoldable pub error_after : BackendPhase → String → Option String → Option String
error_after BackendPhase.failed message old = if message == "" then old else some message
error_after BackendPhase.ready message old = none
error_after _ message old = old

module _ {ℓ} {Latency : Type ℓ} where
  unfoldable pub add_condition :
      String → String → String → BackendStatusRecord Latency → BackendStatusRecord Latency
  add_condition type status message r = record r {
    conditions = r.conditions ++ record { type = type; status = status; message = message } ∷ [];
  }

  -- `none` is the `ValueError` of an invalid transition, which leaves the record as it was.
  unfoldable pub transition :
      BackendPhase → String → BackendStatusRecord Latency → Option (BackendStatusRecord Latency)
  unfolding add_condition
  transition new_phase message r =
      if is_valid_backend_transition r.phase new_phase
      then some (
          add_condition (value new_phase) (status_of new_phase) message
            (record r { phase = new_phase; error = error_after new_phase message r.error }))
      else none

unfoldable pub is_operational {ℓ} : {Latency : Type ℓ} → BackendStatusRecord Latency → Bool
is_operational r = elim r.phase [
  | BackendPhase.ready ↦ true
  | BackendPhase.degraded ↦ true
  | _ ↦ false
]
