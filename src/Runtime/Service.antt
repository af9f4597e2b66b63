-- ===== src/Runtime/Service.antt =====
-- argus_mcp/runtime/service.py: `_transition`, and the changes of state that `start`, `stop` and
-- `shutdown` make, each cut at the awaits where the other calls may run.
pub mod Lifecycle
use argus_mcp.Base.{
  Bool, true, false, String, ◌≡◌, ◌≢◌, ◌⊎◌, inl, inr, Option, none, some, List, [], ◌∷◌, arith,
  if◌then◌else◌,
}
use argus_mcp.Runtime.{ServiceState, is_valid_transition}

-- `_InvalidStateTransition`, or another exception with its text.
pub data Raised : Type 0 where
  invalid_state_transition : ServiceState → ServiceState → Raised
  other : String → Raised

-- `error_message` holds the exception whose text the field shows.
pub record Service : Type 0 where
  pub state : ServiceState
  pub error_message : Option Raised
  pub ready : Bool

abbrev pub init : Service
init = record { state = ServiceState.pending; error_message = none; ready = false }

-- What a method raised, if it did, and the service that it leaves.
pub record Outcome : Type 0 where
  pub raised : Option Raised
  pub service : Service

abbrev pub done : Service → Outcome
done s = record { raised = none; service = s }

abbrev pub raise : Raised → Service → Outcome
raise r s = record { raised = some r; service = s }

-- The statements after a call run only if it raised nothing.
abbrev pub and_then : Outcome → (Service → Outcome) → Outcome
and_then o k = elim o.raised [ none ↦ k o.service | some r ↦ o ]

-- `except` runs on what a `try` block raised.
abbrev pub catch : Outcome → (Raised → Service → Outcome) → Outcome
catch o k = elim o.raised [ none ↦ o | some r ↦ k r o.service ]

unfoldable pub transition_to : ServiceState → Service → Outcome
unfolding is_valid_transition
transition_to target s =
    if is_valid_transition s.state target
    then done (record s { state = target })
    else raise (invalid_state_transition s.state target) s

-- `start`, up to the body that loads the configuration and connects the backends.
unfoldable pub start_begins : Service → Outcome
unfolding transition_to
start_begins s =
    and_then (transition_to ServiceState.starting s) λ s'. done (record s' { error_message = none })

-- The `except` block of `start`, which an exception anywhere in its body reaches.
unfoldable pub start_fails : Raised → Service → Outcome
unfolding transition_to
start_fails exc s =
    and_then (transition_to ServiceState.error (record s { error_message = some exc }))
      λ s'. raise exc (record s' { ready = false })

-- The transition to RUNNING stands in the `try` block, so `except` sees it fail.
unfoldable pub start_succeeds : Service → Outcome
unfolding start_fails
start_succeeds s =
    catch (and_then (transition_to ServiceState.running s) λ s'. done (record s' { ready = true }))
      start_fails

-- `stop`, up to its `try` block; `true` where it goes on to that block.
pub record Stopping : Type 0 where
  pub outcome : Outcome
  pub proceeds : Bool

unfoldable pub stop_begins : Service → Stopping
unfolding transition_to
stop_begins s = elim s.state [
  | ServiceState.running ↦ record {
    outcome = transition_to ServiceState.stopping s;
    proceeds = true;
  }
  | ServiceState.error ↦ record { outcome = transition_to ServiceState.stopping s; proceeds = true }
  | ServiceState.starting ↦ record {
    outcome = transition_to ServiceState.stopping (record s { state = ServiceState.error });
    proceeds = true;
  }
  | _ ↦ record { outcome = done s; proceeds = false }
]

-- How the cleanup of the backends ended.
pub data Cleanup : Type 0 where
  clean : Cleanup
  runtime_error : Cleanup
  failed : String → Cleanup

-- `except Exception` of `stop`.
unfoldable pub stop_fails : Raised → Service → Outcome
unfolding transition_to
stop_fails exc s = transition_to ServiceState.error (record s { error_message = some exc })

-- The `try` block of `stop` after its awaits, with its handlers.
unfoldable pub stop_handles : Cleanup → Service → Outcome
unfolding stop_fails
stop_handles clean s = catch (transition_to ServiceState.stopped s) stop_fails
stop_handles runtime_error s = transition_to ServiceState.stopped s
stop_handles (failed text) s = stop_fails (other text) s

-- `finally` runs whatever was raised.
unfoldable pub stop_ends : Cleanup → Service → Outcome
unfolding stop_handles
stop_ends c s =
    let o = stop_handles c s in record o { service = record (o.service) { ready = false } }

-- `shutdown` after its wait timed out: the cancelled `stop` runs `finally`, and ERROR is forced.
unfoldable pub shutdown_times_out : String → Service → Outcome
shutdown_times_out text s =
    done (record s { state = ServiceState.error; error_message = some (other text); ready = false })

-- The changes that concurrent calls make, in the order in which they fall.
pub data Event : Type 0 where
  starts succeeds stops : Event
  fails : Raised → Event
  cleaned : Cleanup → Event
  times_out : String → Event

unfoldable pub step : Service → Event → Service
unfolding start_begins start_succeeds start_fails stop_begins stop_ends shutdown_times_out
step s starts = (start_begins s).service
step s succeeds = (start_succeeds s).service
step s stops = (stop_begins s).outcome.service
step s (fails exc) = (start_fails exc s).service
step s (cleaned c) = (stop_ends c s).service
step s (times_out text) = (shutdown_times_out text s).service

unfoldable pub run : Service → List Event → Service
run s [] = s
run s (e ∷ es) = run (step s e) es
