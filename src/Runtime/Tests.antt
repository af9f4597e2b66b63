-- ===== src/Runtime/Tests.antt =====
-- The life cycles at concrete states.
use argus_mcp.Base.{String, true, false, ◌≡◌, refl, none, some, List, [], ◌∷◌, ℕ}
use argus_mcp.Runtime.{ServiceState, BackendPhase, BackendStatusRecord}
use argus_mcp.Runtime.Service
use argus_mcp.Runtime.Service.{
  Service, Raised, other, invalid_state_transition, Event, starts, stops, succeeds, cleaned,
  runtime_error, raise, start_fails, start_succeeds, stop_begins, stop_ends, clean, run, step,
  start_begins,
}
use argus_mcp.Runtime.Service.Lifecycle.{late_failure, stop_during_start}

abbrev stopped : Service
stopped = record { state = ServiceState.stopped; error_message = none; ready = false }

abbrev starting : Service
starting = (start_begins Service.init).service

late_failure_example :
    start_fails (other "watcher") (start_succeeds starting).service
    ≡ raise (invalid_state_transition ServiceState.running ServiceState.error) (record starting {
      state = ServiceState.running;
      error_message = some (other "watcher");
      ready = true;
    })
unfolding start_begins
late_failure_example = late_failure starting (other "watcher") refl

stop_during_start_example :
    (stop_ends clean (start_succeeds (stop_begins starting).outcome.service).service).service.state
    ≡ ServiceState.error
unfolding start_begins
stop_during_start_example = (stop_during_start starting refl).1

abbrev fresh : BackendStatusRecord ℕ
fresh = record {
  phase = BackendPhase.pending;
  last_latency_ms = none;
  error = none;
  conditions = [];
}

abbrev recovers : List (BackendPhase × String)
recovers =
    (BackendPhase.initializing, "")
    ∷ (BackendPhase.failed, "refused")
    ∷ (BackendPhase.initializing, "again")
    ∷ (BackendPhase.ready, "")
    ∷ []

abbrev leaving : BackendStatusRecord ℕ
leaving = record fresh { phase = BackendPhase.shutting_down }
