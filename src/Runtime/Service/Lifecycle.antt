-- ===== src/Runtime/Service/Lifecycle.antt =====
-- Which changes of state the calls on a service can bring about, in any order.
use argus_mcp.Base.{true, ◌≡◌, ◌⊎◌, refl, some, List, [], ◌∷◌, arith, All}
use argus_mcp.Runtime.{ServiceState, is_valid_transition}
use argus_mcp.Runtime.Service.{
  Service, Raised, invalid_state_transition, raise, Event, starts, succeeds, stops, fails, cleaned,
  times_out, clean, runtime_error, failed, start_succeeds, start_fails, stop_begins, stop_ends,
  step, run,
}

-- A move that the code makes: none, one of the table, the forced one of `stop` in a service that is
-- still STARTING, or the forced one of `shutdown` to ERROR.
abbrev pub Moves : Event → ServiceState → ServiceState → Type 0
Moves (times_out text) s t = t ≡ ServiceState.error
Moves stops s t =
    (t ≡ s)
    ⊎ (is_valid_transition s t ≡ true)
    ⊎ ((s ≡ ServiceState.starting) × (t ≡ ServiceState.stopping))
Moves e s t = (t ≡ s) ⊎ (is_valid_transition s t ≡ true)

-- Every call moves the state along the table of valid transitions or leaves it, but for two forced
-- moves: `stop` takes STARTING to STOPPING, and a timed-out `shutdown` goes to ERROR.
pub step-Moves : (s : Service) (e : Event) → Moves e s.state (step s e).state
unfolding step
step-Moves s starts = ground arith
step-Moves s succeeds = ground arith
step-Moves s stops = ground arith
step-Moves s (fails exc) = ground arith
step-Moves s (cleaned clean) = ground arith
step-Moves s (cleaned runtime_error) = ground arith
step-Moves s (cleaned (failed text)) = ground arith
step-Moves s (times_out text) = refl

abbrev pub IsInTime : Event → Type 0
IsInTime (times_out text) = ⊥
IsInTime e = Unit

stays_stopped :
    (s : Service) (e : Event)
    → IsInTime e
    → s.state ≡ ServiceState.stopped
    → (step s e).state ≡ ServiceState.stopped
unfolding step
stays_stopped s starts h e = ground arith
stays_stopped s succeeds h e = ground arith
stays_stopped s stops h e = ground arith
stays_stopped s (fails exc) h e = ground arith
stays_stopped s (cleaned clean) h e = ground arith
stays_stopped s (cleaned runtime_error) h e = ground arith
stays_stopped s (cleaned (failed text)) h e = ground arith
stays_stopped s (times_out text) h e = absurd h

-- A service that is STOPPED stays STOPPED under every sequence of calls in which no `shutdown`
-- times out.
pub run-stopped :
    (s : Service) (es : List Event)
    → s.state ≡ ServiceState.stopped
    → All IsInTime es
    → (run s es).state ≡ ServiceState.stopped
unfolding run
run-stopped s [] e h = e
run-stopped s (x ∷ es) e h = run-stopped (step s x) es (stays_stopped s x h.0 e) h.1

-- An exception that `start` meets after its transition to RUNNING is replaced by the invalid
-- transition from RUNNING to ERROR, and the service stays RUNNING and ready, with the text of the
-- exception as its error.
pub late_failure :
    (s : Service) (exc : Raised)
    → s.state ≡ ServiceState.starting
    → start_fails exc (start_succeeds s).service
      ≡ raise
          (invalid_state_transition ServiceState.running ServiceState.error)
          (record s { state = ServiceState.running; error_message = some exc; ready = true })
unfolding start_fails start_succeeds
late_failure s exc e = ground arith

-- If `stop` begins while a start is under way and the start goes on to its end before the cleanup
-- does, then `stop` raises an invalid transition from ERROR to ERROR, and the service ends in ERROR
-- and not in STOPPED.
pub stop_during_start :
    (s : Service)
    → s.state ≡ ServiceState.starting
    → let o = stop_ends clean (start_succeeds (stop_begins s).outcome.service).service in
      (o.raised ≡ some (invalid_state_transition ServiceState.error ServiceState.error))
      × (o.service.state ≡ ServiceState.error)
unfolding stop_begins start_succeeds stop_ends
stop_during_start s e = ground arith
