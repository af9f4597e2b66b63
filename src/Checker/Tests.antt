-- ===== src/Checker/Tests.antt =====
-- Health checks on concrete rounds.
use argus_mcp.Base.{ℕ, String, ◌≢◌, refl, true, false, some, none, [], arith, eq_iff, text_keys}
use argus_mcp.Base.Dict.{insert}
use argus_mcp.Breaker
use argus_mcp.Runtime.{BackendPhase, BackendStatusRecord}
use argus_mcp.Checker.{HealthState, BackendHealth, Config, Round, answers, Board, check_backend}
use argus_mcp.Checker.Phases.{recovery_keeps_failed, IsFailed}

abbrev show_ms : ℕ → String
show_ms n = "0"

abbrev config : Config
config = record { failure_threshold = 3; cooldown = 60; degraded_latency_ms = 5000 }

abbrev round : Round
round = record {
  asked = 100;
  recorded = 101;
  reread = 101;
  checked = 102;
  session = true;
  session_after = true;
  probe = answers 20;
}

abbrev sick : BackendHealth
sick = record {
  state = HealthState.unhealthy;
  circuit = record (Breaker.init "b" 3 60) {
    consecutive_failures = 3;
    state = Breaker.half_open;
    last_failure_time = 10;
  };
  last_check = 10;
  last_latency_ms = 0;
  last_error = some "refused";
}

abbrev failed_status : BackendStatusRecord ℕ
failed_status = record {
  phase = BackendPhase.failed;
  last_latency_ms = none;
  error = some "refused";
  conditions = [];
}

recovery_keeps_failed_example :
    IsFailed (check_backend show_ms config "b" round sick (some failed_status)).status
unfolding Breaker.init Breaker.allows_request
recovery_keeps_failed_example =
    (recovery_keeps_failed show_ms config "b" round 20 sick failed_status refl refl refl refl refl
      refl (omega arith)).3

abbrev lost : Round
lost = record round { session = false }

abbrev board : Board
board = record { health = insert [] "a" sick; statuses = [] }

a_ne_b : ◌≢◌ {A = String} "b" "a"
a_ne_b = ground (arith, eq_iff "b" "a")
