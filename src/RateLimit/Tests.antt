-- ===== src/RateLimit/Tests.antt =====
-- Two requests in a window of ten seconds, with a limit of two.
use argus_mcp.Base.{ℕ, ◌+◌, ◌≤◌, ◌≡◌, refl, Bool, true, none, [], ◌∷◌, arith, leb, count, text_keys}
use argus_mcp.RateLimit.{
  RateLimitsConfig, RateLimiter, Losses, is_recent, prune_window, check_rate_limit, check_one,
  check_all, is_locked_out, record_auth_failure,
}
use argus_mcp.RateLimit.Window.{Keeps, check_all-window}
use argus_mcp.RateLimit.Lockout.{KeepsFailures, record_all, is_locked_out-record_all}

abbrev config : RateLimitsConfig
config = record {
  enabled = true;
  requests = 2;
  window_seconds = 10;
  auth_lockout_threshold = 1;
  auth_lockout_window_seconds = 60;
}

-- An entry is dropped when twice the window has passed.
abbrev lost : ℕ → ℕ → Bool
lost written now = leb (written + 20) now

keeps : Keeps lost config
keeps written now h = ground arith

third_refused :
    (check_all lost config (1 ∷ 2 ∷ 3 ∷ 12 ∷ []) (record { entry = none; accepted = [] })).accepted
    ≡ 1 ∷ 2 ∷ 12 ∷ []
unfolding check_all check_one check_rate_limit prune_window
third_refused = refl

check_all-window_example :
    count (is_recent 10 12) (
      (check_all lost config
        (1 ∷ 2 ∷ 3 ∷ 12 ∷ [])
        (record { entry = none; accepted = [] })).accepted)
    ≤ 2
check_all-window_example =
    check_all-window lost config (1 ∷ 2 ∷ 3 ∷ 12 ∷ []) keeps (omega arith)
      (omega arith, (omega arith, (omega arith, (omega arith, tt))))

abbrev losses : Losses
losses = record { requests = lost; failures = lost; lockouts = lost }

abbrev empty : RateLimiter
empty = record { request_log = []; auth_failure_log = []; lockouts = [] }

-- With a threshold of two.
abbrev strict : RateLimitsConfig
strict = record config { auth_lockout_threshold = 2 }

-- A log of failures is dropped when the window of the lockouts has passed.
abbrev failures_lost : ℕ → ℕ → Bool
failures_lost written now = leb (written + 60) now

abbrev strict_losses : Losses
strict_losses = record losses { failures = failures_lost }

strict_keeps : KeepsFailures strict_losses strict "1.2.3.4"
strict_keeps written now h = ground arith

-- The failure at 5 is out of the window at 70, the one at 66 is in it.
is_locked_out-record_all_example :
    is_locked_out strict_losses "1.2.3.4" 70 (
      record_auth_failure strict_losses strict "1.2.3.4" 70
        (record_all strict_losses strict "1.2.3.4" (5 ∷ 66 ∷ []) empty))
    ≡ leb 2 (count (is_recent 60 70) (5 ∷ 66 ∷ 70 ∷ []))
is_locked_out-record_all_example =
    is_locked_out-record_all strict_losses strict "1.2.3.4" (5 ∷ 66 ∷ []) 70 [] strict_keeps refl
      (tt, ((omega arith, omega arith), ((omega arith, omega arith), tt))) refl
