-- ===== src/RateLimit.antt =====
-- argus_mcp/server/rate_limit.py: requests per client in a sliding window, and the lockout of clients
-- that fail to authenticate. The logs are cachetools' TTLCache: an entry is what was written and
-- when, and `lost written now` says whether the cache has dropped, by the time `now`, an entry
-- written at the time `written`.
pub mod Window
pub mod Isolation
pub mod Lockout
mod Tests
use argus_mcp.Base.{
  ℕ, zero, suc, ◌+◌, Bool, true, false, String, Option, none, some, List, [], ◌∷◌, ◌++◌, not, ◌&&◌,
  ◌||◌, leb, eqb, length, select, if◌then◌else◌, text_keys,
}
use argus_mcp.Base.Dict.{Dict, get, insert, remove}

pub record RateLimitsConfig : Type 0 where
  pub enabled : Bool
  pub requests : ℕ
  pub window_seconds : ℕ
  pub auth_lockout_threshold : ℕ
  pub auth_lockout_window_seconds : ℕ

pub record Entry : Type 0 where
  pub written : ℕ
  pub timestamps : List ℕ

-- `now` is at most `window` after the time: `ts >= now - window`.
abbrev pub is_recent : ℕ → ℕ → ℕ → Bool
is_recent window now ts = leb now (ts + window)

unfoldable pub prune_window : ℕ → ℕ → List ℕ → List ℕ
prune_window window now = select (is_recent window now)

-- `cache.get(ip, [])`
abbrev pub read : (ℕ → ℕ → Bool) → ℕ → Option Entry → List ℕ
read lost now none = []
read lost now (some e) = if lost e.written now then [] else e.timestamps

-- `_check_rate_limit`, on the entry of the client.
unfoldable pub check_rate_limit :
    (ℕ → ℕ → Bool) → RateLimitsConfig → ℕ → Option Entry → Bool × Entry
unfolding prune_window
check_rate_limit lost c now e =
    let timestamps = prune_window c.window_seconds now (read lost now e) in
    if leb c.requests (length timestamps)
    then (false, record { written = now; timestamps = timestamps })
    else (true, record { written = now; timestamps = timestamps ++ now ∷ [] })

pub record RateLimiter : Type 0 where
  pub request_log : Dict String Entry
  pub auth_failure_log : Dict String Entry
  -- The time at which each lockout was written.
  pub lockouts : Dict String ℕ

-- What the three caches have dropped.
pub record Losses : Type 0 where
  pub requests : ℕ → ℕ → Bool
  pub failures : ℕ → ℕ → Bool
  pub lockouts : ℕ → ℕ → Bool

abbrev pub present : (ℕ → ℕ → Bool) → ℕ → Option ℕ → Bool
present lost now none = false
present lost now (some written) = not (lost written now)

unfoldable pub is_locked_out : Losses → String → ℕ → RateLimiter → Bool
is_locked_out lost ip now r = present lost.lockouts now (get r.lockouts ip)

unfoldable pub record_auth_failure :
    Losses → RateLimitsConfig → String → ℕ → RateLimiter → RateLimiter
unfolding prune_window
record_auth_failure lost c ip now r =
    let timestamps : List ℕ =
      prune_window c.auth_lockout_window_seconds now
        (read lost.failures now (get r.auth_failure_log ip))
      ++ now ∷ [] in
    if leb c.auth_lockout_threshold (length timestamps)
    then record r {
      lockouts = insert r.lockouts ip now;
      auth_failure_log = remove r.auth_failure_log ip;
    }
    else record r {
      auth_failure_log =
          insert r.auth_failure_log ip (record { written = now; timestamps = timestamps });
    }

pub data Answer : Type 0 where
  locked_out rate_exceeded : Answer
  -- The application's answer, with the status of its start message if it sent one.
  answered : Option ℕ → Answer

abbrev pub is_auth_failure : Option ℕ → Bool
is_auth_failure none = false
is_auth_failure (some status) = eqb status 401 || eqb status 403

-- `__call__` for an HTTP request; `status` is what the application answers if it is called.
unfoldable pub call :
    Losses → RateLimitsConfig → String → ℕ → Option ℕ → RateLimiter → Answer × RateLimiter
unfolding is_locked_out check_rate_limit record_auth_failure
call lost c ip now status r =
    let (allowed, entry) = check_rate_limit lost.requests c now (get r.request_log ip) in
    let checked : RateLimiter = record r { request_log = insert r.request_log ip entry } in
    if not c.enabled
    then (answered status, r)
    else if is_locked_out lost ip now r
    then (locked_out, r)
    else if not allowed
    then (rate_exceeded, checked)
    else (
      answered status,
      if is_auth_failure status then record_auth_failure lost c ip now checked else checked,
    )

-- The checks of one client at these times; the times of the accepted requests are collected.
pub record Checked : Type 0 where
  pub entry : Option Entry
  pub accepted : List ℕ

unfoldable pub check_one : (ℕ → ℕ → Bool) → RateLimitsConfig → ℕ → Checked → Checked
unfolding check_rate_limit
check_one lost c now s =
    let (allowed, entry) = check_rate_limit lost c now s.entry in
    record { entry = some entry; accepted = if allowed then s.accepted ++ now ∷ [] else s.accepted }

unfoldable pub check_all : (ℕ → ℕ → Bool) → RateLimitsConfig → List ℕ → Checked → Checked
unfolding check_one
check_all lost c [] s = s
check_all lost c (now ∷ times) s = check_all lost c times (check_one lost c now s)
