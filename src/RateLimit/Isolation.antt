-- ===== src/RateLimit/Isolation.antt =====
-- What a request of one client does to the others.
use argus_mcp.Base.{
  ℕ, ◌≡◌, ◌≢◌, inl, inr, refl, Bool, true, false, String, Option, [], ◌∷◌, ◌++◌, not, arith, leb,
  length, if◌then◌else◌, text_keys, ◌==◌, eq_iff, Bool-cases, ◌∙◌,
}
use argus_mcp.Base.Dict.{get, insert, get-insert, get-remove}
use argus_mcp.RateLimit.{
  RateLimitsConfig, Entry, RateLimiter, Losses, read, prune_window, is_locked_out,
  record_auth_failure, check_rate_limit, is_auth_failure, Answer, answered, call,
}

-- All that is kept of a client is the same.
pub record SameFor (ip : String) (r r' : RateLimiter) : Type 0 where
  pub requests : get r'.request_log ip ≡ get r.request_log ip
  pub failures : get r'.auth_failure_log ip ≡ get r.auth_failure_log ip
  pub lockouts : get r'.lockouts ip ≡ get r.lockouts ip

unchanged : (ip : String) (r : RateLimiter) → SameFor ip r r
unchanged ip r = record { requests = refl; failures = refl; lockouts = refl }

module _ (lost : Losses) (c : RateLimitsConfig) (ip other : String) (now : ℕ) where
  different : ip ≢ other → (ip == other) ≡ false
  different h = ground (arith, eq_iff ip other, h)

  record_auth_failure-SameFor :
      (r : RateLimiter) → ip ≢ other → SameFor other r (record_auth_failure lost c ip now r)
  unfolding record_auth_failure
  record_auth_failure-SameFor r h =
      elim (Bool-cases (
        leb c.auth_lockout_threshold (
          length (
            prune_window c.auth_lockout_window_seconds now
              (read lost.failures now (get r.auth_failure_log ip))
            ++ now ∷ [])))) [
              | inl b ↦ rw b (record {
                requests = refl;
                failures = rw (get-remove r.auth_failure_log ip other, different h) refl;
                lockouts = rw (get-insert r.lockouts ip now other, different h) refl;
              })
              | inr b ↦ rw b (record {
                requests = refl;
                failures = rw (get-insert r.auth_failure_log ip _ other, different h) refl;
                lockouts = refl;
              })
            ]

  -- A request of one client changes nothing of what is kept of another one.
  pub call-SameFor :
      (status : Option ℕ) (r : RateLimiter)
      → ip ≢ other
      → SameFor other r (call lost c ip now status r).1
  unfolding call
  call-SameFor status r h =
      go c.enabled (is_locked_out lost ip now r)
        (check_rate_limit lost.requests c now (get r.request_log ip)).0 (is_auth_failure status)
    where
      entry : Entry
      entry = (check_rate_limit lost.requests c now (get r.request_log ip)).1

      checked : RateLimiter
      checked = record r { request_log = insert r.request_log ip entry }

      counted : SameFor other r checked
      counted = record {
        requests = rw (get-insert r.request_log ip entry other, different h) refl;
        failures = refl;
        lockouts = refl;
      }

      go :
          (enabled locked allowed failure : Bool)
          → let out : Answer × RateLimiter =
              if not enabled
              then (answered status, r)
              else if locked
              then (Answer.locked_out, r)
              else if not allowed
              then (Answer.rate_exceeded, checked)
              else (
                answered status,
                if failure then record_auth_failure lost c ip now checked else checked,
              ) in
            SameFor other r out.1
      go false locked allowed failure = unchanged other r
      go true true allowed failure = unchanged other r
      go true false false failure = counted
      go true false true false = counted
      go true false true true =
          let v = record_auth_failure-SameFor checked h in
          record {
            requests = v.requests ∙ counted.requests;
            failures = v.failures ∙ counted.failures;
            lockouts = v.lockouts ∙ counted.lockouts;
          }
