-- ===== src/Retry.antt =====
-- argus_mcp/bridge/retry.py, class RetryManager: which attempts of a request are made, and what they
-- come to. The delays, which are floating point, are left out; the numbers of the attempts after
-- which it waits are kept.
pub mod Attempts
mod Tests
use argus_mcp.Base.{
  ℕ, zero, suc, ◌+◌, Bool, true, false, String, List, [], ◌∷◌, ◌&&◌, any, leb, ltb, eqb,
  if◌then◌else◌,
}

-- What `client.request` comes to: a status, or an `httpx.HTTPError`.
pub data Answer : Type 0 where
  status_code : ℕ → Answer
  transport_error : String → Answer

-- A response is returned; the rest is raised.
pub data Outcome : Type 0 where
  response : ℕ → Outcome
  non_retryable_error : ℕ → Outcome
  -- the last status and the number of attempts
  retries_exhausted_error : ℕ → ℕ → Outcome
  http_error : String → Outcome

pub record Run : Type 0 where
  pub outcome : Outcome
  pub requests : ℕ
  pub waits : List ℕ

-- `RETRYABLE_STATUS_CODES`
abbrev pub retryable_status_codes : List ℕ
retryable_status_codes = 408 ∷ 429 ∷ 502 ∷ 503 ∷ 504 ∷ []

-- `NON_RETRYABLE_STATUS_CODES`
abbrev pub non_retryable_status_codes : List ℕ
non_retryable_status_codes = 400 ∷ 401 ∷ 403 ∷ 404 ∷ []

unfoldable pub is_in : ℕ → List ℕ → Bool
is_in s codes = any (eqb s) codes

-- What one turn of the loop does: it ends the loop, or goes on with a last status, if any is new.
pub data Turn : Type 0 where
  ends : Outcome → Turn
  again : ℕ → Turn

unfoldable pub turn : ℕ → ℕ → ℕ → Answer → Turn
unfolding is_in
turn max_retries attempt last_status (transport_error e) =
    if ltb max_retries attempt then ends (http_error e) else again last_status
turn max_retries attempt last_status (status_code s) =
    if leb 200 s && ltb s 300
    then ends (response s)
    else if is_in s non_retryable_status_codes
    then ends (non_retryable_error s)
    else if is_in s retryable_status_codes
    then (if ltb max_retries attempt then ends (retries_exhausted_error s attempt) else again s)
    else ends (non_retryable_error s)

module _ (max_retries : ℕ) (answers : ℕ → Answer) where
  abbrev pub waited : ℕ → Run → Run
  waited attempt r = record r { waits = attempt ∷ r.waits }

  abbrev pub follow : (ℕ → Run) → ℕ → Turn → Run
  follow next attempt (ends o) = record { outcome = o; requests = attempt; waits = [] }
  follow next attempt (again last_status) = waited attempt (next last_status)

  -- The loop, from some attempt on, with a number of attempts that the range has left.
  unfoldable pub attempts : ℕ → ℕ → ℕ → Run
  unfolding turn
  attempts zero attempt last_status = record {
    outcome = retries_exhausted_error last_status (max_retries + 1);
    requests = max_retries + 1;
    waits = [];
  }
  attempts (suc left) attempt last_status =
      follow (attempts left (attempt + 1)) attempt
        (turn max_retries attempt last_status (answers attempt))

  -- `range(1, self._max_retries + 2)`
  unfoldable pub execute : Run
  unfolding attempts
  execute = attempts (suc max_retries) 1 0
