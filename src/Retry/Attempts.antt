-- ===== src/Retry/Attempts.antt =====
-- Which attempt decides a request.
use argus_mcp.Base.{
  ℕ, zero, suc, ◌+◌, ◌≤◌, ◌<◌, ◌≡◌, refl, sym, Bool, true, false, ◌&&◌, leb, ltb, List, [], ◌∷◌,
  if◌then◌else◌, arith, ◌⊎◌, inl, inr, subst, All,
}
use argus_mcp.Retry.{
  Answer, status_code, transport_error, Outcome, response, non_retryable_error,
  retries_exhausted_error, http_error, Run, retryable_status_codes, is_in, ends, again, turn,
  attempts, execute,
}

-- The answers after which the request is made again, if any attempt is left.
abbrev pub is_retryable : Answer → Bool
is_retryable (transport_error e) = true
is_retryable (status_code s) = is_in s retryable_status_codes

-- What an answer comes to at the attempt that decides.
abbrev pub settled : ℕ → Answer → Outcome
settled attempt (transport_error e) = http_error e
settled attempt (status_code s) =
    if leb 200 s && ltb s 300
    then response s
    else if is_in s retryable_status_codes
    then retries_exhausted_error s attempt
    else non_retryable_error s

-- The numbers of the attempts from one on.
abbrev pub from : ℕ → ℕ → List ℕ
from zero i = []
from (suc k) i = i ∷ from k (i + 1)

turn-again :
    (m i last : ℕ) (a : Answer)
    → is_retryable a ≡ true
    → i ≤ m
    → (s : ℕ) × (turn m i last a ≡ again s)
unfolding turn is_in
turn-again m i last (transport_error e) h k = (last, ground (arith, k))
turn-again m i last (status_code s) h k = (s, ground (arith, h, k))

turn-ends :
    (m i last : ℕ) (a : Answer)
    → (is_retryable a ≡ false) ⊎ (m < i)
    → turn m i last a ≡ ends (settled i a)
unfolding turn is_in
turn-ends m i last (transport_error e) h = ground (arith, h)
turn-ends m i last (status_code s) h = ground (arith, h)

module _ (m : ℕ) (answers : ℕ → Answer) where
  abbrev pub Retried : ℕ → Type 0
  Retried i = is_retryable (answers i) ≡ true

  -- No further attempt is made after this one.
  abbrev pub Decides : ℕ → Type 0
  Decides i = (is_retryable (answers i) ≡ false) ⊎ (m < i)

  abbrev pub decided : ℕ → ℕ → Run
  decided k i = record {
    outcome = settled (i + k) (answers (i + k));
    requests = i + k;
    waits = from k i;
  }

  attempts-decided :
      (k n i last : ℕ)
      → k < n
      → i + k ≤ m + 1
      → All Retried (from k i)
      → Decides (i + k)
      → attempts m answers n i last ≡ decided k i
  unfolding attempts
  attempts-decided k zero i last h b r d = absurd (omega (arith, h))
  attempts-decided zero (suc n) i last h b r d =
      let e : i + 0 ≡ i = omega arith in
      let q = turn-ends m i last (answers i) (subst Decides e d) in rw (q, e) refl
  attempts-decided (suc k) (suc n) i last h b (r, rs) d =
      let e : (i + 1) + k ≡ i + suc k = omega arith in
      let a = turn-again m i last (answers i) r (omega (arith, b)) in
      let ih =
        attempts-decided k n (i + 1) a.0 (omega (arith, h)) (omega (arith, b)) rs
          (subst Decides (sym e) d) in
      rw (a.1, ih, e) refl

  Decision : ℕ → ℕ → Type 0
  Decision n i = (k : ℕ) × ((k ≤ n) × All Retried (from k i) × Decides (i + k))

  one_more :
      (n i : ℕ) (b : Bool) → is_retryable (answers i) ≡ b → Decision n (i + 1) → Decision (suc n) i
  unfolding Decision
  one_more n i false q d =
      let e : i ≡ i + 0 = omega arith in (0, (omega arith, tt, subst Decides e (inl q)))
  one_more n i true q (k, (b, rs, d)) =
      let e : (i + 1) + k ≡ i + suc k = omega arith in
      (suc k, (omega (arith, b), (q, rs), subst Decides e d))

  -- The first attempt from `i` on that decides, where `n` are left after it.
  first_decision : (n i : ℕ) → i + n ≡ m + 1 → Decision n i
  unfolding Decision
  first_decision zero i e = (0, (omega arith, tt, inr (omega (arith, e))))
  first_decision (suc n) i e =
      one_more n i (is_retryable (answers i)) refl (first_decision n (i + 1) (omega (arith, e)))

  -- Whatever the answers are, there is an attempt that decides, at most the number of retries after
  -- the first: all the attempts before it could be retried, and it cannot, or is the last that
  -- is allowed. The request is made up to that attempt and no further, after each of the attempts
  -- before it there is one wait, and its answer alone settles the outcome: a response, the error of
  -- a status that is not retried, or, at the last attempt, the error of that attempt with its number.
  pub execute-decided :
      (k : ℕ) × ((k ≤ m)
        × (All Retried (from k 1))
        × (Decides (1 + k))
        × (execute m answers ≡ decided k 1))
  unfolding execute Decision
  execute-decided =
      let (k, (b, rs, d)) = first_decision m 1 (omega arith) in
      (k, (b, rs, d, attempts-decided k (suc m) 1 0 (omega (arith, b)) (omega (arith, b)) rs d))
