-- ===== src/RateLimit/Lockout.antt =====
-- When the failures of a client lead to a lockout.
use argus_mcp.Base.{
  ℕ, ◌+◌, ◌≤◌, ◌≡◌, ◌≢◌, inl, inr, refl, Bool, true, false, String, Option, none, some, List, [],
  ◌∷◌, ◌++◌, arith, leb, length, select, count, All, length-select, text_keys, ==_refl, Bool-cases,
  ◌∙◌, ◌||◌, append-All, sym, ap,
}
use mathlib.Core.List.{append_assoc}
use argus_mcp.Base.Dict.{Dict, get, get-insert}
use argus_mcp.RateLimit.{
  RateLimitsConfig, Entry, RateLimiter, Losses, is_recent, prune_window, read, is_locked_out,
  record_auth_failure,
}
use argus_mcp.RateLimit.Window.{All-le, All-old, none_recent, select-select, select-now}

abbrev entry_at : ℕ → List ℕ → Entry
entry_at now timestamps = record { written = now; timestamps = timestamps }

module _ (lost : Losses) (c : RateLimitsConfig) (ip : String) where
  -- The failures of a client at these times, one after the other.
  abbrev pub record_all : List ℕ → RateLimiter → RateLimiter
  record_all [] r = r
  record_all (t ∷ ts) r = record_all ts (record_auth_failure lost c ip t r)

  -- At `now`, the times hold as many failures in the window as the threshold has.
  abbrev pub is_reached : ℕ → List ℕ → Bool
  is_reached now times =
      leb c.auth_lockout_threshold (count (is_recent c.auth_lockout_window_seconds now) times)

  -- The threshold is reached at one of the times, with the failures before them.
  abbrev pub reaches : List ℕ → List ℕ → Bool
  reaches before [] = false
  reaches before (t ∷ ts) = is_reached t (before ++ t ∷ []) || reaches (before ++ t ∷ []) ts

  -- The cache of failures does not drop an entry before the window has passed.
  abbrev pub KeepsFailures : Type 0
  KeepsFailures =
      (written now : ℕ)
      → lost.failures written now ≡ true
      → written + c.auth_lockout_window_seconds ≤ now

  -- A failure is not before the last one, nor exactly a window after it.
  abbrev pub Follows : Option ℕ → ℕ → Type 0
  Follows none t = Unit
  Follows (some last) t = (last ≤ t) × (last + c.auth_lockout_window_seconds ≢ t)

  abbrev pub IsHistory : Option ℕ → List ℕ → Type 0
  IsHistory last [] = Unit
  IsHistory last (t ∷ ts) = Follows last t × IsHistory (some t) ts

  -- Nothing has led to a lockout, and the log has the failures that are in the window of the last.
  Counts : Option ℕ → RateLimiter → List ℕ → Type 0
  Counts none r failures =
      (get r.auth_failure_log ip ≡ none) × (failures ≡ []) × (get r.lockouts ip ≡ none)
  Counts (some last) r failures =
      (get r.auth_failure_log ip
        ≡ some (record {
          written = last;
          timestamps = select (is_recent c.auth_lockout_window_seconds last) failures;
        }))
      × All (λ t. t ≤ last) failures
      × (get r.lockouts ip ≡ none)

  no_lockout :
      (last : Option ℕ) (r : RateLimiter) (failures : List ℕ)
      → Counts last r failures
      → get r.lockouts ip ≡ none
  unfolding Counts
  no_lockout none r failures h = h.2
  no_lockout (some last) r failures h = h.2

  all_before :
      (last : Option ℕ) (now : ℕ) (r : RateLimiter) (failures : List ℕ)
      → Follows last now
      → Counts last r failures
      → All (λ t. t ≤ now) failures
  unfolding Counts
  all_before none now r failures f h = rw h.1 tt
  all_before (some last) now r failures f h = All-le last now failures f.0 h.1

  kept :
      (last : Option ℕ) (now : ℕ) (r : RateLimiter) (failures : List ℕ)
      → KeepsFailures
      → Follows last now
      → Counts last r failures
      → prune_window c.auth_lockout_window_seconds now
          (read lost.failures now (get r.auth_failure_log ip))
        ≡ select (is_recent c.auth_lockout_window_seconds now) failures
  unfolding prune_window Counts
  kept none now r failures k f h = rw (h.0, h.1) refl
  kept (some last) now r failures k f h = elim (Bool-cases (lost.failures last now)) [
    | inl b ↦
        rw (h.0, b)
          (sym (
            none_recent c.auth_lockout_window_seconds now failures (
              All-old last c.auth_lockout_window_seconds now failures
                (omega (arith, k last now b, f.1)) h.1)))
    | inr b ↦
        rw (h.0, b)
          (select-select (is_recent c.auth_lockout_window_seconds now)
            (is_recent c.auth_lockout_window_seconds last) failures (λ x g. ground (arith, f.0)))
  ]

  log_of : ℕ → RateLimiter → List ℕ
  log_of now r =
      prune_window c.auth_lockout_window_seconds now
        (read lost.failures now (get r.auth_failure_log ip))
      ++ now ∷ []

  log_of-select :
      (last : Option ℕ) (now : ℕ) (r : RateLimiter) (failures : List ℕ)
      → KeepsFailures
      → Follows last now
      → Counts last r failures
      → log_of now r ≡ select (is_recent c.auth_lockout_window_seconds now) (failures ++ now ∷ [])
  unfolding log_of
  log_of-select last now r failures k f h =
      ap (λ xs. xs ++ now ∷ []) (kept last now r failures k f h)
      ∙ sym (select-now c.auth_lockout_window_seconds now failures)

  reached-log :
      (last : Option ℕ) (now : ℕ) (r : RateLimiter) (failures : List ℕ)
      → KeepsFailures
      → Follows last now
      → Counts last r failures
      → leb c.auth_lockout_threshold (length (log_of now r)) ≡ is_reached now (failures ++ now ∷ [])
  reached-log last now r failures k f h = ap (leb c.auth_lockout_threshold) (
      ap length (log_of-select last now r failures k f h)
      ∙ length-select (is_recent c.auth_lockout_window_seconds now) (failures ++ now ∷ []))

  record-Counts :
      (last : Option ℕ) (now : ℕ) (r : RateLimiter) (failures : List ℕ)
      → KeepsFailures
      → Follows last now
      → Counts last r failures
      → is_reached now (failures ++ now ∷ []) ≡ false
      → Counts (some now) (record_auth_failure lost c ip now r) (failures ++ now ∷ [])
  unfolding record_auth_failure Counts log_of
  record-Counts last now r failures k f h q =
      let b = reached-log last now r failures k f h ∙ q in
      let log = log_of-select last now r failures k f h in
      let older = all_before last now r failures f h in
      let free = no_lockout last r failures h in
      rw b (
        get-insert r.auth_failure_log ip _ ip
            ∙ rw (==_refl ip) (ap (λ ts. some (entry_at now ts)) log),
        append-All (λ x. x ≤ now) failures (now ∷ []) (older, (omega arith, tt)),
        free,
      )

  locked_by :
      (last : Option ℕ) (now : ℕ) (r : RateLimiter) (failures : List ℕ)
      → KeepsFailures
      → lost.lockouts now now ≡ false
      → Follows last now
      → Counts last r failures
      → is_locked_out lost ip now (record_auth_failure lost c ip now r)
        ≡ is_reached now (failures ++ now ∷ [])
  unfolding record_auth_failure is_locked_out log_of
  locked_by last now r failures k g f h =
      let b = reached-log last now r failures k f h in
      let free = no_lockout last r failures h in
      elim (Bool-cases (is_reached now (failures ++ now ∷ []))) [
        | inl q ↦ rw (b ∙ q, get-insert r.lockouts ip now ip, ==_refl ip, g, q) refl
        | inr q ↦ rw (b ∙ q, free, q) refl
      ]

  history-locked :
      (times before : List ℕ) (last : Option ℕ) (now : ℕ) (r : RateLimiter)
      → KeepsFailures
      → lost.lockouts now now ≡ false
      → IsHistory last (times ++ now ∷ [])
      → Counts last r before
      → reaches before times ≡ false
      → is_locked_out lost ip now (record_auth_failure lost c ip now (record_all times r))
        ≡ is_reached now (before ++ (times ++ now ∷ []))
  history-locked [] before last now r k g o t h = locked_by last now r before k g o.0 t
  history-locked (x ∷ xs) before last now r k g (o, os) t h =
      elim (Bool-cases (is_reached x (before ++ x ∷ []))) [
        | inl b ↦ absurd (let q = rw b at h in cc)
        | inr b ↦
            history-locked xs (before ++ x ∷ []) (some x) now (record_auth_failure lost c ip x r) k
              g os (record-Counts last x r before k o t b) (rw b at h)
            ∙ ap (is_reached now) (append_assoc before (x ∷ []) (xs ++ now ∷ []))
      ]

  -- Take the failures of a client, in order, with none of them reaching the threshold in its window.
  -- After one more failure the client is locked out exactly if, of all the failures, as many as the
  -- threshold lie in the window that ends with it. The cache of failures does not drop an entry
  -- before the window has passed, no failure comes exactly a window after the one before it, and the
  -- cache of lockouts has not dropped what is written at the time itself.
  pub is_locked_out-record_all :
      (times : List ℕ) (now : ℕ) (requests : Dict String Entry)
      → KeepsFailures
      → lost.lockouts now now ≡ false
      → IsHistory none (times ++ now ∷ [])
      → reaches [] times ≡ false
      → is_locked_out lost ip now (
          record_auth_failure lost c ip now (
            record_all times
              (record { request_log = requests; auth_failure_log = []; lockouts = [] })))
        ≡ leb c.auth_lockout_threshold
            (count (is_recent c.auth_lockout_window_seconds now) (times ++ now ∷ []))
  unfolding Counts get
  is_locked_out-record_all times now requests k g o h =
      history-locked times [] none now _ k g o (refl, refl, refl) h
