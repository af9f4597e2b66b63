-- ===== src/RateLimit/Window.antt =====
-- The sliding window of the rate limit.
use argus_mcp.Base.{
  ℕ, ◌+◌, ◌*◌, ◌≤◌, ◌<◌, ◌≡◌, inl, inr, refl, Bool, true, Option, none, some, List, [], ◌∷◌, ◌++◌,
  arith, leb, length, select, count, All, length-select, select-append, length-append,
  if◌then◌else◌, ◌∙◌, Bool-cases, append-All, sym, ap, subst,
}
use argus_mcp.RateLimit.{
  RateLimitsConfig, Entry, is_recent, prune_window, read, check_rate_limit, Checked, check_one,
  check_all,
}

-- No time is before an earlier one in the list, nor before `from`.
abbrev pub IsOrdered : ℕ → List ℕ → Type 0
IsOrdered from [] = Unit
IsOrdered from (t ∷ ts) = (from ≤ t) × IsOrdered t ts

pub select-select :
    (p q : ℕ → Bool) (xs : List ℕ)
    → ((x : ℕ) → p x ≡ true → q x ≡ true)
    → select p (select q xs) ≡ select p xs
select-select p q [] h = refl
select-select p q (x ∷ xs) h = ground (arith, h x, select-select p q xs h)

pub none_recent :
    (window now : ℕ) (xs : List ℕ)
    → All (λ x. x + window < now) xs
    → select (is_recent window now) xs ≡ []
none_recent window now [] h = refl
none_recent window now (x ∷ xs) h = ground (arith, none_recent window now xs h.1)

pub All-le : (n m : ℕ) (xs : List ℕ) → n ≤ m → All (λ x. x ≤ n) xs → All (λ x. x ≤ m) xs
All-le n m [] l h = tt
All-le n m (x ∷ xs) l h = (omega (arith, h.0), All-le n m xs l h.1)

pub All-old :
    (n window now : ℕ) (xs : List ℕ)
    → n + window < now
    → All (λ x. x ≤ n) xs
    → All (λ x. x + window < now) xs
All-old n window now [] l h = tt
All-old n window now (x ∷ xs) l h = (omega (arith, h.0), All-old n window now xs l h.1)

count-le :
    (p q : ℕ → Bool) (xs : List ℕ) → ((x : ℕ) → p x ≡ true → q x ≡ true) → count p xs ≤ count q xs
count-le p q [] h = omega arith
count-le p q (x ∷ xs) h = ground (arith, h x, count-le p q xs h)

now_recent : (window now : ℕ) → select (is_recent window now) (now ∷ []) ≡ now ∷ []
now_recent window now = ground arith

pub select-now :
    (window now : ℕ) (ts : List ℕ)
    → select (is_recent window now) (ts ++ now ∷ []) ≡ select (is_recent window now) ts ++ now ∷ []
select-now window now ts =
    select-append (is_recent window now) ts (now ∷ [])
    ∙ ap (λ xs. select (is_recent window now) ts ++ xs) (now_recent window now)

-- The last of these times, or `from`.
abbrev pub latest_of : ℕ → List ℕ → ℕ
latest_of from [] = from
latest_of from (t ∷ ts) = latest_of t ts

module _ (lost : ℕ → ℕ → Bool) (c : RateLimitsConfig) where
  -- The log is what the window holds of the accepted requests, as of the last check.
  abbrev Tracks : ℕ → Option Entry → List ℕ → Type 0
  Tracks last none accepted = accepted ≡ []
  Tracks last (some e) accepted =
      (e.written ≡ last)
      × (e.timestamps ≡ select (is_recent c.window_seconds last) accepted)
      × All (λ t. t ≤ last) accepted

  -- The cache keeps an entry for twice the window.
  abbrev pub Keeps : Type 0
  Keeps = (written now : ℕ) → lost written now ≡ true → written + 2 * c.window_seconds ≤ now

  read-Tracks :
      (last now : ℕ) (e : Option Entry) (accepted : List ℕ)
      → Keeps
      → 0 < c.window_seconds
      → last ≤ now
      → Tracks last e accepted
      → prune_window c.window_seconds now (read lost now e)
        ≡ select (is_recent c.window_seconds now) accepted
  unfolding prune_window
  read-Tracks last now none accepted k w l t = rw t refl
  read-Tracks last now (some e) accepted k w l t = elim (Bool-cases (lost e.written now)) [
    | inl b ↦ rw b (
        sym (
          none_recent c.window_seconds now accepted (
            All-old last c.window_seconds now accepted (omega (arith, k e.written now b, t.0))
              t.2)))
    | inr b ↦
        rw (b, t.1)
          (select-select (is_recent c.window_seconds now) (is_recent c.window_seconds last) accepted
            (λ x h. ground arith))
  ]

  abbrev Bounded : ℕ → Checked → Type 0
  Bounded last s =
      Tracks last s.entry s.accepted
      × (count (is_recent c.window_seconds last) s.accepted ≤ c.requests)

  checked : ℕ → List ℕ → Checked → Checked
  checked now timestamps s =
      if leb c.requests (length timestamps)
      then record {
        entry = some (record { written = now; timestamps = timestamps });
        accepted = s.accepted;
      }
      else record {
        entry = some (record { written = now; timestamps = timestamps ++ now ∷ [] });
        accepted = s.accepted ++ now ∷ [];
      }

  latest :
      (last : ℕ) (e : Option Entry) (accepted : List ℕ)
      → Tracks last e accepted
      → All (λ t. t ≤ last) accepted
  latest last none accepted t = rw t tt
  latest last (some e) accepted t = t.2

  check_one-checked :
      (last now : ℕ) (s : Checked)
      → Keeps
      → 0 < c.window_seconds
      → last ≤ now
      → Tracks last s.entry s.accepted
      → check_one lost c now s ≡ checked now (select (is_recent c.window_seconds now) s.accepted) s
  unfolding check_one check_rate_limit checked
  check_one-checked last now s k w l t =
      let kept : List ℕ = select (is_recent c.window_seconds now) s.accepted in
      elim (Bool-cases (leb c.requests (length kept))) [
        | inl b ↦ rw (read-Tracks last now s.entry s.accepted k w l t, b) refl
        | inr b ↦ rw (read-Tracks last now s.entry s.accepted k w l t, b) refl
      ]

  checked-Bounded :
      (last now : ℕ) (s : Checked)
      → last ≤ now
      → Bounded last s
      → Bounded now (checked now (select (is_recent c.window_seconds now) s.accepted) s)
  unfolding checked
  checked-Bounded last now s l (t, h) =
      let recent = is_recent c.window_seconds now in
      let older = All-le last now s.accepted l (latest last s.entry s.accepted t) in
      elim (Bool-cases (leb c.requests (length (select recent s.accepted)))) [
        | inl b ↦ rw b (
          (refl, refl, older),
          omega (
            arith,
            h,
            count-le (is_recent c.window_seconds now) (is_recent c.window_seconds last) s.accepted
                (λ x g. ground arith),
          ),
        )
        | inr b ↦
            let more = select-now c.window_seconds now s.accepted in
            rw b (
              (
                refl,
                sym more,
                append-All (λ t. t ≤ now) s.accepted (now ∷ []) (older, (omega arith, tt)),
              ),
              ground (
                arith,
                sym (length-select recent (s.accepted ++ now ∷ [])),
                ap length more,
                length-append (select recent s.accepted) (now ∷ []),
              ),
            )
      ]

  check_all-Bounded :
      Keeps
      → 0 < c.window_seconds
      → (times : List ℕ) (last : ℕ) (s : Checked) → IsOrdered last times
      → Bounded last s
      → Bounded (latest_of last times) (check_all lost c times s)
  unfolding check_all
  check_all-Bounded k w [] last s o b = b
  check_all-Bounded k w (now ∷ times) last s o b =
      check_all-Bounded k w times now (check_one lost c now s) o.1 (
        subst (Bounded now) (sym (check_one-checked last now s k w o.0 b.0))
          (checked-Bounded last now s o.0 b))

  -- Whatever the times of a client's requests, in order, no more requests than the limit are accepted
  -- within the window that ends at the latest of them; the window is positive, and the cache
  -- keeps each entry for at least twice the window.
  pub check_all-window :
      (times : List ℕ)
      → Keeps
      → 0 < c.window_seconds
      → IsOrdered 0 times
      → let s : Checked = check_all lost c times (record { entry = none; accepted = [] }) in
        count (is_recent c.window_seconds (latest_of 0 times)) s.accepted ≤ c.requests
  check_all-window times k w o =
      (check_all-Bounded k w times 0 (record { entry = none; accepted = [] }) o
        (refl, omega arith)).1
