-- ===== src/SessionPool/Capacity.antt =====
-- What `add` evicts: only idle entries, the least recently used first, and enough of them.
use argus_mcp.Base.{
  ℕ, zero, suc, ◌+◌, ◌≤◌, ◌<◌, ◌≡◌, ◌⊎◌, inl, inr, refl, Bool, true, false, List, [], ◌∷◌, ◌++◌,
  arith, ltb, leb, length, length-append, select, count, All, append-All, Bool-cases, if◌then◌else◌,
  ==_refl, remove_first, contains, count-remove_first, Comparable, ◌∙◌,
}
use argus_mcp.Base.Dict.{get-insert}
use argus_mcp.SessionPool.{
  PoolEntry, entries_compare, is_idle, oldest_of, Evicted, evict, SessionPool, entries_of, add,
}

abbrev IsIdleIn : List PoolEntry → PoolEntry → Type 0
IsIdleIn es e = (contains e es ≡ true) × (e.in_use ≡ false)

All-contains-cons :
    (x : PoolEntry) (es ys : List PoolEntry)
    → All (λ e. contains e ys ≡ true) es
    → All (λ e. contains e (x ∷ ys) ≡ true) es
All-contains-cons x [] ys h = tt
All-contains-cons x (e ∷ es) ys h = (ground arith, All-contains-cons x es ys h.1)

All-contains : (es : List PoolEntry) → All (λ e. contains e es ≡ true) es
All-contains [] = tt
All-contains (e ∷ es) = (ground (arith, ==_refl e), All-contains-cons e es es (All-contains es))

select-IsIdleIn :
    (ys es : List PoolEntry)
    → All (λ e. contains e ys ≡ true) es
    → All (IsIdleIn ys) (select is_idle es)
select-IsIdleIn ys [] h = tt
select-IsIdleIn ys (e ∷ es) h = ground (arith, select-IsIdleIn ys es h.1)

oldest_of-All {κ} :
    (P : PoolEntry → Type κ) (best : PoolEntry) (es : List PoolEntry)
    → P best
    → All P es
    → P (oldest_of best es)
unfolding oldest_of
oldest_of-All P best [] h hs = h
oldest_of-All P best (e ∷ es) h hs = elim (Bool-cases (ltb e.last_used best.last_used)) [
  | inl b ↦ rw b (oldest_of-All P e es hs.0 hs.1)
  | inr b ↦ rw b (oldest_of-All P best es h hs.1)
]

-- The choice was last used no later than any other.
oldest_of-le :
    (best : PoolEntry) (es : List PoolEntry)
    → ((oldest_of best es).last_used ≤ best.last_used)
      × All (λ e. (oldest_of best es).last_used ≤ e.last_used) es
unfolding oldest_of
oldest_of-le best [] = (omega arith, tt)
oldest_of-le best (e ∷ es) =
    let ih = oldest_of-le (if ltb e.last_used best.last_used then e else best) es in
    (ground (arith, ih.0), (ground (arith, ih.0), ih.1))

abbrev in_use : PoolEntry → Bool
in_use e = e.in_use

count_all : (es : List PoolEntry) → count (λ e. true) es ≡ length es
count_all [] = refl
count_all (e ∷ es) = omega (arith, count_all es)

length-remove_first :
    (x : PoolEntry) (es : List PoolEntry)
    → contains x es ≡ true
    → suc (length (remove_first x es)) ≡ length es
length-remove_first x es h =
    omega
      (arith, count-remove_first (λ e. true) x es h, count_all es, count_all (remove_first x es))

pub record Evicts (cap : ℕ) (es out : List PoolEntry) (r : Evicted) : Type 0 where
  pub fits : (length r.left < cap) ⊎ (select is_idle r.left ≡ [])
  pub kept : count in_use r.left ≡ count in_use es
  pub total : length r.left + length r.evicted ≡ length es + length out
  pub idle : All (λ e. e.in_use ≡ false) r.evicted

-- With as much fuel as there are entries the loop ends by its own test.
evict-Evicts :
    (fuel cap : ℕ) (es out : List PoolEntry)
    → length es ≤ fuel
    → 0 < cap
    → All (λ e. e.in_use ≡ false) out
    → Evicts cap es out (evict fuel cap es out)
unfolding evict
evict-Evicts zero cap [] out h pos idle = record {
  fits = inl pos;
  kept = refl;
  total = omega arith;
  idle = idle;
}
evict-Evicts zero cap (e ∷ es) out h pos idle = absurd (omega arith)
evict-Evicts (suc fuel) cap es out h pos idle = elim (Bool-cases (leb cap (length es))) [
  | inr b ↦
      rw (b, evict) (record { fits = inl (ground arith); kept = refl; total = refl; idle = idle })
  | inl b ↦
      rw (b, evict)
        (go
          (λ x m i.
            evict-Evicts fuel cap (remove_first x es) (out ++ x ∷ [])
              (omega (arith, length-remove_first x es m)) pos
              (append-All (λ e. e.in_use ≡ false) out (x ∷ []) (idle, (i, tt))))
          (select is_idle es) refl (select-IsIdleIn es es (All-contains es)))
]
  where
    next :
        (x : PoolEntry) (r : Evicted)
        → contains x es ≡ true
        → x.in_use ≡ false
        → Evicts cap (remove_first x es) (out ++ x ∷ []) r
        → Evicts cap es out r
    next x r m i v = record {
      fits = v.fits;
      kept = ground (arith, v.kept, count-remove_first in_use x es m);
      total = omega (arith, v.total, length-remove_first x es m, length-append {0} out (x ∷ []));
      idle = v.idle;
    }

    go :
        ((x : PoolEntry)
          → contains x es ≡ true
          → x.in_use ≡ false
          → Evicts cap
              (remove_first x es)
              (out ++ x ∷ [])
              (evict fuel cap (remove_first x es) (out ++ x ∷ [])))
        → (idles : List PoolEntry) → select is_idle es ≡ idles
        → All (IsIdleIn es) idles
        → Evicts cap es out (elim idles [
          | [] ↦ record { left = es; evicted = out }
          | e ∷ rest ↦
              evict fuel cap (remove_first (oldest_of e rest) es) (out ++ oldest_of e rest ∷ [])
        ])
    go rec [] e h = record { fits = inr e; kept = refl; total = refl; idle = idle }
    go rec (x ∷ xs) e h =
        let found = oldest_of-All (IsIdleIn es) x xs h.0 h.1 in
        next (oldest_of x xs) _ found.0 found.1 (rec (oldest_of x xs) found.0 found.1)

count-append :
    (es : List PoolEntry) (x : PoolEntry)
    → x.in_use ≡ false
    → count in_use (es ++ x ∷ []) ≡ count in_use es
count-append [] x h = ground arith
count-append (e ∷ es) x h = ground (arith, count-append es x h)

none_idle : (es : List PoolEntry) → select is_idle es ≡ [] → count in_use es ≡ length es
none_idle [] h = refl
none_idle (e ∷ es) h = ground (arith, none_idle es)

-- After `add` to a pool whose bound is positive, every evicted entry was idle, the entries in use are as many as before, no entry is lost, and the key
-- holds at most `per_key_max` entries unless all of the old ones that are left are in use.
pub add-bounds {ℓ} :
    {K : Type ℓ} ⦃c : Comparable K⦄ (p : SessionPool K) (key : K) (session now : ℕ)
    → 0 < p.per_key_max
    → let p' = (add key session now p).0 in
      let evicted = (add key session now p).1 in
      ((length (entries_of p' key) ≤ p.per_key_max)
        ⊎ (length (entries_of p' key) ≡ count in_use (entries_of p' key) + 1))
      × (count in_use (entries_of p' key) ≡ count in_use (entries_of p key))
      × (length (entries_of p' key) + length evicted ≡ length (entries_of p key) + 1)
      × All (λ e. e.in_use ≡ false) evicted
unfolding add
add-bounds p key session now pos =
    let es : List PoolEntry = entries_of p key in
    let entry : PoolEntry = record {
      session = session;
      created_at = now;
      last_used = now;
      in_use = false;
    } in
    let r : Evicted = evict (length es) p.per_key_max es [] in
    let v : Evicts p.per_key_max es [] r =
      evict-Evicts (length es) p.per_key_max es [] (omega arith) pos tt in
    rw (get-insert p.pool key (r.left ++ entry ∷ []) key, ==_refl key)
      (
        fits r.left v.fits,
        count-append r.left entry refl ∙ v.kept,
        omega (arith, v.total, length-append {0} r.left (entry ∷ [])),
        v.idle,
      )
  where
    fits :
        (left : List PoolEntry)
        → (length left < p.per_key_max) ⊎ (select is_idle left ≡ [])
        → let entry : PoolEntry = record {
          session = session;
          created_at = now;
          last_used = now;
          in_use = false;
        } in
          (length (left ++ entry ∷ []) ≤ p.per_key_max)
          ⊎ (length (left ++ entry ∷ []) ≡ count in_use (left ++ entry ∷ []) + 1)
    fits left (inl h) = inl (omega (arith, length-append {0} left (_ ∷ [])))
    fits left (inr h) =
        inr (
          omega
            (arith, length-append {0} left (_ ∷ []), none_idle left h, count-append left _ refl))
