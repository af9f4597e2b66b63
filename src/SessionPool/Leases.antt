-- ===== src/SessionPool/Leases.antt =====
-- What `acquire` hands out, and what the reaper leaves.
use argus_mcp.Base.{
  ℕ, ◌+◌, ◌<◌, ◌≡◌, ◌≢◌, inl, inr, refl, Bool, true, false, Option, none, some, List, [], ◌∷◌, not,
  ◌&&◌, arith, eqb, length, select, count, any, Bool-cases, Option-cases, if◌then◌else◌, ◌==◌,
  ==_refl, Comparable, subst,
}
use argus_mcp.Base.Dict.{Dict, get, has, get-insert, IsUnique}
use argus_mcp.Breaker
use argus_mcp.SessionPool.{
  PoolEntry, is_idle, is_young, is_expired, lease, leased, SessionPool, entries_of, acquire,
  get_circuit_breaker, reap, reap_expired, unless_nil, or_none, put_breaker,
}

abbrev pub in_use : PoolEntry → Bool
in_use e = e.in_use

abbrev pub is_some {ℓ} : {A : Type ℓ} → Option A → Bool
is_some none = false
is_some (some x) = true

abbrev pub fit : ℕ → ℕ → PoolEntry → Bool
fit now ttl e = is_idle e && is_young now ttl e

module _ (now ttl : ℕ) where
  is_some-lease : (es : List PoolEntry) → is_some (lease now ttl es) ≡ any (fit now ttl) es
  unfolding lease
  is_some-lease [] = refl
  is_some-lease (e ∷ es) = ground (arith, is_some-lease es)

  pub record Leases (es : List PoolEntry) (e : PoolEntry) (es' : List PoolEntry) : Type 0 where
    pub marked : e.in_use ≡ true
    pub stamped : e.last_used ≡ now
    pub young : now < e.created_at + ttl
    pub active : count in_use es' ≡ count in_use es + 1
    pub total : length es' ≡ length es

  lease-Leases :
      (es : List PoolEntry) (e : PoolEntry) (es' : List PoolEntry)
      → lease now ttl es ≡ some (e, es')
      → Leases es e es'
  unfolding lease
  lease-Leases [] e es' h = cc
  lease-Leases (x ∷ xs) e es' h = elim (Bool-cases (fit now ttl x)) [
    | inl b ↦ ground arith
    | inr b ↦ elim (Option-cases (lease now ttl xs)) [
      | inl n ↦ ground arith
      | inr ((f, fs), s) ↦ let v = lease-Leases xs f fs s in ground (arith, v)
    ]
  ]

module _ {ℓ} {K : Type ℓ} ⦃c : Comparable K⦄ (p : SessionPool K) (key : K) (now : ℕ) where
  -- `acquire` hands out an entry exactly if the pool is not closed, the breaker of the key lets a
  -- request through, and the key has an idle entry that is younger than the time to live.
  pub acquire_when : is_some (acquire key now p).0 ≡ (
      not p.closed
      && ((Breaker.allows_request now (get_circuit_breaker p key)).0
          && any (fit now p.ttl) (entries_of p key)))
  unfolding acquire Breaker.allows_request
  acquire_when = elim (Option-cases (lease now p.ttl (entries_of p key))) [
    | inl e ↦ rw e (ground (arith, is_some-lease now p.ttl (entries_of p key)))
    | inr ((x, xs), e) ↦ rw e (ground (arith, is_some-lease now p.ttl (entries_of p key)))
  ]

  acquire-lease :
      (e : PoolEntry)
      → (acquire key now p).0 ≡ some e
      → (es : List PoolEntry) × (lease now p.ttl (entries_of p key) ≡ some (e, es))
        × (entries_of (acquire key now p).1 key ≡ es)
        × ((acquire key now p).1.ttl ≡ p.ttl)
  unfolding acquire
  acquire-lease e h =
      handed p.closed (Breaker.allows_request now (get_circuit_breaker p key)).0
        (lease now p.ttl (entries_of p key)) refl h
    where
      p' : SessionPool K
      p' = put_breaker key (Breaker.allows_request now (get_circuit_breaker p key)).1 p

      handed :
          (closed allowed : Bool) (m : Option (PoolEntry × List PoolEntry))
          → lease now p.ttl (entries_of p key) ≡ m
          → let r : Option PoolEntry × SessionPool K =
              if closed then (none, p) else if not allowed then (none, p') else leased key p' m in
            r.0 ≡ some e
            → (es : List PoolEntry) × (lease now p.ttl (entries_of p key) ≡ some (e, es))
              × (entries_of r.1 key ≡ es)
              × (r.1.ttl ≡ p.ttl)
      handed true allowed m q h = absurd (cc)
      handed false false m q h = absurd (cc)
      handed false true none q h = absurd (cc)
      handed false true (some (x, xs)) q h =
          (xs, ground arith, rw (get-insert p.pool key xs key, ==_refl key), refl)

  -- An entry that `acquire` hands out is marked as in use from now on and is younger than the time
  -- to live; the key then has one more entry in use, and as many entries as before.
  pub acquire-Leases :
      (e : PoolEntry)
      → (acquire key now p).0 ≡ some e
      → Leases now p.ttl (entries_of p key) e (entries_of (acquire key now p).1 key)
  acquire-Leases e h =
      let (es, q, left, ttl) = acquire-lease e h in
      rw left (lease-Leases now p.ttl (entries_of p key) e es q)

-- The sessions of a key, each once.
abbrev holds : ℕ → List PoolEntry → Bool
holds s = any (λ e. eqb e.session s)

abbrev pub IsDistinct : List PoolEntry → Type 0
IsDistinct [] = Unit
IsDistinct (e ∷ es) = (holds e.session es ≡ false) × IsDistinct es

lease-holds :
    (now ttl : ℕ) (es : List PoolEntry) (e : PoolEntry) (es' : List PoolEntry)
    → lease now ttl es ≡ some (e, es')
    → (holds e.session es ≡ true) × ((s : ℕ) → holds s es' ≡ holds s es)
unfolding lease
lease-holds now ttl [] e es' h = cc
lease-holds now ttl (x ∷ xs) e es' h = elim (Bool-cases (fit now ttl x)) [
  | inl b ↦ (ground arith, λ s. ground arith)
  | inr b ↦ elim (Option-cases (lease now ttl xs)) [
    | inl n ↦ ground arith
    | inr ((f, fs), q) ↦
        let v = lease-holds now ttl xs f fs q in (ground (arith, v.0), λ s. ground (arith, v.1 s))
  ]
]

-- Two leases in a row, the second at any later or earlier time, are of two sessions, if the entries
-- have distinct sessions.
lease_twice :
    (now later ttl : ℕ) (es : List PoolEntry) (e f : PoolEntry) (es' es'' : List PoolEntry)
    → IsDistinct es
    → lease now ttl es ≡ some (e, es')
    → lease later ttl es' ≡ some (f, es'')
    → e.session ≢ f.session
unfolding lease
lease_twice now later ttl [] e f es' es'' d h k same = cc
lease_twice now later ttl (x ∷ xs) e f es' es'' d h k same = elim (Bool-cases (fit now ttl x)) [
  | inl b ↦ elim (Option-cases (lease later ttl xs)) [
    | inl n ↦ ground arith
    | inr ((g, gs), q) ↦ ground (arith, (lease-holds later ttl xs g gs q).0)
  ]
  | inr b ↦ elim (Option-cases (lease now ttl xs)) [
    | inl n ↦ ground arith
    | inr ((g, gs), q) ↦ elim (Option-cases (lease later ttl gs)) [
      | inl n ↦ ground (arith, (lease-holds now ttl xs g gs q).0)
      | inr ((y, ys), r) ↦
          ground (
            arith,
            (lease-holds now ttl xs g gs q).0,
            lease_twice now later ttl xs g y gs ys d.1 q r,
          )
    ]
  ]
]

module _ {ℓ} {K : Type ℓ} ⦃c : Comparable K⦄ (p : SessionPool K) (key : K) (now later : ℕ) where
  -- Two calls of `acquire` for one key, one after the other and whatever the times, never hand out
  -- the same session, if the entries of the key are of distinct sessions.
  pub acquire_twice :
      (e f : PoolEntry)
      → IsDistinct (entries_of p key)
      → (acquire key now p).0 ≡ some e
      → (acquire key later (acquire key now p).1).0 ≡ some f
      → e.session ≢ f.session
  acquire_twice e f d h k =
      let (es, q, left, ttl) = acquire-lease p key now e h in
      let (fs, r, _, _) = acquire-lease (acquire key now p).1 key later f k in
      lease_twice now later p.ttl (entries_of p key) e f es fs d q (rw (left, ttl) at r)

nil_or : (es : List PoolEntry) → (if eqb (length es) 0 then [] else es) ≡ es
nil_or [] = refl
nil_or (e ∷ es) = ground arith

abbrev pub keeps : ℕ → ℕ → PoolEntry → Bool
keeps now ttl e = not (is_expired now ttl e)

module _ {ℓ} {K : Type ℓ} ⦃c : Comparable K⦄ where
  get-unless_nil :
      (k key : K) (es : List PoolEntry) (d : Dict K (List PoolEntry))
      → or_none (get (unless_nil k es d) key) ≡ (
          if k == key
          then (if eqb (length es) 0 then or_none (get d key) else es)
          else or_none (get d key))
  unfolding get
  get-unless_nil k key [] d = ground arith
  get-unless_nil k key (e ∷ es) d = ground arith

  get_absent : (d : Dict K (List PoolEntry)) (key : K) → has d key ≡ false → get d key ≡ none
  unfolding get has
  get_absent [] key h = refl
  get_absent ((k, es) ∷ d) key h = ground (arith, get_absent d key)

  get-reap :
      (now ttl : ℕ) (d : Dict K (List PoolEntry)) (key : K)
      → IsUnique d
      → or_none (get (reap now ttl d) key) ≡ select (keeps now ttl) (or_none (get d key))
  unfolding get reap
  get-reap now ttl [] key u = refl
  get-reap now ttl ((k, es) ∷ d) key u =
      let kept : List PoolEntry = select (keeps now ttl) es in
      elim (Bool-cases (k == key)) [
        | inr b ↦ rw (get-unless_nil k key kept (reap now ttl d), b) (get-reap now ttl d key u.1)
        | inl b ↦
            rw
              (
                get-unless_nil k key kept (reap now ttl d),
                b,
                get-reap now ttl d key u.1,
                get_absent d key (subst (λ j. has d j ≡ false) ((c.equals_iff k key).0 b) u.0),
              )
              (nil_or kept)
      ]

  -- In a pool where no key stands twice, the reaper leaves under each key exactly the entries that
  -- are in use or younger than the time to live, in their order.
  pub entries_of-reap_expired :
      (now : ℕ) (p : SessionPool K) (key : K)
      → IsUnique p.pool
      → entries_of (reap_expired now p) key ≡ select (keeps now p.ttl) (entries_of p key)
  unfolding reap_expired
  entries_of-reap_expired now p key u = get-reap now p.ttl p.pool key u
