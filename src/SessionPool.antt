-- ===== src/SessionPool.antt =====
-- argus_mcp/bridge/session_pool.py: pooled client sessions by key, each key with its own circuit
-- breaker. A session is a number, times are in seconds, and one call reads the clock once. The calls that close a
-- session are returned as a list.
pub mod Capacity
pub mod Leases
mod Tests
use argus_mcp.Base.{
  ℕ, zero, suc, ◌+◌, ◌≡◌, ◌↔◌, ◌⊎◌, inl, inr, refl, Bool, true, false, String, Option, none, some,
  List, [], ◌∷◌, ◌++◌, map, not, ◌&&◌, arith, ltb, leb, eqb, length, select, count, if◌then◌else◌,
  Comparable, ◌==◌, remove_first, contains, max,
}
use argus_mcp.Base.Dict.{Dict, get, insert, remove}
use argus_mcp.Breaker
use argus_mcp.Breaker.{CircuitBreaker}

pub record PoolEntry : Type 0 where
  pub session : ℕ
  pub created_at : ℕ
  pub last_used : ℕ
  pub in_use : Bool

-- The dataclass compares all fields.
abbrev pub same_entry : PoolEntry → PoolEntry → Bool
same_entry a b =
    eqb a.session b.session
    && (eqb a.created_at b.created_at
        && (eqb a.last_used b.last_used && same_bool a.in_use b.in_use))
  where
    same_bool : Bool → Bool → Bool
    same_bool true b = b
    same_bool false b = not b

pub same_entry_iff : (a b : PoolEntry) → (same_entry a b ≡ true) ↔ (a ≡ b)
same_entry_iff a b = ground arith

instance abbrev pub entries_compare : Comparable PoolEntry
entries_compare = record { equals = same_entry; equals_iff = same_entry_iff }

abbrev pub is_idle : PoolEntry → Bool
is_idle e = not e.in_use

-- `entry.age < self._ttl`
abbrev pub is_young : ℕ → ℕ → PoolEntry → Bool
is_young now ttl e = ltb now (e.created_at + ttl)

-- `not e.in_use and (now - e.created_at) >= self._ttl`
abbrev pub is_expired : ℕ → ℕ → PoolEntry → Bool
is_expired now ttl e = is_idle e && not (is_young now ttl e)

-- What a successful `release` writes to the entry object, wherever the pool holds it.
abbrev pub freed : ℕ → PoolEntry → PoolEntry → PoolEntry
freed now entry e =
    if eqb e.session entry.session then record e { in_use = false; last_used = now } else e

-- `min(idle, key=lambda e: e.last_used)`, the first of the smallest.
unfoldable pub oldest_of : PoolEntry → List PoolEntry → PoolEntry
oldest_of best [] = best
oldest_of best (e ∷ es) = oldest_of (if ltb e.last_used best.last_used then e else best) es

pub record Evicted : Type 0 where
  pub left : List PoolEntry
  pub evicted : List PoolEntry

-- The `while` loop of `add`; `fuel` bounds its rounds.
unfoldable pub evict : ℕ → ℕ → List PoolEntry → List PoolEntry → Evicted
evict zero cap entries out = record { left = entries; evicted = out }
evict (suc fuel) cap entries out = elim (leb cap (length entries)) [
  | false ↦ record { left = entries; evicted = out }
  | true ↦ elim (select is_idle entries) [
    | [] ↦ record { left = entries; evicted = out }
    | e ∷ es ↦
        let oldest = oldest_of e es in
        evict fuel cap (remove_first oldest entries) (out ++ oldest ∷ [])
  ]
]

-- The first idle entry that is young enough is marked and returned.
unfoldable pub lease : ℕ → ℕ → List PoolEntry → Option (PoolEntry × List PoolEntry)
lease now ttl [] = none
lease now ttl (e ∷ es) =
    if is_idle e && is_young now ttl e
    then (let e' : PoolEntry = record e { in_use = true; last_used = now } in some (e', e' ∷ es))
    else elim (lease now ttl es) [ none ↦ none | some (e', es') ↦ some (e', e ∷ es') ]

module _ {ℓ} (K : Type ℓ) where
  pub record SessionPool : Type ℓ where
    pub per_key_max : ℕ
    pub ttl : ℕ
    pub cb_threshold : ℕ
    pub pool : Dict K (List PoolEntry)
    pub circuit_breakers : Dict K CircuitBreaker
    pub closed : Bool

abbrev or_none {ℓ} : {A : Type ℓ} → Option (List A) → List A
or_none none = []
or_none (some xs) = xs

abbrev unless_nil {ℓ} :
    {K : Type ℓ} → K → List PoolEntry → Dict K (List PoolEntry) → Dict K (List PoolEntry)
unless_nil key [] d = d
unless_nil key (e ∷ es) d = (key, e ∷ es) ∷ d

module _ {ℓ} {K : Type ℓ} ⦃c : Comparable K⦄ where
  abbrev pub entries_of : SessionPool K → K → List PoolEntry
  entries_of p key = or_none (get p.pool key)

  -- `max(1, …)` of the constructor; the cooldown of the breakers is their default.
  unfoldable pub init : ℕ → ℕ → ℕ → SessionPool K
  init per_key_max ttl threshold = record {
    per_key_max = max 1 per_key_max;
    ttl = max 1 ttl;
    cb_threshold = max 1 threshold;
    pool = [];
    circuit_breakers = [];
    closed = false;
  }

  abbrev or_new : SessionPool K → Option CircuitBreaker → CircuitBreaker
  or_new p none = Breaker.init "pool" p.cb_threshold 60
  or_new p (some cb) = cb

  unfoldable pub get_circuit_breaker : SessionPool K → K → CircuitBreaker
  get_circuit_breaker p key = or_new p (get p.circuit_breakers key)

  abbrev put_breaker : K → CircuitBreaker → SessionPool K → SessionPool K
  put_breaker key cb p = record p { circuit_breakers = insert p.circuit_breakers key cb }

  abbrev put_entries : K → List PoolEntry → SessionPool K → SessionPool K
  put_entries key es p = record p { pool = insert p.pool key es }

  abbrev leased :
      K → SessionPool K → Option (PoolEntry × List PoolEntry) → Option PoolEntry × SessionPool K
  leased key p none = (none, p)
  leased key p (some (e, es)) = (some e, put_entries key es p)

  unfoldable pub acquire : K → ℕ → SessionPool K → Option PoolEntry × SessionPool K
  unfolding lease get_circuit_breaker
  acquire key now p =
      let (allowed, cb) = Breaker.allows_request now (get_circuit_breaker p key) in
      let p' = put_breaker key cb p in
      if p.closed
      then (none, p)
      else if not allowed
      then (none, p')
      else leased key p' (lease now p.ttl (entries_of p key))

  -- The entry is the object that `acquire` or `add` returned, here by its present fields.
  unfoldable pub release : K → PoolEntry → Bool → ℕ → SessionPool K → SessionPool K × List PoolEntry
  unfolding get_circuit_breaker
  release key entry failed now p =
      let cb = get_circuit_breaker p key in
      let es = entries_of p key in
      if failed
      then (
        (let p' = put_breaker key (Breaker.record_failure now cb) p in
            if contains entry es then put_entries key (remove_first entry es) p' else p'),
        entry ∷ [],
      )
      else (
        record (put_breaker key (Breaker.record_success now cb) p) {
          pool = map (λ (kes : _). (kes.0, map (freed now entry) kes.1)) p.pool;
        },
        [],
      )

  unfoldable pub add : K → ℕ → ℕ → SessionPool K → SessionPool K × List PoolEntry
  add key session now p =
      let es = entries_of p key in
      let r = evict (length es) p.per_key_max es [] in
      let entry : PoolEntry = record {
        session = session;
        created_at = now;
        last_used = now;
        in_use = false;
      } in
      (put_entries key (r.left ++ entry ∷ []) p, r.evicted)

  unfoldable pub remove_all : K → SessionPool K → SessionPool K × List PoolEntry
  remove_all key p = (record p { pool = remove p.pool key }, entries_of p key)

  -- `_reap_expired`, on the items of the pool: a key that is left with no entry is deleted.
  unfoldable pub reap : ℕ → ℕ → Dict K (List PoolEntry) → Dict K (List PoolEntry)
  reap now ttl [] = []
  reap now ttl ((key, es) ∷ d) =
      let rest = reap now ttl d in unless_nil key (select (λ e. not (is_expired now ttl e)) es) rest

  unfoldable pub reap_expired : ℕ → SessionPool K → SessionPool K
  unfolding reap
  reap_expired now p = record p { pool = reap now p.ttl p.pool }

  -- `stop`, after the reaper was cancelled.
  unfoldable pub stop : SessionPool K → SessionPool K
  stop p = record p { pool = []; circuit_breakers = []; closed = true }

  unfoldable pub total_sessions : Dict K (List PoolEntry) → ℕ
  total_sessions [] = 0
  total_sessions ((key, es) ∷ d) = length es + total_sessions d

  unfoldable pub active_sessions : Dict K (List PoolEntry) → ℕ
  active_sessions [] = 0
  active_sessions ((key, es) ∷ d) = count (λ e. e.in_use) es + active_sessions d
