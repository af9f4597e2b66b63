-- ===== src/SessionPool/Tests.antt =====
-- Runs of the session pool at concrete inputs.
use argus_mcp.Base.{
  ℕ, ◌+◌, ◌≤◌, ◌≡◌, ◌≢◌, ◌⊎◌, refl, true, false, String, some, [], ◌∷◌, arith, length, count, All,
  text_keys,
}
use argus_mcp.Base.Dict.{get, insert}
use argus_mcp.Breaker
use argus_mcp.SessionPool.{
  PoolEntry, lease, SessionPool, entries_of, add, acquire, get_circuit_breaker,
}
use argus_mcp.SessionPool.Capacity.{add-bounds}
use argus_mcp.SessionPool.Leases.{in_use, acquire_twice}

abbrev empty : SessionPool String
empty = record {
  per_key_max = 2;
  ttl = 100;
  cb_threshold = 3;
  pool = [];
  circuit_breakers = [];
  closed = false;
}

abbrev first : PoolEntry
first = record { session = 1; created_at = 10; last_used = 10; in_use = false }

abbrev second : PoolEntry
second = record { session = 2; created_at = 20; last_used = 20; in_use = false }

abbrev two : SessionPool String
two = record empty { pool = ("k", first ∷ second ∷ []) ∷ [] }

abbrev taken : ℕ → PoolEntry → PoolEntry
taken now e = record e { in_use = true; last_used = now }

add-bounds_example :
    ((length (entries_of (add "k" 3 30 two).0 "k") ≤ 2)
      ⊎ (length (entries_of (add "k" 3 30 two).0 "k")
          ≡ count in_use (entries_of (add "k" 3 30 two).0 "k") + 1))
    × (count in_use (entries_of (add "k" 3 30 two).0 "k") ≡ count in_use (entries_of two "k"))
    × (length (entries_of (add "k" 3 30 two).0 "k") + length (add "k" 3 30 two).1
        ≡ length (entries_of two "k") + 1)
    × All (λ e. e.in_use ≡ false) (add "k" 3 30 two).1
add-bounds_example = add-bounds two "k" 3 30 (omega arith)

hands_first : (acquire "k" 30 two).0 ≡ some (taken 30 first)
unfolding acquire lease get_circuit_breaker get insert Breaker.allows_request Breaker.init
hands_first = refl

hands_second : (acquire "k" 40 (acquire "k" 30 two).1).0 ≡ some (taken 40 second)
unfolding acquire lease get_circuit_breaker get insert Breaker.allows_request Breaker.init
hands_second = refl

acquire_twice_example : (taken 30 first).session ≢ (taken 40 second).session
unfolding get
acquire_twice_example =
    acquire_twice two "k" 30 40 (taken 30 first) (taken 40 second) (refl, (refl, tt)) hands_first
      hands_second
