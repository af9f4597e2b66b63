-- ===== src/Startup.antt =====
-- argus_mcp/bridge/startup_coordinator.py: the order in which the backends are started, and the
-- retries of those that fail. Whether a start opens a session is a function of the backend and the
-- number of the attempt; the tasks of one attempt run together, and each has its own backend. Delays
-- are left out.
pub mod Alone
mod Tests
use argus_mcp.Base.{
  ℕ, zero, suc, ◌+◌, max, Bool, true, false, String, Option, none, some, List, [], ◌∷◌, ◌++◌, map,
  not, ◌&&◌, ◌||◌, leb, ltb, select, if◌then◌else◌, text_keys, ◌==◌,
}
use argus_mcp.Base.Dict.{Dict, get}

-- The fields of a backend's configuration that are read here.
pub record StartConfig : Type 0 where
  pub type : Option String
  pub retries : Option ℕ

-- `_TYPE_PRIORITY.get(conf.get("type", "stdio"), 2)`
abbrev type_priority : Option String → ℕ
type_priority none = 2
type_priority (some t) = if t == "streamable-http" then 0 else if t == "sse" then 1 else 2

abbrev is_stdio : Option String → Bool
is_stdio none = false
is_stdio (some t) = t == "stdio"

-- `sorted(…, key=…)` is stable.
abbrev insert_by_type : String × StartConfig → Dict String StartConfig → Dict String StartConfig
insert_by_type p [] = p ∷ []
insert_by_type p (q ∷ qs) =
    if leb (type_priority p.1.type) (type_priority q.1.type)
    then p ∷ q ∷ qs
    else q ∷ insert_by_type p qs

abbrev by_type : Dict String StartConfig → Dict String StartConfig
by_type [] = []
by_type (p ∷ ps) = insert_by_type p (by_type ps)

-- `_sort_backends`: the remote ones and the stdio ones.
unfoldable pub sort_backends :
    Dict String StartConfig → Dict String StartConfig × Dict String StartConfig
sort_backends config =
    let items = by_type config in
    (select (λ p. not (is_stdio p.1.type)) items, select (λ p. is_stdio p.1.type) items)

-- `svr_conf.get("retries", BACKEND_RETRIES)`; a name that failed is one of the configuration.
abbrev pub retries_of : Option StartConfig → ℕ
retries_of none = 0
retries_of (some c) = elim c.retries [ none ↦ 3 | some r ↦ r ]

abbrev pub most_retries : Dict String StartConfig → List String → ℕ
most_retries config [] = 0
most_retries config (n ∷ ns) = max (retries_of (get config n)) (most_retries config ns)

abbrev is_empty {ℓ} : {B : Type ℓ} → List B → Bool
is_empty [] = true
is_empty (x ∷ xs) = false

-- The starts that were made, by name and attempt, and the names that are still without a session.
pub record Retried : Type 0 where
  pub starts : List (String × ℕ)
  pub failed_names : List String

module _ (config : Dict String StartConfig) (opens : String → ℕ → Bool) (shutdown : ℕ → Bool) where
  abbrev pub allowed : ℕ → String → Bool
  allowed attempt name = leb attempt (retries_of (get config name))

  -- `launch_retry_tasks`: the backends that have a retry left are started.
  abbrev pub launch_retry_tasks : ℕ → List String → List (String × ℕ)
  launch_retry_tasks attempt names = map (λ n. (n, attempt)) (select (allowed attempt) names)

  abbrev pub still_failed : ℕ → List String → List String
  still_failed attempt = select (λ n. not (allowed attempt n && opens n attempt))

  -- The loop of `retry_failed_backends`, with the number of attempts that its range has left.
  unfoldable pub retry_attempts : ℕ → ℕ → List String → Retried
  retry_attempts zero attempt failed = record { starts = []; failed_names = failed }
  retry_attempts (suc left) attempt failed =
      let rest = retry_attempts left (attempt + 1) (still_failed attempt failed) in
      if is_empty failed || shutdown attempt
      then record { starts = []; failed_names = failed }
      else record rest { starts = launch_retry_tasks attempt failed ++ rest.starts }

  unfoldable pub retry_failed_backends : List String → Retried
  unfolding retry_attempts
  retry_failed_backends failed = retry_attempts (most_retries config failed) 1 failed

  -- `start_all`: the names that failed at the first pass, with the number 0, and what the retries make
  -- of them. `requested` is whether a shutdown was requested before the stdio backends and before
  -- the retries.
  abbrev pub first_stdio : Bool → Bool → List String → List String
  first_stdio requested parallel [] = []
  first_stdio true true (n ∷ ns) = n ∷ ns
  first_stdio true false (n ∷ ns) = n ∷ []
  first_stdio false parallel (n ∷ ns) = select (λ m. not (opens m 0)) (n ∷ ns)

  unfoldable pub start_all : Bool → Bool → Bool → Retried
  unfolding sort_backends retry_failed_backends
  start_all requested_before requested_after parallel =
      let (remote, stdio) = sort_backends config in
      let failed =
        select (λ n. not (opens n 0)) (map (λ p. p.0) remote)
        ++ first_stdio requested_before parallel (map (λ p. p.0) stdio) in
      if is_empty failed || requested_after
      then record { starts = []; failed_names = failed }
      else retry_failed_backends failed
