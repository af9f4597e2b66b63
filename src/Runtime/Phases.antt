-- ===== src/Runtime/Phases.antt =====
-- The status record of a backend under sequences of transitions.
use argus_mcp.Base.{String, ◌≡◌, refl, Option, none, some, List, [], ◌∷◌, arith}
use argus_mcp.Runtime.{
  BackendPhase, BackendStatusRecord, is_valid_backend_transition, transition, error_after,
}

abbrev pub HasNoError : BackendPhase → Option String → Type 0
HasNoError BackendPhase.ready e = e ≡ none
HasNoError BackendPhase.degraded e = e ≡ none
HasNoError _ e = Unit

module _ {ℓ} {Latency : Type ℓ} where
  -- A caller that passes over the `ValueError`.
  unfoldable pub attempt :
      BackendStatusRecord Latency → BackendPhase × String → BackendStatusRecord Latency
  attempt r (p, m) = elim (transition p m r) [ none ↦ r | some r' ↦ r' ]

  unfoldable pub attempts :
      BackendStatusRecord Latency → List (BackendPhase × String) → BackendStatusRecord Latency
  attempts r [] = r
  attempts r (x ∷ xs) = attempts (attempt r x) xs

  pub attempt-HasNoError :
      (r : BackendStatusRecord Latency) (p : BackendPhase) (m : String)
      → HasNoError r.phase r.error
      → HasNoError (attempt r (p, m)).phase (attempt r (p, m)).error
  unfolding attempt transition is_valid_backend_transition error_after
  attempt-HasNoError r BackendPhase.ready m h = ground arith
  attempt-HasNoError r BackendPhase.degraded m h = ground arith
  attempt-HasNoError r _ m h = ground arith

  -- From a record whose backend has no error if it is READY or DEGRADED, every sequence of
  -- transitions, with whatever messages and refusals, leads to such a record.
  pub attempts-HasNoError :
      (r : BackendStatusRecord Latency) (xs : List (BackendPhase × String))
      → HasNoError r.phase r.error
      → HasNoError (attempts r xs).phase (attempts r xs).error
  unfolding attempts
  attempts-HasNoError r [] h = h
  attempts-HasNoError r ((p, m) ∷ xs) h =
      attempts-HasNoError (attempt r (p, m)) xs (attempt-HasNoError r p m h)

  attempt-shutting_down :
      (r : BackendStatusRecord Latency) (p : BackendPhase) (m : String)
      → r.phase ≡ BackendPhase.shutting_down
      → attempt r (p, m) ≡ r
  unfolding attempt transition is_valid_backend_transition
  attempt-shutting_down r BackendPhase.pending m e = ground arith
  attempt-shutting_down r _ m e = ground arith

  -- A record that is SHUTTING_DOWN is left as it is, error and conditions included, by every
  -- sequence of transitions.
  pub attempts-shutting_down :
      (r : BackendStatusRecord Latency) (xs : List (BackendPhase × String))
      → r.phase ≡ BackendPhase.shutting_down
      → attempts r xs ≡ r
  unfolding attempts
  attempts-shutting_down r [] e = refl
  attempts-shutting_down r ((p, m) ∷ xs) e =
      let kept = attempt-shutting_down r p m e in rw kept (attempts-shutting_down r xs e)
