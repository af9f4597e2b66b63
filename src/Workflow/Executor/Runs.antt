-- ===== src/Workflow/Executor/Runs.antt =====
-- The steps that have a result when a run of a workflow returns.
use argus_mcp.Base.{
  ℕ, ◌+◌, ◌≡◌, inl, inr, refl, Bool, true, String, none, List, [], ◌∷◌, ◌++◌, map, not, ◌&&◌, arith,
  All, Option-cases, Bool-cases, text_keys, ◌==◌, ==_refl, append-All, subst, ap,
}
use argus_mcp.Base.Dict.{Dict, insert, has, has-insert}
use argus_mcp.Workflow.{Step, WorkflowDefinition, sorted, topological_order}
use argus_mcp.Workflow.Order.{flat}
use argus_mcp.Workflow.Executor.{
  StepResult, Outcome, done, raised, Run, finished, aborted, invalid, skipped_at, try, held_back,
  record_level, execute_step, run_level, run_levels, run_sorted, execute,
}

module _ {A O : Type 0} where
  abbrev pub AllHave : Dict String (StepResult O) → List (Step A) → Type 0
  AllHave results ss = All (λ s. has results s.id ≡ true) ss

  -- Nothing was raised out of a step.
  abbrev pub AllDone : List (Step A × Outcome (StepResult O)) → Type 0
  AllDone = All (λ p. (r : StepResult O) × (p.1 ≡ done r))

  abbrev pub Finishes : List (Step A) → Dict String (StepResult O) → Run O → Type 0
  Finishes ss before (finished results) =
      AllHave results ss × ((id : String) → has before id ≡ true → has results id ≡ true)
  Finishes ss before (aborted step e) = ⊥
  Finishes ss before invalid = ⊥

  entered :
      (before : Dict String (StepResult O)) (step : Step A) (r : StepResult O) (id : String)
      → has before id ≡ true
      → has (insert before step.id r) id ≡ true
  entered before step r id h = rw (has-insert before step.id r id) (ground arith)

  Finishes-step :
      (before : Dict String (StepResult O)) (step : Step A) (r : StepResult O) (ss : List (Step A))
      (run : Run O)
      → Finishes ss (insert before step.id r) run
      → Finishes (step ∷ ss) before run
  Finishes-step before step r ss (finished results) v = (
    (v.1 step.id (rw (has-insert before step.id r step.id, ==_refl step.id) refl), v.0),
    λ id h. v.1 id (entered before step r id h),
  )
  Finishes-step before step r ss (aborted s e) v = v
  Finishes-step before step r ss invalid v = v

  record_level-Finishes :
      (ps : List (Step A × Outcome (StepResult O))) (before : Dict String (StepResult O))
      → AllDone ps
      → Finishes (map (λ (p : _). p.0) ps) before (record_level ps before)
  unfolding record_level
  record_level-Finishes [] before h = (tt, λ id h. h)
  record_level-Finishes ((step, done r) ∷ ps) before h =
      Finishes-step before step r _ (record_level ps (insert before step.id r))
        (record_level-Finishes ps (insert before step.id r) h.1)
  record_level-Finishes ((step, raised e) ∷ ps) before h = absurd (clash e h.0.0 h.0.1)
    where
      clash : (e : String) (r : StepResult O) → raised e ≡ done r → ⊥
      clash e r q = cc

module _ {A O : Type 0} (invoke : String → ℕ → String → A → Outcome O)
    (evaluate_condition : String → Dict String (StepResult O) → Bool)
    (interpolate : A → Dict String (StepResult O) → Outcome A) where
  abbrev pub Interpolates : Type 0
  Interpolates =
      (args : A) (results : Dict String (StepResult O))
      → (x : A) × (interpolate args results ≡ done x)

  execute_step-done :
      Interpolates
      → (results : Dict String (StepResult O)) (step : Step A)
      → (r : StepResult O) × (execute_step invoke evaluate_condition interpolate results step
          ≡ done r)
  unfolding execute_step
  execute_step-done total results step =
      elim (Bool-cases
        (not (step.condition == "") && not (evaluate_condition step.condition results))) [
          | inl b ↦ (skipped_at step.id, rw b refl)
          | inr b ↦ elim (Option-cases (held_back step results step.depends_on)) [
            | inr (r, e) ↦ (r, rw (b, e) refl)
            | inl e ↦
                let (args, q) = total step.args results in
                (
                  try (λ i. invoke step.id i step.tool args) step.id (1 + step.retry) 0 none,
                  rw (b, e, q) refl,
                )
          ]
        ]

  run_level-AllDone :
      Interpolates
      → (level : List (Step A)) (results : Dict String (StepResult O))
      → AllDone (run_level invoke evaluate_condition interpolate level results)
  unfolding run_level
  run_level-AllDone total [] results = tt
  run_level-AllDone total (s ∷ ss) results =
      (execute_step-done total results s, run_level-AllDone total ss results)

  steps-run_level :
      (level : List (Step A)) (results : Dict String (StepResult O))
      → map (λ (p : _). p.0) (run_level invoke evaluate_condition interpolate level results) ≡ level
  unfolding run_level
  steps-run_level [] results = refl
  steps-run_level (s ∷ ss) results = ap (λ ts. s ∷ ts) (steps-run_level ss results)

  All-has :
      (ss : List (Step A)) (before after : Dict String (StepResult O))
      → ((id : String) → has before id ≡ true → has after id ≡ true)
      → AllHave before ss
      → AllHave after ss
  All-has [] before after h k = tt
  All-has (s ∷ ss) before after h k = (h s.id k.0, All-has ss before after h k.1)

  Finishes-level :
      (level rest : List (Step A)) (before middle : Dict String (StepResult O)) (run : Run O)
      → Finishes level before (finished middle)
      → Finishes rest middle run
      → Finishes (level ++ rest) before run
  Finishes-level level rest before middle (finished results) v w = (
    append-All (λ s. has results s.id ≡ true) level rest
        (All-has level middle results w.1 v.0, w.0),
    λ id h. w.1 id (v.1 id h),
  )
  Finishes-level level rest before middle (aborted s e) v w = w
  Finishes-level level rest before middle invalid v w = w

  run_levels-Finishes :
      Interpolates
      → (ls : List (List (Step A))) (before : Dict String (StepResult O))
      → Finishes (flat ls) before (run_levels invoke evaluate_condition interpolate ls before)
  unfolding run_levels
  run_levels-Finishes total [] before = (tt, λ id h. h)
  run_levels-Finishes total (level ∷ ls) before =
      go (record_level (run_level invoke evaluate_condition interpolate level before) before)
        (subst
          (λ ss.
            Finishes ss before
              (record_level (run_level invoke evaluate_condition interpolate level before) before))
          (steps-run_level level before)
          (record_level-Finishes (run_level invoke evaluate_condition interpolate level before)
            before (run_level-AllDone total level before)))
        (run_levels-Finishes total ls)
    where
      go :
          (run : Run O)
          → Finishes level before run
          → ((middle : Dict String (StepResult O))
              → Finishes
                  (flat ls)
                  middle
                  (run_levels invoke evaluate_condition interpolate ls middle))
          → Finishes (level ++ flat ls) before (elim run [
            | finished results' ↦ run_levels invoke evaluate_condition interpolate ls results'
            | aborted step e ↦ aborted step e
            | invalid ↦ invalid
          ])
      go (finished middle) v rec = Finishes-level level (flat ls) before middle _ v (rec middle)
      go (aborted step e) v rec = v
      go invalid v rec = v

  execute_sorted :
      (w : WorkflowDefinition A) (ls : List (List (Step A)))
      → topological_order w ≡ sorted ls
      → execute invoke evaluate_condition interpolate w
        ≡ run_levels invoke evaluate_condition interpolate ls []
  unfolding execute
  execute_sorted w ls e = ap (run_sorted invoke evaluate_condition interpolate) e

  -- Where interpolation never raises, a run of a workflow that can be sorted always returns results,
  -- with one for each step of its levels: whatever the tools raise, and whatever the steps say
  -- under `on_error`, the run is never aborted.
  pub execute-Finishes :
      Interpolates
      → (w : WorkflowDefinition A) (ls : List (List (Step A))) → topological_order w ≡ sorted ls
      → (results : Dict String (StepResult O)) × (execute invoke evaluate_condition interpolate w
          ≡ finished results)
        × AllHave results (flat ls)
  execute-Finishes total w ls e = rw (execute_sorted w ls e) (
      go (run_levels invoke evaluate_condition interpolate ls []) (run_levels-Finishes total ls []))
    where
      go :
          (run : Run O)
          → Finishes (flat ls) [] run
          → (results : Dict String (StepResult O)) × (run ≡ finished results)
            × AllHave results (flat ls)
      go (finished results) v = (results, refl, v.0)
      go (aborted step e) v = elim v [ ]
      go invalid v = elim v [ ]
