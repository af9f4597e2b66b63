-- ===== src/Workflow/Executor.antt =====
-- argus_mcp/workflows/executor.py: the steps of a workflow are run level by level, the steps of one
-- level against the results of the levels before. The context that conditions and arguments read is
-- made from the inputs and the results, so the two functions that read it take the results.
-- Durations are left out.
pub mod Retries
pub mod Runs
use Prim.Native.String.{◌++◌ as append}
use argus_mcp.Base.{
  ℕ, zero, suc, ◌+◌, Bool, true, false, String, Option, none, some, List, [], ◌∷◌, map, not, ◌&&◌,
  if◌then◌else◌, text_keys, ◌==◌,
}
use argus_mcp.Base.Dict.{Dict, get, insert}
use argus_mcp.Workflow.{
  Step, WorkflowDefinition, Levels, sorted, cycle, unfinished, topological_order,
}

pub data StepStatus : Type 0 where
  pending running completed failed skipped : StepStatus

pub record StepResult (O : Type 0) : Type 0 where
  pub step_id : String
  pub status : StepStatus
  pub output : Option O
  pub error : Option String

-- What a call of a tool comes to, and what the interpolation of arguments comes to.
pub data Outcome (O : Type 0) : Type 0 where
  done : O → Outcome O
  raised : String → Outcome O

-- `execute` returns the results, or raises: at a step, or because of a cycle.
pub data Run (O : Type 0) : Type 0 where
  finished : Dict String (StepResult O) → Run O
  aborted : String → String → Run O
  invalid : Run O

module _ {O : Type 0} where
  abbrev pub completed_with : String → O → StepResult O
  completed_with id o = record { step_id = id; status = completed; output = some o; error = none }

  abbrev pub failed_with : String → Option String → StepResult O
  failed_with id e = record { step_id = id; status = failed; output = none; error = e }

  abbrev pub skipped_at : String → StepResult O
  skipped_at id = record { step_id = id; status = skipped; output = none; error = none }

  abbrev pub is_failed : Option (StepResult O) → Bool
  is_failed none = false
  is_failed (some r) = elim r.status [ failed ↦ true | _ ↦ false ]

  -- The retry loop, from attempt number `attempt` on; `left` attempts remain.
  unfoldable pub try : (ℕ → Outcome O) → String → ℕ → ℕ → Option String → StepResult O
  try call id zero attempt last_error = failed_with id last_error
  try call id (suc left) attempt last_error = elim (call attempt) [
    | done o ↦ completed_with id o
    | raised e ↦ try call id left (suc attempt) (some e)
  ]

  module _ {A : Type 0} where
    -- The loop over the dependencies, where it returns.
    unfoldable pub held_back :
        Step A → Dict String (StepResult O) → List String → Option (StepResult O)
    held_back step results [] = none
    held_back step results (d ∷ ds) =
        let rest = held_back step results ds in
        if is_failed (get results d)
        then (if step.on_error == "skip"
            then some (skipped_at step.id)
            else if step.on_error == "fail"
            then some (failed_with step.id (some (append "Dependency '" (append d "' failed"))))
            else rest)
        else rest

    -- What follows the gathering of a level: the results are entered in order; an exception ends the
    -- run if the step says so.
    unfoldable pub record_level :
        List (Step A × Outcome (StepResult O)) → Dict String (StepResult O) → Run O
    record_level [] results = finished results
    record_level ((step, done r) ∷ rest) results = record_level rest (insert results step.id r)
    record_level ((step, raised e) ∷ rest) results =
        let next = record_level rest (insert results step.id (failed_with step.id (some e))) in
        if step.on_error == "fail" then aborted step.id e else next

module _ {A O : Type 0} (invoke : String → ℕ → String → A → Outcome O)
    (evaluate_condition : String → Dict String (StepResult O) → Bool)
    (interpolate : A → Dict String (StepResult O) → Outcome A) where
  -- `invoke step attempt tool args` is the tool's answer to that call.
  unfoldable pub execute_step : Dict String (StepResult O) → Step A → Outcome (StepResult O)
  unfolding try held_back
  execute_step results step =
      if not (step.condition == "") && not (evaluate_condition step.condition results)
      then done (skipped_at step.id)
      else elim (held_back step results step.depends_on) [
        | some r ↦ done r
        | none ↦ elim (interpolate step.args results) [
          | raised e ↦ raised e
          | done args ↦
              done (try (λ i. invoke step.id i step.tool args) step.id (1 + step.retry) 0 none)
        ]
      ]

  unfoldable pub run_level :
      List (Step A) → Dict String (StepResult O) → List (Step A × Outcome (StepResult O))
  unfolding execute_step
  run_level level results = map (λ (s : _). (s, execute_step results s)) level

  unfoldable pub run_levels : List (List (Step A)) → Dict String (StepResult O) → Run O
  unfolding run_level record_level
  run_levels [] results = finished results
  run_levels (level ∷ ls) results = elim (record_level (run_level level results) results) [
    | finished results' ↦ run_levels ls results'
    | aborted step e ↦ aborted step e
    | invalid ↦ invalid
  ]

  abbrev pub run_sorted : Levels A → Run O
  run_sorted (sorted ls) = run_levels ls []
  run_sorted (cycle left) = invalid
  run_sorted unfinished = invalid

  unfoldable pub execute : WorkflowDefinition A → Run O
  unfolding run_levels topological_order
  execute w = run_sorted (topological_order w)
