-- ===== src/Workflow/Tests.antt =====
-- Runs of workflows at concrete inputs: two steps, the second after the first; a tool that always
-- raises.
use argus_mcp.Base.{
  ℕ, zero, suc, ◌≡◌, ◌⊎◌, refl, true, String, none, some, List, [], ◌∷◌, ◌++◌, text_keys,
}
use argus_mcp.Base.Dict.{Dict, insert}
use argus_mcp.Workflow.{
  mem, Step, RawStep, RawWorkflow, WorkflowDefinition, sorted, ids, levels, step_map,
  topological_order, parse_workflow,
}
use argus_mcp.Workflow.Order.{Answers, steps_of, topological_order-Answers}
use argus_mcp.Workflow.Validation.{Fulfils, parse_workflow-Fulfils}
use argus_mcp.Workflow.Executor.{StepResult, Outcome, done, raised, finished, try, execute}
use argus_mcp.Workflow.Executor.Retries.{ReturnsAt, GivesUp, try_all}
use argus_mcp.Workflow.Executor.Runs.{AllHave, execute-Finishes}

abbrev step : String → List String → Step ℕ
step id deps = record {
  id = id;
  tool = "t";
  args = 0;
  depends_on = deps;
  condition = "";
  retry = 1;
  on_error = "fail";
  description = "";
}

abbrev two : WorkflowDefinition ℕ
two = record {
  name = "w";
  description = "";
  steps = step "b" ("a" ∷ []) ∷ step "a" [] ∷ [];
  inputs = 0;
  output = "";
}

sorts : topological_order two ≡ sorted ((step "a" [] ∷ []) ∷ (step "b" ("a" ∷ []) ∷ []) ∷ [])
unfolding topological_order levels step_map insert
sorts = refl

abbrev raw : String → List String → RawStep ℕ
raw id deps = record {
  id = some id;
  tool = none;
  args = none;
  depends_on = some deps;
  condition = none;
  retry = none;
  on_error = none;
  description = none;
}

abbrev loop : RawWorkflow ℕ
loop = record {
  name = some "w";
  description = none;
  steps = some (raw "a" ("b" ∷ []) ∷ raw "b" ("a" ∷ []) ∷ []);
  inputs = none;
  output = none;
}

topological_order-Answers_example :
    Answers (λ d. mem d (ids (steps_of two))) [] (steps_of two) (topological_order two)
topological_order-Answers_example = topological_order-Answers two

parse_workflow-Fulfils_example : Fulfils (parse_workflow 0 loop)
parse_workflow-Fulfils_example = parse_workflow-Fulfils 0 loop

abbrev flaky : ℕ → Outcome ℕ
flaky zero = raised "busy"
flaky (suc n) = done n

try_all_example :
    ReturnsAt flaky "a" 0 2 (try flaky "a" 2 0 none)
    ⊎ GivesUp flaky "a" 0 1 (try flaky "a" 2 0 none)
try_all_example = try_all flaky "a" 1 0 none

abbrev broken : String → ℕ → String → ℕ → Outcome ℕ
broken step attempt tool args = raised "broken"

abbrev same : ℕ → Dict String (StepResult ℕ) → Outcome ℕ
same args results = done args

execute-Finishes_example :
    (results : Dict String (StepResult ℕ)) × (execute broken (λ c results. true) same two
      ≡ finished results)
    × AllHave results ((step "a" [] ∷ []) ++ (step "b" ("a" ∷ []) ∷ []) ++ [])
execute-Finishes_example =
    execute-Finishes broken (λ c results. true) same (λ args results. (args, refl)) two
      ((step "a" [] ∷ []) ∷ (step "b" ("a" ∷ []) ∷ []) ∷ []) sorts
