-- ===== src/Workflow.antt =====
-- argus_mcp/workflows/dsl.py and steps.py: workflow definitions, their validation, and the levels in
-- which their steps run. The arguments of a step are of any type; a set of ids is a list.
pub mod Order
pub mod Reading
pub mod Validation
pub mod Executor
mod Tests
use argus_mcp.Base.{
  ℕ, zero, suc, ◌+◌, Bool, true, false, String, Option, none, some, List, [], ◌∷◌, ◌++◌, map, not,
  all, any, select, length, if◌then◌else◌, text_keys, ◌==◌,
}
use argus_mcp.Base.Dict.{Dict, insert, values}

abbrev pub mem : String → List String → Bool
mem x = any (λ y. y == x)

module _ (A : Type 0) where
  pub record Step : Type 0 where
    pub id : String
    pub tool : String
    pub args : A
    pub depends_on : List String
    pub condition : String
    pub retry : ℕ
    pub on_error : String
    pub description : String

  -- A step as it stands in the file; a missing key is `none`.
  pub record RawStep : Type 0 where
    pub id : Option String
    pub tool : Option String
    pub args : Option A
    pub depends_on : Option (List String)
    pub condition : Option String
    pub retry : Option ℕ
    pub on_error : Option String
    pub description : Option String

  pub record WorkflowDefinition : Type 0 where
    pub name : String
    pub description : String
    pub steps : List Step
    pub inputs : A
    pub output : String

  pub record RawWorkflow : Type 0 where
    pub name : Option String
    pub description : Option String
    pub steps : Option (List RawStep)
    pub inputs : Option A
    pub output : Option String

  pub data Levels : Type 0 where
    sorted : List (List Step) → Levels
    -- The error, with the steps that are left.
    cycle : List Step → Levels
    unfinished : Levels

  pub data ParseError : Type 0 where
    no_name no_steps missing_id : ParseError
    duplicate_id : String → ParseError
    unknown_dependency : String → String → ParseError
    cyclic : List Step → ParseError
    not_sorted : ParseError

  pub data StepsRead : Type 0 where
    steps_read : List Step → StepsRead
    read_error : ParseError → StepsRead

  pub data Parsed : Type 0 where
    parsed : WorkflowDefinition → Parsed
    refused : ParseError → Parsed

abbrev pub or_else {ℓ} : {B : Type ℓ} → B → Option B → B
or_else d none = d
or_else d (some x) = x

unfoldable pub unknown_of : List String → List String → Option String
unknown_of seen [] = none
unknown_of seen (d ∷ ds) = if mem d seen then unknown_of seen ds else some d

module _ {A : Type 0} where
  abbrev pub ids : List (Step A) → List String
  ids = map (λ (s : _). s.id)

  abbrev pub is_ready : List String → Step A → Bool
  is_ready completed s = all (λ d. mem d completed) s.depends_on

  abbrev pub level_of : List (Step A) → List (Step A) → Levels A → Levels A
  level_of remaining [] next = cycle remaining
  level_of remaining (s ∷ ready) (sorted ls) = sorted ((s ∷ ready) ∷ ls)
  level_of remaining (s ∷ ready) (cycle left) = cycle left
  level_of remaining (s ∷ ready) unfinished = unfinished

  -- The `while` loop; `fuel` bounds its rounds.
  unfoldable pub levels : ℕ → List String → List (Step A) → Levels A
  levels fuel completed [] = sorted []
  levels zero completed (s ∷ ss) = unfinished
  levels (suc fuel) completed (s ∷ ss) =
      let remaining : List (Step A) = s ∷ ss in
      let ready : List (Step A) = select (is_ready completed) remaining in
      level_of remaining ready
        (levels fuel (completed ++ ids ready) (select (λ t. not (is_ready completed t)) remaining))

  -- `{s.id: s for s in self.steps}`
  unfoldable pub step_map : List (Step A) → Dict String (Step A) → Dict String (Step A)
  step_map [] d = d
  step_map (s ∷ ss) d = step_map ss (insert d s.id s)

  unfoldable pub topological_order : WorkflowDefinition A → Levels A
  unfolding levels step_map
  topological_order w =
      let remaining = values (step_map w.steps []) in levels (length remaining) [] remaining

  -- `Step.from_dict`, on a step that has an id; `no_args` is the empty dictionary.
  unfoldable pub from_dict : A → String → RawStep A → Step A
  from_dict no_args id raw = record {
    id = id;
    tool = or_else "" raw.tool;
    args = or_else no_args raw.args;
    depends_on = or_else [] raw.depends_on;
    condition = or_else "" raw.condition;
    retry = or_else 0 raw.retry;
    on_error = or_else "fail" raw.on_error;
    description = or_else "" raw.description;
  }

  abbrev more_steps : Step A → StepsRead A → StepsRead A
  more_steps s (steps_read ss) = steps_read (s ∷ ss)
  more_steps s (read_error e) = read_error e

  -- The first loop of `parse_workflow`.
  unfoldable pub read_steps : A → List String → List (RawStep A) → StepsRead A
  unfolding from_dict
  read_steps no_args seen [] = steps_read []
  read_steps no_args seen (raw ∷ raws) = elim raw.id [
    | none ↦ read_error missing_id
    | some id ↦
        let rest = read_steps no_args (id ∷ seen) raws in
        if mem id seen
        then read_error (duplicate_id id)
        else more_steps (from_dict no_args id raw) rest
  ]

  -- The second loop: the first dependency that no step has.
  unfoldable pub check_dependencies : List String → List (Step A) → Option (String × String)
  unfolding unknown_of
  check_dependencies seen [] = none
  check_dependencies seen (s ∷ ss) = elim (unknown_of seen s.depends_on) [
    | some d ↦ some (s.id, d)
    | none ↦ check_dependencies seen ss
  ]

  abbrev pub verdict : WorkflowDefinition A → Levels A → Parsed A
  verdict w (sorted ls) = parsed w
  verdict w (cycle left) = refused (cyclic left)
  verdict w unfinished = refused not_sorted

  abbrev pub validate : WorkflowDefinition A → Parsed A
  validate w = elim (check_dependencies (ids w.steps) w.steps) [
    | some (step, dep) ↦ refused (unknown_dependency step dep)
    | none ↦ verdict w (topological_order w)
  ]

  -- The definition, once the steps are read.
  abbrev pub defined : A → String → RawWorkflow A → StepsRead A → Parsed A
  defined no_args name raw (read_error e) = refused e
  defined no_args name raw (steps_read ss) = validate (record {
    name = name;
    description = or_else "" raw.description;
    steps = ss;
    inputs = or_else no_args raw.inputs;
    output = or_else "" raw.output;
  })

  unfoldable pub parse_workflow : A → RawWorkflow A → Parsed A
  unfolding read_steps check_dependencies topological_order
  parse_workflow no_args raw =
      let name = or_else "" raw.name in
      if name == "" then refused no_name else elim (or_else [] raw.steps) [
        | [] ↦ refused no_steps
        | r ∷ rs ↦ defined no_args name raw (read_steps no_args [] (r ∷ rs))
      ]
