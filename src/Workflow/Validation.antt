-- ===== src/Workflow/Validation.antt =====
-- What a workflow that was parsed satisfies.
use argus_mcp.Base.{
  ◌<◌, ◌≡◌, inl, inr, refl, Bool, true, false, String, List, [], ◌∷◌, not, ◌||◌, arith, any, length,
  count, All, subst, Bool-cases, Option-cases, text_keys, ◌==◌,
}
use argus_mcp.Base.Dict.{has}
use argus_mcp.Workflow.{
  mem, Step, RawStep, RawWorkflow, WorkflowDefinition, Levels, sorted, cycle, unfinished, StepsRead,
  steps_read, read_error, Parsed, parsed, refused, cyclic, not_sorted, ids, topological_order,
  from_dict, read_steps, check_dependencies, verdict, validate, defined, parse_workflow, or_else,
  no_steps, more_steps,
}
use argus_mcp.Workflow.Order.{Answers, blocked, topological_order-Answers}
use argus_mcp.Workflow.Reading.{
  IsDistinct, check_dependencies-none, ReadWell, read_steps-ReadWell, step_map_distinct, IsFilled,
  read_steps-IsFilled,
}

no_unknown :
    (seen ds : List String)
    → All (λ d. mem d seen ≡ true) ds
    → any (λ d. not (mem d seen)) ds ≡ false
no_unknown seen [] h = refl
no_unknown seen (d ∷ ds) h = ground (arith, no_unknown seen ds h.1)

any_or :
    (p q : String → Bool) (ds : List String)
    → any q ds ≡ false
    → any (λ d. p d || q d) ds ≡ true
    → any p ds ≡ true
any_or p q [] h k = k
any_or p q (d ∷ ds) h k = ground (arith, any_or p q ds)

module _ {A : Type 0} where
  -- A workflow that can run: it has a name and steps, no id stands twice, each dependency is the id
  -- of a step, and the sorting gives levels.
  pub record IsValid (w : WorkflowDefinition A) : Type 0 where
    pub named : (w.name == "") ≡ false
    pub filled : 0 < length w.steps
    pub distinct : IsDistinct (ids w.steps)
    pub known : All (λ s. All (λ d. mem d (ids w.steps) ≡ true) s.depends_on) w.steps
    pub order : (ls : List (List (Step A))) × (topological_order w ≡ sorted ls)

  abbrev pub Fulfils : Parsed A → Type 0
  Fulfils (parsed w) = IsValid w
  Fulfils (refused (cyclic left)) =
      (0 < length left) × All (λ s. any (λ d. mem d (ids left)) s.depends_on ≡ true) left
  Fulfils (refused not_sorted) = ⊥
  Fulfils (refused _) = Unit

  none_unknown :
      (seen : List String) (ss : List (Step A))
      → All (λ s. All (λ d. mem d seen ≡ true) s.depends_on) ss
      → count (λ s. any (λ d. not (mem d seen)) s.depends_on) ss ≡ 0
  none_unknown seen [] h = refl
  none_unknown seen (s ∷ ss) h =
      ground (arith, no_unknown seen s.depends_on h.0, none_unknown seen ss h.1)

  blocked_within :
      (seen : List String) (left ss : List (Step A))
      → count (λ s. any (λ d. not (mem d seen)) s.depends_on) ss ≡ 0
      → All (λ s. blocked (λ d. mem d seen) left s ≡ true) ss
      → All (λ s. any (λ d. mem d (ids left)) s.depends_on ≡ true) ss
  blocked_within seen left [] z h = tt
  blocked_within seen left (s ∷ ss) z h = (
    any_or (λ d. mem d (ids left)) (λ d. not (mem d seen)) s.depends_on (ground arith) h.0,
    blocked_within seen left ss (ground arith) h.1,
  )

  verdict-Fulfils :
      (w : WorkflowDefinition A) (r : Levels A)
      → topological_order w ≡ r
      → (w.name == "") ≡ false
      → 0 < length w.steps
      → IsDistinct (ids w.steps)
      → All (λ s. All (λ d. mem d (ids w.steps) ≡ true) s.depends_on) w.steps
      → Answers (λ d. mem d (ids w.steps)) [] w.steps r
      → Fulfils (verdict w r)
  verdict-Fulfils w (sorted ls) e n f d k a = record {
    named = n;
    filled = f;
    distinct = d;
    known = k;
    order = (ls, e);
  }
  verdict-Fulfils w (cycle left) e n f d k a =
      let seen = ids w.steps in
      (
        a.0,
        blocked_within seen left left
            (omega (
              arith,
              a.2 (λ s. any (λ d. not (mem d seen)) s.depends_on),
              none_unknown seen w.steps k,
            ))
            a.1,
      )
  verdict-Fulfils w unfinished e n f d k a = a

  fresh_start : (ss : List (Step A)) → All (λ s. has {V = Step A} [] s.id ≡ false) ss
  unfolding has
  fresh_start [] = tt
  fresh_start (s ∷ ss) = (refl, fresh_start ss)

  validate-Fulfils :
      (w : WorkflowDefinition A)
      → (w.name == "") ≡ false
      → 0 < length w.steps
      → IsDistinct (ids w.steps)
      → Fulfils (validate w)
  unfolding check_dependencies
  validate-Fulfils w n f d = elim (Option-cases (check_dependencies (ids w.steps) w.steps)) [
    | inl e ↦
        rw (e, Fulfils, validate)
          (verdict-Fulfils w (topological_order w) refl n f d
            (check_dependencies-none (ids w.steps) w.steps e)
            (subst (λ ss. Answers (λ d. mem d (ids ss)) [] ss (topological_order w))
              (step_map_distinct w.steps [] d (fresh_start w.steps)) (topological_order-Answers w)))
    | inr ((step, dep), e) ↦ rw (e, Fulfils, validate) tt
  ]

  -- No error in reading the steps is one of those of the sorting.
  abbrev ReadFulfils : StepsRead A → Type 0
  ReadFulfils (steps_read ss) = Unit
  ReadFulfils (read_error e) = Fulfils (refused e)

  more_steps-ReadFulfils :
      (s : Step A) (r : StepsRead A) → ReadFulfils r → ReadFulfils (more_steps s r)
  more_steps-ReadFulfils s (steps_read ss) h = tt
  more_steps-ReadFulfils s (read_error e) h = h

  read_steps-ReadFulfils :
      (no_args : A) (raws : List (RawStep A)) (seen : List String)
      → ReadFulfils (read_steps no_args seen raws)
  unfolding read_steps from_dict
  read_steps-ReadFulfils no_args [] seen = tt
  read_steps-ReadFulfils no_args (raw ∷ raws) seen = elim (Option-cases raw.id) [
    | inl e ↦ rw (e, read_steps) tt
    | inr (id, e) ↦ elim (Bool-cases (mem id seen)) [
      | inl b ↦ rw (e, read_steps, b) tt
      | inr b ↦
          rw (e, read_steps, b)
            (more_steps-ReadFulfils (from_dict no_args id raw) (read_steps no_args (id ∷ seen) raws)
              (read_steps-ReadFulfils no_args raws (id ∷ seen)))
    ]
  ]

  defined-Fulfils :
      (no_args : A) (name : String) (raw : RawWorkflow A) (r : StepsRead A)
      → (name == "") ≡ false
      → ReadWell [] r
      → ReadFulfils r
      → IsFilled r
      → Fulfils (defined no_args name raw r)
  defined-Fulfils no_args name raw (read_error e) n w f p = f
  defined-Fulfils no_args name raw (steps_read ss) n w f p = validate-Fulfils _ n p w.0

  -- A workflow that was parsed is valid: it has a name and steps, no id stands twice, each dependency
  -- is the id of a step, and the sorting gives levels. If it was refused as cyclic, then some steps,
  -- at least one, each depend on one of them; and the sorting never runs out of rounds.
  pub parse_workflow-Fulfils :
      (no_args : A) (raw : RawWorkflow A) → Fulfils (parse_workflow no_args raw)
  unfolding parse_workflow
  parse_workflow-Fulfils no_args raw = elim (Bool-cases (or_else "" raw.name == "")) [
    | inl b ↦ rw b tt
    | inr b ↦ rw b (go (or_else [] raw.steps) b)
  ]
    where
      name : String
      name = or_else "" raw.name

      go :
          (raws : List (RawStep A))
          → (name == "") ≡ false
          → Fulfils (elim raws [
            | [] ↦ refused no_steps
            | r ∷ rs ↦ defined no_args name raw (read_steps no_args [] (r ∷ rs))
          ])
      go [] b = tt
      go (r ∷ rs) b =
          defined-Fulfils no_args name raw (read_steps no_args [] (r ∷ rs)) b
            (read_steps-ReadWell no_args (r ∷ rs) []) (read_steps-ReadFulfils no_args (r ∷ rs) [])
            (read_steps-IsFilled no_args r rs [])
