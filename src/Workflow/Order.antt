-- ===== src/Workflow/Order.antt =====
-- The levels of a workflow: what the sorting promises, and what its error means.
use argus_mcp.Base.{
  ℕ, zero, suc, ◌+◌, ◌≤◌, ◌<◌, ◌≡◌, inl, inr, refl, Bool, true, false, String, List, [], ◌∷◌, ◌++◌,
  not, ◌||◌, arith, all, any, select, length, count, All, text_keys, ap, Bool-cases,
}
use argus_mcp.Base.Dict.{values}
use argus_mcp.Workflow.{
  mem, Step, Levels, sorted, cycle, unfinished, ids, is_ready, level_of, levels, WorkflowDefinition,
  step_map, topological_order,
}

all-All :
    (completed ds : List String)
    → all (λ d. mem d completed) ds ≡ true
    → All (λ d. mem d completed ≡ true) ds
all-All completed [] h = tt
all-All completed (d ∷ ds) h = ground (arith, all-All completed ds)

any_of : (p : String → Bool) (ds : List String) → all p ds ≡ false → any (λ d. not (p d)) ds ≡ true
any_of p [] h = cc
any_of p (d ∷ ds) h = ground (arith, any_of p ds)

any_weaken :
    (p q : String → Bool) (ds : List String)
    → ((d : String) → p d ≡ true → q d ≡ true)
    → any p ds ≡ true
    → any q ds ≡ true
any_weaken p q [] h k = k
any_weaken p q (d ∷ ds) h k = ground (arith, h d, any_weaken p q ds h)

mem-append : (x : String) (xs ys : List String) → mem x (xs ++ ys) ≡ (mem x xs || mem x ys)
mem-append x [] ys = refl
mem-append x (y ∷ xs) ys = ground (arith, mem-append x xs ys)

module _ {A : Type 0} where
  -- Each step of a level depends only on steps of earlier levels.
  abbrev pub InOrder : List String → List (List (Step A)) → Type 0
  InOrder completed [] = Unit
  InOrder completed (level ∷ ls) =
      All (λ s. All (λ d. mem d completed ≡ true) s.depends_on) level
      × InOrder (completed ++ ids level) ls

  abbrev pub flat : List (List (Step A)) → List (Step A)
  flat [] = []
  flat (level ∷ ls) = level ++ flat ls

  select-ready :
      (completed : List String) (ss : List (Step A))
      → All (λ s. All (λ d. mem d completed ≡ true) s.depends_on) (select (is_ready completed) ss)
  select-ready completed [] = tt
  select-ready completed (s ∷ ss) =
      ground (arith, select-ready completed ss, all-All completed s.depends_on)

  count_parts :
      (p q : Step A → Bool) (ss : List (Step A))
      → count p (select q ss) + count p (select (λ s. not (q s)) ss) ≡ count p ss
  count_parts p q [] = refl
  count_parts p q (s ∷ ss) = ground (arith, count_parts p q ss)

  length_parts :
      (q : Step A → Bool) (ss : List (Step A))
      → length (select q ss) + length (select (λ s. not (q s)) ss) ≡ length ss
  length_parts q [] = refl
  length_parts q (s ∷ ss) = ground (arith, length_parts q ss)

  count-append :
      (p : Step A → Bool) (xs ys : List (Step A)) → count p (xs ++ ys) ≡ count p xs + count p ys
  count-append p [] ys = omega arith
  count-append p (x ∷ xs) ys = omega (arith, count-append p xs ys)

  -- The step depends on one of those that are left, or on an id that nobody has.
  abbrev pub blocked : (String → Bool) → List (Step A) → Step A → Bool
  blocked known left s = any (λ d. mem d (ids left) || not (known d)) s.depends_on

  -- The levels hold the steps, each as often, none is empty, and each follows its dependencies. The
  -- error comes with some of the steps, not none, and each of them is blocked.
  abbrev pub Answers : (String → Bool) → List String → List (Step A) → Levels A → Type 0
  Answers known completed ss (sorted ls) =
      InOrder completed ls
      × All (λ level. 0 < length level) ls
      × ((p : Step A → Bool) → count p (flat ls) ≡ count p ss)
  Answers known completed ss (cycle left) =
      (0 < length left)
      × All (λ s. blocked known left s ≡ true) left
      × ((p : Step A → Bool) → count p left ≤ count p ss)
  Answers known completed ss unfinished = ⊥

  mem-parts :
      (d : String) (q : Step A → Bool) (ss : List (Step A))
      → (mem d (ids (select q ss)) || mem d (ids (select (λ s. not (q s)) ss))) ≡ mem d (ids ss)
  mem-parts d q [] = refl
  mem-parts d q (s ∷ ss) = ground (arith, mem-parts d q ss)

  none_ready :
      (known : String → Bool) (completed : List String) (left ss : List (Step A))
      → ((d : String) → known d ≡ (mem d completed || mem d (ids left)))
      → select (is_ready completed) ss ≡ []
      → All (λ s. blocked known left s ≡ true) ss
  none_ready known completed left [] k h = tt
  none_ready known completed left (s ∷ ss) k h =
      let p : String → Bool = λ d. mem d completed in
      elim (Bool-cases (is_ready completed s)) [
        | inl b ↦ absurd (ground arith)
        | inr b ↦ (
          any_weaken (λ d. not (p d)) (λ d. mem d (ids left) || not (known d)) s.depends_on
              (λ d n. ground (arith, k d)) (any_of p s.depends_on b),
          none_ready known completed left ss k (ground arith),
        )
      ]

  pub levels-Answers :
      (known : String → Bool) (fuel : ℕ) (completed : List String) (ss : List (Step A))
      → length ss ≤ fuel
      → ((d : String) → known d ≡ (mem d completed || mem d (ids ss)))
      → Answers known completed ss (levels fuel completed ss)
  unfolding levels
  levels-Answers known zero completed [] f k = (tt, tt, λ p. refl)
  levels-Answers known (suc fuel) completed [] f k = (tt, tt, λ p. refl)
  levels-Answers known zero completed (s ∷ ss) f k = absurd (omega arith)
  levels-Answers known (suc fuel) completed (s ∷ ss) f k =
      go (λ done. levels-Answers known fuel (completed ++ done) rest)
        (select (is_ready completed) (s ∷ ss)) refl (select-ready completed (s ∷ ss))
    where
      all_steps : List (Step A)
      all_steps = s ∷ ss

      rest : List (Step A)
      rest = select (λ t. not (is_ready completed t)) (s ∷ ss)

      joined :
          (ready : List (Step A)) (r : Levels A)
          → select (is_ready completed) all_steps ≡ ready
          → 0 < length ready
          → All (λ s. All (λ d. mem d completed ≡ true) s.depends_on) ready
          → Answers known (completed ++ ids ready) rest r
          → Answers known completed all_steps (level_of all_steps ready r)
      joined [] r e h a v = absurd (omega arith)
      joined (x ∷ xs) (sorted ls) e h a v = (
        (a, v.0),
        (h, v.1),
        λ p. omega (
          arith,
          v.2 p,
          count_parts p (is_ready completed) all_steps,
          ap (count p) e,
          count-append p (x ∷ xs) (flat ls),
        ),
      )
      joined (x ∷ xs) (cycle left) e h a v =
          (v.0, v.1, λ p. omega (arith, v.2 p, count_parts p (is_ready completed) all_steps))
      joined (x ∷ xs) unfinished e h a v = v

      go :
          ((done : List String)
            → length rest ≤ fuel
            → ((d : String) → known d ≡ (mem d (completed ++ done) || mem d (ids rest)))
            → Answers known (completed ++ done) rest (levels fuel (completed ++ done) rest))
          → (ready : List (Step A)) → select (is_ready completed) all_steps ≡ ready
          → All (λ s. All (λ d. mem d completed ≡ true) s.depends_on) ready
          → Answers known completed all_steps
              (level_of all_steps ready (levels fuel (completed ++ ids ready) rest))
      go rec [] e a =
          (omega arith, none_ready known completed all_steps all_steps k e, λ p. omega arith)
      go rec (x ∷ xs) e a =
          joined (x ∷ xs) (levels fuel (completed ++ ids (x ∷ xs)) rest) e (omega arith) a (
            rec (ids (x ∷ xs))
              (omega (arith, length_parts (is_ready completed) all_steps, ap length e))
              (λ d. ground (
                arith,
                k d,
                mem-parts d (is_ready completed) all_steps,
                e,
                mem-append d completed (ids (x ∷ xs)),
              )))

  -- The steps of a workflow, of two with one id the last.
  abbrev pub steps_of : WorkflowDefinition A → List (Step A)
  steps_of w = values (step_map w.steps [])

  -- The sorting of a workflow always comes to an answer. Either it is a list of levels that are not
  -- empty, that together hold each step as often as the workflow's map of steps, and in which each
  -- step depends only on steps of earlier levels; or it is the error with some of these steps, at
  -- least one, each of which depends on one of them or on an id that no step has.
  pub topological_order-Answers :
      (w : WorkflowDefinition A)
      → Answers (λ d. mem d (ids (steps_of w))) [] (steps_of w) (topological_order w)
  unfolding topological_order
  topological_order-Answers w =
      levels-Answers (λ d. mem d (ids (steps_of w))) (length (steps_of w)) [] (steps_of w)
        (omega arith) (λ d. refl)
