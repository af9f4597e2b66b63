-- ===== src/Workflow/Reading.antt =====
-- Reading the steps of a workflow: their ids, their number, and the map made of them.
use argus_mcp.Base.{
  ◌<◌, ◌≡◌, inl, inr, refl, true, false, String, none, List, [], ◌∷◌, ◌++◌, arith, length, All,
  Bool-cases, Option-cases, text_keys, eq_iff, ◌∙◌, ap,
}
use argus_mcp.Base.Dict.{Dict, insert, values, has, has-insert}
use argus_mcp.Workflow.{
  mem, Step, RawStep, StepsRead, steps_read, read_error, ids, step_map, from_dict, read_steps,
  unknown_of, check_dependencies, more_steps,
}

pub unknown_of-none :
    (seen ds : List String) → unknown_of seen ds ≡ none → All (λ d. mem d seen ≡ true) ds
unfolding unknown_of
unknown_of-none seen [] h = tt
unknown_of-none seen (d ∷ ds) h = ground (arith, unknown_of-none seen ds)

abbrev pub IsDistinct : List String → Type 0
IsDistinct [] = Unit
IsDistinct (x ∷ xs) = (mem x xs ≡ false) × IsDistinct xs

-- None of these texts is among those.
abbrev Apart : List String → List String → Type 0
Apart xs seen = All (λ x. mem x seen ≡ false) xs

Apart-cons :
    (x : String) (xs seen : List String) → Apart xs (x ∷ seen) → (mem x xs ≡ false) × Apart xs seen
Apart-cons x [] seen h = (refl, tt)
Apart-cons x (y ∷ ys) seen h = ground (arith, eq_iff x y, eq_iff y x, Apart-cons x ys seen h.1)

module _ {A : Type 0} where
  pub check_dependencies-none :
      (seen : List String) (ss : List (Step A))
      → check_dependencies seen ss ≡ none
      → All (λ s. All (λ d. mem d seen ≡ true) s.depends_on) ss
  unfolding check_dependencies
  check_dependencies-none seen [] h = tt
  check_dependencies-none seen (s ∷ ss) h = elim (Option-cases (unknown_of seen s.depends_on)) [
    | inl e ↦ (
      unknown_of-none seen s.depends_on e,
      check_dependencies-none seen ss (rw (check_dependencies, e) at h),
    )
    | inr (d, e) ↦ absurd (ground arith)
  ]

  abbrev pub ReadWell : List String → StepsRead A → Type 0
  ReadWell seen (steps_read ss) = IsDistinct (ids ss) × Apart (ids ss) seen
  ReadWell seen (read_error e) = Unit

  more_steps-ReadWell :
      (s : Step A) (seen : List String) (r : StepsRead A)
      → mem s.id seen ≡ false
      → ReadWell (s.id ∷ seen) r
      → ReadWell seen (more_steps s r)
  more_steps-ReadWell s seen (read_error e) h v = tt
  more_steps-ReadWell s seen (steps_read ss) h v =
      let (fresh, apart) = Apart-cons s.id (ids ss) seen v.1 in ((fresh, v.0), (h, apart))

  pub read_steps-ReadWell :
      (no_args : A) (raws : List (RawStep A)) (seen : List String)
      → ReadWell seen (read_steps no_args seen raws)
  unfolding read_steps from_dict
  read_steps-ReadWell no_args [] seen = (tt, tt)
  read_steps-ReadWell no_args (raw ∷ raws) seen = elim (Option-cases raw.id) [
    | inl e ↦ rw (e, read_steps) tt
    | inr (id, e) ↦ elim (Bool-cases (mem id seen)) [
      | inl b ↦ rw (e, read_steps, b) tt
      | inr b ↦
          rw (e, read_steps, b)
            (more_steps-ReadWell (from_dict no_args id raw) seen
              (read_steps no_args (id ∷ seen) raws) b
              (read_steps-ReadWell no_args raws (id ∷ seen)))
    ]
  ]

  append_nil : (xs : List (Step A)) → xs ≡ xs ++ []
  append_nil [] = refl
  append_nil (x ∷ xs) = ap (λ zs. x ∷ zs) (append_nil xs)

  -- A new id is appended.
  values-insert :
      (d : Dict String (Step A)) (s : Step A)
      → has d s.id ≡ false
      → values (insert d s.id s) ≡ values d ++ s ∷ []
  unfolding insert has
  values-insert [] s h = refl
  values-insert ((k, t) ∷ d) s h = ground (arith, values-insert d s)

  append_one : (xs ys : List (Step A)) (s : Step A) → (xs ++ s ∷ []) ++ ys ≡ xs ++ s ∷ ys
  append_one [] ys s = refl
  append_one (x ∷ xs) ys s = ap (λ zs. x ∷ zs) (append_one xs ys s)

  still_fresh :
      (ss : List (Step A)) (d : Dict String (Step A)) (s : Step A)
      → mem s.id (ids ss) ≡ false
      → All (λ t. has d t.id ≡ false) ss
      → All (λ t. has (insert d s.id s) t.id ≡ false) ss
  still_fresh [] d s m h = tt
  still_fresh (t ∷ ss) d s m h =
      ground
        (arith, has-insert d s.id s t.id, eq_iff s.id t.id, eq_iff t.id s.id, still_fresh ss d s)

  pub step_map_distinct :
      (ss : List (Step A)) (d : Dict String (Step A))
      → IsDistinct (ids ss)
      → All (λ s. has d s.id ≡ false) ss
      → values (step_map ss d) ≡ values d ++ ss
  unfolding step_map
  step_map_distinct [] d u h = append_nil (values d)
  step_map_distinct (s ∷ ss) d u h =
      step_map_distinct ss (insert d s.id s) u.1 (still_fresh ss d s u.0 h.1)
      ∙ ap (λ xs. xs ++ ss) (values-insert d s h.0)
      ∙ append_one (values d) ss s

  abbrev pub IsFilled : StepsRead A → Type 0
  IsFilled (steps_read ss) = 0 < length ss
  IsFilled (read_error e) = Unit

  more_steps-IsFilled : (s : Step A) (r : StepsRead A) → IsFilled (more_steps s r)
  more_steps-IsFilled s (steps_read ss) = omega arith
  more_steps-IsFilled s (read_error e) = tt

  pub read_steps-IsFilled :
      (no_args : A) (raw : RawStep A) (raws : List (RawStep A)) (seen : List String)
      → IsFilled (read_steps no_args seen (raw ∷ raws))
  unfolding read_steps from_dict
  read_steps-IsFilled no_args raw raws seen = elim (Option-cases raw.id) [
    | inl e ↦ rw (e, read_steps) tt
    | inr (id, e) ↦ elim (Bool-cases (mem id seen)) [
      | inl b ↦ rw (e, read_steps, b) tt
      | inr b ↦
          rw (e, read_steps, b)
            (more_steps-IsFilled (from_dict no_args id raw) (read_steps no_args (id ∷ seen) raws))
    ]
  ]
