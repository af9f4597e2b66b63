-- ===== src/Startup/Alone.antt =====
-- The retries of a backend against those of a backend that is alone.
use argus_mcp.Base.{
  ℕ, zero, suc, ◌+◌, ◌≤◌, ◌-◌, ◌≡◌, refl, ap, sym, subst, ◌∙◌, Bool, true, false, Bool-cases, inl,
  inr, String, List, [], ◌∷◌, ◌++◌, map, not, ◌&&◌, ◌||◌, length, select, contains, if◌then◌else◌,
  text_keys, ◌==◌, arith,
}
use argus_mcp.Base.Dict.{Dict, get}
use argus_mcp.Startup.{
  StartConfig, retries_of, allowed, launch_retry_tasks, still_failed, retry_attempts, is_empty,
  retry_failed_backends, most_retries,
}

-- The attempts at which a name was started.
abbrev pub attempts_of : String → List (String × ℕ) → List ℕ
attempts_of x [] = []
attempts_of x ((n, a) ∷ log) = let rest = attempts_of x log in if n == x then a ∷ rest else rest

abbrev pub Distinct : List String → Type 0
Distinct [] = Unit
Distinct (x ∷ xs) = (contains x xs ≡ false) × Distinct xs

attempts_of-append :
    (x : String) (l m : List (String × ℕ))
    → attempts_of x (l ++ m) ≡ attempts_of x l ++ attempts_of x m
attempts_of-append x [] m = refl
attempts_of-append x ((n, a) ∷ l) m = elim (Bool-cases (n == x)) [
  | inl b ↦ rw b (ap (λ r. a ∷ r) (attempts_of-append x l m))
  | inr b ↦ rw b (attempts_of-append x l m)
]

absent-select :
    (p : String → Bool) (xs : List String) (x : String)
    → contains x xs ≡ false
    → contains x (select p xs) ≡ false
absent-select p [] x h = refl
absent-select p (y ∷ ys) x h = ground (arith, absent-select p ys x, h)

select-Distinct : (p : String → Bool) (xs : List String) → Distinct xs → Distinct (select p xs)
select-Distinct p [] d = tt
select-Distinct p (y ∷ ys) (d, ds) = elim (Bool-cases (p y)) [
  | inl b ↦ rw b (absent-select p ys y d, select-Distinct p ys ds)
  | inr b ↦ rw b (select-Distinct p ys ds)
]

absent-map :
    (xs : List String) (x : String) (a : ℕ)
    → contains x xs ≡ false
    → attempts_of x (map (λ n. (n, a)) xs) ≡ []
absent-map [] x a h = refl
absent-map (y ∷ ys) x a h = ground (arith, absent-map ys x a, h)

in_rest :
    (y : String) (ys : List String) (x : String)
    → (y == x) ≡ false
    → contains x (y ∷ ys) ≡ true
    → contains x ys ≡ true
in_rest y ys x b h = ground (arith, b, h)

present-map :
    (xs : List String) (x : String) (a : ℕ)
    → contains x xs ≡ true
    → Distinct xs
    → attempts_of x (map (λ n. (n, a)) xs) ≡ a ∷ []
present-map [] x a h d = absurd (cc)
present-map (y ∷ ys) x a h (d, ds) = elim (Bool-cases (y == x)) [
  | inr b ↦ rw b (present-map ys x a (in_rest y ys x b h) ds)
  | inl b ↦ rw b (
      ap (λ r. a ∷ r)
        (absent-map ys x a (subst (λ z. contains z ys ≡ false) ((text_keys.equals_iff y x).0 b) d)))
]

contains-select :
    (p : String → Bool) (xs : List String) (x : String)
    → contains x (select p xs) ≡ (contains x xs && p x)
contains-select p [] x = refl
contains-select p (y ∷ ys) x = ground (arith, contains-select p ys x, text_keys.equals_iff y x)

module _ (config : Dict String StartConfig) (opens : String → ℕ → Bool) (shutdown : ℕ → Bool) where
  -- The attempts at which a backend is started that is the only one to be retried.
  abbrev pub alone : ℕ → ℕ → String → List ℕ
  alone zero attempt x = []
  alone (suc left) attempt x =
      let rest = alone left (attempt + 1) x in
      if shutdown attempt
      then []
      else if allowed config opens shutdown attempt x
      then attempt ∷ (if opens x attempt then [] else rest)
      else rest

  retry-absent :
      (left attempt : ℕ) (failed : List String) (x : String)
      → contains x failed ≡ false
      → attempts_of x (retry_attempts config opens shutdown left attempt failed).starts ≡ []
  unfolding retry_attempts
  retry-absent zero attempt failed x h = refl
  retry-absent (suc left) attempt failed x h =
      elim (Bool-cases (is_empty failed || shutdown attempt)) [
        | inl b ↦ rw b refl
        | inr b ↦ rw b (
            attempts_of-append x (launch_retry_tasks config opens shutdown attempt failed) _
            ∙ rw
                (
                  absent-map (select (allowed config opens shutdown attempt) failed) x attempt
                      (absent-select (allowed config opens shutdown attempt) failed x h),
                  retry-absent left (attempt + 1)
                      (still_failed config opens shutdown attempt failed) x
                      (absent-select _ failed x h),
                )
                refl)
      ]

  launched :
      (attempt : ℕ) (failed : List String) (x : String)
      → contains x failed ≡ true
      → Distinct failed
      → attempts_of x (launch_retry_tasks config opens shutdown attempt failed)
        ≡ (if allowed config opens shutdown attempt x then attempt ∷ [] else [])
  launched attempt failed x h d = elim (Bool-cases (allowed config opens shutdown attempt x)) [
    | inl b ↦ rw b (
        present-map (select (allowed config opens shutdown attempt) failed) x attempt
          (contains-select _ failed x ∙ rw (h, b) refl) (select-Distinct _ failed d))
    | inr b ↦ rw b (
        absent-map (select (allowed config opens shutdown attempt) failed) x attempt
          (contains-select _ failed x ∙ rw (h, b) refl))
  ]

  kept :
      (attempt : ℕ) (failed : List String) (x : String)
      → contains x failed ≡ true
      → contains x (still_failed config opens shutdown attempt failed)
        ≡ not (allowed config opens shutdown attempt x && opens x attempt)
  kept attempt failed x h = contains-select _ failed x ∙ rw h refl

  not_empty : (xs : List String) (x : String) → contains x xs ≡ true → is_empty xs ≡ false
  not_empty [] x h = absurd (cc)
  not_empty (y ∷ ys) x h = refl

  one_turn :
      (a o : Bool) (attempt : ℕ) (rest mine : List ℕ)
      → (not (a && o) ≡ false → rest ≡ [])
      → (not (a && o) ≡ true → rest ≡ mine)
      → (if a then attempt ∷ [] else []) ++ rest
        ≡ (if a then attempt ∷ (if o then [] else mine) else mine)
  one_turn true true attempt rest mine h k = ap (λ r. attempt ∷ r) (h refl)
  one_turn true false attempt rest mine h k = ap (λ r. attempt ∷ r) (k refl)
  one_turn false o attempt rest mine h k = k refl

  retry-alone :
      (left attempt : ℕ) (failed : List String) (x : String)
      → contains x failed ≡ true
      → Distinct failed
      → attempts_of x (retry_attempts config opens shutdown left attempt failed).starts
        ≡ alone left attempt x
  unfolding retry_attempts
  retry-alone zero attempt failed x h d = refl
  retry-alone (suc left) attempt failed x h d = elim (Bool-cases (shutdown attempt)) [
    | inl b ↦ rw (not_empty failed x h, b) refl
    | inr b ↦
        rw (not_empty failed x h, b)
          (attempts_of-append x (launch_retry_tasks config opens shutdown attempt failed) _
            ∙ rw (launched attempt failed x h d) (
                one_turn (allowed config opens shutdown attempt x) (opens x attempt) attempt _
                  (alone left (attempt + 1) x)
                  (λ q.
                    retry-absent left (attempt + 1)
                      (still_failed config opens shutdown attempt failed) x
                      (kept attempt failed x h ∙ q))
                  (λ q.
                    retry-alone left (attempt + 1)
                      (still_failed config opens shutdown attempt failed) x
                      (kept attempt failed x h ∙ q) (select-Distinct _ failed d))))
  ]

  alone-bounds :
      (left attempt : ℕ) (x : String)
      → length (alone left attempt x) ≤ (retries_of (get config x) + 1) - attempt
  alone-bounds zero attempt x = omega arith
  alone-bounds (suc left) attempt x = ground (arith, alone-bounds left (attempt + 1) x)

  alone-spent :
      (left attempt : ℕ) (x : String)
      → retries_of (get config x) + 1 ≤ attempt
      → alone left attempt x ≡ []
  alone-spent zero attempt x h = refl
  alone-spent (suc left) attempt x h = ground (arith, alone-spent left (attempt + 1) x)

  -- Attempts beyond the retries of the backend add nothing.
  alone-enough :
      (left left' attempt : ℕ) (x : String)
      → retries_of (get config x) + 1 ≤ left + attempt
      → retries_of (get config x) + 1 ≤ left' + attempt
      → alone left attempt x ≡ alone left' attempt x
  alone-enough zero zero attempt x h k = refl
  alone-enough zero (suc left') attempt x h k =
      sym (alone-spent (suc left') attempt x (omega (arith, h)))
  alone-enough (suc left) zero attempt x h k = alone-spent (suc left) attempt x (omega (arith, k))
  alone-enough (suc left) (suc left') attempt x h k =
      rw (alone-enough left left' (attempt + 1) x (omega (arith, h)) (omega (arith, k))) refl

  retries-most :
      (failed : List String) (x : String)
      → contains x failed ≡ true
      → retries_of (get config x) ≤ most_retries config failed
  retries-most [] x h = absurd (cc)
  retries-most (y ∷ ys) x h = elim (Bool-cases (y == x)) [
    | inl b ↦
        subst (λ z. retries_of (get config z) ≤ most_retries config (y ∷ ys))
          ((text_keys.equals_iff y x).0 b) (omega arith)
    | inr b ↦ omega (arith, retries-most ys x (in_rest y ys x b h))
  ]

  starts-alone :
      (failed : List String) (x : String)
      → contains x failed ≡ true
      → Distinct failed
      → attempts_of x (retry_failed_backends config opens shutdown failed).starts
        ≡ alone (retries_of (get config x)) 1 x
  unfolding retry_failed_backends
  starts-alone failed x h d =
      retry-alone (most_retries config failed) 1 failed x h d
      ∙ alone-enough (most_retries config failed) (retries_of (get config x)) 1 x
          (omega (arith, retries-most failed x h)) (omega arith)

  -- In the retry phase, where each backend that failed is listed once, a backend that failed is
  -- started at exactly the attempts at which it is started when it is the only one, whatever the
  -- others are, whatever their number of retries and whatever they do; and these attempts are never
  -- more than its own retries.
  pub retry_failed_backends-alone :
      (failed : List String) (x : String)
      → contains x failed ≡ true
      → Distinct failed
      → (attempts_of x (retry_failed_backends config opens shutdown failed).starts
          ≡ attempts_of x (retry_failed_backends config opens shutdown (x ∷ [])).starts)
        × (length (attempts_of x (retry_failed_backends config opens shutdown failed).starts)
            ≤ retries_of (get config x))
  retry_failed_backends-alone failed x h d =
      let e = starts-alone failed x h d in
      let one : contains x (x ∷ []) ≡ true = ground (arith, text_keys.equals_iff x x) in
      (
        e ∙ sym (starts-alone (x ∷ []) x one (refl, tt)),
        rw e (omega (arith, alone-bounds (retries_of (get config x)) 1 x)),
      )
