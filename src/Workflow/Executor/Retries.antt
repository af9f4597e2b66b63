-- ===== src/Workflow/Executor/Retries.antt =====
-- The retries of a step of a workflow.
use argus_mcp.Base.{
  ℕ, zero, suc, ◌+◌, ◌<◌, ◌≡◌, ◌⊎◌, inl, inr, refl, String, Option, none, some, arith, text_keys,
  subst, ap, sym,
}
use argus_mcp.Workflow.Executor.{
  StepResult, Outcome, done, raised, completed_with, failed_with, try,
}

module _ {O : Type 0} where
  abbrev pub Raises : Outcome O → Type 0
  Raises r = (e : String) × (r ≡ raised e)

  -- Call number `from + i` is the first of the `n` calls to return.
  pub record ReturnsAt (call : ℕ → Outcome O) (id : String) (from n : ℕ) (r : StepResult O)
      : Type 0 where
    pub attempt : ℕ
    pub output : O
    pub in_time : attempt < n
    pub answer : call (from + attempt) ≡ done output
    pub before : (j : ℕ) → j < attempt → Raises (call (from + j))
    pub result : r ≡ completed_with id output

  abbrev pub error_of : Outcome O → Option String
  error_of (done o) = none
  error_of (raised e) = some e

  -- All of the `n + 1` calls raise, and the result has the error of the last.
  pub record GivesUp (call : ℕ → Outcome O) (id : String) (from n : ℕ) (r : StepResult O)
      : Type 0 where
    pub all_raise : (j : ℕ) → j < suc n → Raises (call (from + j))
    pub result : r ≡ failed_with id (error_of (call (from + n)))

  shift :
      (call : ℕ → Outcome O) (from : ℕ) (e : String) (n : ℕ)
      → call from ≡ raised e
      → ((j : ℕ) → j < n → Raises (call (suc from + j)))
      → (j : ℕ) → j < suc n
      → Raises (call (from + j))
  shift call from e n h k zero l = (e, subst (λ i. call i ≡ raised e) (omega arith) h)
  shift call from e n h k (suc j) l =
      let (x, q) = k j (omega arith) in (x, subst (λ i. call i ≡ raised x) (omega arith) q)

  returns_first :
      (call : ℕ → Outcome O) (id : String) (n from : ℕ) (o : O)
      → call from ≡ done o
      → ReturnsAt call id from (suc n) (completed_with id o)
  returns_first call id n from o h = record {
    attempt = 0;
    output = o;
    in_time = omega arith;
    answer = subst (λ i. call i ≡ done o) (omega arith) h;
    before = λ j l. absurd (omega arith);
    result = refl;
  }

  later :
      (call : ℕ → Outcome O) (id : String) (n from : ℕ) (e : String) (r : StepResult O)
      → call from ≡ raised e
      → ReturnsAt call id (suc from) (suc n) r ⊎ GivesUp call id (suc from) n r
      → ReturnsAt call id from (suc (suc n)) r ⊎ GivesUp call id from (suc n) r
  later call id n from e r h (inl v) = inl (record {
    attempt = suc v.attempt;
    output = v.output;
    in_time = omega (arith, v.in_time);
    answer = subst (λ i. call i ≡ done v.output) (omega arith) v.answer;
    before = shift call from e v.attempt h v.before;
    result = v.result;
  })
  later call id n from e r h (inr v) = inr (record {
    all_raise = shift call from e (suc n) h v.all_raise;
    result = subst (λ i. r ≡ failed_with id (error_of (call i))) (omega arith) v.result;
  })

  gives_up_once :
      (call : ℕ → Outcome O) (id : String) (from : ℕ) (e : String)
      → call from ≡ raised e
      → GivesUp call id from 0 (failed_with id (some e))
  gives_up_once call id from e h =
      let same : from ≡ from + 0 = omega arith in
      let zeroth : call (from + 0) ≡ raised e = subst (λ i. call i ≡ raised e) same h in
      record {
        all_raise = shift call from e 0 h (λ j l. absurd (omega arith));
        result = ap (λ x. failed_with id (error_of x)) (sym zeroth);
      }

  -- The retry loop of a step from call number `from` on, with `n + 1` attempts: either one of the
  -- calls returns, the calls before it raise, and the step is completed with its output; or all of
  -- them raise, and the step failed with the error of the last.
  pub try_all :
      (call : ℕ → Outcome O) (id : String) (n from : ℕ) (e : Option String)
      → ReturnsAt call id from (suc n) (try call id (suc n) from e)
        ⊎ GivesUp call id from n (try call id (suc n) from e)
  unfolding try
  try_all call id zero from e = first (call from) refl
    where
      first :
          (x : Outcome O)
          → call from ≡ x
          → let r : StepResult O = elim x [
            | done o ↦ completed_with id o
            | raised e ↦ failed_with id (some e)
          ] in
            ReturnsAt call id from 1 r ⊎ GivesUp call id from 0 r
      first (done o) h = inl (returns_first call id 0 from o h)
      first (raised x) h = inr (gives_up_once call id from x h)
  try_all call id (suc n) from e =
      first (λ x. try_all call id n (suc from) (some x)) (call from) refl
    where
      first :
          ((x : String)
            → ReturnsAt call id (suc from) (suc n) (try call id (suc n) (suc from) (some x))
              ⊎ GivesUp call id (suc from) n (try call id (suc n) (suc from) (some x)))
          → (x : Outcome O) → call from ≡ x
          → let r : StepResult O = elim x [
            | done o ↦ completed_with id o
            | raised e ↦ try call id (suc n) (suc from) (some e)
          ] in
            ReturnsAt call id from (suc (suc n)) r ⊎ GivesUp call id from (suc n) r
      first rec (done o) h = inl (returns_first call id (suc n) from o h)
      first rec (raised x) h = later call id n from x _ h (rec x)
