-- ===== src/Diff/Partition.antt =====
-- What the difference of two configurations says of a name.
use argus_mcp.Base.{
  ◌≡◌, refl, Bool, false, String, Option, none, some, List, [], ◌∷◌, not, ◌&&◌, ◌||◌, select,
  contains, arith, Comparable, text_keys, ◌==◌, ==_refl, ◌∙◌, ap,
}
use argus_mcp.Base.Dict.{Dict, get, has, keys}
use argus_mcp.Diff.{
  StdioParams, BackendConfig, differ, params_differ, configs_differ, both_differ, compute_diff,
}

contains-keys : {V : Type 0} (d : Dict String V) (x : String) → contains x (keys d) ≡ has d x
unfolding has
contains-keys [] x = refl
contains-keys ((k, v) ∷ d) x = ap (λ b. k == x || b) (contains-keys d x)

contains-select :
    (p : String → Bool) (xs : List String) (x : String)
    → contains x (select p xs) ≡ (contains x xs && p x)
contains-select p [] x = refl
contains-select p (y ∷ ys) x = ground (arith, contains-select p ys x, text_keys.equals_iff y x)

differ-same : {W : Type 0} ⦃w : Comparable W⦄ (a : Option W) → differ a a ≡ false
differ-same none = refl
differ-same (some x) = rw (==_refl x) refl

module _ {V : Type 0} ⦃c : Comparable V⦄ where
  -- Every name is classified once: added if only the new configuration has it, removed if only the
  -- old one has, changed if both have it and the two configurations differ, and in none of the three
  -- otherwise.
  pub compute_diff-partition :
      (old new : Dict String (BackendConfig V)) (x : String)
      → (contains x (compute_diff old new).added ≡ (has new x && not (has old x)))
        × (contains x (compute_diff old new).removed ≡ (has old x && not (has new x)))
        × (contains x (compute_diff old new).changed
            ≡ (has old x && (has new x && both_differ (get old x) (get new x))))
  unfolding compute_diff
  compute_diff-partition old new x = (
    contains-select _ (keys new) x ∙ ap (λ b. b && not (has old x)) (contains-keys new x),
    contains-select _ (keys old) x ∙ ap (λ b. b && not (has new x)) (contains-keys old x),
    contains-select _ (keys old) x
        ∙ ap (λ b. b && (has new x && both_differ (get old x) (get new x))) (contains-keys old x),
  )

  params_differ-same : (p : Option (StdioParams V)) → params_differ p p ≡ false
  params_differ-same none = refl
  params_differ-same (some p) = rw (==_refl p.command, ==_refl p.args, differ-same p.env) refl

  -- A configuration does not differ from itself.
  pub configs_differ-same : (b : BackendConfig V) → configs_differ b b ≡ false
  unfolding configs_differ
  configs_differ-same b =
      rw
        (
          differ-same b.type,
          params_differ-same b.params,
          differ-same b.url,
          differ-same b.command,
          differ-same b.args,
          differ-same b.env,
          differ-same b.headers,
          differ-same b.auth,
        )
        (ground arith)
