-- ===== src/Plugins/Loaded.antt =====
-- A hook with one plugin more, which adds nothing to the loop.
use argus_mcp.Base.{
  ℕ, ◌≤◌, ◌≡◌, ◌⊎◌, inl, inr, refl, true, false, String, List, [], ◌∷◌, ◌++◌, leb, arith,
  Bool-cases, text_keys, ap, leb→le,
}
use argus_mcp.Base.Dict.{Dict, update}
use argus_mcp.Requests.{Value, Result}
use argus_mcp.Plugins.{
  PluginContext, Plugin, Attempt, kept, touched, merged, stopped, carry, overrides, attempt,
  run_plugins, get_by_hook, insert_by_priority,
}

module _ {A R : Type 0} (hook capability server method : String) (p : Plugin A R) where
  -- The plugin adds nothing to the loop, whatever has been accumulated.
  abbrev pub Passes : Type 0
  Passes =
      (ctx : PluginContext A R) (m : Dict String Value)
      (next : PluginContext A R → Dict String Value → Result (PluginContext A R))
      → carry next ctx m (attempt hook capability server method p ctx) ≡ next ctx m

  -- The first list is the second with `p` somewhere in it.
  abbrev Adds : List (Plugin A R) → List (Plugin A R) → Type 0
  Adds [] ys = ⊥
  Adds (x ∷ xs) ys = ((x ≡ p) × (xs ≡ ys)) ⊎ ((zs : List (Plugin A R)) × (ys ≡ x ∷ zs) × Adds xs zs)

  carry-eq :
      (next next' : PluginContext A R → Dict String Value → Result (PluginContext A R))
      (ctx : PluginContext A R) (m : Dict String Value) (a : Attempt A R)
      → ((c : PluginContext A R) (n : Dict String Value) → next c n ≡ next' c n)
      → carry next ctx m a ≡ carry next' ctx m a
  carry-eq next next' ctx m kept h = h ctx m
  carry-eq next next' ctx m (touched t) h = h _ _
  carry-eq next next' ctx m (merged c) h = h c (update m c.metadata)
  carry-eq next next' ctx m (stopped e) h = refl

  pub run_plugins-Adds :
      Passes
      → (xs ys : List (Plugin A R)) (ctx : PluginContext A R) (m : Dict String Value) → Adds xs ys
      → run_plugins hook capability server method xs ctx m
        ≡ run_plugins hook capability server method ys ctx m
  unfolding run_plugins
  run_plugins-Adds h [] ys ctx m a = elim a [ ]
  run_plugins-Adds h (x ∷ xs) ys ctx m (inl (e, e')) =
      rw (e, e') (h ctx m (run_plugins hook capability server method ys))
  run_plugins-Adds h (x ∷ xs) ys ctx m (inr (zs, e, a)) = rw e (
      carry-eq (run_plugins hook capability server method xs)
        (run_plugins hook capability server method zs) ctx m
        (attempt hook capability server method x ctx) (λ c n. run_plugins-Adds h xs zs c n a))

  -- By priority, from a bound on.
  abbrev IsOrdered : ℕ → List (Plugin A R) → Type 0
  IsOrdered n [] = Unit
  IsOrdered n (x ∷ xs) = (n ≤ x.config.priority) × IsOrdered x.config.priority xs

  insert_by_priority-IsOrdered :
      (n : ℕ) (q : Plugin A R) (xs : List (Plugin A R))
      → n ≤ q.config.priority
      → IsOrdered n xs
      → IsOrdered n (insert_by_priority q xs)
  unfolding insert_by_priority
  insert_by_priority-IsOrdered n q [] l o = (l, tt)
  insert_by_priority-IsOrdered n q (x ∷ xs) l o =
      elim (Bool-cases (leb q.config.priority x.config.priority)) [
        | inl b ↦ rw b (l, (leb→le _ _ b, o.1))
        | inr b ↦ rw b (o.0, insert_by_priority-IsOrdered x.config.priority q xs (ground arith) o.1)
      ]

  get_by_hook-IsOrdered : (xs : List (Plugin A R)) → IsOrdered 0 (get_by_hook hook xs)
  unfolding get_by_hook
  get_by_hook-IsOrdered [] = tt
  get_by_hook-IsOrdered (x ∷ xs) = elim (Bool-cases (overrides (x.hook hook))) [
    | inl b ↦ rw b (
        insert_by_priority-IsOrdered 0 x (get_by_hook hook xs) (omega arith)
          (get_by_hook-IsOrdered xs))
    | inr b ↦ rw b (get_by_hook-IsOrdered xs)
  ]

  -- `q` goes to the front of a list that no plugin before it stands in.
  insert_first :
      (q : Plugin A R) (n : ℕ) (xs : List (Plugin A R))
      → q.config.priority ≤ n
      → IsOrdered n xs
      → insert_by_priority q xs ≡ q ∷ xs
  unfolding insert_by_priority
  insert_first q n [] l o = refl
  insert_first q n (x ∷ xs) l o = ground arith

  insert_self : (xs : List (Plugin A R)) → Adds (insert_by_priority p xs) xs
  unfolding insert_by_priority
  insert_self [] = inl (refl, refl)
  insert_self (x ∷ xs) = elim (Bool-cases (leb p.config.priority x.config.priority)) [
    | inl b ↦ rw b (inl (refl, refl))
    | inr b ↦ rw b (inr (xs, refl, insert_self xs))
  ]

  insert-Adds :
      (q : Plugin A R) (n : ℕ) (xs ys : List (Plugin A R))
      → IsOrdered n xs
      → Adds xs ys
      → Adds (insert_by_priority q xs) (insert_by_priority q ys)
  unfolding insert_by_priority
  insert-Adds q n [] ys o a = elim a [ ]
  insert-Adds q n (x ∷ xs) ys o (inl (e, e')) =
      elim (Bool-cases (leb q.config.priority x.config.priority)) [
        | inl b ↦
            rw (b, insert_first q x.config.priority ys (leb→le _ _ b) (rw e' at (o.1)))
              (inr (ys, refl, inl (e, e')))
        | inr b ↦ rw b (inl (e, ap (insert_by_priority q) e'))
      ]
  insert-Adds q n (x ∷ xs) ys o (inr (zs, e, a)) =
      elim (Bool-cases (leb q.config.priority x.config.priority)) [
        | inl b ↦ rw (e, insert_by_priority, b) (inr (x ∷ zs, refl, inr (zs, refl, a)))
        | inr b ↦
            rw (e, insert_by_priority, b)
              (inr (insert_by_priority q zs, refl, insert-Adds q x.config.priority xs zs o.1 a))
      ]

  get_by_hook-Adds :
      (ps qs : List (Plugin A R))
      → overrides (p.hook hook) ≡ true
      → Adds (get_by_hook hook (ps ++ p ∷ qs)) (get_by_hook hook (ps ++ qs))
  unfolding get_by_hook
  get_by_hook-Adds [] qs v = rw v (insert_self (get_by_hook hook qs))
  get_by_hook-Adds (q ∷ ps) qs v = elim (Bool-cases (overrides (q.hook hook))) [
    | inl b ↦ rw b (
        insert-Adds q 0 (get_by_hook hook (ps ++ p ∷ qs)) (get_by_hook hook (ps ++ qs))
          (get_by_hook-IsOrdered (ps ++ p ∷ qs)) (get_by_hook-Adds ps qs v))
    | inr b ↦ rw b (get_by_hook-Adds ps qs v)
  ]

  absent :
      (ps qs : List (Plugin A R))
      → overrides (p.hook hook) ≡ false
      → get_by_hook hook (ps ++ p ∷ qs) ≡ get_by_hook hook (ps ++ qs)
  unfolding get_by_hook
  absent [] qs v = rw v refl
  absent (q ∷ ps) qs v = rw (absent ps qs v) refl

  pub run_loaded-Passes :
      Passes
      → (ps qs : List (Plugin A R)) (ctx : PluginContext A R)
      → run_plugins hook capability server method (get_by_hook hook (ps ++ p ∷ qs)) ctx []
        ≡ run_plugins hook capability server method (get_by_hook hook (ps ++ qs)) ctx []
  run_loaded-Passes h ps qs ctx = elim (Bool-cases (overrides (p.hook hook))) [
    | inl b ↦ run_plugins-Adds h _ _ ctx [] (get_by_hook-Adds ps qs b)
    | inr b ↦ rw (absent ps qs b) refl
  ]
