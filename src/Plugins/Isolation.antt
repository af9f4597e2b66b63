-- ===== src/Plugins/Isolation.antt =====
-- Plugins that cannot touch a request: those that fail and are not enforced, and those whose
-- conditions do not hold.
use mathlib.Core.Option
use argus_mcp.Base.{
  ◌≡◌, ◌≢◌, refl, false, String, Option, none, some, List, [], ◌∷◌, ◌++◌, map, text_keys, contains,
  ap, sym, subst, Bool-cases, inl, inr,
}
use argus_mcp.Base.Dict.{Dict}
use argus_mcp.Requests.{Value, Result, plugin_error}
use argus_mcp.Plugins.Loaded.{run_loaded-Passes}
use argus_mcp.Plugins.{
  PluginConfig, PluginContext, Plugin, HookOutcome, finished, timed_out, failed, InPlace, Attempt,
  kept, touched, merged, stopped, is_enforced, is_disabled, settle, call_hook, carry, admits,
  matches_conditions, attempt, run_hook,
}

map_same :
    {V : Type 0} (f : String → V → V)
    → ((k : String) (v : V) → f k v ≡ v)
    → (d : Dict String V) → map (λ p. (p.0, f p.0 p.1)) d ≡ d
map_same f h [] = refl
map_same f h ((k, v) ∷ d) = rw (h k v, map_same f h d) refl

option_same : {V : Type 0} (f : V → V) → ((v : V) → f v ≡ v) → (o : Option V) → Option.map f o ≡ o
option_same f h none = refl
option_same f h (some v) = rw (h v) refl

elsewhere :
    (servers : List String) → servers ≢ [] → contains "" servers ≡ false → admits servers "" ≡ false
elsewhere [] n h = absurd (n refl)
elsewhere (x ∷ xs) n h = h

module _ {A R : Type 0} where
  -- What a hook that did not finish has left of the shared objects is as it was.
  abbrev pub Unchanged : InPlace A R → Type 0
  Unchanged m =
      ((k : String) (a : A) → m.argument k a ≡ a)
      × ((k : String) (v : Value) → m.metadatum k v ≡ v)
      × ((r : R) → m.outcome r ≡ r)

  -- The hook did not finish, what it raised is no `PluginError` of its own, and it has not changed
  -- the values of the snapshot in place.
  abbrev pub Fails : HookOutcome A R → Type 0
  Fails (finished ctx) = ⊥
  Fails (timed_out m) = Unchanged m
  Fails (failed m (plugin_error name hook)) = ⊥
  Fails (failed m _) = Unchanged m

  -- What the loop goes on with is what it had.
  abbrev IsIdle : Attempt A R → Type 0
  IsIdle kept = Unit
  IsIdle (touched m) = Unchanged m
  IsIdle _ = ⊥

  settle-IsIdle :
      (c : PluginConfig) (hook : String) (o : HookOutcome A R)
      → is_enforced c.execution_mode ≡ false
      → Fails o
      → IsIdle (settle c hook o)
  settle-IsIdle c hook (finished ctx) n f = elim f [ ]
  settle-IsIdle c hook (timed_out m) n f = rw n f
  settle-IsIdle c hook (failed m (plugin_error name h)) n f = elim f [ ]
  settle-IsIdle c hook (failed m _) n f = rw n f

  attempt-failing :
      (hook capability server method : String) (p : Plugin A R)
      (f : PluginContext A R → HookOutcome A R) (c : PluginContext A R)
      → p.hook hook ≡ some f
      → IsIdle (settle p.config hook (f c))
      → IsIdle (attempt hook capability server method p c)
  unfolding attempt
  attempt-failing hook capability server method p f c e h =
      let q : IsIdle (call_hook p hook (p.hook hook) c) =
        subst (λ o. IsIdle (call_hook p hook o c)) (sym e) h in
      elim (Bool-cases (matches_conditions p.config.conditions capability server method)) [
        | inr b ↦ rw b tt
        | inl b ↦ elim (Bool-cases (is_disabled p.config.execution_mode)) [
          | inl d ↦ rw (b, d) tt
          | inr d ↦ rw (b, d) q
        ]
      ]

  carry-IsIdle :
      (next : PluginContext A R → Dict String Value → Result (PluginContext A R))
      (ctx : PluginContext A R) (m : Dict String Value) (a : Attempt A R)
      → IsIdle a
      → carry next ctx m a ≡ next ctx m
  carry-IsIdle next ctx m kept h = refl
  carry-IsIdle next ctx m (touched t) (ha, hm, hr) =
      rw
        (
          map_same t.argument ha ctx.arguments,
          map_same t.metadatum hm ctx.metadata,
          map_same t.metadatum hm m,
          option_same t.outcome hr ctx.result,
        )
        refl
  carry-IsIdle next ctx m (merged c) h = elim h [ ]
  carry-IsIdle next ctx m (stopped e) h = elim h [ ]

  -- Error isolation: a plugin that is not enforced and whose hook fails on every snapshot, by a timeout
  -- or by an exception other than `PluginError`, and without a change in place to the values that the
  -- snapshot shares with the request, changes nothing of what the hook comes to, at whatever place it
  -- was loaded.
  pub run_hook-failing :
      (hook capability server method : String) (p : Plugin A R)
      (f : PluginContext A R → HookOutcome A R) (ps qs : List (Plugin A R))
      (ctx : PluginContext A R)
      → p.hook hook ≡ some f
      → ((snapshot : PluginContext A R) → Fails (f snapshot))
      → is_enforced p.config.execution_mode ≡ false
      → run_hook hook capability server method (ps ++ p ∷ qs) ctx
        ≡ run_hook hook capability server method (ps ++ qs) ctx
  unfolding run_hook
  run_hook-failing hook capability server method p f ps qs ctx e h n =
      run_loaded-Passes hook _ _ _ p
        (λ c m next.
          carry-IsIdle next c m _
            (attempt-failing hook _ _ _ p f c e (settle-IsIdle p.config hook (f c) n (h c))))
        ps qs ctx

  attempt-elsewhere :
      (hook capability server method : String) (p : Plugin A R) (ctx : PluginContext A R)
      → admits p.config.conditions.servers "" ≡ false
      → server ≡ ""
      → attempt hook capability server method p ctx ≡ kept
  unfolding attempt matches_conditions
  attempt-elsewhere hook capability server method p ctx h e = rw (e, h) refl

  -- A plugin that is restricted to servers does not run at a hook that is run before the server of
  -- the request is known, with no server in the call or in the context, even if plugins before it put
  -- a server into the accumulated context: wherever it was loaded, the hook comes to the same without
  -- it.
  pub run_hook-elsewhere :
      (hook capability method : String) (p : Plugin A R) (ps qs : List (Plugin A R))
      (ctx : PluginContext A R)
      → p.config.conditions.servers ≢ []
      → contains "" p.config.conditions.servers ≡ false
      → ctx.server_name ≡ ""
      → run_hook hook capability "" method (ps ++ p ∷ qs) ctx
        ≡ run_hook hook capability "" method (ps ++ qs) ctx
  unfolding run_hook
  run_hook-elsewhere hook capability method p ps qs ctx n h e =
      run_loaded-Passes hook _ ctx.server_name _ p
        (λ c m next. ap (carry next c m) (
          attempt-elsewhere hook _ ctx.server_name _ p c (elsewhere p.config.conditions.servers n h)
            e))
        ps qs ctx
