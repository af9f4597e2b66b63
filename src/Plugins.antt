-- ===== src/Plugins.antt =====
-- argus_mcp/plugins/manager.py, registry.py and models.py: the plugins of a hook, in the order of
-- their priorities, each on a snapshot of the accumulated context. What a plugin's own code does with
-- the snapshot is a function that comes with the plugin. The snapshot copies the two dictionaries but
-- not the values in them, nor the result: what a hook that does not finish has changed in place in
-- those objects stays. Where the failure ends the request, they are not followed further.
pub mod Loaded
pub mod Isolation
mod Tests
use mathlib.Core.Option
use argus_mcp.Base.{
  ℕ, Bool, true, false, String, Option, none, some, List, [], ◌∷◌, ◌++◌, map, not, ◌&&◌, leb,
  if◌then◌else◌, text_keys, ◌==◌, contains,
}
use argus_mcp.Base.Dict.{Dict, insert, update, values}
use argus_mcp.Requests.{Value, Error, plugin_error, Result, returned, raised}

pub data ExecutionMode : Type 0 where
  enforce enforce_ignore_error permissive disabled : ExecutionMode

pub record PluginCondition : Type 0 where
  pub servers : List String
  pub tools : List String
  pub mcp_methods : List String

-- The timeout shows only in what a hook comes to.
pub record PluginConfig : Type 0 where
  pub name : String
  pub enabled : Bool
  pub execution_mode : ExecutionMode
  pub priority : ℕ
  pub conditions : PluginCondition

abbrev pub or_text : String → String → String
or_text a b = if a == "" then b else a

abbrev admits : List String → String → Bool
admits [] name = true
admits (x ∷ xs) name = contains name (x ∷ xs)

unfoldable pub matches_conditions : PluginCondition → String → String → String → Bool
matches_conditions c capability server method =
    admits c.servers server && (admits c.tools capability && admits c.mcp_methods method)

module _ (A R : Type 0) where
  pub record PluginContext : Type 0 where
    pub capability_name : String
    pub mcp_method : String
    pub arguments : Dict String A
    pub server_name : String
    pub metadata : Dict String Value
    pub result : Option R

  -- What becomes of the objects that a snapshot shares with the accumulated context.
  pub record InPlace : Type 0 where
    pub argument : String → A → A
    pub metadatum : String → Value → Value
    pub outcome : R → R

  -- What a hook comes to on a snapshot: a context, in which its changes are, or a failure with the
  -- changes it has made in place until then.
  pub data HookOutcome : Type 0 where
    finished : PluginContext → HookOutcome
    timed_out : InPlace → HookOutcome
    failed : InPlace → Error → HookOutcome

  -- `hook name` is `none` where the plugin does not override the hook.
  pub record Plugin : Type 0 where
    pub config : PluginConfig
    pub hook : String → Option (PluginContext → HookOutcome)

  -- What a plugin adds to the loop of `run_hook`.
  pub data Attempt : Type 0 where
    kept : Attempt
    touched : InPlace → Attempt
    merged : PluginContext → Attempt
    stopped : Error → Attempt

  pub record PluginRegistry : Type 0 where
    pub plugins : Dict String Plugin
    pub load_order : List String

abbrev pub is_enforced : ExecutionMode → Bool
is_enforced enforce = true
is_enforced _ = false

abbrev pub is_disabled : ExecutionMode → Bool
is_disabled disabled = true
is_disabled _ = false

module _ {A R : Type 0} where
  -- `classes name` is the class that was registered under the name, by the hooks it overrides.
  unfoldable pub load_from_config :
      (String → Option (String → Option (PluginContext A R → HookOutcome A R)))
      → List PluginConfig
      → PluginRegistry A R
      → PluginRegistry A R
  load_from_config classes [] r = r
  load_from_config classes (entry ∷ entries) r =
      if not entry.enabled then load_from_config classes entries r else elim (classes entry.name) [
        | none ↦ load_from_config classes entries r
        | some hook ↦ load_from_config classes entries (record {
          plugins = insert r.plugins entry.name (record { config = entry; hook = hook });
          load_order = r.load_order ++ entry.name ∷ [];
        })
      ]

  -- `sorted(…, key=priority)` is stable.
  unfoldable pub insert_by_priority : Plugin A R → List (Plugin A R) → List (Plugin A R)
  insert_by_priority p [] = p ∷ []
  insert_by_priority p (q ∷ qs) =
      if leb p.config.priority q.config.priority then p ∷ q ∷ qs else q ∷ insert_by_priority p qs

  abbrev overrides : Option (PluginContext A R → HookOutcome A R) → Bool
  overrides none = false
  overrides (some f) = true

  unfoldable pub get_by_hook : String → List (Plugin A R) → List (Plugin A R)
  unfolding insert_by_priority
  get_by_hook hook [] = []
  get_by_hook hook (p ∷ ps) =
      let rest = get_by_hook hook ps in
      if overrides (p.hook hook) then insert_by_priority p rest else rest

  -- A failure of an enforced plugin ends the request; any other is logged. A `PluginError` that the
  -- hook itself raises always ends it.
  abbrev unless_enforced : PluginConfig → String → InPlace A R → Attempt A R
  unless_enforced c hook m =
      if is_enforced c.execution_mode then stopped (plugin_error c.name hook) else touched m

  abbrev pub settle : PluginConfig → String → HookOutcome A R → Attempt A R
  settle c hook (finished ctx) = merged ctx
  settle c hook (timed_out m) = unless_enforced c hook m
  settle c hook (failed m (plugin_error name h)) = stopped (plugin_error name h)
  settle c hook (failed m e) = unless_enforced c hook m

  abbrev pub call_hook :
      Plugin A R
      → String
      → Option (PluginContext A R → HookOutcome A R)
      → PluginContext A R
      → Attempt A R
  call_hook p hook none snapshot = kept
  call_hook p hook (some f) snapshot = settle p.config hook (f snapshot)

  -- The conditions are matched against names that are the same for every plugin of the call.
  unfoldable pub attempt :
      String → String → String → String → Plugin A R → PluginContext A R → Attempt A R
  unfolding matches_conditions
  attempt hook capability server method p accumulated =
      if not (matches_conditions p.config.conditions capability server method)
      then kept
      else if is_disabled p.config.execution_mode
      then kept
      else call_hook p hook (p.hook hook) accumulated

  abbrev pub touch : InPlace A R → PluginContext A R → PluginContext A R
  touch m ctx = record ctx {
    arguments = map (λ p. (p.0, m.argument p.0 p.1)) ctx.arguments;
    metadata = map (λ p. (p.0, m.metadatum p.0 p.1)) ctx.metadata;
    result = Option.map m.outcome ctx.result;
  }

  -- What follows an attempt: `next` is the rest of the loop.
  abbrev pub carry :
      (PluginContext A R → Dict String Value → Result (PluginContext A R))
      → PluginContext A R
      → Dict String Value
      → Attempt A R
      → Result (PluginContext A R)
  carry next accumulated aggregated kept = next accumulated aggregated
  carry next accumulated aggregated (touched m) =
      next (touch m accumulated) (map (λ p. (p.0, m.metadatum p.0 p.1)) aggregated)
  carry next accumulated aggregated (merged ctx) = next ctx (update aggregated ctx.metadata)
  carry next accumulated aggregated (stopped e) = raised e

  -- The loop of `run_hook`, with what it has accumulated.
  unfoldable pub run_plugins :
      String
      → String
      → String
      → String
      → List (Plugin A R)
      → PluginContext A R
      → Dict String Value
      → Result (PluginContext A R)
  run_plugins hook capability server method [] accumulated aggregated =
      returned (record accumulated { metadata = update accumulated.metadata aggregated })
  run_plugins hook capability server method (p ∷ ps) accumulated aggregated =
      carry (run_plugins hook capability server method ps) accumulated aggregated
        (attempt hook capability server method p accumulated)

  unfoldable pub run_hook :
      String
      → String
      → String
      → String
      → List (Plugin A R)
      → PluginContext A R
      → Result (PluginContext A R)
  unfolding run_plugins get_by_hook
  run_hook hook capability server method loaded ctx =
      run_plugins hook (or_text capability ctx.capability_name) (or_text server ctx.server_name)
        (or_text method ctx.mcp_method) (get_by_hook hook loaded) ctx []
