-- ===== src/Plugins/Tests.antt =====
-- Hooks at concrete inputs: a plugin that adds an argument, one that times out, and one that is
-- restricted to a server.
use argus_mcp.Base.{◌≡◌, ◌≢◌, refl, true, String, none, some, List, [], ◌∷◌, text_keys}
use argus_mcp.Base.Dict.{insert, update}
use argus_mcp.Requests.{returned}
use argus_mcp.Plugins.{
  ExecutionMode, permissive, enforce, PluginConfig, PluginContext, Plugin, HookOutcome, finished,
  timed_out, attempt, matches_conditions, run_hook, run_plugins, get_by_hook, insert_by_priority,
}
use argus_mcp.Plugins.Isolation.{run_hook-failing, run_hook-elsewhere}

abbrev config : String → List String → ExecutionMode → PluginConfig
config name servers mode = record {
  name = name;
  enabled = true;
  execution_mode = mode;
  priority = 10;
  conditions = record { servers = servers; tools = []; mcp_methods = [] };
}

abbrev stamps : PluginContext String String → HookOutcome String String
stamps c = finished (record c { arguments = insert c.arguments "stamp" "yes" })

abbrev slow : PluginContext String String → HookOutcome String String
slow c = timed_out (record { argument = λ k a. a; metadatum = λ k v. v; outcome = λ r. r })

abbrev stamping : Plugin String String
stamping = record { config = config "stamping" [] enforce; hook = λ h. some stamps }

abbrev hanging : Plugin String String
hanging = record { config = config "hanging" [] permissive; hook = λ h. some slow }

abbrev wiki_only : Plugin String String
wiki_only = record { config = config "wiki" ("wiki" ∷ []) enforce; hook = λ h. some stamps }

abbrev context : PluginContext String String
context = record {
  capability_name = "search";
  mcp_method = "call_tool";
  arguments = [];
  server_name = "";
  metadata = [];
  result = none;
}

stamped :
    run_hook "tool_pre_invoke" "search" "" "call_tool" (stamping ∷ []) context
    ≡ returned (record context { arguments = ("stamp", "yes") ∷ [] })
unfolding run_hook run_plugins get_by_hook insert_by_priority attempt matches_conditions insert
    update
stamped = refl

run_hook-failing_example :
    run_hook "tool_pre_invoke" "search" "" "call_tool" (stamping ∷ hanging ∷ []) context
    ≡ run_hook "tool_pre_invoke" "search" "" "call_tool" (stamping ∷ []) context
run_hook-failing_example =
    run_hook-failing "tool_pre_invoke" "search" "" "call_tool" hanging slow (stamping ∷ []) []
      context refl (λ c. (λ k a. refl, λ k v. refl, λ r. refl)) refl

restricted : wiki_only.config.conditions.servers ≢ []
restricted = λ e. absurd (cc)

run_hook-elsewhere_example :
    run_hook "tool_pre_invoke" "search" "" "call_tool" (wiki_only ∷ []) context
    ≡ run_hook "tool_pre_invoke" "search" "" "call_tool" [] context
run_hook-elsewhere_example =
    run_hook-elsewhere "tool_pre_invoke" "search" "call_tool" wiki_only [] [] context restricted
      refl refl
