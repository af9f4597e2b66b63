-- ===== src/Middleware/Hooks.antt =====
-- argus_mcp/plugins/middleware.py: the hooks of the plugins before and after the rest of the chain.
use argus_mcp.Base.{String, Option, none, some, List, [], if◌then◌else◌, text_keys, ◌==◌}
use argus_mcp.Base.Dict.{update}
use argus_mcp.Requests.{Result, returned, raised, RequestContext, Run, Handler}
use argus_mcp.Plugins.{Plugin, PluginContext, run_hook}
use argus_mcp.Middleware.{or_else, fails_at}

abbrev pub pre_hook : String → Option String
pre_hook method =
    if method == "call_tool"
    then some "tool_pre_invoke"
    else if method == "read_resource"
    then some "resource_pre_fetch"
    else if method == "get_prompt"
    then some "prompt_pre_fetch"
    else none

abbrev pub post_hook : String → Option String
post_hook method =
    if method == "call_tool"
    then some "tool_post_invoke"
    else if method == "read_resource"
    then some "resource_post_fetch"
    else if method == "get_prompt"
    then some "prompt_post_fetch"
    else none

module _ {A R : Type 0} where
  abbrev pub to_plugin : RequestContext A → Option R → PluginContext A R
  to_plugin ctx result = record {
    capability_name = ctx.capability_name;
    mcp_method = ctx.mcp_method;
    arguments = or_else [] ctx.arguments;
    server_name = or_else "" ctx.server_name;
    metadata = ctx.metadata;
    result = result;
  }

  abbrev pub from_plugin : RequestContext A → PluginContext A R → RequestContext A
  from_plugin ctx c = record ctx {
    arguments = some c.arguments;
    metadata = update ctx.metadata c.metadata;
  }

  abbrev pub applied :
      RequestContext A → Result (PluginContext A R) → Result (RequestContext A × Option R)
  applied ctx (raised e) = raised e
  applied ctx (returned c) = returned (from_plugin ctx c, c.result)

  -- The hook of a method, if it has one: the context and the result that go on.
  abbrev pub run_phase :
      Option String
      → List (Plugin A R)
      → RequestContext A
      → Option R
      → Result (RequestContext A × Option R)
  run_phase none plugins ctx result = returned (ctx, result)
  run_phase (some hook) plugins ctx result = applied ctx (
      run_hook hook ctx.capability_name (or_else "" ctx.server_name) ctx.mcp_method plugins
        (to_plugin ctx result))

  abbrev pub finished_phase : Run A R → Result (RequestContext A × Option R) → Run A R
  finished_phase r (raised e) = record r { result = raised e }
  finished_phase r (returned (ctx, result)) = record r { context = ctx; result = returned result }

  abbrev pub post_phase : List (Plugin A R) → String → Run A R → Result (Option R) → Run A R
  post_phase plugins method r (raised e) = r
  post_phase plugins method r (returned response) =
      finished_phase r (run_phase (post_hook method) plugins r.context response)

  abbrev pub after_pre :
      List (Plugin A R)
      → Handler A R
      → RequestContext A
      → Result (RequestContext A × Option R)
      → Run A R
  after_pre plugins next ctx (raised e) = fails_at ctx e
  after_pre plugins next ctx (returned (c, _)) =
      let r = next c in post_phase plugins ctx.mcp_method r r.result

  unfoldable pub plugin : List (Plugin A R) → Handler A R → Handler A R
  plugin plugins next ctx =
      after_pre plugins next ctx (run_phase (pre_hook ctx.mcp_method) plugins ctx none)
