-- ===== src/Middleware/Routing.antt =====
-- argus_mcp/bridge/middleware/routing.py: the innermost handler, the only one that calls a backend.
-- What the session of a backend comes to is a function of the server, the method, the name and the
-- arguments.
use argus_mcp.Base.{
  Bool, String, Option, none, some, [], ◌∷◌, not, ◌||◌, if◌then◌else◌, text_keys, ◌==◌,
}
use argus_mcp.Base.Dict.{Dict}
use argus_mcp.Requests.{
  backend_server_error, value_error, runtime_error, not_implemented_error, Result, called,
  RequestContext, Run, Handler,
}
use argus_mcp.Registry.{Registry}
use argus_mcp.Registry.Backends.{resolve_capability}
use argus_mcp.Middleware.{or_else, fails_at}

-- The client manager: whether it has a session with a server.
abbrev pub Manager : Type 0
Manager = String → Bool

-- `_ALLOWED_MCP_METHODS`
abbrev pub allowed : String → Bool
allowed m = m == "call_tool" || (m == "read_resource" || m == "get_prompt")

module _ {A : Type 0} where
  abbrev pub arguments_of : String → Option (Dict String A) → Option (Dict String A)
  arguments_of method arguments =
      if method == "call_tool"
      then some (or_else [] arguments)
      else if method == "read_resource"
      then none
      else arguments

  abbrev pub routed : String → String → RequestContext A → RequestContext A
  routed svr original ctx = record ctx { server_name = some svr; original_name = some original }

-- `session.<method>(…)`: the server, the method, the name or uri, and the arguments.
abbrev pub Backends : Type 0 → Type 0 → Type 0
Backends A R = String → String → String → Option (Dict String A) → Result (Option R)

module _ {A R : Type 0} where
  abbrev pub forward : Backends A R → Manager → RequestContext A → String → String → Run A R
  forward backends has_session ctx svr original =
      if not (has_session svr)
      then fails_at ctx (runtime_error ctx.capability_name)
      else if not (allowed ctx.mcp_method)
      then fails_at ctx (not_implemented_error ctx.mcp_method)
      else record {
        context = ctx;
        effects = called svr ctx.mcp_method original ∷ [];
        result = backends svr ctx.mcp_method original (arguments_of ctx.mcp_method ctx.arguments);
      }

  abbrev pub follow : Backends A R → Manager → RequestContext A → Option (String × String) → Run A R
  follow backends has_session ctx none = fails_at ctx (value_error ctx.capability_name)
  follow backends has_session ctx (some (svr, original)) =
      forward backends has_session (routed svr original ctx) svr original

  -- `none` is a registry or a manager that is not set.
  unfoldable pub routing : Backends A R → Option Registry → Option Manager → Handler A R
  routing backends (some registry) (some has_session) ctx =
      follow backends has_session ctx (resolve_capability registry ctx.capability_name)
  routing backends _ _ ctx = fails_at ctx backend_server_error
