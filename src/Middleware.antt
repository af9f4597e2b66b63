-- ===== src/Middleware.antt =====
-- argus_mcp/bridge/middleware/: the chain of handlers that each request runs through, from
-- authentication to the backend, and argus_mcp/server/lifespan.py, where the chain is put together.
-- A middleware is a function of the next handler.
pub mod Hooks
pub mod Routing
pub mod Stack
pub mod Layers
pub mod Reach
pub mod Trail
pub mod Answers
mod Tests
use argus_mcp.Base.{
  Bool, true, false, String, Option, none, some, List, [], ◌∷◌, ◌++◌, not, ◌||◌, if◌then◌else◌,
  text_keys, ◌==◌,
}
use argus_mcp.Base.Dict.{Dict, get, insert, update}
use argus_mcp.Requests.{
  UserIdentity, Value, text, identity, Error, authentication_error, backend_server_error,
  value_error, runtime_error, not_implemented_error, assertion_error, Result, returned, raised,
  Effect, called, audited, recorded, RequestContext, Run, Handler, also,
}
use argus_mcp.Registry.{Registry}
use argus_mcp.Registry.Backends.{resolve_capability}
use argus_mcp.Plugins.{Plugin, PluginContext, run_hook, or_text}

abbrev pub or_else {ℓ} : {B : Type ℓ} → B → Option B → B
or_else d none = d
or_else d (some x) = x

pub data AuthMode : Type 0 where
  strict permissive : AuthMode

abbrev pub mode_name : AuthMode → String
mode_name strict = "strict"
mode_name permissive = "permissive"

-- `UserIdentity(provider="anonymous")`
abbrev pub anonymous : UserIdentity
anonymous = record {
  subject = "anonymous";
  email = "";
  name = "";
  roles = [];
  provider = "anonymous";
}

-- The transport puts a text under this key.
abbrev pub token_of : Option Value → Option String
token_of (some (text t)) = some t
token_of _ = none

module _ {R : Type 0} where
  abbrev pub checked : Result (Option R) → Result (Option R)
  checked (returned none) = raised assertion_error
  checked r = r

  abbrev pub succeeded : Result (Option R) → Bool
  succeeded (returned r) = true
  succeeded (raised e) = false

module _ {A : Type 0} where
  abbrev pub put : String → Value → RequestContext A → RequestContext A
  put key v ctx = record ctx { metadata = insert ctx.metadata key v }

  abbrev pub identified : AuthMode → UserIdentity → RequestContext A → RequestContext A
  identified mode user ctx =
      let known = put "auth_mode" (text (mode_name mode)) (put "user" (identity user) ctx) in
      if user.subject == "" then known else put "user_subject" (text user.subject) known

-- `authenticate` is that of the provider registry.
abbrev pub asked :
    (Option String → Result UserIdentity) → AuthMode → Option String → Result UserIdentity
asked authenticate mode (some token) = authenticate (some token)
asked authenticate permissive none = returned anonymous
asked authenticate strict none = authenticate none

module _ {A R : Type 0} where
  unfoldable pub wrap : (Handler A R → Handler A R) → Handler A R → Handler A R
  wrap middleware next ctx = let r = middleware next ctx in record r { result = checked r.result }

  -- `build_chain`: the first middleware is outermost; one that returns `None` is an error.
  unfoldable pub build_chain : List (Handler A R → Handler A R) → Handler A R → Handler A R
  unfolding wrap
  build_chain [] handler = handler
  build_chain (m ∷ ms) handler = wrap m (build_chain ms handler)

  abbrev pub fails_at : RequestContext A → Error → Run A R
  fails_at ctx e = record { context = ctx; effects = []; result = raised e }

  abbrev pub admitted : AuthMode → Handler A R → RequestContext A → Result UserIdentity → Run A R
  admitted mode next ctx (raised e) = fails_at ctx e
  admitted mode next ctx (returned user) = next (identified mode user ctx)

  unfoldable pub auth : (Option String → Result UserIdentity) → AuthMode → Handler A R → Handler A R
  auth authenticate mode next ctx =
      admitted mode next ctx (asked authenticate mode (token_of (get ctx.metadata "auth_token")))

  -- `error_response method` is the tool result that reports an internal error.
  abbrev pub rescued : (String → R) → Run A R → Result (Option R) → Run A R
  rescued error_response r (returned response) = r
  rescued error_response r (raised e) = record r {
    context = record (r.context) { error = some e };
    result = returned (some (error_response r.context.mcp_method));
  }

  unfoldable pub recovery : (String → R) → Handler A R → Handler A R
  recovery error_response next ctx = let r = next ctx in rescued error_response r r.result

  unfoldable pub telemetry : Handler A R → Handler A R
  telemetry next ctx =
      let r = next ctx in
      also (recorded (or_else "unknown" r.context.server_name) (succeeded r.result) ∷ []) r

  abbrev pub audit_of : RequestContext A → Result (Option R) → List Effect
  audit_of ctx (returned response) = audited ctx.server_name ctx.error ∷ []
  audit_of ctx (raised e) = []

  -- What follows the call of the next handler is not reached if that raises.
  unfoldable pub audit : Handler A R → Handler A R
  audit next ctx = let r = next ctx in also (audit_of r.context r.result) r
