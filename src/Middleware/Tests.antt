-- ===== src/Middleware/Tests.antt =====
-- The chain at concrete inputs: a registry with one tool, and two backends, of which one is down.
use argus_mcp.Base.{
  ◌≡◌, ◌≢◌, refl, inl, Bool, true, false, String, Option, none, some, List, [], ◌∷◌, text_keys,
  ◌==◌, if◌then◌else◌,
}
use argus_mcp.Base.Dict.{get, insert}
use argus_mcp.Requests.{
  UserIdentity, text, authentication_error, backend_server_error, Result, returned, raised, called,
  audited, recorded, RequestContext,
}
use argus_mcp.Registry.{
  CapType, tools, Config, Registry, passes, register_all, register_raw, apply_filter_and_rename,
  renamed, register, resolve_conflict, enter,
}
use argus_mcp.Registry.Backends.{
  Batch, items, empty, resolve_capability, discover_and_register, discovery_begins, discovery_steps,
  discover_all, discover_caps_by_type,
}
use argus_mcp.Registry.Provenance.{Offered}
use argus_mcp.Conflict.{first_wins, transform_name}
use argus_mcp.Middleware.{
  permissive, fails_at, token_of, build_chain, wrap, recovery, telemetry, audit,
}
use argus_mcp.Middleware.Routing.{Backends, Manager, routing}
use argus_mcp.Middleware.Stack.{Settings, middlewares, build_middleware_stack}
use argus_mcp.Middleware.Reach.{calls, stack-Offered}
use argus_mcp.Middleware.Trail.{audits, stack-unaudited}
use argus_mcp.Middleware.Answers.{Ends, stack-Ends, stack-refused}

abbrev config : Config
config = record { strategy = first_wins; filters = λ s t. none; rename_maps = [] }

abbrev no_match : String → String → Bool
no_match name pattern = false

abbrev batches : List Batch
batches =
    record {
      server = "wiki";
      type = tools;
      response = items (some (record { name = "search"; description = none }) ∷ []);
    }
    ∷ []

abbrev registry : Registry
registry = discover_and_register no_match config batches empty

abbrev has_session : Manager
has_session svr = svr == "wiki"

abbrev backends : Backends String String
backends svr method name arguments = returned (some name)

abbrev down : Backends String String
down svr method name arguments = raised backend_server_error

abbrev ask : RequestContext String
ask = record {
  capability_name = "search";
  mcp_method = "call_tool";
  arguments = none;
  request_id = "1";
  server_name = none;
  original_name = none;
  metadata = [];
  error = none;
}

abbrev error_response : String → String
error_response method = "internal error"

abbrev open_settings : Settings String String
open_settings = record {
  authenticator = none;
  plugins = none;
  telemetry_enabled = true;
  error_response = error_response;
}

abbrev known : Option String → Result UserIdentity
known none = raised (authentication_error "no token")
known (some t) =
    if t == "secret"
    then returned
        (record { subject = "ann"; email = ""; name = ""; roles = []; provider = "local" })
    else raised (authentication_error "invalid token")

abbrev guarded_settings : Settings String String
guarded_settings = record {
  authenticator = some (known, permissive);
  plugins = none;
  telemetry_enabled = false;
  error_response = error_response;
}

resolved : resolve_capability registry "search" ≡ some ("wiki", "search")
unfolding resolve_capability get discover_and_register discovery_begins discovery_steps discover_all
    discover_caps_by_type register_all register_raw apply_filter_and_rename renamed register
    resolve_conflict enter insert transform_name
resolved = refl

answered :
    (build_middleware_stack open_settings backends (some registry) (some has_session) ask).effects
    ≡ called "wiki" "call_tool" "search" ∷ audited (some "wiki") none ∷ recorded "wiki" true ∷ []
unfolding build_middleware_stack middlewares build_chain wrap recovery telemetry audit routing
answered = rw resolved refl

rescued_call :
    (build_middleware_stack open_settings down (some registry) (some has_session) ask).result
    ≡ returned (some "internal error")
unfolding build_middleware_stack middlewares build_chain wrap recovery telemetry audit routing
rescued_call = rw resolved refl

abbrev forged : RequestContext String
forged = record ask { metadata = ("auth_token", text "guess") ∷ [] }

has_token : token_of (get forged.metadata "auth_token") ≢ none
unfolding get
has_token = λ e. absurd (cc)

refused :
    known (token_of (get forged.metadata "auth_token"))
    ≡ raised (authentication_error "invalid token")
unfolding get
refused = refl

one_call :
    calls
      (build_middleware_stack open_settings backends (some registry) (some has_session) ask).effects
    ≡ ("wiki", ("call_tool", "search")) ∷ []
one_call = rw answered refl

abbrev no_calls : List (String × (String × String))
no_calls = []

stack-Offered_example :
    (no_calls ≡ no_calls)
    × (ask.mcp_method ≡ ask.mcp_method)
    × Offered no_match config batches "wiki" "search"
    × ((t : CapType) × (passes no_match (config.filters "wiki" t) "search" ≡ true))
stack-Offered_example =
    stack-Offered no_match config batches empty backends has_session open_settings ask "wiki"
      "call_tool" "search" [] one_call

stack-unaudited_example :
    audits
      (build_middleware_stack open_settings down (some registry) (some has_session) ask).effects
    ≡ []
stack-unaudited_example =
    stack-unaudited down (some registry) (some has_session) (λ s m o a. tt) open_settings ask

stack-Ends_example :
    Ends
      (some (known, permissive))
      forged
      (build_middleware_stack guarded_settings backends
        (some registry)
        (some has_session)
        forged).result
stack-Ends_example = stack-Ends guarded_settings backends (some registry) (some has_session) forged

stack-refused_example :
    build_middleware_stack guarded_settings backends (some registry) (some has_session) forged
    ≡ fails_at forged (authentication_error "invalid token")
stack-refused_example =
    stack-refused guarded_settings backends (some registry) (some has_session) forged known
      permissive (authentication_error "invalid token") refl (inl has_token) refused
