-- ===== src/Handlers/Tests.antt =====
-- A server whose registry is empty.
use argus_mcp.Base.{◌≡◌, refl, Bool, true, false, String, Option, none, some, [], text_keys}
use argus_mcp.Base.Dict.{Dict, get}
use argus_mcp.Requests.{backend_server_error, returned, raised, Handler}
use argus_mcp.Registry.Backends.{empty, resolve_capability}
use argus_mcp.Middleware.{wrap, recovery, fails_at}
use argus_mcp.Middleware.Routing.{Backends, Manager}
use argus_mcp.Middleware.Stack.{Settings, build_middleware_stack}
use argus_mcp.Handlers.{AuthContext, dispatch, request, handle_call_tool}
use argus_mcp.Handlers.Failing.{Raises, handle_call_tool-find_tool, dispatch-recovery}

abbrev nobody : AuthContext
nobody = record {
  current_user = none;
  current_auth_token = none;
  current_session_id = none;
  current_client_ip = none;
}

abbrev settings : Settings String String
settings = record {
  authenticator = none;
  plugins = none;
  telemetry_enabled = false;
  error_response = λ method. "internal error";
}

abbrev echo : Backends String String
echo svr method name arguments = returned (some name)

abbrev every : Manager
every svr = true

abbrev any_result : String → Bool
any_result r = true

abbrev name_in : Option String → String
name_in none = ""
name_in (some t) = t

abbrev no_arguments : Option String → Dict String String
no_arguments entry = []

unrouted : resolve_capability empty "find_tool" ≡ none
unfolding resolve_capability get
unrouted = refl

handle_call_tool-find_tool_example :
    Raises
      (handle_call_tool any_result name_in no_arguments
        (some (build_middleware_stack settings echo (some empty) (some every)))
        nobody
        "1"
        true
        []
        "find_tool"
        []).result
handle_call_tool-find_tool_example =
    handle_call_tool-find_tool any_result name_in no_arguments nobody "1" [] settings echo empty
      (some every) [] unrouted

abbrev broken : Handler String String
broken ctx = fails_at ctx backend_server_error

dispatch-recovery_example :
    (dispatch
      (some (wrap (recovery (λ method. "internal error")) broken))
      (request nobody "1" "search" "call_tool" none)).1
    ≡ raised backend_server_error
dispatch-recovery_example =
    dispatch-recovery (λ method. "internal error") broken
      (request nobody "1" "search" "call_tool" none) backend_server_error refl
