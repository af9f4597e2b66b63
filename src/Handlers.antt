-- ===== src/Handlers.antt =====
-- argus_mcp/server/handlers.py: how a tool call reaches the middleware chain, with the meta-tools of
-- the optimizer and the composite tools. What `arguments` holds is read by parameters.
pub mod Failing
mod Tests
use argus_mcp.Base.{
  Bool, true, false, String, Option, none, some, List, [], ◌∷◌, ◌++◌, if◌then◌else◌, text_keys,
  ◌==◌,
}
use argus_mcp.Base.Dict.{Dict, get}
use argus_mcp.Requests.{
  UserIdentity, Value, text, identity, Error, backend_server_error, runtime_error, value_error,
  Result, returned, raised, Effect, RequestContext, Run, Handler,
}

-- The context variables that the transport sets.
pub record AuthContext : Type 0 where
  pub current_user : Option UserIdentity
  pub current_auth_token : Option String
  pub current_session_id : Option String
  pub current_client_ip : Option String

abbrev text_entry : String → Option String → Dict String Value
text_entry key none = []
text_entry key (some t) = (key, text t) ∷ []

abbrev user_entries : Option UserIdentity → Dict String Value
user_entries none = []
user_entries (some u) = ("user", identity u) ∷ ("user_subject", text u.subject) ∷ []

abbrev pub metadata_of : AuthContext → Dict String Value
metadata_of c =
    user_entries c.current_user
    ++ (text_entry "auth_token" c.current_auth_token
        ++ (text_entry "session_id" c.current_session_id
            ++ text_entry "client_ip" c.current_client_ip))

-- What a handler of the server comes to.
pub record Reply (R : Type 0) : Type 0 where
  pub effects : List Effect
  pub result : Result R

module _ {R : Type 0} where
  -- `raise ctx.error`, once the chain has returned.
  abbrev pub raised_again : Option Error → Option R → Result (Option R)
  raised_again none response = returned response
  raised_again (some e) response = raised e

  abbrev pub after_chain : Option Error → Result (Option R) → Result (Option R)
  after_chain error (raised e) = raised e
  after_chain error (returned response) = raised_again error response

  -- `isinstance(result, CallToolResult)`
  abbrev pub checked_type : (R → Bool) → Result (Option R) → Result R
  checked_type is_result (raised e) = raised e
  checked_type is_result (returned none) = raised backend_server_error
  checked_type is_result (returned (some r)) =
      if is_result r then returned r else raised backend_server_error

  abbrev pub composite_reply : Result R → Reply R
  composite_reply (returned r) = record { effects = []; result = returned r }
  composite_reply (raised e) = record { effects = []; result = raised backend_server_error }

-- A composite tool, by its name and what invoking it comes to.
abbrev pub Composite : Type 0 → Type 0 → Type 0
Composite A R = String × (Dict String A → Result R)

module _ {A : Type 0} where
  abbrev pub request :
      AuthContext → String → String → String → Option (Dict String A) → RequestContext A
  request auth request_id name method arguments = record {
    capability_name = name;
    mcp_method = method;
    arguments = arguments;
    request_id = request_id;
    server_name = none;
    original_name = none;
    metadata = metadata_of auth;
    error = none;
  }

module _ {A R : Type 0} where
  -- `_dispatch`, up to the type of the result.
  unfoldable pub dispatch :
      Option (Handler A R) → RequestContext A → List Effect × Result (Option R)
  dispatch none ctx = ([], raised (runtime_error "middleware chain"))
  dispatch (some chain) ctx = let r = chain ctx in (r.effects, after_chain r.context.error r.result)

  abbrev pub forward : (R → Bool) → Option (Handler A R) → RequestContext A → Reply R
  forward is_result chain ctx =
      let d = dispatch chain ctx in record { effects = d.0; result = checked_type is_result d.1 }

  abbrev pub find_composite : String → List (Composite A R) → Option (Dict String A → Result R)
  find_composite name [] = none
  find_composite name ((n, invoke) ∷ cs) = if n == name then some invoke else find_composite name cs

  abbrev pub composite_or : Reply R → Dict String A → Option (Dict String A → Result R) → Reply R
  composite_or otherwise arguments none = otherwise
  composite_or otherwise arguments (some invoke) = composite_reply (invoke arguments)

  -- `handle_call_tool`; `optimizer` is whether it is enabled and has an index.
  module _ (is_result : R → Bool) (name_in : Option A → String)
      (arguments_in : Option A → Dict String A) (chain : Option (Handler A R)) (auth : AuthContext)
      (request_id : String) (optimizer : Bool) (composites : List (Composite A R)) where
    abbrev pub call_through : String → Dict String A → Reply R
    call_through name arguments =
        forward is_result chain (request auth request_id name "call_tool" (some arguments))

    abbrev pub meta_call : Dict String A → Reply R
    meta_call arguments =
        let real_name = name_in (get arguments "name") in
        if real_name == ""
        then record { effects = []; result = raised backend_server_error }
        else call_through real_name (arguments_in (get arguments "arguments"))

    abbrev pub plain_call : String → Dict String A → Reply R
    plain_call name arguments =
        composite_or (call_through name arguments) arguments (find_composite name composites)

    unfoldable pub handle_call_tool : String → Dict String A → Reply R
    unfolding dispatch
    handle_call_tool name arguments =
        if optimizer
        then (if name == "find_tool"
            then call_through name arguments
            else if name == "call_tool"
            then meta_call arguments
            else plain_call name arguments)
        else plain_call name arguments
