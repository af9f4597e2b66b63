-- ===== src/Handlers/Failing.antt =====
-- Requests whose routing fails, through the whole chain and back out of the handler.
use argus_mcp.Base.{
  ◌≡◌, refl, ◌∙◌, Bool, true, false, Bool-cases, inl, inr, String, Option, none, some, List, [],
  ◌∷◌, ◌++◌, text_keys, ◌==◌,
}
use argus_mcp.Base.Dict.{Dict, get}
use argus_mcp.Requests.{UserIdentity, Error, Result, returned, raised, RequestContext, Run, Handler}
use argus_mcp.Registry.{Registry}
use argus_mcp.Registry.Backends.{resolve_capability}
use argus_mcp.Plugins.{Plugin, PluginContext, run_hook}
use argus_mcp.Middleware.{
  AuthMode, build_chain, wrap, checked, auth, asked, admitted, identified, recovery, rescued,
  telemetry, audit, token_of, or_else,
}
use argus_mcp.Middleware.Hooks.{
  plugin, run_phase, applied, to_plugin, from_plugin, post_phase, after_pre, pre_hook,
}
use argus_mcp.Middleware.Routing.{Backends, Manager, routing}
use argus_mcp.Middleware.Stack.{
  Settings, if_auth, if_plugins, if_telemetry, middlewares, build_middleware_stack,
}
use argus_mcp.Handlers.{
  AuthContext, after_chain, checked_type, dispatch, request, handle_call_tool, Composite,
}

abbrev pub Raises {ℓ} : {B : Type ℓ} → Result B → Type 0
Raises (returned x) = ⊥
Raises (raised e) = Unit

module _ {R : Type 0} where
  checked_type-Raises :
      (is_result : R → Bool) (r : Result (Option R)) → Raises r → Raises (checked_type is_result r)
  checked_type-Raises is_result (raised e) h = tt
  checked_type-Raises is_result (returned x) h = absurd h

  checked-Raises : (r : Result (Option R)) → Raises r → Raises (checked r)
  checked-Raises (raised e) h = tt
  checked-Raises (returned x) h = absurd h

  -- A result that is checked once more still raises after the chain.
  checked_again :
      (error : Option Error) (r : Result (Option R))
      → Raises (after_chain error r)
      → Raises (after_chain error (checked r))
  checked_again error (raised e) h = tt
  checked_again error (returned none) h = tt
  checked_again error (returned (some x)) h = h

identified-name :
    {A : Type 0} (mode : AuthMode) (user : UserIdentity) (ctx : RequestContext A)
    → (identified mode user ctx).capability_name ≡ ctx.capability_name
identified-name mode user ctx = elim (Bool-cases (user.subject == "")) [
  | inl b ↦ rw b refl
  | inr b ↦ rw b refl
]

module _ {A R : Type 0} (name : String) where
  -- From a context that asks for the name, the handler raises.
  Fails : Handler A R → Type 0
  Fails next = (ctx : RequestContext A) → ctx.capability_name ≡ name → Raises (next ctx).result

  wrap-Fails :
      (m : Handler A R → Handler A R) (next : Handler A R) → Fails (m next) → Fails (wrap m next)
  unfolding wrap Fails
  wrap-Fails m next h ctx e = checked-Raises (m next ctx).result (h ctx e)

  telemetry-Fails : (next : Handler A R) → Fails next → Fails (telemetry next)
  unfolding telemetry Fails
  telemetry-Fails next h ctx e = h ctx e

  audit-Fails : (next : Handler A R) → Fails next → Fails (audit next)
  unfolding audit Fails
  audit-Fails next h ctx e = h ctx e

  post-Raises :
      (ps : List (Plugin A R)) (method : String) (r : Run A R) (o : Result (Option R))
      → r.result ≡ o
      → Raises o
      → Raises (post_phase ps method r o).result
  post-Raises ps method r (raised e) q h = rw q tt
  post-Raises ps method r (returned x) q h = absurd h

  after_hook :
      (ps : List (Plugin A R)) (next : Handler A R) (ctx : RequestContext A)
      (o : Result (PluginContext A R))
      → Fails next
      → ctx.capability_name ≡ name
      → Raises (after_pre ps next ctx (applied ctx o)).result
  unfolding Fails
  after_hook ps next ctx (raised e) h n = tt
  after_hook ps next ctx (returned c) h n =
      post-Raises ps ctx.mcp_method (next (from_plugin ctx c)) (next (from_plugin ctx c)).result
        refl (h (from_plugin ctx c) n)

  pre-Raises :
      (hook : Option String) (ps : List (Plugin A R)) (next : Handler A R) (ctx : RequestContext A)
      → Fails next
      → ctx.capability_name ≡ name
      → Raises (after_pre ps next ctx (run_phase hook ps ctx none)).result
  unfolding Fails
  pre-Raises none ps next ctx h n =
      post-Raises ps ctx.mcp_method (next ctx) (next ctx).result refl (h ctx n)
  pre-Raises (some hook) ps next ctx h n =
      after_hook ps next ctx
        (run_hook hook ctx.capability_name (or_else "" ctx.server_name) ctx.mcp_method ps
          (to_plugin ctx none))
        h n

  plugin-Fails : (ps : List (Plugin A R)) (next : Handler A R) → Fails next → Fails (plugin ps next)
  unfolding plugin Fails
  plugin-Fails ps next h ctx n = pre-Raises (pre_hook ctx.mcp_method) ps next ctx h n

  telemetry_inner :
      (t : Bool) (core : Handler A R)
      → Fails core
      → Fails (build_chain (if_telemetry t ++ audit ∷ []) core)
  unfolding build_chain
  telemetry_inner true core h =
      wrap-Fails telemetry (wrap audit core)
        (telemetry-Fails (wrap audit core) (wrap-Fails audit core (audit-Fails core h)))
  telemetry_inner false core h = wrap-Fails audit core (audit-Fails core h)

  inner-Fails :
      (ps : Option (List (Plugin A R))) (t : Bool) (core : Handler A R)
      → Fails core
      → Fails (build_chain (if_plugins ps ++ (if_telemetry t ++ audit ∷ [])) core)
  unfolding build_chain
  inner-Fails (some ps) t core h =
      wrap-Fails (plugin ps) _ (plugin-Fails ps _ (telemetry_inner t core h))
  inner-Fails none t core h = telemetry_inner t core h

  -- What comes out of the handler, after the chain: an error.
  abbrev GoesOn : Handler A R → Type 0
  GoesOn next =
      (ctx : RequestContext A)
      → ctx.capability_name ≡ name
      → Raises (after_chain (next ctx).context.error (next ctx).result)

  rescued-Raises :
      (er : String → R) (r : Run A R) (o : Result (Option R))
      → Raises o
      → Raises (after_chain (rescued er r o).context.error (checked (rescued er r o).result))
  rescued-Raises er r (raised e) h = tt
  rescued-Raises er r (returned x) h = absurd h

  recovery-GoesOn :
      (er : String → R) (next : Handler A R) → Fails next → GoesOn (wrap (recovery er) next)
  unfolding wrap recovery Fails
  recovery-GoesOn er next h ctx n = rescued-Raises er (next ctx) (next ctx).result (h ctx n)

  admitted-GoesOn :
      (mode : AuthMode) (next : Handler A R) (ctx : RequestContext A) (o : Result UserIdentity)
      → GoesOn next
      → ctx.capability_name ≡ name
      → Raises (
          after_chain
            (admitted mode next ctx o).context.error
            (checked (admitted mode next ctx o).result))
  admitted-GoesOn mode next ctx (raised e) h n = tt
  admitted-GoesOn mode next ctx (returned user) h n =
      let r = next (identified mode user ctx) in
      checked_again r.context.error r.result
        (h (identified mode user ctx) (identified-name mode user ctx ∙ n))

  auth-GoesOn :
      (a : Option ((Option String → Result UserIdentity) × AuthMode))
      (ms : List (Handler A R → Handler A R)) (core : Handler A R)
      → GoesOn (build_chain ms core)
      → GoesOn (build_chain (if_auth a ++ ms) core)
  unfolding build_chain wrap auth
  auth-GoesOn none ms core h ctx n = h ctx n
  auth-GoesOn (some (authenticate, mode)) ms core h ctx n =
      admitted-GoesOn mode (build_chain ms core) ctx
        (asked authenticate mode (token_of (get ctx.metadata "auth_token"))) h n

  -- A request that the registry does not resolve.
  routing-Fails :
      (backends : Backends A R) (registry : Registry) (manager : Option Manager)
      → resolve_capability registry name ≡ none
      → Fails (routing backends (some registry) manager)
  unfolding routing Fails
  routing-Fails backends registry none e ctx n = tt
  routing-Fails backends registry (some has_session) e ctx n = rw (n, e) tt

  unresolved :
      (s : Settings A R) (backends : Backends A R) (registry : Registry) (manager : Option Manager)
      → resolve_capability registry name ≡ none
      → GoesOn (build_middleware_stack s backends (some registry) manager)
  unfolding build_middleware_stack middlewares build_chain
  unresolved s backends registry manager e =
      auth-GoesOn s.authenticator
        (recovery s.error_response
          ∷ (if_plugins s.plugins ++ (if_telemetry s.telemetry_enabled ++ audit ∷ [])))
        (routing backends (some registry) manager)
        (recovery-GoesOn s.error_response _ (
          inner-Fails s.plugins s.telemetry_enabled (routing backends (some registry) manager)
            (routing-Fails backends registry manager e)))

module _ {A R : Type 0} where
  -- With the optimizer on, the meta-tool `find_tool` never gives a result but always an error, whatever
  -- the index of tools holds, unless a backend's own tool is routed under that name.
  pub handle_call_tool-find_tool :
      (is_result : R → Bool) (name_in : Option A → String) (arguments_in : Option A → Dict String A)
      (auth : AuthContext) (request_id : String) (composites : List (Composite A R))
      (s : Settings A R) (backends : Backends A R) (registry : Registry) (manager : Option Manager)
      (arguments : Dict String A)
      → resolve_capability registry "find_tool" ≡ none
      → Raises
          (handle_call_tool is_result name_in arguments_in
            (some (build_middleware_stack s backends (some registry) manager))
            auth
            request_id
            true
            composites
            "find_tool"
            arguments).result
  unfolding handle_call_tool dispatch
  handle_call_tool-find_tool is_result name_in arguments_in auth request_id composites s backends
        registry manager arguments e =
      checked_type-Raises is_result _ (
        unresolved "find_tool" s backends registry manager e
          (request auth request_id "find_tool" "call_tool" (some arguments)) refl)

  -- The response that the recovery builds from an error never reaches the client: without
  -- authentication, whatever the handlers inside the recovery raise is what the dispatch raises.
  pub dispatch-recovery :
      (error_response : String → R) (next : Handler A R) (ctx : RequestContext A) (e : Error)
      → (next ctx).result ≡ raised e
      → (dispatch (some (wrap (recovery error_response) next)) ctx).1 ≡ raised e
  unfolding dispatch wrap recovery
  dispatch-recovery error_response next ctx e h = rw h refl
