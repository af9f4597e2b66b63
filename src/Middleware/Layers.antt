-- ===== src/Middleware/Layers.antt =====
-- What the layers of the chain keep: a fact about the parts of the context that no middleware inside
-- the recovery changes, and a fact about the list of effects.
use argus_mcp.Base.{
  ◌≡◌, refl, Bool, true, false, Bool-cases, inl, inr, String, Option, none, some, List, [], ◌∷◌,
  ◌++◌, text_keys, ◌==◌,
}
use argus_mcp.Requests.{
  Error, Result, returned, raised, Effect, recorded, RequestContext, Run, Handler, UserIdentity,
}
use argus_mcp.Base.Dict.{get}
use argus_mcp.Registry.{Registry}
use argus_mcp.Plugins.{Plugin, PluginContext, run_hook}
use argus_mcp.Middleware.{
  AuthMode, build_chain, wrap, auth, asked, admitted, recovery, rescued, telemetry, audit, token_of,
  or_else, identified,
}
use argus_mcp.Middleware.Hooks.{
  plugin, run_phase, applied, to_plugin, post_phase, finished_phase, after_pre, pre_hook, post_hook,
}
use argus_mcp.Middleware.Routing.{Backends, Manager, routing}
use argus_mcp.Middleware.Stack.{
  Settings, if_auth, if_plugins, if_telemetry, middlewares, build_middleware_stack,
}

module _ {A : Type 0} (I : String → String → Option Error → Type 0) where
  -- `I` of the name, the method and the error of the context.
  abbrev pub Of : RequestContext A → Type 0
  Of ctx = I ctx.capability_name ctx.mcp_method ctx.error

module _ {A R : Type 0} (I : String → String → Option Error → Type 0)
    (L : List Effect → Type 0) where
  -- From a context with `I`, the handler ends in one, and its effects have `L`.
  abbrev pub Safe : Handler A R → Type 0
  Safe next = (ctx : RequestContext A) → Of I ctx → Of I (next ctx).context × L (next ctx).effects

  wrap-Safe :
      (m : Handler A R → Handler A R) (next : Handler A R) → Safe (m next) → Safe (wrap m next)
  unfolding wrap
  wrap-Safe m next h ctx i = h ctx i

  module _ (nothing : L [])
      (record_more : (es : List Effect) (s : String) (b : Bool)
        → L es
        → L (es ++ recorded s b ∷ [])) where
    telemetry-Safe : (next : Handler A R) → Safe next → Safe (telemetry next)
    unfolding telemetry
    telemetry-Safe next h ctx i = ((h ctx i).0, record_more (next ctx).effects _ _ (h ctx i).1)

    -- What a phase gives has the name, the method and the error of the context it was given.
    abbrev PhaseKeeps : Result (RequestContext A × Option R) → Type 0
    PhaseKeeps (raised e) = Unit
    PhaseKeeps (returned (c, r)) = Of I c

    applied-keeps :
        (ctx : RequestContext A) (o : Result (PluginContext A R))
        → Of I ctx
        → PhaseKeeps (applied ctx o)
    applied-keeps ctx (raised e) i = tt
    applied-keeps ctx (returned c) i = i

    run_phase-keeps :
        (hook : Option String) (ps : List (Plugin A R)) (ctx : RequestContext A) (r : Option R)
        → Of I ctx
        → PhaseKeeps (run_phase hook ps ctx r)
    run_phase-keeps none ps ctx r i = i
    run_phase-keeps (some hook) ps ctx r i =
        applied-keeps ctx
          (run_hook hook ctx.capability_name (or_else "" ctx.server_name) ctx.mcp_method ps
            (to_plugin ctx r))
          i

    finished-Safe :
        (r : Run A R) (o : Result (RequestContext A × Option R))
        → Of I r.context
        → L r.effects
        → PhaseKeeps o
        → Of I (finished_phase r o).context × L (finished_phase r o).effects
    finished-Safe r (raised e) i l k = (i, l)
    finished-Safe r (returned (c, x)) i l k = (k, l)

    post-Safe :
        (ps : List (Plugin A R)) (method : String) (r : Run A R) (o : Result (Option R))
        → Of I r.context
        → L r.effects
        → Of I (post_phase ps method r o).context × L (post_phase ps method r o).effects
    post-Safe ps method r (raised e) i l = (i, l)
    post-Safe ps method r (returned x) i l =
        finished-Safe r (run_phase (post_hook method) ps r.context x) i l
          (run_phase-keeps (post_hook method) ps r.context x i)

    pre-Safe :
        (ps : List (Plugin A R)) (next : Handler A R) (ctx : RequestContext A)
        (o : Result (RequestContext A × Option R))
        → Safe next
        → Of I ctx
        → PhaseKeeps o
        → Of I (after_pre ps next ctx o).context × L (after_pre ps next ctx o).effects
    pre-Safe ps next ctx (raised e) h i k = (i, nothing)
    pre-Safe ps next ctx (returned (c, _)) h i k =
        post-Safe ps ctx.mcp_method (next c) (next c).result (h c k).0 (h c k).1

    plugin-Safe : (ps : List (Plugin A R)) (next : Handler A R) → Safe next → Safe (plugin ps next)
    unfolding plugin
    plugin-Safe ps next h ctx i =
        pre-Safe ps next ctx (run_phase (pre_hook ctx.mcp_method) ps ctx none) h i
          (run_phase-keeps (pre_hook ctx.mcp_method) ps ctx none i)

    -- What is inside the recovery.
    module _ (core : Handler A R) where
      abbrev pub with_telemetry : Bool → List (Handler A R → Handler A R) → Handler A R
      with_telemetry b ms = build_chain (if_telemetry b ++ ms) core

      telemetry_layer :
          (b : Bool) (ms : List (Handler A R → Handler A R))
          → Safe (build_chain ms core)
          → Safe (with_telemetry b ms)
      unfolding build_chain
      telemetry_layer false ms h = h
      telemetry_layer true ms h =
          wrap-Safe telemetry (build_chain ms core) (telemetry-Safe (build_chain ms core) h)

      plugin_layer :
          (ps : Option (List (Plugin A R))) (ms : List (Handler A R → Handler A R))
          → Safe (build_chain ms core)
          → Safe (build_chain (if_plugins ps ++ ms) core)
      unfolding build_chain
      plugin_layer none ms h = h
      plugin_layer (some ps) ms h =
          wrap-Safe (plugin ps) (build_chain ms core) (plugin-Safe ps (build_chain ms core) h)

    rescued-effects :
        (error_response : String → R) (r : Run A R) (o : Result (Option R))
        → (rescued error_response r o).effects ≡ r.effects
    rescued-effects error_response r (raised e) = refl
    rescued-effects error_response r (returned x) = refl

    -- From a context with `I`, the effects of the handler have `L`.
    abbrev pub Does : Handler A R → Type 0
    Does next = (ctx : RequestContext A) → Of I ctx → L (next ctx).effects

    recovery-Does :
        (error_response : String → R) (next : Handler A R)
        → Safe next
        → Does (wrap (recovery error_response) next)
    unfolding recovery wrap
    recovery-Does er next h ctx i =
        rw (rescued-effects er (next ctx) (next ctx).result) ((h ctx i).1)

    admitted-Does :
        (mode : AuthMode) (next : Handler A R) (ctx : RequestContext A) (o : Result UserIdentity)
        → Does next
        → Of I ctx
        → L (admitted mode next ctx o).effects
    admitted-Does mode next ctx (raised e) h i = nothing
    admitted-Does mode next ctx (returned user) h i =
        h (identified mode user ctx) (identified-Of user i)
      where
        identified-Of : (user : UserIdentity) → Of I ctx → Of I (identified mode user ctx)
        identified-Of user i = elim (Bool-cases (user.subject == "")) [
          | inl b ↦ rw b i
          | inr b ↦ rw b i
        ]

    auth_layer :
        (a : Option ((Option String → Result UserIdentity) × AuthMode))
        (ms : List (Handler A R → Handler A R)) (core : Handler A R)
        → Does (build_chain ms core)
        → Does (build_chain (if_auth a ++ ms) core)
    unfolding build_chain wrap auth
    auth_layer none ms core h ctx i = h ctx i
    auth_layer (some (authenticate, mode)) ms core h ctx i =
        admitted-Does mode (build_chain ms core) ctx
          (asked authenticate mode (token_of (get ctx.metadata "auth_token"))) h i

    -- From the layer of the audit and the routing to the whole stack.
    pub stack-Does :
        (s : Settings A R) (backends : Backends A R) (registry : Option Registry)
        (manager : Option Manager)
        → Safe (wrap audit (routing backends registry manager))
        → Does (build_middleware_stack s backends registry manager)
    unfolding build_middleware_stack middlewares build_chain
    stack-Does s backends registry manager h =
        let core = routing backends registry manager in
        auth_layer s.authenticator
          (recovery s.error_response
            ∷ (if_plugins s.plugins ++ (if_telemetry s.telemetry_enabled ++ audit ∷ [])))
          core
          (recovery-Does s.error_response _ (
            plugin_layer core s.plugins _
              (telemetry_layer core s.telemetry_enabled (audit ∷ []) h)))
