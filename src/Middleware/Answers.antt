-- ===== src/Middleware/Answers.antt =====
-- What a request that runs through the chain comes to: the only errors that leave the chain are the
-- authenticator's.
use argus_mcp.Base.{
  ◌≡◌, ◌≢◌, text_keys, refl, ◌⊎◌, inl, inr, String, Option, none, some, List, [], ◌∷◌, ◌++◌, Bool,
  true, false,
}
use argus_mcp.Base.Dict.{get}
use argus_mcp.Requests.{UserIdentity, Error, Result, returned, raised, RequestContext, Run, Handler}
use argus_mcp.Registry.{Registry}
use argus_mcp.Plugins.{Plugin}
use argus_mcp.Middleware.{
  AuthMode, strict, permissive, asked, admitted, auth, token_of, audit, recovery, rescued,
  telemetry, wrap, checked, build_chain, fails_at, identified,
}
use argus_mcp.Middleware.Routing.{Backends, Manager, routing}
use argus_mcp.Middleware.Hooks.{plugin}
use argus_mcp.Middleware.Stack.{
  Settings, if_auth, if_plugins, if_telemetry, middlewares, build_middleware_stack,
}

module _ {R : Type 0} where
  -- A response, and not `None`.
  abbrev pub IsResponse : Result (Option R) → Type 0
  IsResponse (returned (some r)) = Unit
  IsResponse _ = ⊥

  abbrev NotNone : Result (Option R) → Type 0
  NotNone (returned none) = ⊥
  NotNone _ = Unit

  checked-NotNone : (r : Result (Option R)) → NotNone (checked r)
  checked-NotNone (returned none) = tt
  checked-NotNone (returned (some x)) = tt
  checked-NotNone (raised e) = tt

  checked-IsResponse : (r : Result (Option R)) → IsResponse r → IsResponse (checked r)
  checked-IsResponse (returned (some x)) h = tt
  checked-IsResponse (returned none) h = absurd h
  checked-IsResponse (raised e) h = absurd h

asked-refused :
    (authenticate : Option String → Result UserIdentity) (mode : AuthMode) (token : Option String)
    (e : Error)
    → (token ≢ none) ⊎ (mode ≡ strict)
    → authenticate token ≡ raised e
    → asked authenticate mode token ≡ raised e
asked-refused authenticate mode (some t) e c h = h
asked-refused authenticate strict none e c h = h
asked-refused authenticate permissive none e (inl n) h = absurd (n refl)
asked-refused authenticate permissive none e (inr q) h = absurd (cc)

module _ {A R : Type 0} where
  Checks : Handler A R → Type 0
  Checks next = (ctx : RequestContext A) → NotNone (next ctx).result

  wrap-Checks : (m : Handler A R → Handler A R) (next : Handler A R) → Checks (wrap m next)
  unfolding wrap Checks
  wrap-Checks m next ctx = checked-NotNone (m next ctx).result

  rescued-IsResponse :
      (er : String → R) (r : Run A R) (o : Result (Option R))
      → r.result ≡ o
      → NotNone o
      → IsResponse (checked (rescued er r o).result)
  rescued-IsResponse er r (raised e) q n = tt
  rescued-IsResponse er r (returned none) q n = absurd n
  rescued-IsResponse er r (returned (some x)) q n = rw q tt

  -- What the recovery has around it, wherever the middleware inside it comes from.
  recovery-IsResponse :
      (er : String → R) (next : Handler A R) (ctx : RequestContext A)
      → Checks next
      → IsResponse (wrap (recovery er) next ctx).result
  unfolding wrap recovery Checks
  recovery-IsResponse er next ctx h =
      rescued-IsResponse er (next ctx) (next ctx).result refl (h ctx)

  -- The last of the middlewares inside the recovery is the audit, so there is one.
  inner-Checks :
      (ps : Option (List (Plugin A R))) (t : Bool) (core : Handler A R)
      → Checks (build_chain (if_plugins ps ++ (if_telemetry t ++ audit ∷ [])) core)
  unfolding build_chain
  inner-Checks (some ps) t core =
      wrap-Checks (plugin ps) (build_chain (if_telemetry t ++ audit ∷ []) core)
  inner-Checks none true core = wrap-Checks telemetry (wrap audit core)
  inner-Checks none false core = wrap-Checks audit core

  -- The result of the whole chain: a response, or the error with which the authenticator refused
  -- the request's token or the lack of one.
  abbrev pub Ends :
      Option ((Option String → Result UserIdentity) × AuthMode)
      → RequestContext A
      → Result (Option R)
      → Type 0
  Ends none ctx r = IsResponse r
  Ends (some (authenticate, mode)) ctx r =
      IsResponse r
      ⊎ ((e : Error) × ((r ≡ raised e)
            × (asked authenticate mode (token_of (get ctx.metadata "auth_token")) ≡ raised e)))

  admitted-Ends :
      (authenticate : Option String → Result UserIdentity) (mode : AuthMode) (next : Handler A R)
      (ctx : RequestContext A) (o : Result UserIdentity)
      → asked authenticate mode (token_of (get ctx.metadata "auth_token")) ≡ o
      → ((c : RequestContext A) → IsResponse (next c).result)
      → Ends (some (authenticate, mode)) ctx (checked (admitted mode next ctx o).result)
  admitted-Ends authenticate mode next ctx (raised e) q h = inr (e, (refl, q))
  admitted-Ends authenticate mode next ctx (returned user) q h =
      inl
        (checked-IsResponse (next (identified mode user ctx)).result (h (identified mode user ctx)))

  layer-Ends :
      (a : Option ((Option String → Result UserIdentity) × AuthMode)) (er : String → R)
      (ms : List (Handler A R → Handler A R)) (core : Handler A R) (ctx : RequestContext A)
      → Checks (build_chain ms core)
      → Ends a ctx (build_chain (if_auth a ++ recovery er ∷ ms) core ctx).result
  unfolding build_chain wrap auth
  layer-Ends none er ms core ctx h = recovery-IsResponse er (build_chain ms core) ctx h
  layer-Ends (some (authenticate, mode)) er ms core ctx h =
      admitted-Ends authenticate mode (wrap (recovery er) (build_chain ms core)) ctx
        (asked authenticate mode (token_of (get ctx.metadata "auth_token"))) refl
        (λ c. recovery-IsResponse er (build_chain ms core) c h)

  -- Every request gets a response, whatever the backend, the registry and the plugins do, but for
  -- one that the authenticator refuses: that one gets the authenticator's own error. Without
  -- authentication no error ever leaves the chain.
  pub stack-Ends :
      (s : Settings A R) (backends : Backends A R) (registry : Option Registry)
      (manager : Option Manager) (ctx : RequestContext A)
      → Ends s.authenticator ctx (build_middleware_stack s backends registry manager ctx).result
  unfolding build_middleware_stack middlewares
  stack-Ends s backends registry manager ctx =
      layer-Ends s.authenticator s.error_response
        (if_plugins s.plugins ++ (if_telemetry s.telemetry_enabled ++ audit ∷ []))
        (routing backends registry manager) ctx
        (inner-Checks s.plugins s.telemetry_enabled (routing backends registry manager))

  refused_layer :
      (authenticate : Option String → Result UserIdentity) (mode : AuthMode)
      (ms : List (Handler A R → Handler A R)) (core : Handler A R) (ctx : RequestContext A)
      (e : Error)
      → asked authenticate mode (token_of (get ctx.metadata "auth_token")) ≡ raised e
      → build_chain (if_auth (some (authenticate, mode)) ++ ms) core ctx ≡ fails_at ctx e
  unfolding build_chain wrap auth
  refused_layer authenticate mode ms core ctx e h = rw h refl

  -- A request whose token the authenticator refuses, in either mode, or that has none where the mode
  -- is strict and the authenticator refuses that, goes no further: nothing is called, audited or
  -- recorded, its context is as it came, and the error is the authenticator's.
  pub stack-refused :
      (s : Settings A R) (backends : Backends A R) (registry : Option Registry)
      (manager : Option Manager) (ctx : RequestContext A)
      (authenticate : Option String → Result UserIdentity) (mode : AuthMode) (e : Error)
      → s.authenticator ≡ some (authenticate, mode)
      → (token_of (get ctx.metadata "auth_token") ≢ none) ⊎ (mode ≡ strict)
      → authenticate (token_of (get ctx.metadata "auth_token")) ≡ raised e
      → build_middleware_stack s backends registry manager ctx ≡ fails_at ctx e
  unfolding build_middleware_stack middlewares
  stack-refused s backends registry manager ctx authenticate mode e q c h = rw q (
      refused_layer authenticate mode
        (recovery s.error_response
          ∷ (if_plugins s.plugins ++ (if_telemetry s.telemetry_enabled ++ audit ∷ [])))
        (routing backends registry manager) ctx e
        (asked-refused authenticate mode (token_of (get ctx.metadata "auth_token")) e c h))
