-- ===== src/Middleware/Reach.antt =====
-- Which backend a request reaches: the chain with the capability registry.
use argus_mcp.Base.{
  ◌≡◌, ◌⊎◌, inl, inr, refl, sym, ◌∙◌, ap, Bool, true, Bool-cases, String, Option, none, some, List,
  [], ◌∷◌, ◌++◌,
}
use argus_mcp.Requests.{
  Effect, Result, returned, raised, called, audited, recorded, RequestContext, Run,
}
use argus_mcp.Registry.{CapType, Config, Registry, passes}
use argus_mcp.Registry.Backends.{Batch, resolve_capability, discover_and_register}
use argus_mcp.Registry.Provenance.{Offered, resolve-Offered}
use argus_mcp.Middleware.{audit, audit_of, wrap}
use argus_mcp.Middleware.Routing.{Backends, Manager, allowed, routing, follow, forward, routed}
use argus_mcp.Middleware.Stack.{Settings, build_middleware_stack}
use argus_mcp.Middleware.Layers.{Safe, stack-Does}

-- The calls of backends: server, method and name.
abbrev pub calls : List Effect → List (String × (String × String))
calls [] = []
calls (called s m o ∷ es) = (s, (m, o)) ∷ calls es
calls (audited s e ∷ es) = calls es
calls (recorded s b ∷ es) = calls es

calls-append : (es fs : List Effect) → calls fs ≡ [] → calls (es ++ fs) ≡ calls es
calls-append [] fs h = h
calls-append (called x m o ∷ es) fs h = ap (λ r. (x, (m, o)) ∷ r) (calls-append es fs h)
calls-append (audited x e ∷ es) fs h = calls-append es fs h
calls-append (recorded x e ∷ es) fs h = calls-append es fs h

-- At most one call: of the server and the name that the registry resolves the request's name to,
-- with a session there and a method that is allowed.
abbrev pub ResolvedCall :
    Registry → Manager → String → String → List (String × (String × String)) → Type 0
ResolvedCall registry has_session name method cs =
    (cs ≡ [])
    ⊎ ((svr : String) × ((o : String) × ((cs ≡ (svr, (method, o)) ∷ [])
            × (resolve_capability registry name ≡ some (svr, o))
            × (has_session svr ≡ true)
            × (allowed method ≡ true))))

module _ {A R : Type 0} (backends : Backends A R) (registry : Registry)
    (has_session : Manager) where
  Keeps : RequestContext A → Run A R → Type 0
  Keeps ctx r =
      (r.context.capability_name ≡ ctx.capability_name)
      × (r.context.mcp_method ≡ ctx.mcp_method)
      × ResolvedCall registry has_session ctx.capability_name ctx.mcp_method (calls r.effects)

  forward-Keeps :
      (ctx : RequestContext A) (svr o : String)
      → resolve_capability registry ctx.capability_name ≡ some (svr, o)
      → Keeps ctx (forward backends has_session (routed svr o ctx) svr o)
  unfolding Keeps
  forward-Keeps ctx svr o e = elim (Bool-cases (has_session svr)) [
    | inr n ↦ rw n (refl, refl, inl refl)
    | inl y ↦ elim (Bool-cases (allowed ctx.mcp_method)) [
      | inr n ↦ rw (y, n) (refl, refl, inl refl)
      | inl z ↦ rw (y, z) (refl, refl, inr (svr, (o, (refl, e, y, refl))))
    ]
  ]

  follow-Keeps :
      (ctx : RequestContext A) (o : Option (String × String))
      → resolve_capability registry ctx.capability_name ≡ o
      → Keeps ctx (follow backends has_session ctx o)
  unfolding Keeps
  follow-Keeps ctx none e = (refl, refl, inl refl)
  follow-Keeps ctx (some (svr, o)) e = forward-Keeps ctx svr o e

  audit-calls : (ctx : RequestContext A) (r : Result (Option R)) → calls (audit_of ctx r) ≡ []
  audit-calls ctx (raised e) = refl
  audit-calls ctx (returned x) = refl

  core-Safe :
      (name method : String)
      → Safe
          (λ n m e. (n ≡ name) × (m ≡ method))
          (λ es. ResolvedCall registry has_session name method (calls es))
          (wrap audit (routing backends (some registry) (some has_session)))
  unfolding wrap audit routing Keeps
  core-Safe name method ctx i =
      let o = resolve_capability registry ctx.capability_name in
      let r = follow backends has_session ctx o in
      let k = follow-Keeps ctx o refl in
      (
        (k.0 ∙ i.0, k.1 ∙ i.1),
        rw
            (
              calls-append r.effects (audit_of r.context r.result) (audit-calls r.context r.result),
              sym i.0,
              sym i.1,
            )
            (k.2),
      )

  -- Whatever the authentication, the plugins and the telemetry are and do: a request calls a backend
  -- at most once, namely the server, with the request's method and the name there, that the registry
  -- resolves the request's capability name to, and only where there is a session with that server
  -- and the method is one of the three that are allowed.
  pub stack-ResolvedCall :
      (s : Settings A R) (ctx : RequestContext A)
      → ResolvedCall registry has_session ctx.capability_name ctx.mcp_method
          (calls (build_middleware_stack s backends (some registry) (some has_session) ctx).effects)
  stack-ResolvedCall s ctx =
      stack-Does _
        (λ es. ResolvedCall registry has_session ctx.capability_name ctx.mcp_method (calls es))
        (inl refl) (λ es svr b l. rw (calls-append es (recorded svr b ∷ []) refl) l) s backends
        (some registry) (some has_session) (core-Safe ctx.capability_name ctx.mcp_method) ctx
        (refl, refl)

the_call :
    (registry : Registry) (has_session : Manager) (name method svr m o : String)
    (others cs : List (String × (String × String)))
    → ResolvedCall registry has_session name method cs
    → cs ≡ (svr, (m, o)) ∷ others
    → (others ≡ []) × (m ≡ method) × (resolve_capability registry name ≡ some (svr, o))
the_call registry has_session name method svr m o others cs (inl n) q = absurd (cc)
the_call registry has_session name method svr m o others cs (inr (svr', (o', (e, e', y, z)))) q =
    (cc, cc, cc)

module _ {A R : Type 0} where
  -- After a discovery, a backend that a request reaches listed what it is asked for, under a name
  -- that the server's filter lets through for some type of capability; and no other is reached.
  pub stack-Offered :
      (fnmatch : String → String → Bool) (c : Config) (bs : List Batch) (r : Registry)
      (backends : Backends A R) (has_session : Manager) (s : Settings A R) (ctx : RequestContext A)
      (svr method o : String) (others : List (String × (String × String)))
      → calls
          (build_middleware_stack s backends
            (some (discover_and_register fnmatch c bs r))
            (some has_session)
            ctx).effects
        ≡ (svr, (method, o)) ∷ others
      → (others ≡ [])
        × (method ≡ ctx.mcp_method)
        × Offered fnmatch c bs svr o
        × ((t : CapType) × (passes fnmatch (c.filters svr t) o ≡ true))
  stack-Offered fnmatch c bs r backends has_session s ctx svr method o others e =
      let registry = discover_and_register fnmatch c bs r in
      let k =
        the_call registry has_session ctx.capability_name ctx.mcp_method svr method o others _
          (stack-ResolvedCall backends registry has_session s ctx) e in
      let offered = resolve-Offered fnmatch c bs r ctx.capability_name svr o (k.2) in
      (k.0, k.1, offered.0, offered.1)
