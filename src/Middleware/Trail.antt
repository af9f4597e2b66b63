-- ===== src/Middleware/Trail.antt =====
-- What the audit trail says of the requests that run through the chain.
use argus_mcp.Base.{
  ◌≡◌, refl, ◌⊎◌, inl, inr, ◌∙◌, Bool-cases, String, Option, none, some, List, [], ◌∷◌, ◌++◌, ap,
  Bool,
}
use mathlib.Core.List.{append-nil}
use argus_mcp.Base.Dict.{Dict}
use argus_mcp.Requests.{
  Error, Result, returned, raised, Effect, called, audited, recorded, RequestContext, Run,
}
use argus_mcp.Registry.{Registry}
use argus_mcp.Registry.Backends.{resolve_capability}
use argus_mcp.Middleware.{audit, audit_of, wrap}
use argus_mcp.Middleware.Routing.{Backends, Manager, allowed, routing, follow}
use argus_mcp.Middleware.Stack.{Settings, build_middleware_stack}
use argus_mcp.Middleware.Layers.{Safe, stack-Does}

-- The audit events: the server and the error of the outcome.
abbrev pub audits : List Effect → List (Option String × Option Error)
audits [] = []
audits (called s m o ∷ es) = audits es
audits (audited s e ∷ es) = (s, e) ∷ audits es
audits (recorded s b ∷ es) = audits es

audits-append : (es fs : List Effect) → audits (es ++ fs) ≡ audits es ++ audits fs
audits-append [] fs = refl
audits-append (called s m o ∷ es) fs = audits-append es fs
audits-append (audited s e ∷ es) fs = ap (λ r. (s, e) ∷ r) (audits-append es fs)
audits-append (recorded s b ∷ es) fs = audits-append es fs

audits-record :
    (es : List Effect) (s : String) (b : Bool) → audits (es ++ recorded s b ∷ []) ≡ audits es
audits-record es s b = audits-append es (recorded s b ∷ []) ∙ append-nil (audits es)

-- At most one event, and one that reports success.
abbrev pub OneSuccess : List (Option String × Option Error) → Type 0
OneSuccess events = (events ≡ []) ⊎ ((svr : Option String) × (events ≡ (svr, none) ∷ []))

module _ {A R : Type 0} (backends : Backends A R) (registry : Option Registry)
    (manager : Option Manager) where
  -- The routing leaves the error of the context, and audits nothing itself.
  Routed : RequestContext A → Run A R → Type 0
  Routed ctx r = (r.context.error ≡ ctx.error) × (audits r.effects ≡ [])

  follow-Routed :
      (has_session : Manager) (ctx : RequestContext A) (o : Option (String × String))
      → Routed ctx (follow backends has_session ctx o)
  unfolding Routed
  follow-Routed has_session ctx none = (refl, refl)
  follow-Routed has_session ctx (some (svr, o)) = elim (Bool-cases (has_session svr)) [
    | inr n ↦ rw n (refl, refl)
    | inl y ↦ elim (Bool-cases (allowed ctx.mcp_method)) [
      | inr n ↦ rw (y, n) (refl, refl)
      | inl z ↦ rw (y, z) (refl, refl)
    ]
  ]

  routing-Routed :
      (registry : Option Registry) (manager : Option Manager) (ctx : RequestContext A)
      → Routed ctx (routing backends registry manager ctx)
  unfolding routing Routed
  routing-Routed (some registry) (some has_session) ctx =
      follow-Routed has_session ctx (resolve_capability registry ctx.capability_name)
  routing-Routed none manager ctx = (refl, refl)
  routing-Routed (some registry) none ctx = (refl, refl)

  audit-OneSuccess :
      (ctx : RequestContext A) (r : Result (Option R))
      → ctx.error ≡ none
      → OneSuccess (audits (audit_of ctx r))
  audit-OneSuccess ctx (raised e) h = inl refl
  audit-OneSuccess ctx (returned x) h = inr (ctx.server_name, rw h refl)

  core-Safe :
      Safe
        (λ n m e. e ≡ none)
        (λ es. OneSuccess (audits es))
        (wrap audit (routing backends registry manager))
  unfolding wrap audit Routed
  core-Safe ctx i =
      let r = routing backends registry manager ctx in
      let k = routing-Routed registry manager ctx in
      (
        k.0 ∙ i,
        rw (audits-append r.effects (audit_of r.context r.result), k.1)
            (audit-OneSuccess r.context r.result (k.0 ∙ i)),
      )

  -- No request leaves more than one audit event, and every event that is written reports success:
  -- for a request that comes in without an error, an event that reports one is never written,
  -- whatever the backend, the plugins and the authentication do.
  pub stack-OneSuccess :
      (s : Settings A R) (ctx : RequestContext A)
      → ctx.error ≡ none
      → OneSuccess (audits (build_middleware_stack s backends registry manager ctx).effects)
  stack-OneSuccess s ctx h =
      stack-Does _ (λ es. OneSuccess (audits es)) (inl refl)
        (λ es svr b l. rw (audits-record es svr b) l) s backends registry manager core-Safe ctx h

  -- Every call of a backend fails.
  abbrev pub Raises : Result (Option R) → Type 0
  Raises (returned x) = ⊥
  Raises (raised e) = Unit

  module _
      (down : (svr m o : String) (arguments : Option (Dict String A))
        → Raises (backends svr m o arguments)) where
    follow-Raises :
        (has_session : Manager) (ctx : RequestContext A) (o : Option (String × String))
        → Raises (follow backends has_session ctx o).result
    follow-Raises has_session ctx none = tt
    follow-Raises has_session ctx (some (svr, o)) = elim (Bool-cases (has_session svr)) [
      | inr n ↦ rw n tt
      | inl y ↦ elim (Bool-cases (allowed ctx.mcp_method)) [
        | inr n ↦ rw (y, n) tt
        | inl z ↦ rw (y, z) (down svr ctx.mcp_method o _)
      ]
    ]

    routing-Raises :
        (registry : Option Registry) (manager : Option Manager) (ctx : RequestContext A)
        → Raises (routing backends registry manager ctx).result
    unfolding routing
    routing-Raises (some registry) (some has_session) ctx =
        follow-Raises has_session ctx (resolve_capability registry ctx.capability_name)
    routing-Raises none manager ctx = tt
    routing-Raises (some registry) none ctx = tt

    audit-Raises :
        (ctx : RequestContext A) (r : Result (Option R)) → Raises r → audits (audit_of ctx r) ≡ []
    audit-Raises ctx (raised e) h = refl
    audit-Raises ctx (returned x) h = absurd h

    core-unaudited :
        Safe (λ n m e. Unit) (λ es. audits es ≡ []) (wrap audit (routing backends registry manager))
    unfolding wrap audit Routed
    core-unaudited ctx i =
        let r = routing backends registry manager ctx in
        (
          tt,
          rw
              (
                audits-append r.effects (audit_of r.context r.result),
                (routing-Routed registry manager ctx).1,
              )
              (audit-Raises r.context r.result (routing-Raises registry manager ctx)),
        )

    -- Where every call of a backend fails, no request leaves an audit event.
    pub stack-unaudited :
        (s : Settings A R) (ctx : RequestContext A)
        → audits (build_middleware_stack s backends registry manager ctx).effects ≡ []
    stack-unaudited s ctx =
        stack-Does _ (λ es. audits es ≡ []) refl (λ es svr b l. audits-record es svr b ∙ l) s
          backends registry manager core-unaudited ctx tt
