-- ===== src/Registry/Provenance.antt =====
-- Every route leads to a capability that its backend presented, past its filter.
use argus_mcp.Base.{
  ◌≡◌, ◌⊎◌, inl, inr, refl, sym, subst, Bool, true, String, Option, none, some, List, [], ◌∷◌,
  arith, text_keys,
}
use argus_mcp.Base.Dict.{get}
use argus_mcp.Registry.{Capability, CapType, Config, Registry, passes, apply_filter_and_rename}
use argus_mcp.Registry.Backends.{
  Response, items, failed, Batch, route_map-put_part, empty, resolve_capability,
  discover_caps_by_type, discover_all, discover_and_register,
}
use argus_mcp.Registry.Routes.{Leads, Turn-Leads, Presents, presented, register_all-keeps}

module _ (fnmatch : String → String → Bool) (c : Config) where
  abbrev pub Answers : String → CapType → Response → String → String → Type 0
  Answers svr type failed original name = ⊥
  Answers svr type (items xs) original name = Presents fnmatch c svr type xs original name

  -- One of the batches is of that server and presents that original name, under some name.
  abbrev pub Offered : List Batch → String → String → Type 0
  Offered [] s o = ⊥
  Offered (b ∷ bs) s o =
      ((b.server ≡ s) × ((name : String) × Answers s b.type b.response o name)) ⊎ Offered bs s o

  module _ (P : String → String → Type 0) where
    batch-Leads :
        (svr : String) (type : CapType) (a : Response) (r : Registry)
        → ((o name : String) → Answers svr type a o name → P svr o)
        → Leads P r.route_map
        → Leads P
            (discover_caps_by_type fnmatch c
              (record { server = svr; type = type; response = a })
              r).route_map
    unfolding discover_caps_by_type
    batch-Leads svr type failed r h l = l
    batch-Leads svr type (items xs) r h l = rw route_map-put_part (
        register_all-keeps fnmatch c svr type (λ p. Leads P p.routes) xs _
          (λ o n i p p' offered l' t. Turn-Leads P c.strategy svr o i p p' n (h o n offered) l' t)
          l)

    all-Leads :
        (bs : List Batch) (r : Registry)
        → ((s o : String) → Offered bs s o → P s o)
        → Leads P r.route_map
        → Leads P (discover_all fnmatch c bs r).route_map
    unfolding discover_all
    all-Leads [] r h l = l
    all-Leads (b ∷ bs) r h l =
        all-Leads bs (discover_caps_by_type fnmatch c b r) (λ s o offered. h s o (inr offered))
          (batch-Leads b.server b.type b.response r
            (λ o name a. h b.server o (inl (refl, (name, a)))) l)

  apply-passes :
      (s : String) (t : CapType) (item item' : Capability) (o : String)
      → apply_filter_and_rename fnmatch c s t item ≡ some (o, item')
      → passes fnmatch (c.filters s t) o ≡ true
  unfolding apply_filter_and_rename
  apply-passes s t item item' o e =
      let pass : Bool = passes fnmatch (c.filters s t) item.name in
      let both : (pass ≡ true) × (item.name ≡ o) = (ground arith, ground arith) in
      subst (λ x. passes fnmatch (c.filters s t) x ≡ true) both.1 both.0

  Presents-passes :
      (s : String) (t : CapType) (xs : List (Option Capability)) (o name : String)
      → Presents fnmatch c s t xs o name
      → passes fnmatch (c.filters s t) o ≡ true
  Presents-passes s t (none ∷ xs) o name h = Presents-passes s t xs o name h
  Presents-passes s t (some item ∷ xs) o name (inl (presented item' ne e n)) =
      apply-passes s t item item' o e
  Presents-passes s t (some item ∷ xs) o name (inr h) = Presents-passes s t xs o name h
  Presents-passes s t [] o name h = absurd h

  Answers-passes :
      (s : String) (t : CapType) (a : Response) (o name : String)
      → Answers s t a o name
      → passes fnmatch (c.filters s t) o ≡ true
  Answers-passes s t failed o name h = absurd h
  Answers-passes s t (items xs) o name h = Presents-passes s t xs o name h

  Offered-passes :
      (bs : List Batch) (s o : String)
      → Offered bs s o
      → (t : CapType) × (passes fnmatch (c.filters s t) o ≡ true)
  Offered-passes [] s o h = absurd h
  Offered-passes (b ∷ bs) s o (inl (e, (name, a))) = (
    b.type,
    subst (λ x. passes fnmatch (c.filters x b.type) o ≡ true) e
        (Answers-passes b.server b.type b.response o name
          (subst (λ x. Answers x b.type b.response o name) (sym e) a)),
  )
  Offered-passes (b ∷ bs) s o (inr h) = Offered-passes bs s o h

  -- Whatever the order in which the backends answer, a name that resolves after discovery leads to
  -- a server that was asked and to an original name that this server listed in one of its answers,
  -- and the filter of that server lets the original name through for a type of capability.
  pub resolve-Offered :
      (bs : List Batch) (r : Registry) (name s o : String)
      → resolve_capability (discover_and_register fnmatch c bs r) name ≡ some (s, o)
      → Offered bs s o × ((t : CapType) × (passes fnmatch (c.filters s t) o ≡ true))
  unfolding resolve_capability discover_and_register get
  resolve-Offered bs r name s o e =
      let offered = all-Leads (Offered bs) bs empty (λ s o h. h) no_routes name s o e in
      (offered, Offered-passes bs s o offered)
    where
      no_routes : Leads (Offered bs) []
      no_routes k s o h = cc
