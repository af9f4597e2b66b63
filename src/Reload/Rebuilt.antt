-- ===== src/Reload/Rebuilt.antt =====
-- The capability registry after a reload.
use argus_mcp.Base.{
  ◌≡◌, ◌≢◌, inl, inr, refl, Bool, true, String, Option, none, some, contains, ap, ◌∙◌, ==_refl,
  List, [], ◌∷◌, All, text_keys, Comparable, subst,
}
use argus_mcp.Base.Dict.{Dict, get, has}
use argus_mcp.Runtime.{ServiceState}
use argus_mcp.Diff.{BackendConfig, compute_diff}
use argus_mcp.Registry.{Config, Registry}
use argus_mcp.Registry.Backends.{Batch, empty, resolve_capability}
use argus_mcp.Registry.Provenance.{Offered, resolve-Offered}
use argus_mcp.Client.Slots.{slot}
use argus_mcp.Reload.Refines.{backend_after, slot-apply_diff}
use argus_mcp.Reload.{Service, loaded, Network, or_empty, apply_diff, rebuilt, reload}

no_entries : {W : Type 0} (d : Dict String W) → ((x : String) → get d x ≡ none) → d ≡ []
unfolding get
no_entries [] h = refl
no_entries ((k, w) ∷ d) h = let q = h k in absurd (let e = rw (==_refl k) at q in cc)

Offered-server :
    (fnmatch : String → String → Bool) (config : Config) (P : String → Type 0) (bs : List Batch)
    (s o : String)
    → All (λ b. P b.server) bs
    → Offered fnmatch config bs s o
    → P s
Offered-server fnmatch config P [] s o u f = elim f [ ]
Offered-server fnmatch config P (b ∷ bs) s o (h, k) (inl (e, f)) = subst P e h
Offered-server fnmatch config P (b ∷ bs) s o (h, k) (inr f) =
    Offered-server fnmatch config P bs s o k f

module _ {V S K : Type 0} ⦃v : Comparable V⦄ (network : Network V S K)
    (order : List String → List String) (fnmatch : String → String → Bool)
    (answers : Dict String S → List Batch) where
  gone :
      (x : String) (o : Option (BackendConfig V)) (w : Option S × Option K)
      → (o ≡ none → w.0 ≡ none)
      → (backend_after network x o none w).0 ≡ none
  gone x none w h = h refl
  gone x (some o) (none, k) h = refl
  gone x (some o) (some s, k) h = refl

  -- A reload of a running service, of whose sessions each is configured, to a configuration with no
  -- backend at all, in whatever order the set of the removed ones is iterated: no session is left,
  -- but the registry is as it was, so that the names of the backends that are gone are still listed
  -- and still resolve to them.
  pub reload-empty :
      (any_order : (xs : List String) (x : String) → contains x (order xs) ≡ contains x xs)
      (config : Config) (service : Service V S K) (path : String)
      → service.state ≡ ServiceState.running
      → service.config_path ≡ some path
      → ((x : String)
          → get (or_empty service.config_data) x ≡ none
          → get service.client.sessions x ≡ none)
      → ((reload network order fnmatch answers config (loaded []) service).1.client.sessions ≡ [])
        × ((reload network order fnmatch answers config (loaded []) service).1.registry
            ≡ service.registry)
  unfolding reload get
  reload-empty any_order config service path r p h =
      let left =
        (apply_diff network order (compute_diff (or_empty service.config_data) []) []
          service.client).0 in
      let e : left.sessions ≡ [] = no_entries left.sessions (λ x.
        ap (λ w. w.0)
          (slot-apply_diff network order any_order (or_empty service.config_data) [] service.client
            x)
        ∙ gone x (get (or_empty service.config_data) x) (slot service.client x) (h x)) in
      rw (r, p) (e, kept left.sessions e)
    where
      kept :
          (d : Dict String S)
          → d ≡ []
          → rebuilt network order fnmatch answers config d service.registry ≡ service.registry
      kept [] e = refl
      kept (a ∷ d) e = absurd (cc)

module _ {V S K : Type 0} ⦃v : Comparable V⦄ (network : Network V S K)
    (order : List String → List String) (fnmatch : String → String → Bool)
    (answers : Dict String S → List Batch)
    (from_active : (d : Dict String S) → All (λ b. has d b.server ≡ true) (answers d)) where
  rebuilt-active :
      (config : Config) (d : Dict String S) (old : Registry) (name s o : String)
      → d ≢ []
      → resolve_capability (rebuilt network order fnmatch answers config d old) name ≡ some (s, o)
      → has d s ≡ true
  rebuilt-active config [] old name s o n e = absurd (n refl)
  rebuilt-active config (a ∷ d) old name s o n e =
      Offered-server fnmatch config (λ x. has (a ∷ d) x ≡ true) (answers (a ∷ d)) s o
        (from_active (a ∷ d)) (resolve-Offered fnmatch config (answers (a ∷ d)) empty name s o e).0

  -- Where only servers with an active session answer a discovery: after a reload of a running
  -- service that leaves a session active, every name that the new registry resolves leads to a
  -- server with an active session.
  pub reload-active :
      (config : Config) (service : Service V S K) (path : String)
      (new : Dict String (BackendConfig V)) (name s o : String)
      → service.state ≡ ServiceState.running
      → service.config_path ≡ some path
      → (reload network order fnmatch answers config (loaded new) service).1.client.sessions ≢ []
      → resolve_capability
          (reload network order fnmatch answers config (loaded new) service).1.registry
          name
        ≡ some (s, o)
      → has (reload network order fnmatch answers config (loaded new) service).1.client.sessions s
        ≡ true
  unfolding reload
  reload-active config service path new name s o r p =
      rw (r, p)
        (rebuilt-active config
          (apply_diff network order (compute_diff (or_empty service.config_data) new) new
            service.client).0.sessions
          service.registry name s o)
