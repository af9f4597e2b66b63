-- ===== src/Reload/Refines.antt =====
-- `reload` against an abstract service that treats each backend on its own.
use argus_mcp.Base.{
  ◌≡◌, refl, ap, ◌∙◌, Bool, true, false, Bool-cases, Option-cases, inl, inr, String, Option, none,
  some, List, [], not, ◌&&◌, if◌then◌else◌, contains, text_keys, ◌==◌, Comparable,
}
use argus_mcp.Base.Dict.{Dict, get, has, has-get}
use argus_mcp.Runtime.{ServiceState}
use argus_mcp.Diff.{BackendConfig, compute_diff, both_differ, configs_differ}
use argus_mcp.Diff.Partition.{compute_diff-partition, configs_differ-same}
use argus_mcp.Client.{Client}
use argus_mcp.Client.Slots.{slot, connect_slot, disconnect_slot, slot-start_backend_svr}
use argus_mcp.Registry.{Config}
use argus_mcp.Registry.Backends.{Batch}
use argus_mcp.Reload.{
  Service, loaded, Network, each, disconnect_backend, outcome, remove_turn, change_turn, add_turn,
  apply_diff, or_empty, reload, reconnect_backend,
}
use argus_mcp.Reload.Loops.{
  look-each, connect_to, of_client, slot-disconnect_backend, connect_to-twice,
  disconnect_slot-twice, reconnect-twice, remove_turn-slot, add_turn-slot, change_turn-slot,
}

has-some :
    {W : Type 0} (d : Dict String W) (x : String) → has d x ≡ true → (w : W) × (get d x ≡ some w)
has-some d x h = elim (Option-cases (get d x)) [
  | inr found ↦ found
  | inl e ↦ let q : has d x ≡ false = has-get d x ∙ rw e refl in absurd (cc)
]

has-none : {W : Type 0} (d : Dict String W) (x : String) → has d x ≡ false → get d x ≡ none
has-none d x h = elim (Option-cases (get d x)) [
  | inl e ↦ e
  | inr (w, e) ↦ let q : has d x ≡ true = has-get d x ∙ rw e refl in absurd (cc)
]

removed_slot :
    {S K : Type 0} (a : Option S) (k : Option K) (w : Option S × Option K)
    → w ≡ disconnect_slot (a, k)
    → (w.0 ≡ none) × (w.1 ≡ (if (elim a [ none ↦ false | some s ↦ true ]) then none else k))
removed_slot none k w e = (ap (λ p. p.0) e, ap (λ p. p.1) e)
removed_slot (some s) k w e = (ap (λ p. p.0) e, ap (λ p. p.1) e)

module _ {V S K : Type 0} ⦃v : Comparable V⦄ (network : Network V S K) where
  -- The abstract service: what a reload makes of the slot of one backend, from its old and its new
  -- configuration.
  abbrev pub backend_after :
      String
      → Option (BackendConfig V)
      → Option (BackendConfig V)
      → Option S × Option K
      → Option S × Option K
  backend_after x none none s = s
  backend_after x none (some n) s = connect_slot (network x n) s
  backend_after x (some o) none s = disconnect_slot s
  backend_after x (some o) (some n) s =
      if configs_differ o n then connect_slot (network x n) (disconnect_slot s) else s

  abbrev present : Option (BackendConfig V) → Bool
  present o = elim o [ none ↦ false | some b ↦ true ]

  three_loops :
      (x : String) (o n : Option (BackendConfig V)) (s : Option S × Option K)
      → (let v1 = if present o && not (present n) then disconnect_slot s else s in
          let v2 =
            if present o && (present n && both_differ o n)
            then connect_to (outcome network x n) (disconnect_slot v1)
            else v1 in
          if present n && not (present o) then connect_to (outcome network x n) v2 else v2)
        ≡ backend_after x o n s
  three_loops x none none s = refl
  three_loops x none (some n) s = refl
  three_loops x (some o) none s = refl
  three_loops x (some o) (some n) s = refl

  module _ (order : List String → List String)
      (any_order : (xs : List String) (x : String) → contains x (order xs) ≡ contains x xs) where
    pub slot-apply_diff :
        (old new : Dict String (BackendConfig V)) (client : Client S K) (x : String)
        → slot (apply_diff network order (compute_diff old new) new client).0 x
          ≡ backend_after x (get old x) (get new x) (slot client x)
    unfolding apply_diff
    slot-apply_diff old new client x =
        let d = compute_diff old new in
        let p = compute_diff-partition old new x in
        let p1 = each (remove_turn network) (order d.removed) (client, []) in
        let p2 = each (change_turn network new) (order d.changed) p1 in
        let e1 =
          look-each (of_client network) (remove_turn network) (λ x. disconnect_slot)
            (remove_turn-slot network) (λ x w. disconnect_slot-twice w) (order d.removed)
            (client, []) x in
        let e2 =
          look-each (of_client network) (change_turn network new)
            (λ x w. connect_to (outcome network x (get new x)) (disconnect_slot w))
            (change_turn-slot network new)
            (λ x w. reconnect-twice (outcome network x (get new x)) w) (order d.changed) p1 x in
        let e3 =
          look-each (of_client network) (add_turn network new)
            (λ x. connect_to (outcome network x (get new x))) (add_turn-slot network new)
            (λ x w. connect_to-twice (outcome network x (get new x)) w) (order d.added) p2 x in
        e3
        ∙ rw
            (
              e2,
              e1,
              any_order d.added x,
              any_order d.changed x,
              any_order d.removed x,
              p.0,
              p.1,
              p.2,
              has-get old x,
              has-get new x,
            )
            (three_loops x (get old x) (get new x) (slot client x))

    -- A reload of a running service that finds a configuration does to each backend what the
    -- abstract service does, in whatever order the members of the sets are iterated: a backend that
    -- is new is connected, one that is gone is disconnected if it has a session, one whose
    -- configuration differs is disconnected and connected again, and any other keeps its session
    -- and its exit stack.
    pub slot-reload :
        (fnmatch : String → String → Bool) (answers : Dict String S → List Batch) (config : Config)
        (service : Service V S K) (path : String) (new : Dict String (BackendConfig V)) (x : String)
        → service.state ≡ ServiceState.running
        → service.config_path ≡ some path
        → slot (reload network order fnmatch answers config (loaded new) service).1.client x
          ≡ backend_after x
              (get (or_empty service.config_data) x)
              (get new x)
              (slot service.client x)
    unfolding reload
    slot-reload fnmatch answers config service path new x r p =
        rw (r, p) (slot-apply_diff (or_empty service.config_data) new service.client x)

    after_same :
        (x : String) (n : BackendConfig V) (s : Option S × Option K)
        → backend_after x (some n) (some n) s ≡ s
    after_same x n s = rw (configs_differ-same n) refl

    -- A reload of the configuration that is in use leaves the session and the stack of every
    -- backend as they are.
    pub reload-same :
        (fnmatch : String → String → Bool) (answers : Dict String S → List Batch) (config : Config)
        (service : Service V S K) (path : String) (new : Dict String (BackendConfig V)) (x : String)
        → service.state ≡ ServiceState.running
        → service.config_path ≡ some path
        → service.config_data ≡ some new
        → slot (reload network order fnmatch answers config (loaded new) service).1.client x
          ≡ slot service.client x
    reload-same fnmatch answers config service path new x r p e =
        slot-reload fnmatch answers config service path new x r p
        ∙ rw e (elim (Option-cases (get new x)) [
          | inl q ↦ rw q refl
          | inr (n, q) ↦ rw q (after_same x n (slot service.client x))
        ])

    -- A backend that is no longer configured has no session after the reload of a running service,
    -- but its exit stack, and with it its transport and subprocess, stays open if it had none
    -- before.
    pub reload-removed :
        (fnmatch : String → String → Bool) (answers : Dict String S → List Batch) (config : Config)
        (service : Service V S K) (path : String) (old new : Dict String (BackendConfig V))
        (x : String)
        → service.state ≡ ServiceState.running
        → service.config_path ≡ some path
        → service.config_data ≡ some old
        → has old x ≡ true
        → has new x ≡ false
        → let after = (reload network order fnmatch answers config (loaded new) service).1.client in
          (get after.sessions x ≡ none)
          × (get after.backend_stacks x ≡ (
              if has service.client.sessions x then none else get service.client.backend_stacks x))
    reload-removed fnmatch answers config service path old new x r p e h n =
        let o = has-some old x h in
        let q =
          slot-reload fnmatch answers config service path new x r p
          ∙ rw (e, o.1, has-none new x n) (refl) in
        rw (has-get service.client.sessions x)
          (removed_slot (get service.client.sessions x) (get service.client.backend_stacks x) _ q)

  -- A backend that is configured is disconnected, if it has a session, and connected again from its
  -- configuration, and no other backend's slot changes.
  pub slot-reconnect_backend :
      (order : List String → List String) (fnmatch : String → String → Bool)
      (answers : Dict String S → List Batch) (config : Config) (service : Service V S K)
      (backend : BackendConfig V) (name x : String)
      → service.state ≡ ServiceState.running
      → get (or_empty service.config_data) name ≡ some backend
      → slot (reconnect_backend network order fnmatch answers config name service).1.client x ≡ (
          if name == x
          then connect_slot (network x backend) (disconnect_slot (slot service.client x))
          else slot service.client x)
  unfolding reconnect_backend
  slot-reconnect_backend order fnmatch answers config service backend name x r e =
      rw (r, e)
        (slot-start_backend_svr name _ (network name backend)
            (disconnect_backend name service.client) x
          ∙ elim (Bool-cases (name == x)) [
            | inr b ↦ rw (b, slot-disconnect_backend name service.client x, b) refl
            | inl b ↦
                rw
                  (
                    b,
                    slot-disconnect_backend name service.client x,
                    b,
                    (text_keys.equals_iff name x).0 b,
                  )
                  refl
          ])
