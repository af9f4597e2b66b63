-- ===== src/Registry/Priority.antt =====
-- The priority strategy: who holds a name after discovery, whatever the order of the answers.
use argus_mcp.Base.{
  ℕ, ◌≤◌, ◌≡◌, ◌⊎◌, inl, inr, subst, Bool, true, false, String, Option, none, some, List, [], ◌∷◌,
  arith, text_keys, ◌==◌, ==_refl, eq_iff, Bool-cases, Option-cases, if◌then◌else◌, ltb,
}
use argus_mcp.Base.Dict.{get, remove, has-get, get-remove, get-insert}
use argus_mcp.Conflict.{
  ConflictStrategy, priority, ConflictAction, get_priority, handle_conflict, transform_name,
  prefixed,
}
use argus_mcp.Registry.{
  Capability, CapType, Config, Registry, Part, RouteMap, enter, register, register_raw,
  register_all, apply_filter_and_rename,
}
use argus_mcp.Registry.Turns.{
  Turn, kept, entered, moved, replaced, Turned, raised, turned, register-Turned,
}
use argus_mcp.Registry.Routes.{Presents, PresentsItem, presented, register_all-keeps}
use argus_mcp.Registry.Provenance.{Answers}
use argus_mcp.Registry.Backends.{
  Response, items, failed, Batch, route_map-put_part, resolve_capability, discover_caps_by_type,
  discover_all,
}

module _ (order : List String) (separator : String) where
  -- The name is held by a server whose priority is `q` or better.
  abbrev pub Held : ℕ → String → RouteMap → Type 0
  Held q name d =
      (w : String) × (o : String) × (get d name ≡ some (w, o)) × (get_priority order w ≤ q)

  handle-priority :
      (st : ConflictStrategy) (name existing new : String)
      → st ≡ priority order separator
      → handle_conflict st name existing new ≡ (
          if ltb (get_priority order new) (get_priority order existing)
          then some ConflictAction.replace
          else some (ConflictAction.rename (prefixed new separator name)))
  unfolding handle_conflict
  handle-priority st name existing new e = rw e

  module _ (st : ConflictStrategy) (strategy : st ≡ priority order separator)
      (svr original : String) (item : Capability) where
    Turn-Held :
        (q : ℕ) (n name : String) (p p' : Part)
        → Held q n p.routes
        → Turn st svr original item p name p'
        → Held q n p'.routes
    unfolding enter
    Turn-Held q n name p p' h (kept x o e r) = h
    Turn-Held q n name p p' (w, o, e, le) (entered f) =
        (w, o, ground (arith, get-insert p.routes name (svr, original) n, eq_iff name n), le)
    Turn-Held q n name p p' (w, o, e, le) (moved x y new f r absent) = (
      w,
      o,
      ground (arith, get-insert p.routes new (svr, original) n, has-get p.routes n, eq_iff new n),
      le,
    )
    Turn-Held q n name p p' (w, o, e, le) (replaced x y f r) = elim (Bool-cases (name == n)) [
      | inl b ↦ (
        svr,
        original,
        ground (arith, get-insert (remove p.routes name) name (svr, original) n),
        ground (arith, eq_iff name n, handle-priority st name x svr strategy),
      )
      | inr b ↦ (
        w,
        o,
        ground (
          arith,
          get-insert (remove p.routes name) name (svr, original) n,
          get-remove p.routes name n,
        ),
        le,
      )
    ]

    Turn-holds :
        (name : String) (p p' : Part)
        → Turn st svr original item p name p'
        → Held (get_priority order svr) name p'.routes
    unfolding enter
    Turn-holds name p p' (kept x o e (inl same)) = (x, o, e, rw same (omega arith))
    Turn-holds name p p' (kept x o e (inr r)) =
        (x, o, e, ground (arith, handle-priority st name x svr strategy))
    Turn-holds name p p' (entered f) = (
      svr,
      original,
      ground (arith, get-insert p.routes name (svr, original) name, ==_refl name),
      omega arith,
    )
    Turn-holds name p p' (moved x y new f r absent) = (
      x,
      y,
      ground (
        arith,
        get-insert p.routes new (svr, original) name,
        has-get p.routes name,
        eq_iff new name,
      ),
      ground (arith, handle-priority st name x svr strategy),
    )
    Turn-holds name p p' (replaced x y f r) = (
      svr,
      original,
      ground (arith, get-insert (remove p.routes name) name (svr, original) name, ==_refl name),
      omega arith,
    )

  never_raises :
      (st : ConflictStrategy) (name existing new : String)
      → st ≡ priority order separator
      → ¬ (handle_conflict st name existing new ≡ none)
  never_raises st name existing new e h = ground (arith, handle-priority st name existing new e)

  module _ (fnmatch : String → String → Bool) (c : Config)
      (strategy : c.strategy ≡ priority order separator) where
    loop-Held :
        (svr : String) (t : CapType) (q : ℕ) (n : String) (xs : List (Option Capability)) (p : Part)
        → Held q n p.routes
        → Held q n (register_all fnmatch c svr t xs p).routes
    loop-Held svr t q n xs p =
        register_all-keeps fnmatch c svr t (λ p. Held q n p.routes) xs p
          (λ o name i p p' offered h turn.
            Turn-Held c.strategy strategy svr o i q n name p p' h turn)

    PresentsItem-item :
        (svr : String) (t : CapType) (item item' : Capability) (o o' n : String)
        → PresentsItem fnmatch c svr t item o n
        → apply_filter_and_rename fnmatch c svr t item ≡ some (o', item')
        → transform_name c.strategy svr item'.name ≡ n
    PresentsItem-item svr t item item' o o' n (presented i ne e tn) f =
        let same : i ≡ item' = cc in rw same at tn

    loop-holds :
        (svr : String) (t : CapType) (xs : List (Option Capability)) (p : Part) (o n : String)
        → Presents fnmatch c svr t xs o n
        → Held (get_priority order svr) n (register_all fnmatch c svr t xs p).routes
    unfolding register_all register_raw
    loop-holds svr t [] p o n h = absurd h
    loop-holds svr t (none ∷ xs) p o n h = loop-holds svr t xs p o n h
    loop-holds svr t (some item ∷ xs) p o n h =
        let rest : (p : Part)
            → Presents fnmatch c svr t xs o n
            → Held (get_priority order svr) n (register_all fnmatch c svr t xs p).routes =
          λ p h. loop-holds svr t xs p o n h in
        elim (Bool-cases (item.name == "")) [
          | inl b ↦ rw (b, register_raw, register_all) (rest p (unnamed b h))
          | inr b ↦ elim (Option-cases (apply_filter_and_rename fnmatch c svr t item)) [
            | inl e ↦ rw (b, e, register_raw, register_all) (rest p (filtered e h))
            | inr ((original, item'), e) ↦
                rw (b, e, register_raw, register_all)
                  (go rest original item' e (register c svr original item' p)
                    (register-Turned svr original item' p c) h)
          ]
        ]
      where
        unnamed :
            (item.name == "") ≡ true
            → Presents fnmatch c svr t (some item ∷ xs) o n
            → Presents fnmatch c svr t xs o n
        unnamed b (inl (presented i ne e tn)) = absurd (clash b ne)
          where
            clash : (item.name == "") ≡ true → (item.name == "") ≡ false → ⊥
            clash b ne = cc
        unnamed b (inr h) = h

        filtered :
            apply_filter_and_rename fnmatch c svr t item ≡ none
            → Presents fnmatch c svr t (some item ∷ xs) o n
            → Presents fnmatch c svr t xs o n
        filtered e (inl (presented i ne e' tn)) = absurd (clash e e')
          where
            clash :
                apply_filter_and_rename fnmatch c svr t item ≡ none
                → apply_filter_and_rename fnmatch c svr t item ≡ some (o, i)
                → ⊥
            clash e e' = cc
        filtered e (inr h) = h

        go :
            ((p : Part)
              → Presents fnmatch c svr t xs o n
              → Held (get_priority order svr) n (register_all fnmatch c svr t xs p).routes)
            → (original : String) (item' : Capability)
            → apply_filter_and_rename fnmatch c svr t item ≡ some (original, item')
            → (r : Option Part)
            → Turned c.strategy svr original item' p (transform_name c.strategy svr item'.name) r
            → Presents fnmatch c svr t (some item ∷ xs) o n
            → let last : Part = elim r [
              | none ↦ p
              | some p' ↦ register_all fnmatch c svr t xs p'
            ] in
              Held (get_priority order svr) n last.routes
        go rest original item' e none (raised x y f r) h =
            absurd (never_raises c.strategy _ x svr strategy r)
        go rest original item' e (some p') (turned turn) (inr h) = rest p' h
        go rest original item' e (some p') (turned turn) (inl h) =
            loop-Held svr t (get_priority order svr) n xs p' (
              subst (λ m. Held (get_priority order svr) m p'.routes)
                (PresentsItem-item svr t item item' o original n h e)
                (Turn-holds c.strategy strategy svr original item' _ p p' turn))

    batch-Held :
        (q : ℕ) (n svr : String) (t : CapType) (a : Response) (r : Registry)
        → Held q n r.route_map
        → Held q n
            (discover_caps_by_type fnmatch c
              (record { server = svr; type = t; response = a })
              r).route_map
    unfolding discover_caps_by_type
    batch-Held q n svr t failed r h = h
    batch-Held q n svr t (items xs) r h = rw route_map-put_part (loop-Held svr t q n xs _ h)

    batch-holds :
        (o n svr : String) (t : CapType) (a : Response) (r : Registry)
        → Answers fnmatch c svr t a o n
        → Held
            (get_priority order svr)
            n
            (discover_caps_by_type fnmatch c
              (record { server = svr; type = t; response = a })
              r).route_map
    unfolding discover_caps_by_type
    batch-holds o n svr t failed r h = absurd h
    batch-holds o n svr t (items xs) r h = rw route_map-put_part (loop-holds svr t xs _ o n h)

    all-Held :
        (q : ℕ) (n : String) (bs : List Batch) (r : Registry)
        → Held q n r.route_map
        → Held q n (discover_all fnmatch c bs r).route_map
    unfolding discover_all
    all-Held q n [] r h = h
    all-Held q n (b ∷ bs) r h =
        all-Held q n bs (discover_caps_by_type fnmatch c b r)
          (batch-Held q n b.server b.type b.response r h)

    -- One of the batches is of that server and presents a capability under that name.
    abbrev pub OfferedAs : List Batch → String → String → Type 0
    OfferedAs [] s n = ⊥
    OfferedAs (b ∷ bs) s n =
        ((b.server ≡ s) × ((o : String) × Answers fnmatch c b.server b.type b.response o n))
        ⊎ OfferedAs bs s n

    -- Under the priority strategy, and whatever the order in which the backends answer, every name
    -- that some backend presented resolves after discovery, to a server whose priority is at least
    -- as good as that of this backend.
    pub priority_wins :
        (bs : List Batch) (r : Registry) (s n : String)
        → OfferedAs bs s n
        → (w : String) × (o : String) × (resolve_capability (discover_all fnmatch c bs r) n
            ≡ some (w, o))
          × (get_priority order w ≤ get_priority order s)
    unfolding discover_all resolve_capability
    priority_wins [] r s n h = absurd h
    priority_wins (b ∷ bs) r s n (inl (same, (o, h))) =
        subst
          (λ x.
            Held (get_priority order x) n
              (discover_all fnmatch c bs (discover_caps_by_type fnmatch c b r)).route_map)
          same
          (all-Held (get_priority order b.server) n bs (discover_caps_by_type fnmatch c b r)
            (batch-holds o n b.server b.type b.response r h))
    priority_wins (b ∷ bs) r s n (inr h) =
        priority_wins bs (discover_caps_by_type fnmatch c b r) s n h
