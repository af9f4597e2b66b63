-- ===== src/Registry/Listed.antt =====
-- Every listed capability has a route, and no name is listed twice in one list.
use argus_mcp.Base.{
  ◌≡◌, ◌⊎◌, inl, inr, refl, Bool, true, false, String, List, [], ◌∷◌, ◌++◌, arith, text_keys, ◌==◌,
  ◌||◌, ==_refl, eq_iff, not, any, select, All, append-All,
}
use argus_mcp.Base.Dict.{insert, remove, has, has-get, has-insert, has-remove}
use argus_mcp.Conflict.{ConflictStrategy}
use argus_mcp.Registry.{
  Capability, CapType, tools, resources, prompts, Config, Registry, Part, RouteMap, enter,
}
use argus_mcp.Registry.Turns.{Turn, kept, entered, moved, replaced}
use argus_mcp.Registry.Routes.{register_all-keeps}
use argus_mcp.Registry.Backends.{
  Response, items, failed, Batch, put_part, route_map-put_part, listed, discover_caps_by_type,
  discover_all,
}

abbrev pub AllRouted : RouteMap → List Capability → Type 0
AllRouted d = All (λ i. has d i.name ≡ true)

abbrev names_hold : String → List Capability → Bool
names_hold n = any (λ i. i.name == n)

abbrev pub IsDistinct : List Capability → Type 0
IsDistinct [] = Unit
IsDistinct (i ∷ is) = (names_hold i.name is ≡ false) × IsDistinct is

-- Routes are only added to.
abbrev pub Grows : RouteMap → RouteMap → Type 0
Grows d d' = (k : String) → has d k ≡ true → has d' k ≡ true

AllRouted-mono :
    (d d' : RouteMap) (is : List Capability) → Grows d d' → AllRouted d is → AllRouted d' is
AllRouted-mono d d' [] g h = tt
AllRouted-mono d d' (i ∷ is) g h = (g i.name h.0, AllRouted-mono d d' is g h.1)

-- A name with no route is not in a list whose names all have one.
unrouted :
    (d : RouteMap) (n : String) (is : List Capability)
    → has d n ≡ false
    → AllRouted d is
    → names_hold n is ≡ false
unrouted d n [] e h = refl
unrouted d n (i ∷ is) e h = ground (arith, eq_iff i.name n, unrouted d n is e h.1)

names_hold-append :
    (n : String) (is : List Capability) (x : Capability)
    → names_hold n (is ++ x ∷ []) ≡ (names_hold n is || x.name == n)
names_hold-append n [] x = ground arith
names_hold-append n (i ∷ is) x = ground (arith, names_hold-append n is x)

append-IsDistinct :
    (is : List Capability) (x : Capability)
    → names_hold x.name is ≡ false
    → IsDistinct is
    → IsDistinct (is ++ x ∷ [])
append-IsDistinct [] x f h = (refl, tt)
append-IsDistinct (i ∷ is) x f h = ground (
  arith,
  names_hold-append i.name is x,
  eq_iff i.name x.name,
  eq_iff x.name i.name,
  append-IsDistinct is x,
)

-- Taking out one name.
names_hold-select :
    (n : String) (p : Capability → Bool) (is : List Capability)
    → names_hold n is ≡ false
    → names_hold n (select p is) ≡ false
names_hold-select n p [] f = refl
names_hold-select n p (i ∷ is) f = ground (arith, names_hold-select n p is)

pub select-IsDistinct :
    (p : Capability → Bool) (is : List Capability) → IsDistinct is → IsDistinct (select p is)
select-IsDistinct p [] h = tt
select-IsDistinct p (i ∷ is) h =
    ground (arith, names_hold-select i.name p is, select-IsDistinct p is h.1)

taken_out :
    (n : String) (is : List Capability) → names_hold n (select (λ i. not (i.name == n)) is) ≡ false
taken_out n [] = refl
taken_out n (i ∷ is) = ground (arith, taken_out n is)

AllRouted-select :
    (d : RouteMap) (p : Capability → Bool) (is : List Capability)
    → AllRouted d is
    → AllRouted d (select p is)
AllRouted-select d p [] h = tt
AllRouted-select d p (i ∷ is) h = ground (arith, AllRouted-select d p is h.1)

-- What a turn of registration keeps, beside the routes of a map that was there before.
pub record IsListed (before : RouteMap) (p : Part) : Type 0 where
  pub grows : Grows before p.routes
  pub routed : AllRouted p.routes p.items
  pub distinct : IsDistinct p.items

insert-Grows : (d : RouteMap) (n : String) (r : String × String) → Grows d (insert d n r)
insert-Grows d n r k h = ground (arith, has-insert d n r k)

replace-Grows :
    (d : RouteMap) (n : String) (r : String × String) → Grows d (insert (remove d n) n r)
replace-Grows d n r k h = ground (arith, has-insert (remove d n) n r k, has-remove d n k)

module _ (before : RouteMap) (svr original : String) (item : Capability) (name : String) where
  enter-IsListed :
      (p : Part) (routes : RouteMap) (caps : List Capability)
      → Grows p.routes (insert routes name (svr, original))
      → AllRouted p.routes caps
      → IsDistinct caps
      → names_hold name caps ≡ false
      → IsListed before p
      → IsListed before (enter svr original item name (record { items = caps; routes = routes }))
  unfolding enter
  enter-IsListed p routes caps g all distinct absent l = record {
    grows = λ k h. g k (l.grows k h);
    routed =
        append-All (λ i. has (insert routes name (svr, original)) i.name ≡ true) caps _
          (
            AllRouted-mono p.routes _ caps g all,
            (ground (arith, has-insert routes name (svr, original) name, ==_refl name), tt),
          );
    distinct = append-IsDistinct caps (record item { name = name }) absent distinct;
  }

Turn-IsListed :
    (before : RouteMap) (c : ConflictStrategy) (svr original : String) (item : Capability)
    (name : String) (p p' : Part)
    → IsListed before p
    → Turn c svr original item p name p'
    → IsListed before p'
Turn-IsListed before c svr original item name p p' l (kept x o e r) = l
Turn-IsListed before c svr original item name p p' l (entered e) =
    enter-IsListed before svr original item name p p.routes p.items
      (insert-Grows p.routes name (svr, original)) l.routed l.distinct
      (unrouted p.routes name p.items (ground (arith, has-get p.routes name)) l.routed) l
Turn-IsListed before c svr original item name p p' l (moved x o new e r n) =
    enter-IsListed before svr original item new p p.routes p.items
      (insert-Grows p.routes new (svr, original)) l.routed l.distinct
      (unrouted p.routes new p.items n l.routed) l
Turn-IsListed before c svr original item name p p' l (replaced x o e r) =
    enter-IsListed before svr original item name p (remove p.routes name)
      (select (λ i. not (i.name == name)) p.items) (replace-Grows p.routes name (svr, original))
      (AllRouted-select p.routes (λ i. not (i.name == name)) p.items l.routed)
      (select-IsDistinct (λ i. not (i.name == name)) p.items l.distinct) (taken_out name p.items) l

-- Of a registry: every name in its lists resolves, and none stands twice in one list.
abbrev pub IsConsistent : Registry → Type 0
IsConsistent r = (t : CapType) → AllRouted r.route_map (listed t r) × IsDistinct (listed t r)

listed-put_part :
    (t u : CapType) (p : Part) (r : Registry)
    → (listed t (put_part u p r) ≡ p.items) ⊎ (listed t (put_part u p r) ≡ listed t r)
listed-put_part tools tools p r = inl refl
listed-put_part resources resources p r = inl refl
listed-put_part prompts prompts p r = inl refl
listed-put_part _ tools p r = inr refl
listed-put_part _ resources p r = inr refl
listed-put_part _ prompts p r = inr refl

put_part-IsConsistent :
    (u : CapType) (p : Part) (r : Registry)
    → IsListed r.route_map p
    → IsConsistent r
    → IsConsistent (put_part u p r)
put_part-IsConsistent u p r l h t = rw (route_map-put_part u p r) (elim (listed-put_part t u p r) [
  | inl e ↦ rw e (l.routed, l.distinct)
  | inr e ↦ rw e (AllRouted-mono r.route_map p.routes (listed t r) l.grows (h t).0, (h t).1)
])

module _ (fnmatch : String → String → Bool) (c : Config) where
  batch-IsConsistent :
      (svr : String) (type : CapType) (a : Response) (r : Registry)
      → IsConsistent r
      → IsConsistent
          (discover_caps_by_type fnmatch c (record { server = svr; type = type; response = a }) r)
  unfolding discover_caps_by_type
  batch-IsConsistent svr type failed r h = h
  batch-IsConsistent svr type (items xs) r h =
      put_part-IsConsistent type _ r
        (register_all-keeps fnmatch c svr type (IsListed r.route_map) xs _
          (λ o n i p p' offered l t. Turn-IsListed r.route_map c.strategy svr o i n p p' l t)
          (record { grows = λ k e. e; routed = (h type).0; distinct = (h type).1 }))
        h

  -- Discovery of any batches, under every strategy and also where a conflict error cuts one short,
  -- takes a registry whose listed names all resolve, none twice in one list, to such a registry.
  pub discover_all-IsConsistent :
      (bs : List Batch) (r : Registry) → IsConsistent r → IsConsistent (discover_all fnmatch c bs r)
  unfolding discover_all
  discover_all-IsConsistent [] r h = h
  discover_all-IsConsistent (b ∷ bs) r h =
      discover_all-IsConsistent bs (discover_caps_by_type fnmatch c b r)
        (batch-IsConsistent b.server b.type b.response r h)
