-- ===== src/Registry/Backends.antt =====
-- argus_mcp/bridge/capability_registry.py: discovery of whole backends, removal, and routing.
use argus_mcp.Base.{
  ◌≡◌, refl, ℕ, ◌+◌, ◌-◌, Bool, String, Option, List, [], ◌∷◌, not, any, select, length,
  if◌then◌else◌, text_keys, ◌==◌,
}
use argus_mcp.Base.Dict.{get, remove}
use argus_mcp.Registry.{
  Capability, CapType, tools, resources, prompts, RouteMap, Config, Registry, Part, register_all,
}

abbrev pub empty : Registry
empty = record { tools = []; resources = []; prompts = []; route_map = [] }

abbrev pub listed : CapType → Registry → List Capability
listed tools r = r.tools
listed resources r = r.resources
listed prompts r = r.prompts

abbrev pub put_part : CapType → Part → Registry → Registry
put_part tools p r = record r { tools = p.items; route_map = p.routes }
put_part resources p r = record r { resources = p.items; route_map = p.routes }
put_part prompts p r = record r { prompts = p.items; route_map = p.routes }

pub route_map-put_part :
    (t : CapType) (p : Part) (r : Registry) → (put_part t p r).route_map ≡ p.routes
route_map-put_part tools p r = refl
route_map-put_part resources p r = refl
route_map-put_part prompts p r = refl

-- What `list_tools` and its like gave: a list, or a timeout or an error, which is logged.
pub data Response : Type 0 where
  items : List (Option Capability) → Response
  failed : Response

pub record Batch : Type 0 where
  pub server : String
  pub type : CapType
  pub response : Response

-- `resolve_capability`
unfoldable pub resolve_capability : Registry → String → Option (String × String)
resolve_capability r name = get r.route_map name

-- `[k for k, (s, _) in self._route_map.items() if s == svr_name]`
unfoldable pub keys_of : String → RouteMap → List String
keys_of svr [] = []
keys_of svr ((k, (s, o)) ∷ d) = let rest = keys_of svr d in if s == svr then k ∷ rest else rest

unfoldable pub remove_keys : List String → RouteMap → RouteMap
remove_keys [] d = d
remove_keys (k ∷ ks) d = remove_keys ks (remove d k)

abbrev pub mem : String → List String → Bool
mem x = any (λ y. y == x)

abbrev pub without : List String → List Capability → List Capability
without ks = select (λ i. not (mem i.name ks))

unfoldable pub remove_backend : String → Registry → Registry × ℕ
unfolding keys_of remove_keys
remove_backend svr r =
    let ks = keys_of svr r.route_map in
    let t = without ks r.tools in
    let s = without ks r.resources in
    let p = without ks r.prompts in
    (
      record { tools = t; resources = s; prompts = p; route_map = remove_keys ks r.route_map },
      (length r.tools - length t) + (length r.resources - length s) + (length r.prompts - length p),
    )

module _ (fnmatch : String → String → Bool) (c : Config) where
  -- `_discover_caps_by_type`. Its loop has no await, so tasks that run together follow one another.
  unfoldable pub discover_caps_by_type : Batch → Registry → Registry
  discover_caps_by_type b r = elim b.response [
    | failed ↦ r
    | items xs ↦
        put_part b.type
          (register_all fnmatch c b.server b.type xs
            (record { items = listed b.type r; routes = r.route_map }))
          r
  ]

  unfoldable pub discover_all : List Batch → Registry → Registry
  discover_all [] r = r
  discover_all (b ∷ bs) r = discover_all bs (discover_caps_by_type b r)

  -- `discover_single_backend`, from the three responses of the backend.
  unfoldable pub discover_single_backend :
      String → Response → Response → Response → Registry → Registry
  unfolding discover_all
  discover_single_backend svr t s p = discover_all (
      record { server = svr; type = tools; response = t }
      ∷ record { server = svr; type = resources; response = s }
      ∷ record { server = svr; type = prompts; response = p }
      ∷ [])

-- `discover_and_register` under way: what readers see, and the lists that are being filled. The
-- route map is one object, seen and filled at once.
pub record Discovery : Type 0 where
  pub live : Registry
  pub filling : Registry

unfoldable pub discovery_begins : Registry → Discovery
discovery_begins r = record { live = record r { route_map = [] }; filling = empty }

module _ (fnmatch : String → String → Bool) (c : Config) where
  unfoldable pub discovery_steps : List Batch → Discovery → Discovery
  discovery_steps bs d =
      let r = discover_all fnmatch c bs d.filling in
      record { live = record (d.live) { route_map = r.route_map }; filling = r }

  -- The batches are in the order in which the responses arrived.
  unfoldable pub discover_and_register : List Batch → Registry → Registry
  unfolding discovery_begins discovery_steps
  discover_and_register bs r = (discovery_steps bs (discovery_begins r)).filling
