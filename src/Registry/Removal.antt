-- ===== src/Registry/Removal.antt =====
-- `remove_backend`: what it takes out of the route map and of the lists, and what it leaves.
use argus_mcp.Base.{
  ◌≡◌, refl, ◌∙◌, true, String, Option, none, some, List, [], ◌∷◌, arith, text_keys, ◌==◌, ◌&&◌,
  eq_iff, not, if◌then◌else◌,
}
use argus_mcp.Base.Dict.{get, remove, has, has-remove, get-remove, IsUnique}
use argus_mcp.Registry.{Capability, tools, resources, prompts, Registry, RouteMap}
use argus_mcp.Registry.Listed.{AllRouted, IsConsistent, select-IsDistinct}
use argus_mcp.Registry.Backends.{
  resolve_capability, keys_of, remove_keys, remove_backend, mem, without,
}

get-remove_keys :
    (ks : List String) (d : RouteMap) (k : String)
    → get (remove_keys ks d) k ≡ (if mem k ks then none else get d k)
unfolding remove_keys
get-remove_keys [] d k = refl
get-remove_keys (j ∷ ks) d k = ground (arith, get-remove_keys ks (remove d j) k, get-remove d j k)

has-remove_keys :
    (ks : List String) (d : RouteMap) (k : String)
    → has (remove_keys ks d) k ≡ (not (mem k ks) && has d k)
unfolding remove_keys
has-remove_keys [] d k = ground arith
has-remove_keys (j ∷ ks) d k = ground (arith, has-remove_keys ks (remove d j) k, has-remove d j k)

-- A route that is left when the routes to `svr` are gone.
abbrev pub unless_to : String → Option (String × String) → Option (String × String)
unless_to svr none = none
unless_to svr (some (s, o)) = if s == svr then none else some (s, o)

mem-keys_of-has : (svr k : String) (d : RouteMap) → mem k (keys_of svr d) ≡ true → has d k ≡ true
unfolding keys_of has
mem-keys_of-has svr k [] h = h
mem-keys_of-has svr k ((j, (s, o)) ∷ d) h = ground (arith, mem-keys_of-has svr k d)

unless-keys_of :
    (svr k : String) (d : RouteMap)
    → IsUnique d
    → (if mem k (keys_of svr d) then none else get d k) ≡ unless_to svr (get d k)
unfolding keys_of get
unless-keys_of svr k [] u = refl
unless-keys_of svr k ((j, (s, o)) ∷ d) u =
    ground (arith, eq_iff j k, unless-keys_of svr k d u.1, mem-keys_of-has svr k d)

-- After the removal of a backend from a registry whose route map is a real dictionary, a name
-- resolves exactly as before if it led to another backend, and does not resolve if it led to this
-- one.
pub resolve-remove_backend :
    (svr : String) (r : Registry) (name : String)
    → IsUnique r.route_map
    → resolve_capability (remove_backend svr r).0 name ≡ unless_to svr (resolve_capability r name)
unfolding resolve_capability remove_backend
resolve-remove_backend svr r name u =
    get-remove_keys (keys_of svr r.route_map) r.route_map name
    ∙ unless-keys_of svr name r.route_map u

without-AllRouted :
    (ks : List String) (d : RouteMap) (is : List Capability)
    → AllRouted d is
    → AllRouted (remove_keys ks d) (without ks is)
without-AllRouted ks d [] h = tt
without-AllRouted ks d (i ∷ is) h =
    ground (arith, has-remove_keys ks d i.name, without-AllRouted ks d is h.1)

-- The removal of a backend keeps a registry consistent: every name that is still listed resolves,
-- and none stands twice in one list.
pub remove_backend-IsConsistent :
    (svr : String) (r : Registry) → IsConsistent r → IsConsistent (remove_backend svr r).0
unfolding remove_backend
remove_backend-IsConsistent svr r h tools = (
  without-AllRouted (keys_of svr r.route_map) r.route_map r.tools (h tools).0,
  select-IsDistinct _ r.tools (h tools).1,
)
remove_backend-IsConsistent svr r h resources = (
  without-AllRouted (keys_of svr r.route_map) r.route_map r.resources (h resources).0,
  select-IsDistinct _ r.resources (h resources).1,
)
remove_backend-IsConsistent svr r h prompts = (
  without-AllRouted (keys_of svr r.route_map) r.route_map r.prompts (h prompts).0,
  select-IsDistinct _ r.prompts (h prompts).1,
)
