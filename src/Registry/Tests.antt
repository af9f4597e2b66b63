-- ===== src/Registry/Tests.antt =====
-- Two backends that share a tool name.
use argus_mcp.Base.{
  ◌≡◌, ◌≤◌, inl, inr, refl, Bool, String, none, some, List, [], ◌∷◌, text_keys, ◌==◌, ◌||◌,
}
use argus_mcp.Base.Dict.{get, insert, has, remove}
use argus_mcp.Conflict.{
  ConflictStrategy, priority, transform_name, handle_conflict, get_priority, priorities,
}
use argus_mcp.Registry.{
  Capability, tools, resources, prompts, Config, Registry, register_all, register_raw, register,
  resolve_conflict, act, enter, apply_filter_and_rename, is_allowed, renamed,
}
use argus_mcp.Registry.Backends.{
  Batch, items, empty, discover_all, discover_caps_by_type, discover_and_register,
  resolve_capability, remove_backend,
}
use argus_mcp.Registry.Routes.{presented}
use argus_mcp.Registry.Provenance.{resolve-Offered, Offered}
use argus_mcp.Registry.Listed.{IsConsistent, discover_all-IsConsistent}
use argus_mcp.Registry.Removal.{unless_to, resolve-remove_backend}
use argus_mcp.Registry.Priority.{priority_wins}
use argus_mcp.Registry.Errors.{register_all-error}

abbrev fnmatch : String → String → Bool
fnmatch name pattern = pattern == "*" || name == pattern

abbrev config : ConflictStrategy → Config
config s = record {
  strategy = s;
  filters = λ svr t. some (record { allow = []; deny = "secret" ∷ [] });
  rename_maps = [];
}

abbrev ranked : Config
ranked = config (priority ("b" ∷ "a" ∷ []) "_")

abbrev search : Capability
search = record { name = "search"; description = none }

abbrev secret : Capability
secret = record { name = "secret"; description = none }

abbrev batches : List Batch
batches =
    record { server = "a"; type = tools; response = items (some secret ∷ some search ∷ []) }
    ∷ record { server = "b"; type = tools; response = items (some search ∷ []) }
    ∷ []

found :
    resolve_capability (discover_and_register fnmatch ranked batches empty) "search"
    ≡ some ("b", "search")
unfolding discover_and_register resolve_capability discover_all discover_caps_by_type register_all
    register_raw register resolve_conflict handle_conflict transform_name apply_filter_and_rename
    is_allowed renamed enter act get insert has remove get_priority priorities
found = refl

resolve-Offered_example : Offered fnmatch ranked batches "b" "search"
resolve-Offered_example =
    (resolve-Offered fnmatch ranked batches empty "search" "b" "search" found).0

empty-IsConsistent : IsConsistent empty
empty-IsConsistent tools = (tt, tt)
empty-IsConsistent resources = (tt, tt)
empty-IsConsistent prompts = (tt, tt)

discover_all-IsConsistent_example : IsConsistent (discover_all fnmatch ranked batches empty)
discover_all-IsConsistent_example =
    discover_all-IsConsistent fnmatch ranked batches empty empty-IsConsistent

abbrev shared : Registry
shared = record {
  tools = search ∷ [];
  resources = [];
  prompts = [];
  route_map = ("search", ("b", "search")) ∷ ("a_search", ("a", "search")) ∷ [];
}

resolve-remove_backend_example :
    resolve_capability (remove_backend "b" shared).0 "search"
    ≡ unless_to "b" (resolve_capability shared "search")
unfolding has
resolve-remove_backend_example = resolve-remove_backend "b" shared "search" (refl, (refl, tt))

priority_wins_example :
    (w : String) × (o : String) × (resolve_capability
        (discover_all fnmatch ranked batches empty)
        "search"
      ≡ some (w, o))
    × (get_priority ("b" ∷ "a" ∷ []) w ≤ get_priority ("b" ∷ "a" ∷ []) "b")
unfolding apply_filter_and_rename is_allowed transform_name renamed get
priority_wins_example =
    priority_wins ("b" ∷ "a" ∷ []) "_" fnmatch ranked refl batches empty "b" "search"
      (inr (inl (refl, ("search", inl (presented search refl refl refl)))))

register_all-error_example :
    register_all fnmatch
      (config ConflictStrategy.error)
      "a"
      tools
      (some search ∷ some secret ∷ [])
      (record { items = []; routes = shared.route_map })
    ≡ record { items = []; routes = shared.route_map }
unfolding apply_filter_and_rename is_allowed get
register_all-error_example =
    register_all-error fnmatch (config ConflictStrategy.error) "a" tools search search
      (some secret ∷ []) (record { items = []; routes = shared.route_map }) "search" "b" "search"
      refl refl refl refl refl
