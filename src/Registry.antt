-- ===== src/Registry.antt =====
-- argus_mcp/bridge/capability_registry.py, with bridge/filter.py and bridge/rename.py: how the
-- capabilities that a backend lists become entries of the aggregated lists and of the route map.
-- A capability is its name and description; the rest of it is copied and never read here.
pub mod Backends
pub mod Turns
pub mod Routes
pub mod Provenance
pub mod Listed
pub mod Removal
pub mod Errors
pub mod Priority
mod Tests
use argus_mcp.Base.{
  ℕ, ◌+◌, ◌-◌, Bool, true, false, String, Option, none, some, List, [], ◌∷◌, ◌++◌, not, ◌&&◌, any,
  select, map, length, if◌then◌else◌, text_keys, ◌==◌,
}
use argus_mcp.Base.Dict.{Dict, get, insert, remove, has}
use argus_mcp.Conflict.{ConflictStrategy, ConflictAction, transform_name, handle_conflict}

pub record Capability : Type 0 where
  pub name : String
  pub description : Option String

pub data CapType : Type 0 where
  tools resources prompts : CapType

pub record CapabilityFilter : Type 0 where
  pub allow : List String
  pub deny : List String

-- A missing name or description is `none`.
pub record Override : Type 0 where
  pub name : Option String
  pub description : Option String

abbrev pub RenameMap : Type 0
RenameMap = Dict String Override

-- exposed name → (server name, original name)
abbrev pub RouteMap : Type 0
RouteMap = Dict String (String × String)

pub record Config : Type 0 where
  pub strategy : ConflictStrategy
  pub filters : String → CapType → Option CapabilityFilter
  pub rename_maps : Dict String RenameMap

pub record Registry : Type 0 where
  pub tools : List Capability
  pub resources : List Capability
  pub prompts : List Capability
  pub route_map : RouteMap

-- `RenameMap.get_new_name`
unfoldable pub get_new_name : RenameMap → String → String
get_new_name m original = elim (get m original) [
  | none ↦ original
  | some o ↦ elim o.name [ none ↦ original | some n ↦ n ]
]

unfoldable pub get_description_override : RenameMap → String → Option String
get_description_override m original = elim (get m original) [ none ↦ none | some o ↦ o.description ]

abbrev is_tools : CapType → Bool
is_tools tools = true
is_tools _ = false

abbrev is_empty {ℓ} : {A : Type ℓ} → List A → Bool
is_empty [] = true
is_empty (x ∷ xs) = false

abbrev override : Option String → Option String → Option String
override none old = old
override (some d) old = some d

-- `fnmatch name pattern` is the standard library's.
module _ (fnmatch : String → String → Bool) where
  unfoldable pub is_allowed : CapabilityFilter → String → Bool
  is_allowed f name =
      if not (is_empty f.deny) && any (fnmatch name) f.deny
      then false
      else if not (is_empty f.allow)
      then any (fnmatch name) f.allow
      else true

  abbrev pub passes : Option CapabilityFilter → String → Bool
  passes none name = true
  passes (some f) name = is_allowed f name

  unfoldable pub renamed : Option RenameMap → Capability → Capability
  unfolding get_new_name get_description_override
  renamed none item = item
  renamed (some m) item = record {
    name = get_new_name m item.name;
    description = override (get_description_override m item.name) item.description;
  }

  -- `_apply_filter_and_rename`: the original name beside the capability, or `none` if filtered out.
  unfoldable pub apply_filter_and_rename :
      Config → String → CapType → Capability → Option (String × Capability)
  unfolding renamed
  apply_filter_and_rename c svr type item =
      if not (passes (c.filters svr type) item.name)
      then none
      else some (item.name, if is_tools type then renamed (get c.rename_maps svr) item else item)

-- The aggregated list of one type with the route map that all types share.
pub record Part : Type 0 where
  pub items : List Capability
  pub routes : RouteMap

pub data Resolution : Type 0 where
  conflict_error : Resolution
  skipped : Resolution
  exposed : String → Part → Resolution

-- `_resolve_conflict`, once the strategy has chosen.
unfoldable pub act : Option ConflictAction → String → Part → Resolution
act none name p = conflict_error
act (some ConflictAction.skip) name p = skipped
act (some ConflictAction.replace) name p =
    exposed name
      (record { items = select (λ i. not (i.name == name)) p.items; routes = remove p.routes name })
act (some (ConflictAction.rename new_name)) name p =
    if has p.routes new_name then skipped else exposed new_name p
act (some ConflictAction.error) name p = skipped

unfoldable pub resolve_conflict : ConflictStrategy → String → String → Part → Resolution
unfolding act
resolve_conflict strategy svr name p = elim (get p.routes name) [
  | none ↦ exposed name p
  | some (existing, _) ↦
      if existing == svr then skipped else act (handle_conflict strategy name existing svr) name p
]

-- The capability is listed under the name that was resolved, and routed to the original one.
unfoldable pub enter : String → String → Capability → String → Part → Part
enter svr original item name p = record {
  items = p.items ++ record item { name = name } ∷ [];
  routes = insert p.routes name (svr, original);
}

-- What follows the resolution; `none` is the conflict error.
abbrev pub finish : String → String → Capability → Part → Resolution → Option Part
finish svr original item p conflict_error = none
finish svr original item p skipped = some p
finish svr original item p (exposed name p') = some (enter svr original item name p')

-- One turn of the loop.
unfoldable pub register : Config → String → String → Capability → Part → Option Part
register c svr original item p =
    finish svr original item p
      (resolve_conflict c.strategy svr (transform_name c.strategy svr item.name) p)

module _ (fnmatch : String → String → Bool) (c : Config) (svr : String) (type : CapType) where
  unfoldable pub register_raw : Option Capability → Part → Option Part
  register_raw none p = some p
  register_raw (some item) p =
      if item.name == "" then some p else elim (apply_filter_and_rename fnmatch c svr type item) [
        | none ↦ some p
        | some (original, item') ↦ register c svr original item' p
      ]

  -- The loop over what the backend listed (`none` is an object of another class). The conflict
  -- error is caught around the loop: what was registered before it stays, the rest is dropped.
  unfoldable pub register_all : List (Option Capability) → Part → Part
  register_all [] p = p
  register_all (x ∷ xs) p = elim (register_raw x p) [ none ↦ p | some p' ↦ register_all xs p' ]
