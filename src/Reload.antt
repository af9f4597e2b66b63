-- ===== src/Reload.antt =====
-- argus_mcp/runtime/service.py: `reload`, `reconnect_backend` and what they call. What the
-- configuration file holds, what each connection comes to and what the backends then list are
-- parameters.
pub mod Loops
pub mod Refines
pub mod Rebuilt
mod Tests
use argus_mcp.Base.{
  ℕ, Bool, true, false, String, Option, none, some, List, [], ◌∷◌, ◌++◌, length, if◌then◌else◌,
  Comparable, text_keys,
}
use Prim.Native.Nat.{Ordering}
use Prim.Native.String.{compare, ◌++◌ as append}
use argus_mcp.Base.Dict.{Dict, get, has}
use argus_mcp.Runtime.{ServiceState}
use argus_mcp.Diff.{BackendConfig, ConfigDiff, compute_diff}
use argus_mcp.Client.{Client, Connection, start_backend_svr, disconnect_one}
use argus_mcp.Registry.{Registry, Config}
use argus_mcp.Registry.Backends.{Batch, empty, discover_and_register}

pub data ReloadError : Type 0 where
  wrong_state : ServiceState → ReloadError
  not_configured : String → ReloadError
  no_config_path : ReloadError
  load_failed : String → ReloadError
  reconnect_failed connect_failed : String → ReloadError

pub record ReloadResult : Type 0 where
  pub reloaded : Bool
  pub backends_added : List String
  pub backends_removed : List String
  pub backends_changed : List String
  pub errors : List ReloadError

pub data Loaded (V : Type 0) : Type 0 where
  loaded : Dict String (BackendConfig V) → Loaded V
  not_loaded : String → Loaded V

pub record Service (V S K : Type 0) : Type 0 where
  pub state : ServiceState
  pub config_path : Option String
  pub config_data : Option (Dict String (BackendConfig V))
  pub client : Client S K
  pub registry : Registry
  pub backends_total : ℕ
  pub backends_connected : ℕ

abbrev is_running : ServiceState → Bool
is_running ServiceState.running = true
is_running _ = false

abbrev text_leb : String → String → Bool
text_leb a b = elim (compare a b) [ Ordering.gt ↦ false | _ ↦ true ]

-- `sorted`
abbrev insert_in_order : String → List String → List String
insert_in_order x [] = x ∷ []
insert_in_order x (y ∷ ys) = if text_leb x y then x ∷ y ∷ ys else y ∷ insert_in_order x ys

abbrev text_order : List String → List String
text_order [] = []
text_order (x ∷ xs) = insert_in_order x (text_order xs)

abbrev refused : ReloadError → ReloadResult
refused e = record {
  reloaded = false;
  backends_added = [];
  backends_removed = [];
  backends_changed = [];
  errors = e ∷ [];
}

-- A `for` loop over names.
abbrev pub each {ℓ} : {B : Type ℓ} → (String → B → B) → List String → B → B
each step [] b = b
each step (x ∷ xs) b = each step xs (step x b)

-- `svr_type`
abbrev connecting : Option String → String
connecting none = "Connecting (None)"
connecting (some type) = append "Connecting (" (append type ")")

module _ {S K : Type 0} where
  abbrev pub disconnect_found : String → Option S → Client S K → Client S K
  disconnect_found name none c = c
  disconnect_found name (some session) c = disconnect_one name c

  abbrev pub disconnect_backend : String → Client S K → Client S K
  disconnect_backend name c = disconnect_found name (get c.sessions name) c

  -- `_connect_backend`, with the error that is noted if it fails. A name of the set is always a key
  -- of the new configuration.
  abbrev pub connect :
      ReloadError
      → String
      → Option String
      → Option (Connection S K)
      → Client S K × List ReloadError
      → Client S K × List ReloadError
  connect error name type none progress = progress
  connect error name type (some outcome) (c, errors) =
      let r = start_backend_svr name (connecting type) outcome c in
      (r.1, if r.0 then errors else errors ++ error ∷ [])

-- What connecting a backend with a configuration comes to.
abbrev pub Network : Type 0 → Type 0 → Type 0 → Type 0
Network V S K = String → BackendConfig V → Connection S K

module _ {V S K : Type 0} (network : Network V S K) where
  abbrev pub type_of : Option (BackendConfig V) → Option String
  type_of none = none
  type_of (some b) = b.type

  abbrev pub outcome : String → Option (BackendConfig V) → Option (Connection S K)
  outcome name none = none
  outcome name (some b) = some (network name b)

  -- The three loops of `reload`.
  abbrev pub remove_turn : String → Client S K × List ReloadError → Client S K × List ReloadError
  remove_turn name (c, errors) = (disconnect_backend name c, errors)

  abbrev pub change_turn :
      Dict String (BackendConfig V)
      → String
      → Client S K × List ReloadError
      → Client S K × List ReloadError
  change_turn new name (c, errors) =
      connect (reconnect_failed name) name (type_of (get new name)) (outcome name (get new name))
        (disconnect_backend name c, errors)

  abbrev pub add_turn :
      Dict String (BackendConfig V)
      → String
      → Client S K × List ReloadError
      → Client S K × List ReloadError
  add_turn new name progress =
      connect (connect_failed name) name (type_of (get new name)) (outcome name (get new name))
        progress

  -- `order` is the order in which a set is iterated.
  unfoldable pub apply_diff :
      (List String → List String)
      → ConfigDiff
      → Dict String (BackendConfig V)
      → Client S K
      → Client S K × List ReloadError
  apply_diff order diff new c =
      each (add_turn new) (order diff.added) (
        each (change_turn new) (order diff.changed) (each remove_turn (order diff.removed) (c, [])))

-- `self._config_data or {}`
abbrev pub or_empty {ℓ} : {B : Type ℓ} → Option (List B) → List B
or_empty none = []
or_empty (some d) = d

-- `answers sessions` is what the active sessions list, in the order in which the answers arrive.
module _ {V S K : Type 0} ⦃v : Comparable V⦄ (network : Network V S K)
    (order : List String → List String) (fnmatch : String → String → Bool)
    (answers : Dict String S → List Batch) where
  abbrev pub rebuilt : Config → Dict String S → Registry → Registry
  rebuilt config [] old = old
  rebuilt config (s ∷ sessions) old =
      discover_and_register fnmatch config (answers (s ∷ sessions)) empty

  abbrev pub reload_with :
      Config → Dict String (BackendConfig V) → Service V S K → ReloadResult × Service V S K
  reload_with config new s =
      let diff = compute_diff (or_empty s.config_data) new in
      let (client, errors) = apply_diff network order diff new s.client in
      (
        record {
          reloaded = true;
          backends_added = text_order diff.added;
          backends_removed = text_order diff.removed;
          backends_changed = text_order diff.changed;
          errors = errors;
        },
        record s {
          config_data = some new;
          client = client;
          registry = rebuilt config client.sessions s.registry;
          backends_total = length new;
          backends_connected = length client.sessions;
        },
      )

  abbrev pub reload_from :
      Config → Option String → Loaded V → Service V S K → ReloadResult × Service V S K
  reload_from config none file s = (refused no_config_path, s)
  reload_from config (some path) (not_loaded message) s = (refused (load_failed message), s)
  reload_from config (some path) (loaded new) s = reload_with config new s

  -- `config` is what the file says of the registry: conflicts, filters and new names.
  unfoldable pub reload : Config → Loaded V → Service V S K → ReloadResult × Service V S K
  unfolding apply_diff
  reload config file s =
      if is_running s.state
      then reload_from config s.config_path file s
      else (refused (wrong_state s.state), s)

  -- `reconnect_backend`, where it ends in time: the error if it did not reconnect.
  abbrev pub reconnected :
      Config → String → BackendConfig V → Service V S K → Option ReloadError × Service V S K
  reconnected config name backend s =
      let r =
        start_backend_svr name (connecting backend.type) (network name backend)
          (disconnect_backend name s.client) in
      (
        if r.0 then none else some (reconnect_failed name),
        record s {
          client = r.1;
          registry =
              if r.0
              then discover_and_register fnmatch config (answers r.1.sessions) empty
              else s.registry;
          backends_connected = length r.1.sessions;
        },
      )

  abbrev pub reconnect_configured :
      Config
      → String
      → Option (BackendConfig V)
      → Service V S K
      → Option ReloadError × Service V S K
  reconnect_configured config name none s = (some (not_configured name), s)
  reconnect_configured config name (some backend) s = reconnected config name backend s

  unfoldable pub reconnect_backend :
      Config → String → Service V S K → Option ReloadError × Service V S K
  reconnect_backend config name s =
      if is_running s.state
      then reconnect_configured config name (get (or_empty s.config_data) name) s
      else (some (wrong_state s.state), s)
