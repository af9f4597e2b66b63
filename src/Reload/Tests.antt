-- ===== src/Reload/Tests.antt =====
-- A reload that removes one backend, changes another and adds a third.
use argus_mcp.Base.{
  ◌≡◌, ◌≢◌, refl, arith, Bool, true, false, String, none, some, List, [], ◌∷◌, All, contains,
  text_keys, if◌then◌else◌,
}
use argus_mcp.Base.Dict.{Dict, get, has, insert, remove}
use argus_mcp.Runtime.{ServiceState, transition, is_valid_backend_transition}
use argus_mcp.Conflict.{first_wins, transform_name}
use argus_mcp.Diff.{BackendConfig, compute_diff, configs_differ}
use argus_mcp.Client.{connected, failed, start_backend_svr, disconnect_one, ensure_status_record}
use argus_mcp.Client.Slots.{slot}
use argus_mcp.Registry.{
  Config, tools, register_all, register_raw, apply_filter_and_rename, renamed, register,
  resolve_conflict, enter,
}
use argus_mcp.Registry.Backends.{
  Batch, items, discovery_begins, discovery_steps, discover_and_register, discover_all,
  discover_caps_by_type, empty, resolve_capability,
}
use argus_mcp.Reload.{Service, loaded, Network, apply_diff, or_empty, reload}
use argus_mcp.Reload.Refines.{backend_after, slot-reload, reload-removed}
use argus_mcp.Reload.Rebuilt.{reload-active, reload-empty}

abbrev at : String → BackendConfig String
at url = record {
  type = some "sse";
  params = none;
  url = some url;
  command = none;
  args = none;
  env = none;
  headers = none;
  auth = none;
}

abbrev old : Dict String (BackendConfig String)
old = ("wiki", at "a") ∷ ("mail", at "b") ∷ []

abbrev new : Dict String (BackendConfig String)
new = ("mail", at "c") ∷ []

-- Sessions and stacks are named by the address.
abbrev network : Network String String String
network name b = elim b.url [
  | none ↦ failed (some "stack") false "no url"
  | some url ↦ connected url url
]

abbrev in_order : List String → List String
in_order xs = xs

in_order_lem : (xs : List String) (x : String) → contains x (in_order xs) ≡ contains x xs
in_order_lem xs x = refl

abbrev answering : Dict String String → List Batch
answering [] = []
answering ((name, s) ∷ d) =
    record {
      server = name;
      type = tools;
      response = items (some (record { name = "search"; description = none }) ∷ []);
    }
    ∷ []

answering_lem : (d : Dict String String) → All (λ b. has d b.server ≡ true) (answering d)
unfolding has
answering_lem [] = tt
answering_lem ((name, s) ∷ d) = (ground (arith, text_keys.equals_iff name name), tt)

abbrev config : Config
config = record { strategy = first_wins; filters = λ s t. none; rename_maps = [] }

abbrev no_match : String → String → Bool
no_match name pattern = false

abbrev service : Service String String String
service = record {
  state = ServiceState.running;
  config_path = some "config.yaml";
  config_data = some old;
  client = record {
    sessions = ("mail", "b") ∷ [];
    backend_stacks = ("wiki", "a") ∷ ("mail", "b") ∷ [];
    status_records = [];
  };
  registry = record empty { route_map = ("search", ("mail", "search")) ∷ [] };
  backends_total = 2;
  backends_connected = 1;
}

abbrev after : Service String String String
after = (reload network in_order no_match answering config (loaded new) service).1

wiki_gone : has new "wiki" ≡ false
unfolding has
wiki_gone = refl

had_wiki : has old "wiki" ≡ true
unfolding has
had_wiki = refl

slot-reload_example :
    slot after.client "mail"
    ≡ backend_after network "mail" (get old "mail") (get new "mail") (slot service.client "mail")
slot-reload_example =
    slot-reload network in_order in_order_lem no_match answering config service "config.yaml" new
      "mail" refl refl

reload-removed_example :
    (get after.client.sessions "wiki" ≡ none)
    × (get after.client.backend_stacks "wiki" ≡ (
        if has service.client.sessions "wiki"
        then none
        else get service.client.backend_stacks "wiki"))
reload-removed_example =
    reload-removed network in_order in_order_lem no_match answering config service "config.yaml" old
      new "wiki" refl refl refl had_wiki wiki_gone

mail_configured : get old "mail" ≡ some (at "b")
unfolding get
mail_configured = refl

all_configured :
    (x : String)
    → get (or_empty service.config_data) x ≡ none
    → get service.client.sessions x ≡ none
unfolding get
all_configured x h = ground arith

reload-empty_example :
    ((reload network in_order no_match answering config (loaded []) service).1.client.sessions ≡ [])
    × ((reload network in_order no_match answering config (loaded []) service).1.registry
        ≡ service.registry)
reload-empty_example =
    reload-empty network in_order no_match answering in_order_lem config service "config.yaml" refl
      refl all_configured

reconnected : after.client.sessions ≡ ("mail", "c") ∷ []
unfolding reload apply_diff compute_diff has get disconnect_one remove configs_differ
    start_backend_svr ensure_status_record insert transition is_valid_backend_transition
reconnected = refl

still_active : after.client.sessions ≢ []
still_active e = let q = reconnected in absurd (cc)

resolves : resolve_capability after.registry "search" ≡ some ("mail", "search")
unfolding reload apply_diff compute_diff has get disconnect_one remove configs_differ
    start_backend_svr ensure_status_record insert transition is_valid_backend_transition
    resolve_capability discover_and_register discovery_begins discovery_steps discover_all
    discover_caps_by_type register_all register_raw apply_filter_and_rename renamed register
    resolve_conflict enter transform_name
resolves = refl

reload-active_example : has after.client.sessions "mail" ≡ true
reload-active_example =
    reload-active network in_order no_match answering answering_lem config service "config.yaml" new
      "search" "mail" "search" refl refl still_active resolves
