-- ===== src/Groups.antt =====
-- argus_mcp/bridge/groups.py: which group a backend is in, kept in two dictionaries. A set of
-- server names is a list.
mod Inverse
mod Tests
use argus_mcp.Base.{
  Bool, true, false, String, Option, none, some, List, [], ◌∷◌, not, ◌&&◌, any, select,
  if◌then◌else◌, text_keys, ◌==◌, map,
}
use argus_mcp.Base.Dict.{Dict, get, insert, remove, keys}

pub record GroupManager : Type 0 where
  pub server_group : Dict String String
  pub group_servers : Dict String (List String)

abbrev pub default_group : String
default_group = "default"

abbrev pub or_else {ℓ} : {A : Type ℓ} → A → Option A → A
or_else d none = d
or_else d (some x) = x

abbrev pub mem : String → List String → Bool
mem s = any (λ t. t == s)

-- `set.add` and `set.discard`
unfoldable pub add : String → List String → List String
add s set = if mem s set then set else s ∷ set

abbrev pub discard : String → List String → List String
discard s = select (λ t. not (t == s))

-- `self._group_servers[group].add(name)`, where a missing group is a new empty set.
unfoldable pub put_in : String → String → Dict String (List String) → Dict String (List String)
put_in name group d = insert d group (add name (or_else [] (get d group)))

abbrev unless_empty : String → List String → Dict String (List String) → Dict String (List String)
unless_empty group [] d = remove d group
unless_empty group (s ∷ set) d = insert d group (s ∷ set)

-- `discard`, and `del` of a group that is left empty.
unfoldable pub take_out : String → String → Dict String (List String) → Dict String (List String)
take_out name group d = unless_empty group (discard name (or_else [] (get d group))) d

-- One turn of the loop of `__init__`: a missing or empty group is the default one.
unfoldable pub put_config : String → String → GroupManager → GroupManager
put_config name group m =
    let g = if group == "" then default_group else group in
    record {
      server_group = insert m.server_group name g;
      group_servers = put_in name g m.group_servers;
    }

unfoldable pub init : List (String × String) → GroupManager → GroupManager
init [] m = m
init ((name, group) ∷ backends) m = init backends (put_config name group m)

unfoldable pub group_of : GroupManager → String → String
group_of m name = or_else default_group (get m.server_group name)

unfoldable pub servers_in : GroupManager → String → List String
servers_in m group = or_else [] (get m.group_servers group)

abbrev leave_old :
    String → String → Option String → Dict String (List String) → Dict String (List String)
leave_old name group none d = d
leave_old name group (some old) d = if old == group then d else take_out name old d

unfoldable pub add_server : String → String → GroupManager → GroupManager
add_server name group m = record {
  server_group = insert m.server_group name group;
  group_servers =
      put_in name group (leave_old name group (get m.server_group name) m.group_servers);
}

unfoldable pub remove_server : String → GroupManager → GroupManager
remove_server name m = elim (get m.server_group name) [
  | none ↦ m
  | some group ↦ record {
    server_group = remove m.server_group name;
    group_servers = take_out name group m.group_servers;
  }
]
