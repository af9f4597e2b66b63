-- ===== src/Diff.antt =====
-- argus_mcp/config/diff.py: which backends two configurations differ in. A backend's configuration is
-- the fields that are compared; their values are of any type that can be compared, and a set is the
-- list of its members in the order of the dictionary it was taken from.
pub mod Partition
mod Tests
use argus_mcp.Base.{
  Bool, true, false, String, Option, none, some, List, [], ◌∷◌, not, ◌&&◌, ◌||◌, if◌then◌else◌,
  select, Comparable, text_keys, ◌==◌,
}
use argus_mcp.Base.Dict.{Dict, get, has, keys}

-- `StdioServerParameters`
pub record StdioParams (V : Type 0) : Type 0 where
  pub command : V
  pub args : V
  pub env : Option V

pub record BackendConfig (V : Type 0) : Type 0 where
  pub type : Option String
  pub params : Option (StdioParams V)
  pub url : Option V
  pub command : Option V
  pub args : Option V
  pub env : Option V
  pub headers : Option V
  pub auth : Option V

-- `!=` on values of `get`
abbrev pub differ {ℓ} : {V : Type ℓ} ⦃c : Comparable V⦄ → Option V → Option V → Bool
differ none none = false
differ (some x) (some y) = not (x == y)
differ _ _ = true

abbrev pub is_type : String → Option String → Bool
is_type t none = false
is_type t (some s) = s == t

module _ {V : Type 0} ⦃c : Comparable V⦄ where
  abbrev pub params_differ : Option (StdioParams V) → Option (StdioParams V) → Bool
  params_differ none none = false
  params_differ (some p) (some q) =
      not (p.command == q.command) || (not (p.args == q.args) || differ p.env q.env)
  params_differ _ _ = true

  abbrev pub stdio_configs_differ : BackendConfig V → BackendConfig V → Bool
  stdio_configs_differ old new = params_differ old.params new.params

  abbrev pub sse_configs_differ : BackendConfig V → BackendConfig V → Bool
  sse_configs_differ old new =
      differ old.url new.url
      || (differ old.command new.command
          || (differ old.args new.args
              || (differ old.env new.env
                  || (differ old.headers new.headers || differ old.auth new.auth))))

  abbrev pub streamable_configs_differ : BackendConfig V → BackendConfig V → Bool
  streamable_configs_differ old new =
      differ old.url new.url || (differ old.headers new.headers || differ old.auth new.auth)

  unfoldable pub configs_differ : BackendConfig V → BackendConfig V → Bool
  configs_differ old new =
      if differ old.type new.type
      then true
      else if is_type "stdio" old.type
      then stdio_configs_differ old new
      else if is_type "sse" old.type
      then sse_configs_differ old new
      else if is_type "streamable-http" old.type
      then streamable_configs_differ old new
      else false

  -- `configs_differ(old_config[name], new_config[name])` for a name of both.
  abbrev pub both_differ : Option (BackendConfig V) → Option (BackendConfig V) → Bool
  both_differ (some o) (some n) = configs_differ o n
  both_differ _ _ = false

pub record ConfigDiff : Type 0 where
  pub added : List String
  pub removed : List String
  pub changed : List String

module _ {V : Type 0} ⦃c : Comparable V⦄ where
  unfoldable pub compute_diff :
      Dict String (BackendConfig V) → Dict String (BackendConfig V) → ConfigDiff
  compute_diff old new = record {
    added = select (λ name. not (has old name)) (keys new);
    removed = select (λ name. not (has new name)) (keys old);
    changed = select (λ name. has new name && both_differ (get old name) (get new name)) (keys old);
  }
