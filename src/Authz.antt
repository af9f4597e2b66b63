-- ===== src/Authz.antt =====
-- argus_mcp/server/authz/policies.py and engine.py: role-based policies, evaluated in order, and
-- the guard of argus_mcp/bridge/middleware/authz.py that asks them. `fnmatch name pattern` is
-- the standard library's.
pub mod FirstMatch
mod Tests
use Prim.Native.String.{◌++◌ as append}
use argus_mcp.Base.{
  Bool, true, false, String, Option, none, some, List, [], ◌∷◌, map, ◌&&◌, ◌||◌, any, select,
  if◌then◌else◌, text_keys, ◌==◌, contains,
}

pub data PolicyDecision : Type 0 where
  allow deny no_match : PolicyDecision

pub record AuthzPolicy : Type 0 where
  pub effect : String
  pub roles : List String
  pub resources : List String
  pub description : String

pub record PolicyEngine : Type 0 where
  pub policies : List AuthzPolicy
  pub default : PolicyDecision

-- A policy as it stands in the configuration; a missing key is `none`.
pub record RawPolicy : Type 0 where
  pub effect : Option String
  pub roles : Option (List String)
  pub resources : Option (List String)
  pub description : Option String

abbrev pub or_else {ℓ} : {A : Type ℓ} → A → Option A → A
or_else d none = d
or_else d (some x) = x

unfoldable pub from_dict : RawPolicy → AuthzPolicy
from_dict raw = record {
  effect = or_else "deny" raw.effect;
  roles = or_else ("*" ∷ []) raw.roles;
  resources = or_else ("*" ∷ []) raw.resources;
  description = or_else "" raw.description;
}

abbrev pub decision_of : String → PolicyDecision
decision_of effect = if effect == "allow" then allow else deny

abbrev pub allows : PolicyDecision → Bool
allows allow = true
allows _ = false

unfoldable pub init : List AuthzPolicy → String → PolicyEngine
init policies default_effect = record { policies = policies; default = decision_of default_effect }

-- `reload`: the default stays.
unfoldable pub reload : List RawPolicy → PolicyEngine → PolicyEngine
unfolding from_dict
reload raws e = record e { policies = map from_dict raws }

module _ (fnmatch : String → String → Bool) where
  unfoldable pub resource_matches : String → String → Bool
  resource_matches pattern resource = if pattern == "*" then true else fnmatch resource pattern

  unfoldable pub matches : List String → String → AuthzPolicy → Bool
  unfolding resource_matches
  matches user_roles resource p =
      (contains "*" p.roles || any (λ r. contains r p.roles) user_roles)
      && (contains "*" p.resources || any (λ pat. resource_matches pat resource) p.resources)

  -- The loop of `evaluate`, and the default after it.
  unfoldable pub first_match :
      PolicyDecision → List String → String → List AuthzPolicy → PolicyDecision
  first_match default user_roles resource [] = default
  first_match default user_roles resource (p ∷ ps) =
      if matches user_roles resource p
      then decision_of p.effect
      else first_match default user_roles resource ps

  unfoldable pub evaluate : PolicyEngine → List String → String → PolicyDecision
  unfolding first_match
  evaluate e user_roles resource = first_match e.default user_roles resource e.policies

  unfoldable pub filter_allowed : PolicyEngine → List String → List String → List String
  unfolding evaluate
  filter_allowed e user_roles resources = select (λ r. allows (evaluate e user_roles r)) resources

  -- The middleware: `none` is the refusal; otherwise the next handler is called. Without a user there
  -- are no roles.
  unfoldable pub authorize {ℓ} :
      {R : Type ℓ} → PolicyEngine → Option (List String) → String → (String → R) → Option R
  unfolding evaluate
  authorize e user capability next =
      elim (evaluate e (or_else [] user) (append "tool:" capability)) [
        | deny ↦ none
        | _ ↦ some (next capability)
      ]
