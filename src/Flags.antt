-- ===== src/Flags.antt =====
-- argus_mcp/config/flags.py: the feature flags with their defaults, and what a user's configuration
-- makes of them. An override that is no Boolean is `none`.
pub mod Governance
mod Tests
use argus_mcp.Base.{
  Bool, true, false, String, Option, none, some, List, [], ◌∷◌, ◌&&◌, all, not, ◌||◌, if◌then◌else◌,
  text_keys, ◌==◌,
}
use argus_mcp.Base.Dict.{Dict, get, insert}

pub record FlagSpec : Type 0 where
  pub default : Bool
  pub risk : String

-- `FLAG_REGISTRY`, without the descriptions.
abbrev pub flag_registry : Dict String FlagSpec
flag_registry =
    ("optimizer", record { default = false; risk = "high" })
    ∷ ("hot_reload", record { default = true; risk = "low" })
    ∷ ("outgoing_auth", record { default = true; risk = "low" })
    ∷ ("session_management", record { default = true; risk = "low" })
    ∷ ("yaml_config", record { default = true; risk = "low" })
    ∷ ("container_isolation", record { default = true; risk = "low" })
    ∷ ("build_on_startup", record { default = true; risk = "low" })
    ∷ ("use_dhi_images", record { default = false; risk = "high" })
    ∷ []

-- `_validate_registry`, `false` where it raises.
abbrev pub is_governed : FlagSpec → Bool
is_governed spec =
    not (spec.risk == "high" && spec.default) && (spec.risk == "high" || spec.risk == "low")

abbrev pub validate_registry : Dict String FlagSpec → Bool
validate_registry registry = all (λ p. is_governed p.1) registry

-- `_DEFAULTS`
abbrev pub defaults : Dict String FlagSpec → Dict String Bool
defaults [] = []
defaults ((name, spec) ∷ rest) = (name, spec.default) ∷ defaults rest

unfoldable pub override : Dict String (Option Bool) → Dict String Bool → Dict String Bool
override [] flags = flags
override ((key, none) ∷ rest) flags = override rest flags
override ((key, some b) ∷ rest) flags = override rest (insert flags key b)

abbrev pub or_false : Option Bool → Bool
or_false none = false
or_false (some b) = b

-- `FeatureFlags(overrides).is_enabled(name)`
unfoldable pub is_enabled : Dict String FlagSpec → Dict String (Option Bool) → String → Bool
unfolding override
is_enabled registry overrides name = or_false (get (override overrides (defaults registry)) name)
