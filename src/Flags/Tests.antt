-- ===== src/Flags/Tests.antt =====
-- The registered flags with an override.
use argus_mcp.Base.{◌≡◌, refl, text_keys, Bool, true, false, String, Option, some, [], ◌∷◌}
use argus_mcp.Base.Dict.{Dict, get, insert}
use argus_mcp.Flags.{flag_registry, is_enabled, override}
use argus_mcp.Flags.Governance.{turns_on, is_enabled-turns_on}

abbrev overrides : Dict String (Option Bool)
overrides = ("hot_reload", some false) ∷ ("optimizer", some true) ∷ []

registered : get flag_registry "optimizer" ≡ some (record { default = false; risk = "high" })
unfolding get
registered = refl

enabled : is_enabled flag_registry overrides "optimizer" ≡ true
unfolding is_enabled override get insert
enabled = refl

is_enabled-turns_on_example : turns_on "optimizer" overrides ≡ true
is_enabled-turns_on_example =
    is_enabled-turns_on flag_registry overrides "optimizer"
      (record { default = false; risk = "high" }) refl registered refl enabled
