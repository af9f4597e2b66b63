-- ===== src/Skills/Tests.antt =====
-- A skill that is disabled and found again.
use argus_mcp.Base.{◌≡◌, refl, String, none, some, List, [], ◌∷◌, text_keys}
use argus_mcp.Base.Dict.{get}
use argus_mcp.Skills.{enabled, disabled, InstalledSkill, SkillManager, discover, set_status}
use argus_mcp.Skills.Persistence.{status_in, set_status-discover}

-- A manifest is its name.
abbrev name_of : String → String
name_of manifest = manifest

abbrev search : InstalledSkill String
search = record { manifest = "search"; status = enabled; install_path = "skills/search" }

abbrev manager : SkillManager String
manager = record { skills = ("search", search) ∷ []; state_file = none }

abbrev directories : List (String × String)
directories = ("skills/news", "news") ∷ ("skills/search", "search") ∷ []

installed : get manager.skills "search" ≡ some search
unfolding get
installed = refl

set_status-discover_example :
    status_in
      (discover name_of directories (set_status disabled "search" manager).1).skills
      "search"
    ≡ some disabled
set_status-discover_example =
    set_status-discover disabled name_of directories manager "search" search installed refl
