-- ===== src/Skills.antt =====
-- argus_mcp/skills/manager.py: the installed skills, and the file that keeps which are enabled. The
-- manifests that the directory holds are parameters; of a manifest only the name is read here.
pub mod Persistence
mod Tests
use argus_mcp.Base.{
  Bool, true, false, String, Option, none, some, List, [], ◌∷◌, select, if◌then◌else◌, text_keys,
  ◌==◌,
}
use argus_mcp.Base.Dict.{Dict, get, insert, remove, values}

pub data SkillStatus : Type 0 where
  enabled disabled : SkillStatus

pub record InstalledSkill (M : Type 0) : Type 0 where
  pub manifest : M
  pub status : SkillStatus
  pub install_path : String

-- `state_file` is what was written, if it exists and can be read.
pub record SkillManager (M : Type 0) : Type 0 where
  pub skills : Dict String (InstalledSkill M)
  pub state_file : Option (Dict String String)

pub data SkillError : Type 0 where
  not_installed : String → SkillError
  invalid_manifest : SkillError
  outside_directory : String → SkillError

-- `status.value`
abbrev pub status_value : SkillStatus → String
status_value enabled = "enabled"
status_value disabled = "disabled"

abbrev pub status_from : Option String → SkillStatus
status_from none = enabled
status_from (some t) = if t == "disabled" then disabled else enabled

abbrev pub load_state : Option (Dict String String) → Dict String String
load_state none = []
load_state (some state) = state

module _ {M : Type 0} where
  unfoldable pub statuses : Dict String (InstalledSkill M) → Dict String String
  statuses [] = []
  statuses ((name, skill) ∷ rest) = (name, status_value skill.status) ∷ statuses rest

  unfoldable pub save_state : SkillManager M → SkillManager M
  save_state m = record m { state_file = some (statuses m.skills) }

  -- The loop of `discover`, over the manifests that can be read, with the paths of their directories,
  -- in the order of the directories' names.
  unfoldable pub load_manifests :
      (M → String)
      → Dict String String
      → List (String × M)
      → Dict String (InstalledSkill M)
      → Dict String (InstalledSkill M)
  load_manifests name_of state [] skills = skills
  load_manifests name_of state ((path, manifest) ∷ rest) skills =
      load_manifests name_of state rest (
        insert skills (name_of manifest) (record {
          manifest = manifest;
          status = status_from (get state (name_of manifest));
          install_path = path;
        }))

  unfoldable pub discover : (M → String) → List (String × M) → SkillManager M → SkillManager M
  unfolding load_manifests
  discover name_of found m = record m {
    skills = load_manifests name_of (load_state m.state_file) found [];
  }

  -- `install`: `valid` is whether the manifest has no errors, `dest` the directory of the copy.
  unfoldable pub install :
      (M → String) → Bool → String → M → SkillManager M → Option SkillError × SkillManager M
  unfolding save_state
  install name_of valid dest manifest m =
      if valid
      then (
        none,
        save_state (record m {
          skills =
              insert m.skills (name_of manifest)
                (record { manifest = manifest; status = enabled; install_path = dest });
        }),
      )
      else (some invalid_manifest, m)

  -- `removable` is whether the path is in the directory of skills, or is no directory.
  abbrev pub uninstall_found :
      (String → Bool)
      → String
      → SkillManager M
      → Option (InstalledSkill M)
      → Option SkillError × SkillManager M
  uninstall_found removable name m none = (some (not_installed name), m)
  uninstall_found removable name m (some skill) =
      if removable skill.install_path
      then (none, save_state (record m { skills = remove m.skills name }))
      else (some (outside_directory skill.install_path), m)

  unfoldable pub uninstall :
      (String → Bool) → String → SkillManager M → Option SkillError × SkillManager M
  unfolding save_state
  uninstall removable name m = uninstall_found removable name m (get m.skills name)

  abbrev pub set_found :
      SkillStatus
      → String
      → SkillManager M
      → Option (InstalledSkill M)
      → Option SkillError × SkillManager M
  set_found status name m none = (some (not_installed name), m)
  set_found status name m (some skill) = (
    none,
    save_state (record m { skills = insert m.skills name (record skill { status = status }) }),
  )

  -- `enable` and `disable`
  unfoldable pub set_status :
      SkillStatus → String → SkillManager M → Option SkillError × SkillManager M
  unfolding save_state
  set_status status name m = set_found status name m (get m.skills name)

  abbrev pub is_enabled : InstalledSkill M → Bool
  is_enabled skill = elim skill.status [ enabled ↦ true | disabled ↦ false ]

  unfoldable pub list_enabled : SkillManager M → List (InstalledSkill M)
  list_enabled m = select is_enabled (values m.skills)
