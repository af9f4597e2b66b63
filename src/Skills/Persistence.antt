-- ===== src/Skills/Persistence.antt =====
-- The file of states and the skills that are in use.
use argus_mcp.Base.{
  ◌≡◌, refl, subst, ◌∙◌, Bool, true, false, Bool-cases, inl, inr, String, Option, none, some, List,
  [], ◌∷◌, any, if◌then◌else◌, text_keys, ◌==◌,
}
use argus_mcp.Base.Dict.{Dict, get, insert, get-insert}
use argus_mcp.Skills.{
  SkillStatus, enabled, disabled, InstalledSkill, SkillManager, status_value, status_from,
  load_state, statuses, save_state, load_manifests, discover, install, uninstall, uninstall_found,
  set_status, set_found,
}

status_from-value : (s : SkillStatus) → status_from (some (status_value s)) ≡ s
status_from-value enabled = refl
status_from-value disabled = refl

if-same : {T : Type 0} (b : Bool) (v : T) → (if b then v else v) ≡ v
if-same true v = refl
if-same false v = refl

module _ {M : Type 0} where
  abbrev pub status_of : Option (InstalledSkill M) → Option SkillStatus
  status_of none = none
  status_of (some s) = some s.status

  -- The status of a skill, if it is known.
  abbrev pub status_in : Dict String (InstalledSkill M) → String → Option SkillStatus
  status_in skills x = status_of (get skills x)

  -- The file holds the statuses of the skills.
  abbrev pub IsSaved : SkillManager M → Type 0
  IsSaved m = m.state_file ≡ some (statuses m.skills)

  pub install-IsSaved :
      (name_of : M → String) (valid : Bool) (dest : String) (manifest : M) (m : SkillManager M)
      → IsSaved m
      → IsSaved (install name_of valid dest manifest m).1
  unfolding install save_state
  install-IsSaved name_of true dest manifest m h = refl
  install-IsSaved name_of false dest manifest m h = h

  pub uninstall-IsSaved :
      (removable : String → Bool) (name : String) (m : SkillManager M)
      → IsSaved m
      → IsSaved (uninstall removable name m).1
  unfolding uninstall save_state
  uninstall-IsSaved removable name m h = found (get m.skills name)
    where
      found : (o : Option (InstalledSkill M)) → IsSaved (uninstall_found removable name m o).1
      found none = h
      found (some s) = elim (Bool-cases (removable s.install_path)) [
        | inl b ↦ rw b refl
        | inr b ↦ rw b h
      ]

  pub set_status-IsSaved :
      (status : SkillStatus) (name : String) (m : SkillManager M)
      → IsSaved m
      → IsSaved (set_status status name m).1
  unfolding set_status save_state
  set_status-IsSaved status name m h = found (get m.skills name)
    where
      found : (o : Option (InstalledSkill M)) → IsSaved (set_found status name m o).1
      found none = h
      found (some s) = refl

  same_value :
      (k s : InstalledSkill M)
      → some k ≡ some s
      → some (status_value k.status) ≡ some (status_value s.status)
  same_value k s e = cc

  get-statuses :
      (skills : Dict String (InstalledSkill M)) (x : String) (s : InstalledSkill M)
      → get skills x ≡ some s
      → get (statuses skills) x ≡ some (status_value s.status)
  unfolding get statuses
  get-statuses [] x s e = absurd (cc)
  get-statuses ((n, k) ∷ rest) x s e = elim (Bool-cases (n == x)) [
    | inl b ↦ rw b (same_value k s (subst (λ t. (if t then some k else get rest x) ≡ some s) b e))
    | inr b ↦
        rw b (get-statuses rest x s (subst (λ t. (if t then some k else get rest x) ≡ some s) b e))
  ]

  module _ (name_of : M → String) (state : Dict String String) where
    abbrev pub presents : String → List (String × M) → Bool
    presents x = any (λ p. name_of p.1 == x)

    loaded-status :
        (found : List (String × M)) (skills : Dict String (InstalledSkill M)) (x : String)
        → status_in (load_manifests name_of state found skills) x
          ≡ (if presents x found then some (status_from (get state x)) else status_in skills x)
    unfolding load_manifests
    loaded-status [] skills x = refl
    loaded-status ((path, manifest) ∷ rest) skills x =
        loaded-status rest
          (insert skills (name_of manifest) (record {
            manifest = manifest;
            status = status_from (get state (name_of manifest));
            install_path = path;
          }))
          x
        ∙ elim (Bool-cases (name_of manifest == x)) [
          | inr b ↦
              rw
                (
                  get-insert skills (name_of manifest)
                      (record {
                        manifest = manifest;
                        status = status_from (get state (name_of manifest));
                        install_path = path;
                      })
                      x,
                  b,
                )
                refl
          | inl b ↦
              rw
                (
                  get-insert skills (name_of manifest)
                      (record {
                        manifest = manifest;
                        status = status_from (get state (name_of manifest));
                        install_path = path;
                      })
                      x,
                  b,
                  (text_keys.equals_iff (name_of manifest) x).0 b,
                )
                (if-same (presents x rest) _)
        ]

  -- A manager whose file holds the statuses of its skills, and that discovers its directory again,
  -- gives each skill whose manifest is still there the status that it had.
  pub status-discover :
      (name_of : M → String) (found : List (String × M)) (m : SkillManager M) (x : String)
      (s : InstalledSkill M)
      → IsSaved m
      → get m.skills x ≡ some s
      → presents name_of [] x found ≡ true
      → status_in (discover name_of found m).skills x ≡ some s.status
  unfolding discover
  status-discover name_of found m x s h e p =
      loaded-status name_of (load_state m.state_file) found [] x
      ∙ rw (p, h, get-statuses m.skills x s e, status_from-value s.status) refl

  found_status :
      (status : SkillStatus) (name_of : M → String) (found : List (String × M)) (m : SkillManager M)
      (x : String) (s : InstalledSkill M)
      → presents name_of [] x found ≡ true
      → status_in (discover name_of found (set_found status x m (some s)).1).skills x ≡ some status
  unfolding save_state
  found_status status name_of found m x s p =
      let skill : InstalledSkill M = record s { status = status } in
      status-discover name_of found (set_found status x m (some s)).1 x skill refl
        (get-insert m.skills x skill x ∙ rw ((text_keys.equals_iff x x).1 refl) refl) p

  -- Round trip: a skill that is enabled or disabled has that status again after its directory is
  -- discovered anew, if its manifest is still there, whatever the other manifests are.
  pub set_status-discover :
      (status : SkillStatus) (name_of : M → String) (found : List (String × M)) (m : SkillManager M)
      (x : String) (s : InstalledSkill M)
      → get m.skills x ≡ some s
      → presents name_of [] x found ≡ true
      → status_in (discover name_of found (set_status status x m).1).skills x ≡ some status
  unfolding set_status
  set_status-discover status name_of found m x s e p =
      rw e (found_status status name_of found m x s p)
