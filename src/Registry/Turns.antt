-- ===== src/Registry/Turns.antt =====
-- One turn of the registration loop, taken apart: every way in which it can end, with what the code
-- knew there.
use argus_mcp.Base.{
  ◌≡◌, ◌≢◌, ◌⊎◌, inl, inr, refl, false, String, Option, none, some, not, select, text_keys, ◌==◌,
  eq_iff, Option-cases, Bool-cases,
}
use argus_mcp.Base.Dict.{get, remove, has}
use argus_mcp.Conflict.{ConflictStrategy, ConflictAction, transform_name, handle_conflict}
use argus_mcp.Registry.{Capability, Config, Part, act, finish, resolve_conflict, enter, register}

module _ (strategy : ConflictStrategy) (svr original : String) (item : Capability) (p : Part) where
  -- The name, the server that holds it already, and what the strategy says of the two.
  pub data Turn (name : String) : Part → Type 0 where
    kept :
        (existing o : String)
        → get p.routes name ≡ some (existing, o)
        → (existing ≡ svr)
          ⊎ (handle_conflict strategy name existing svr ≢ some ConflictAction.replace)
        → Turn name p
    entered : get p.routes name ≡ none → Turn name (enter svr original item name p)
    moved :
        (existing o new : String)
        → get p.routes name ≡ some (existing, o)
        → handle_conflict strategy name existing svr ≡ some (ConflictAction.rename new)
        → has p.routes new ≡ false
        → Turn name (enter svr original item new p)
    replaced :
        (existing o : String)
        → get p.routes name ≡ some (existing, o)
        → handle_conflict strategy name existing svr ≡ some ConflictAction.replace
        → Turn name (
            enter svr original item name (record {
              items = select (λ i. not (i.name == name)) p.items;
              routes = remove p.routes name;
            }))

  pub data Turned (name : String) : Option Part → Type 0 where
    raised :
        (existing o : String)
        → get p.routes name ≡ some (existing, o)
        → handle_conflict strategy name existing svr ≡ none
        → Turned name none
    turned : {p' : Part} → Turn name p' → Turned name (some p')

  act-Turned :
      (name existing o : String) (a : Option ConflictAction)
      → get p.routes name ≡ some (existing, o)
      → handle_conflict strategy name existing svr ≡ a
      → Turned name (finish svr original item p (act a name p))
  unfolding act
  act-Turned name existing o none e h = raised existing o e h
  act-Turned name existing o (some ConflictAction.skip) e h =
      turned (kept existing o e (inr (λ r. cc)))
  act-Turned name existing o (some ConflictAction.replace) e h = turned (replaced existing o e h)
  act-Turned name existing o (some ConflictAction.error) e h =
      turned (kept existing o e (inr (λ r. cc)))
  act-Turned name existing o (some (ConflictAction.rename n)) e h =
      elim (Bool-cases (has p.routes n)) [
        | inl b ↦ rw b (turned (kept existing o e (inr (λ r. cc))))
        | inr b ↦ rw b (turned (moved existing o n e h b))
      ]

  resolve-Turned :
      (name : String)
      → Turned name (finish svr original item p (resolve_conflict strategy svr name p))
  unfolding resolve_conflict
  resolve-Turned name = elim (Option-cases (get p.routes name)) [
    | inl e ↦ rw (e, resolve_conflict) (turned (entered e))
    | inr ((existing, o), e) ↦
        rw (e, resolve_conflict)
          (elim (Bool-cases (existing == svr)) [
            | inl b ↦ rw b (turned (kept existing o e (inl ((eq_iff existing svr).0 b))))
            | inr b ↦
                rw b
                  (act-Turned name existing o (handle_conflict strategy name existing svr) e refl)
          ])
  ]

module _ (svr original : String) (item : Capability) (p : Part) where
  -- `register` ends in one of those ways.
  pub register-Turned :
      (c : Config)
      → Turned c.strategy svr original item p
          (transform_name c.strategy svr item.name)
          (register c svr original item p)
  unfolding register
  register-Turned c =
      resolve-Turned c.strategy svr original item p (transform_name c.strategy svr item.name)
