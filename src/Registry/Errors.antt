-- ===== src/Registry/Errors.antt =====
-- The error strategy inside the discovery loop.
use argus_mcp.Base.{◌≡◌, refl, Bool, false, String, Option, none, some, List, ◌∷◌, text_keys, ◌==◌}
use argus_mcp.Base.Dict.{get}
use argus_mcp.Conflict.{ConflictStrategy, handle_conflict, transform_name}
use argus_mcp.Registry.{
  Capability, CapType, Config, Part, register, register_raw, register_all, resolve_conflict, act,
  conflict_error, apply_filter_and_rename,
}

resolve-error :
    (svr name existing o : String) (p : Part)
    → get p.routes name ≡ some (existing, o)
    → (existing == svr) ≡ false
    → resolve_conflict ConflictStrategy.error svr name p ≡ conflict_error
unfolding resolve_conflict handle_conflict act
resolve-error svr name existing o p held other = rw (held, resolve_conflict) (rw other refl)

register-error :
    (c : Config) (svr original existing o : String) (item : Capability) (p : Part)
    → c.strategy ≡ ConflictStrategy.error
    → get p.routes item.name ≡ some (existing, o)
    → (existing == svr) ≡ false
    → register c svr original item p ≡ none
unfolding register transform_name
register-error c svr original existing o item p e held other =
    rw (e, register) (rw (resolve-error svr item.name existing o p held other) refl)

-- Under the error strategy a capability whose exposed name another server holds stops the loop: the
-- routes and the list stay as they were, and no capability after it is registered, without any
-- error for the caller.
pub register_all-error :
    (fnmatch : String → String → Bool) (c : Config) (svr : String) (type : CapType)
    (item item' : Capability) (xs : List (Option Capability)) (p : Part)
    (original existing o : String)
    → c.strategy ≡ ConflictStrategy.error
    → (item.name == "") ≡ false
    → apply_filter_and_rename fnmatch c svr type item ≡ some (original, item')
    → get p.routes item'.name ≡ some (existing, o)
    → (existing == svr) ≡ false
    → register_all fnmatch c svr type (some item ∷ xs) p ≡ p
unfolding register_all register_raw
register_all-error fnmatch c svr type item item' xs p original existing o e named passed held
      other =
    rw (named, passed, register_raw, register_all)
      (rw (register-error c svr original existing o item' p e held other) refl)
