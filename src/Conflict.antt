-- ===== src/Conflict.antt =====
-- argus_mcp/bridge/conflict.py: how a name that two backends offer is resolved.
pub mod Naming
mod Tests
use Prim.Native.String.{◌++◌ as append}
use argus_mcp.Base.{
  ℕ, zero, suc, Bool, true, false, String, Option, none, some, List, [], ◌∷◌, ltb, length,
  if◌then◌else◌, text_keys, ◌==◌, ◌||◌, not,
}
use argus_mcp.Base.Dict.{Dict, get, insert}

pub data ConflictAction : Type 0 where
  skip replace error : ConflictAction
  rename : String → ConflictAction

-- The four subclasses of `ConflictStrategy`, with their fields.
pub data ConflictStrategy : Type 0 where
  first_wins : ConflictStrategy
  prefix : String → ConflictStrategy
  priority : List String → String → ConflictStrategy
  error : ConflictStrategy

-- `{name: idx for idx, name in enumerate(order)}`, from index `i` on.
unfoldable pub priorities : ℕ → List String → Dict String ℕ → Dict String ℕ
priorities i [] d = d
priorities i (name ∷ order) d = priorities (suc i) order (insert d name i)

abbrev or_last : ℕ → Option ℕ → ℕ
or_last n none = n
or_last n (some i) = i

unfoldable pub get_priority : List String → String → ℕ
get_priority order server = or_last (length order) (get (priorities 0 order []) server)

unfoldable pub prefixed : String → String → String → String
prefixed server separator name = append server (append separator name)

unfoldable pub transform_name : ConflictStrategy → String → String → String
unfolding prefixed
transform_name (prefix separator) server name = prefixed server separator name
transform_name _ server name = name

-- `none` is the `CapabilityConflictError` that the error strategy raises.
unfoldable pub handle_conflict : ConflictStrategy → String → String → String → Option ConflictAction
handle_conflict first_wins exposed existing new = some ConflictAction.skip
handle_conflict (prefix separator) exposed existing new = some ConflictAction.skip
handle_conflict (priority order separator) exposed existing new =
    if ltb (get_priority order new) (get_priority order existing)
    then some ConflictAction.replace
    else some (ConflictAction.rename (prefixed new separator exposed))
handle_conflict ConflictStrategy.error exposed existing new = none

pub data StrategyError : Type 0 where
  unknown_strategy missing_order : StrategyError

pub data Created : Type 0 where
  created : ConflictStrategy → Created
  invalid : StrategyError → Created

abbrev ordered : String → List String → Created
ordered separator [] = invalid missing_order
ordered separator (s ∷ order) = created (priority (s ∷ order) separator)

-- A missing list of priorities is the empty one: both are falsy.
unfoldable pub create_strategy : String → String → List String → Created
create_strategy strategy separator order =
    if not (
      strategy == "first-wins"
      || strategy == "prefix"
      || strategy == "priority"
      || strategy == "error")
    then invalid unknown_strategy
    else if strategy == "first-wins"
    then created first_wins
    else if strategy == "prefix"
    then created (prefix separator)
    else if strategy == "priority"
    then ordered separator order
    else if strategy == "error"
    then created ConflictStrategy.error
    else created first_wins
