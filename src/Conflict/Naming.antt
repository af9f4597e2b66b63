-- ===== src/Conflict/Naming.antt =====
-- Exposed names and priorities.
use Prim.Native.String.{◌++◌ as append}
use text.Mathlib.TextLemmas.{append_assoc, append_cancel_left}
use argus_mcp.Base.{
  ℕ, suc, ◌+◌, ◌≤◌, ◌<◌, ◌≡◌, ◌↔◌, refl, ap, ◌∙◌, Bool, true, false, String, Option, none, some,
  List, [], ◌∷◌, arith, length, any, ◌==◌, text_keys,
}
use argus_mcp.Base.Dict.{Dict, get, insert, get-insert}
use argus_mcp.Conflict.{prefix, transform_name, get_priority, priorities}

-- Under the prefix strategy two capabilities of one server have the same exposed name only if they
-- have the same name; but two servers may meet in one exposed name: whatever the separator and the
-- texts `a`, `b` and `n`, server `a + separator + b` with capability `n` and server `a` with
-- capability `b + separator + n` are given the same one.
pub prefix_collides :
    (separator a b n m : String)
    → ((transform_name (prefix separator) a n ≡ transform_name (prefix separator) a m) ↔ (n ≡ m))
      × (transform_name (prefix separator) (append a (append separator b)) n
          ≡ transform_name (prefix separator) a (append b (append separator n)))
unfolding transform_name
prefix_collides separator a b n m = (
  (λ e. append_cancel_left separator n m (append_cancel_left a _ _ e), λ e. rw e refl),
  append_assoc a (append separator b) (append separator n)
      ∙ ap (append a) (append_assoc separator b (append separator n)),
)

abbrev pub mem : String → List String → Bool
mem x = any (λ y. y == x)

-- The index of a server lies past those before it.
abbrev Indexed : ℕ → ℕ → Bool → Option ℕ → Option ℕ → Type 0
Indexed i n true old none = ⊥
Indexed i n true old (some j) = (i ≤ j) × (j < i + n)
Indexed i n false old new = new ≡ old

priorities-Indexed :
    (i : ℕ) (order : List String) (d : Dict String ℕ) (s : String)
    → Indexed i (length order) (mem s order) (get d s) (get (priorities i order d) s)
unfolding priorities
priorities-Indexed i [] d s = refl
priorities-Indexed i (n ∷ order) d s =
    ground (arith, priorities-Indexed (suc i) order (insert d n i) s, get-insert d n i s)

-- A server's priority is below the length of the order exactly if the order lists it; a server that
-- is not listed has the length itself, and so the lowest priority.
pub get_priority_bounds :
    (order : List String) (s : String)
    → get_priority order s ≤ length order
      × ((get_priority order s < length order) ↔ (mem s order ≡ true))
unfolding get_priority get
get_priority_bounds order s = ground (arith, priorities-Indexed 0 order [] s)
