-- ===== src/Payload/Depth.antt =====
-- The nesting check against the depth of a value.
use argus_mcp.Base.{
  ℕ, suc, ◌+◌, max, ◌≡◌, refl, ◌∙◌, Bool, true, false, ltb, ◌||◌, if◌then◌else◌, arith,
}
use argus_mcp.Payload.{
  Json, scalar, array, object, Values, no_value, value, Members, no_member, member,
  check_json_depth, any_value, any_member,
}

-- The depth of a value: how many containers are around its innermost member; an empty container has
-- no member that counts.
mutual
  pub depth : Json → ℕ
  depth scalar = 0
  depth (array vs) = depth_values vs
  depth (object ms) = depth_members ms

  pub depth_values : Values → ℕ
  depth_values no_value = 0
  depth_values (value v vs) = max (suc (depth v)) (depth_values vs)

  pub depth_members : Members → ℕ
  depth_members no_member = 0
  depth_members (member k v ms) = max (suc (depth v)) (depth_members ms)

array_test : (b d : Bool) → (if b then true else d) ≡ (b || d)
array_test true d = refl
array_test false d = refl

-- One member more: `d` is its depth, `e` that of the others, and `rest` their check.
with_member :
    (m c d e : ℕ) (rest : Bool)
    → (ltb m c || rest) ≡ ltb m (c + e)
    → (ltb m c || (ltb m ((c + 1) + d) || rest)) ≡ ltb m (c + max (suc d) e)
with_member m c d e rest h = ground arith

mutual
  unfolding check_json_depth depth

  check-depth : (d : Json) (m c : ℕ) → check_json_depth d m c ≡ ltb m (c + depth d)
  check-depth scalar m c = ground arith
  check-depth (array vs) m c =
      array_test (ltb m c) (any_value vs m (c + 1)) ∙ any_value-depth vs m c
  check-depth (object ms) m c =
      array_test (ltb m c) (any_member ms m (c + 1)) ∙ any_member-depth ms m c

  any_value-depth :
      (vs : Values) (m c : ℕ) → (ltb m c || any_value vs m (c + 1)) ≡ ltb m (c + depth_values vs)
  any_value-depth no_value m c = ground arith
  any_value-depth (value v vs) m c = rw (check-depth v m (c + 1)) (
      with_member m c (depth v) (depth_values vs) (any_value vs m (c + 1)) (any_value-depth vs m c))

  any_member-depth :
      (ms : Members) (m c : ℕ) → (ltb m c || any_member ms m (c + 1)) ≡ ltb m (c + depth_members ms)
  any_member-depth no_member m c = ground arith
  any_member-depth (member k v ms) m c = rw (check-depth v m (c + 1)) (
      with_member m c (depth v) (depth_members ms) (any_member ms m (c + 1))
        (any_member-depth ms m c))

-- The check of a value that stands at some level says whether the level and the value's depth
-- together are above the limit, for objects, lists and any mixture of them.
pub check_json_depth-depth :
    (d : Json) (max_depth current : ℕ)
    → check_json_depth d max_depth current ≡ ltb max_depth (current + depth d)
check_json_depth-depth d max_depth current = check-depth d max_depth current
