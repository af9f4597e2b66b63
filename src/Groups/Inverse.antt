-- ===== src/Groups/Inverse.antt =====
-- The two dictionaries say the same, and no group is empty.
use argus_mcp.Base.{
  ◌≡◌, ◌≢◌, inl, inr, refl, Bool, true, false, String, Option, none, some, List, [], ◌∷◌, not, ◌&&◌,
  ◌||◌, if◌then◌else◌, text_keys, ◌==◌, ==_refl, eq_iff, arith, Option-cases, Bool-cases,
}
use argus_mcp.Base.Dict.{Dict, get, has, get-insert, get-remove, IsUnique, has-get, has-insert}
use argus_mcp.Groups.{
  GroupManager, default_group, or_else, mem, add, discard, put_in, take_out, unless_empty,
  put_config, init, servers_in, leave_old, add_server, remove_server,
}

mem-add : (s t : String) (set : List String) → mem s (add t set) ≡ (t == s || mem s set)
unfolding add
mem-add s t set = ground (arith, eq_iff t s)

mem-discard :
    (s t : String) (set : List String) → mem s (discard t set) ≡ (not (t == s) && mem s set)
mem-discard s t [] = ground arith
mem-discard s t (x ∷ set) = ground (arith, eq_iff x s, eq_iff x t, eq_iff t s, mem-discard s t set)

abbrev members : Dict String (List String) → String → List String
members d g = or_else [] (get d g)

mem-put_in :
    (s name group g : String) (d : Dict String (List String))
    → mem s (members (put_in name group d) g) ≡ (mem s (members d g) || (group == g && name == s))
unfolding put_in
mem-put_in s name group g d =
    rw (get-insert d group (add name (members d group)) g)
      (ground (arith, mem-add s name (members d group), eq_iff group g))

members-unless_empty :
    (group g : String) (set : List String) (d : Dict String (List String))
    → members (unless_empty group set d) g ≡ (if group == g then set else members d g)
members-unless_empty group g [] d = ground (arith, get-remove d group g)
members-unless_empty group g (s ∷ set) d = ground (arith, get-insert d group (s ∷ set) g)

mem-take_out :
    (s name group g : String) (d : Dict String (List String))
    → mem s (members (take_out name group d) g)
      ≡ (mem s (members d g) && not (group == g && name == s))
unfolding take_out
mem-take_out s name group g d =
    rw (members-unless_empty group g (discard name (members d group)) d)
      (ground (arith, mem-discard s name (members d group), eq_iff group g))

abbrev pub in_group : String → Option String → Bool
in_group g none = false
in_group g (some h) = h == g

in_group_once :
    (o : Option String) (g h : String) → in_group g o ≡ true → in_group h o ≡ true → h ≡ g
in_group_once none g h a b = cc
in_group_once (some x) g h a b = ground (arith, eq_iff x g, eq_iff x h)

abbrev IsFilled : Dict String (List String) → Type 0
IsFilled d = (g : String) → get d g ≢ some []

-- A server is in the set of a group exactly if the other dictionary has that group for it, and no
-- set is empty.
pub record IsInverse (m : GroupManager) : Type 0 where
  pub agrees :
      (s g : String) → mem s (members m.group_servers g) ≡ in_group g (get m.server_group s)
  pub filled : IsFilled m.group_servers

add-ne-nil : (s : String) (set : List String) → add s set ≢ []
unfolding add
add-ne-nil s [] e = cc
add-ne-nil s (x ∷ set) e = ground arith

put_in-IsFilled :
    (name group : String) (d : Dict String (List String))
    → IsFilled d
    → IsFilled (put_in name group d)
unfolding put_in
put_in-IsFilled name group d f g e = ground (
  arith,
  get-insert d group (add name (members d group)) g,
  add-ne-nil name (members d group),
  f g,
)

unless_empty-IsFilled :
    (group : String) (set : List String) (d : Dict String (List String))
    → IsFilled d
    → IsFilled (unless_empty group set d)
unless_empty-IsFilled group [] d f g e = ground (arith, get-remove d group g, f g)
unless_empty-IsFilled group (s ∷ set) d f g e = ground (arith, get-insert d group (s ∷ set) g, f g)

take_out-IsFilled :
    (name group : String) (d : Dict String (List String))
    → IsFilled d
    → IsFilled (take_out name group d)
unfolding take_out
take_out-IsFilled name group d = unless_empty-IsFilled group (discard name (members d group)) d

-- Moving a server out of its old group, if it has another one.
module _ (m : GroupManager) (v : IsInverse m) (name group : String) where
  left : Dict String (List String)
  left = leave_old name group (get m.server_group name) m.group_servers

  mem-left :
      (s g : String)
      → mem s (members left g) ≡ (
          in_group g (get m.server_group s)
          && (not (name == s) || in_group group (get m.server_group s)))
  unfolding left
  mem-left s g = elim (Option-cases (get m.server_group name)) [
    | inl e ↦ rw (e, left) (rw (v.agrees s g) (ground (arith, eq_iff name s)))
    | inr (old, e) ↦ elim (Bool-cases (old == group)) [
      | inl b ↦ rw (e, left) (rw b (rw (v.agrees s g) (ground (arith, eq_iff name s))))
      | inr b ↦
          rw (e, left)
            (rw b (
              rw (mem-take_out s name old g m.group_servers, v.agrees s g)
                (ground (arith, eq_iff name s, eq_iff old g, eq_iff old group))))
    ]
  ]

  left-IsFilled : IsFilled left
  unfolding left
  left-IsFilled = elim (Option-cases (get m.server_group name)) [
    | inl e ↦ rw (e, left) v.filled
    | inr (old, e) ↦ elim (Bool-cases (old == group)) [
      | inl b ↦ rw (e, left) (rw b v.filled)
      | inr b ↦ rw (e, left) (rw b (take_out-IsFilled name old m.group_servers v.filled))
    ]
  ]

  add_server-IsInverse : IsInverse (add_server name group m)
  unfolding add_server left
  add_server-IsInverse = record {
    agrees = λ s g.
        rw (mem-put_in s name group g left, get-insert m.server_group name group s)
          (ground (
            arith,
            mem-left s g,
            eq_iff name s,
            eq_iff group g,
            in_group_once (get m.server_group s) g group,
          ));
    filled = put_in-IsFilled name group left left-IsFilled;
  }

  remove_server-IsInverse : IsInverse (remove_server name m)
  unfolding remove_server
  remove_server-IsInverse = elim (Option-cases (get m.server_group name)) [
    | inl e ↦ rw (e, remove_server) v
    | inr (old, e) ↦
        rw (e, remove_server)
          (record {
            agrees = λ s g.
                rw (mem-take_out s name old g m.group_servers, get-remove m.server_group name s)
                  (ground (arith, v.agrees s g, eq_iff name s, eq_iff old g));
            filled = take_out-IsFilled name old m.group_servers v.filled;
          })
  ]

-- What the manager is told after it was made.
pub data Change : Type 0 where
  adds : String → String → Change
  removes : String → Change

unfoldable pub change : GroupManager → Change → GroupManager
change m (adds name group) = add_server name group m
change m (removes name) = remove_server name m

unfoldable pub changes : GroupManager → List Change → GroupManager
changes m [] = m
changes m (c ∷ cs) = changes (change m c) cs

change-IsInverse : (m : GroupManager) (c : Change) → IsInverse m → IsInverse (change m c)
unfolding change
change-IsInverse m (adds name group) v = add_server-IsInverse m v name group
change-IsInverse m (removes name) v = remove_server-IsInverse m v name ""

changes-IsInverse : (m : GroupManager) (cs : List Change) → IsInverse m → IsInverse (changes m cs)
unfolding changes
changes-IsInverse m [] v = v
changes-IsInverse m (c ∷ cs) v = changes-IsInverse (change m c) cs (change-IsInverse m c v)

-- A configuration names a backend once, so `__init__` puts each of them in as `add_server` would.
put_config-IsInverse :
    (name group : String) (m : GroupManager)
    → has m.server_group name ≡ false
    → IsInverse m
    → IsInverse (put_config name group m)
unfolding put_config
put_config-IsInverse name group m fresh v =
    let g' : String = if group == "" then default_group else group in
    record {
      agrees = λ s g.
          rw (mem-put_in s name g' g m.group_servers, get-insert m.server_group name g' s)
            (ground (arith, v.agrees s g, eq_iff name s, has-get m.server_group name));
      filled = put_in-IsFilled name g' m.group_servers v.filled;
    }

abbrev pub empty : GroupManager
empty = record { server_group = []; group_servers = [] }

init-IsInverse :
    (bs : Dict String String) (m : GroupManager)
    → IsUnique bs
    → ((k : String) → has bs k ≡ true → has m.server_group k ≡ false)
    → IsInverse m
    → IsInverse (init bs m)
unfolding init put_config has
init-IsInverse [] m u fresh v = v
init-IsInverse ((name, group) ∷ bs) m u fresh v =
    init-IsInverse bs (put_config name group m) u.1 later
      (put_config-IsInverse name group m (fresh name first) v)
  where
    first : has ((name, group) ∷ bs) name ≡ true
    first = ground (arith, ==_refl name)

    later : (k : String) → has bs k ≡ true → has (put_config name group m).server_group k ≡ false
    later k h = ground (
      arith,
      fresh k,
      eq_iff name k,
      has-insert m.server_group name (if group == "" then default_group else group) k,
    )

empty-IsInverse : IsInverse empty
unfolding get
empty-IsInverse = record { agrees = λ s g. refl; filled = λ g e. cc }

-- In every history of a group manager that was made from a configuration with distinct names, a
-- server is listed in a group exactly if that group is recorded for it, and no group that has a
-- set of servers is empty.
pub history-IsInverse :
    (backends : Dict String String) (cs : List Change)
    → IsUnique backends
    → IsInverse (changes (init backends empty) cs)
unfolding get has
history-IsInverse backends cs u =
    changes-IsInverse (init backends empty) cs
      (init-IsInverse backends empty u (λ k h. refl) empty-IsInverse)

-- A server moves: after `add_server` it is in its new group, in no other, and every other server
-- is where it was, in a manager whose two dictionaries agree.
pub servers_in-add_server :
    (m : GroupManager) (name group s g : String)
    → IsInverse m
    → mem s (servers_in (add_server name group m) g)
      ≡ (if name == s then group == g else mem s (servers_in m g))
unfolding servers_in add_server
servers_in-add_server m name group s g v = ground (
  arith,
  (add_server-IsInverse m v name group).agrees s g,
  v.agrees s g,
  get-insert m.server_group name group s,
)
