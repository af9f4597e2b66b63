-- ===== src/Registry/Routes.antt =====
-- Where the route map leads, and that every listed capability has a route.
use argus_mcp.Base.{
  ◌≡◌, ◌⊎◌, inl, inr, refl, sym, Bool, false, String, Option, none, some, List, [], ◌∷◌, ◌∙◌,
  if◌then◌else◌, text_keys, ◌==◌, Option-cases, Bool-cases, subst,
}
use argus_mcp.Base.Dict.{get, insert, remove, get-insert, get-remove}
use argus_mcp.Conflict.{ConflictStrategy, transform_name}
use argus_mcp.Registry.{
  Capability, CapType, Config, Part, enter, register, register_raw, register_all,
  apply_filter_and_rename, RouteMap,
}
use argus_mcp.Registry.Turns.{Turn, kept, entered, moved, replaced, Turned, turned, register-Turned}

-- Every route is to a server and an original name of which `P` holds.
abbrev pub Leads : (String → String → Type 0) → RouteMap → Type 0
Leads P d = (k s o : String) → get d k ≡ some (s, o) → P s o

module _ (P : String → String → Type 0) where
  some-Leads : {x y : String × String} → P x.0 x.1 → some x ≡ some y → P y.0 y.1
  some-Leads {x} {y} h e = subst (λ (z : String × String). P z.0 z.1) (cc) h

  insert-Leads : (d : RouteMap) (k s o : String) → P s o → Leads P d → Leads P (insert d k (s, o))
  insert-Leads d k s o h l j s' o' e =
      let looked : (if k == j then some (s, o) else get d j) ≡ some (s', o') =
        sym (get-insert d k (s, o) j) ∙ e in
      elim (Bool-cases (k == j)) [
        | inl b ↦ some-Leads h (rw b at looked)
        | inr b ↦ l j s' o' (rw b at looked)
      ]

  remove-Leads : (d : RouteMap) (k : String) → Leads P d → Leads P (remove d k)
  remove-Leads d k l j s o e =
      let looked : (if k == j then none else get d j) ≡ some (s, o) = sym (get-remove d k j) ∙ e in
      elim (Bool-cases (k == j)) [
        | inl b ↦ absurd (none-ne-some (rw b at looked))
        | inr b ↦ l j s o (rw b at looked)
      ]
    where
      none-ne-some : {x : String × String} → ¬ (none ≡ some x)
      none-ne-some e = cc

  pub Turn-Leads :
      (c : ConflictStrategy) (svr original : String) (item : Capability) (p p' : Part)
      (name : String)
      → P svr original
      → Leads P p.routes
      → Turn c svr original item p name p'
      → Leads P p'.routes
  unfolding enter
  Turn-Leads c svr original item p p' name h l (kept x o e r) = l
  Turn-Leads c svr original item p p' name h l (entered e) =
      insert-Leads p.routes name svr original h l
  Turn-Leads c svr original item p p' name h l (moved x o new e r n) =
      insert-Leads p.routes new svr original h l
  Turn-Leads c svr original item p p' name h l (replaced x o e r) =
      insert-Leads (remove p.routes name) name svr original h (remove-Leads p.routes name l)

-- What a backend presents: the capabilities with a name that its filter lets through, each with its
-- original name and the name that it takes before any conflict.
module _ (fnmatch : String → String → Bool) (c : Config) (svr : String) (type : CapType) where
  pub data PresentsItem (item : Capability) (original name : String) : Type 0 where
    presented :
        (item' : Capability)
        → (item.name == "") ≡ false
        → apply_filter_and_rename fnmatch c svr type item ≡ some (original, item')
        → transform_name c.strategy svr item'.name ≡ name
        → PresentsItem item original name

  abbrev pub Presents : List (Option Capability) → String → String → Type 0
  Presents [] original name = ⊥
  Presents (none ∷ xs) original name = Presents xs original name
  Presents (some item ∷ xs) original name =
      PresentsItem item original name ⊎ Presents xs original name

  -- A property of the part that the turns of presented capabilities keep is kept by the whole
  -- loop, whether or not a conflict error ends it.
  pub register_all-keeps :
      (Q : Part → Type 0) (xs : List (Option Capability)) (p : Part)
      → ((original name : String) (item' : Capability) (p p' : Part)
          → Presents xs original name
          → Q p
          → Turn c.strategy svr original item' p name p'
          → Q p')
      → Q p
      → Q (register_all fnmatch c svr type xs p)
  unfolding register_all register_raw
  register_all-keeps Q [] p turn q = q
  register_all-keeps Q (none ∷ xs) p turn q = register_all-keeps Q xs p turn q
  register_all-keeps Q (some item ∷ xs) p turn q =
      let rest : (p : Part) → Q p → Q (register_all fnmatch c svr type xs p) =
        λ p q. register_all-keeps Q xs p (λ o n i a b h. turn o n i a b (inr h)) q in
      elim (Bool-cases (item.name == "")) [
        | inl b ↦ rw (b, register_raw, register_all) (rest p q)
        | inr b ↦ elim (Option-cases (apply_filter_and_rename fnmatch c svr type item)) [
          | inl e ↦ rw (b, e, register_raw, register_all) (rest p q)
          | inr ((original, item'), e) ↦
              rw (b, e, register_raw, register_all)
                (go rest original item' (presented item' b e refl) (register c svr original item' p)
                  (register-Turned svr original item' p c))
        ]
      ]
    where
      go :
          ((p : Part) → Q p → Q (register_all fnmatch c svr type xs p))
          → (original : String) (item' : Capability)
          → PresentsItem item original (transform_name c.strategy svr item'.name)
          → (r : Option Part)
          → Turned c.strategy svr original item' p (transform_name c.strategy svr item'.name) r
          → Q (elim r [ none ↦ p | some p' ↦ register_all fnmatch c svr type xs p' ])
      go rest original item' h none t = q
      go rest original item' h (some p') (turned t) =
          rest p' (turn original _ item' p p' (inl h) q t)
