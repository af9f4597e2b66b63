-- ===== src/Flags/Governance.antt =====
-- A flag of high risk is on only where the user's configuration turns it on.
use argus_mcp.Base.{
  ◌≡◌, refl, subst, Bool, true, false, Bool-cases, inl, inr, String, Option, none, some, [], ◌∷◌,
  ◌&&◌, ◌||◌, if◌then◌else◌, text_keys, ◌==◌, arith,
}
use argus_mcp.Base.Dict.{Dict, get, insert, get-insert}
use argus_mcp.Flags.{
  FlagSpec, is_governed, validate_registry, defaults, override, or_false, is_enabled,
}

-- One of the overrides turns the flag on.
abbrev pub turns_on : String → Dict String (Option Bool) → Bool
turns_on name [] = false
turns_on name ((key, none) ∷ rest) = turns_on name rest
turns_on name ((key, some b) ∷ rest) = (key == name && b) || turns_on name rest

by_cases :
    (same b : Bool) (old new : Option Bool) (later : Bool)
    → new ≡ (if same then some b else old)
    → (or_false new || later) ≡ true
    → (or_false old || ((same && b) || later)) ≡ true
by_cases same b old new later q h = ground (arith, q, h)

on_somewhere :
    (overrides : Dict String (Option Bool)) (flags : Dict String Bool) (name : String)
    → or_false (get (override overrides flags) name) ≡ true
    → (or_false (get flags name) || turns_on name overrides) ≡ true
unfolding override
on_somewhere [] flags name h = ground (arith, h)
on_somewhere ((key, none) ∷ rest) flags name h = on_somewhere rest flags name h
on_somewhere ((key, some b) ∷ rest) flags name h =
    let ih = on_somewhere rest (insert flags key b) name h in
    let q = get-insert flags key b name in
    by_cases (key == name) b (get flags name) (get (insert flags key b) name) (turns_on name rest) q
      ih

governed :
    (s spec : FlagSpec)
    → is_governed s ≡ true
    → s ≡ spec
    → (spec.risk == "high") ≡ true
    → s.default ≡ false
governed s spec v e r = let k : (s.risk == "high") ≡ true = rw e r in ground (arith, v, k)

some_inj : (s spec : FlagSpec) → some s ≡ some spec → s ≡ spec
some_inj s spec e = cc

off_by_default :
    (registry : Dict String FlagSpec) (name : String) (spec : FlagSpec)
    → validate_registry registry ≡ true
    → get registry name ≡ some spec
    → (spec.risk == "high") ≡ true
    → or_false (get (defaults registry) name) ≡ false
unfolding get
off_by_default [] name spec v g r = refl
off_by_default ((n, s) ∷ rest) name spec v g r = elim (Bool-cases (n == name)) [
  | inr b ↦ rw b (
      off_by_default rest name spec (ground (arith, v))
        (subst (λ t. (if t then some s else get rest name) ≡ some spec) b g) r)
  | inl b ↦ rw b (
      let e : s ≡ spec =
        some_inj s spec (subst (λ t. (if t then some s else get rest name) ≡ some spec) b g) in
      governed s spec (ground (arith, v)) e r)
]

-- A flag of high risk in a registry that passes the validation is enabled only if an override turns
-- it on.
pub is_enabled-turns_on :
    (registry : Dict String FlagSpec) (overrides : Dict String (Option Bool)) (name : String)
    (spec : FlagSpec)
    → validate_registry registry ≡ true
    → get registry name ≡ some spec
    → spec.risk ≡ "high"
    → is_enabled registry overrides name ≡ true
    → turns_on name overrides ≡ true
unfolding is_enabled
is_enabled-turns_on registry overrides name spec v g r h =
    let o = off_by_default registry name spec v g ((text_keys.equals_iff spec.risk "high").1 r) in
    let s = on_somewhere overrides (defaults registry) name h in ground (arith, o, s)
