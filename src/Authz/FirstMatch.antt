-- ===== src/Authz/FirstMatch.antt =====
-- The decision of the policy engine is that of the first policy that matches.
use Prim.Native.String.{◌++◌ as append}
use argus_mcp.Base.{
  ◌≡◌, ◌⊎◌, inl, inr, refl, Bool, true, false, String, Option, none, some, List, [], ◌∷◌, ◌++◌,
  ◌&&◌, select, arith, Bool-cases, text_keys, ◌==◌, contains, All, eq_iff, ap, subst, sym, ◌∙◌,
}
use argus_mcp.Authz.{
  PolicyDecision, allow, deny, AuthzPolicy, PolicyEngine, decision_of, allows, init, matches,
  first_match, evaluate, filter_allowed, authorize,
}

module _ (fnmatch : String → String → Bool) (user_roles : List String) (resource : String) where
  abbrev pub Unmatched : List AuthzPolicy → Type 0
  Unmatched = All (λ p. matches fnmatch user_roles resource p ≡ false)

  -- The policy `p` after `before` decides.
  pub record DecidedBy (ps : List AuthzPolicy) (d : PolicyDecision) : Type 0 where
    pub before : List AuthzPolicy
    pub policy : AuthzPolicy
    pub after : List AuthzPolicy
    pub split : ps ≡ before ++ policy ∷ after
    pub unmatched : Unmatched before
    pub matched : matches fnmatch user_roles resource policy ≡ true
    pub decision : d ≡ decision_of policy.effect

  first_match-DecidedBy :
      (default : PolicyDecision) (ps : List AuthzPolicy)
      → DecidedBy ps (first_match fnmatch default user_roles resource ps)
        ⊎ (Unmatched ps × (first_match fnmatch default user_roles resource ps ≡ default))
  unfolding first_match
  first_match-DecidedBy default [] = inr (tt, refl)
  first_match-DecidedBy default (p ∷ ps) =
      elim (Bool-cases (matches fnmatch user_roles resource p)) [
        | inl b ↦ rw b (
            inl (record {
              before = [];
              policy = p;
              after = ps;
              split = refl;
              unmatched = tt;
              matched = b;
              decision = refl;
            }))
        | inr b ↦
            subst (λ d. DecidedBy (p ∷ ps) d ⊎ (Unmatched (p ∷ ps) × (d ≡ default))) (sym (skips b))
              (go (first_match-DecidedBy default ps) b)
      ]
    where
      skips :
          matches fnmatch user_roles resource p ≡ false
          → first_match fnmatch default user_roles resource (p ∷ ps)
            ≡ first_match fnmatch default user_roles resource ps
      skips b = rw b refl

      go :
          DecidedBy ps (first_match fnmatch default user_roles resource ps)
            ⊎ (Unmatched ps × (first_match fnmatch default user_roles resource ps ≡ default))
          → matches fnmatch user_roles resource p ≡ false
          → DecidedBy (p ∷ ps) (first_match fnmatch default user_roles resource ps)
            ⊎ (Unmatched (p ∷ ps) × (first_match fnmatch default user_roles resource ps ≡ default))
      go (inr (u, e)) b = inr ((b, u), e)
      go (inl v) b = inl (record {
        before = p ∷ v.before;
        policy = v.policy;
        after = v.after;
        split = ap (λ qs. p ∷ qs) v.split;
        unmatched = (b, v.unmatched);
        matched = v.matched;
        decision = v.decision;
      })

  -- The engine's decision is that of the first policy that matches the roles and the resource; if
  -- none matches, it is the default.
  pub evaluate-DecidedBy :
      (e : PolicyEngine)
      → DecidedBy e.policies (evaluate fnmatch e user_roles resource)
        ⊎ (Unmatched e.policies × (evaluate fnmatch e user_roles resource ≡ e.default))
  unfolding evaluate
  evaluate-DecidedBy e = first_match-DecidedBy e.default e.policies

abbrev pub is_some {ℓ} : {A : Type ℓ} → Option A → Bool
is_some none = false
is_some (some x) = true

contains-select :
    (p : String → Bool) (x : String) (xs : List String)
    → contains x (select p xs) ≡ (p x && contains x xs)
contains-select p x [] = ground arith
contains-select p x (y ∷ ys) = elim (Bool-cases (y == x)) [
  | inl b ↦ let e : y ≡ x = (eq_iff y x).0 b in ground (arith, ap p e, contains-select p x ys)
  | inr b ↦ ground (arith, contains-select p x ys)
]

decision_of-allows : (effect : String) → (decision_of effect ≡ allow) ⊎ (decision_of effect ≡ deny)
decision_of-allows effect = elim (Bool-cases (effect == "allow")) [
  | inl b ↦ inl (rw b refl)
  | inr b ↦ inr (rw b refl)
]

module _ (fnmatch : String → String → Bool) where
  first_match_decides :
      (default_effect : String) (roles : List String) (r : String) (ps : List AuthzPolicy)
      → (first_match fnmatch (decision_of default_effect) roles r ps ≡ allow)
        ⊎ (first_match fnmatch (decision_of default_effect) roles r ps ≡ deny)
  unfolding first_match
  first_match_decides d roles r [] = decision_of-allows d
  first_match_decides d roles r (p ∷ ps) = elim (Bool-cases (matches fnmatch roles r p)) [
    | inl b ↦ rw b (decision_of-allows p.effect)
    | inr b ↦ rw b (first_match_decides d roles r ps)
  ]

  init_decides :
      (ps : List AuthzPolicy) (d : String) (roles : List String) (r : String)
      → (evaluate fnmatch (init ps d) roles r ≡ allow)
        ⊎ (evaluate fnmatch (init ps d) roles r ≡ deny)
  unfolding evaluate init
  init_decides ps d roles r = first_match_decides d roles r ps

  -- What the filter shows is what the guard lets through: for an engine made from policies and a
  -- default effect, a tool is in the filtered list exactly if it was in the list and the guard
  -- calls the next handler for it.
  pub filter_allowed-authorize {ℓ} :
      {R : Type ℓ} (ps : List AuthzPolicy) (d : String) (roles tools : List String) (name : String)
      (next : String → R)
      → contains (append "tool:" name) (filter_allowed fnmatch (init ps d) roles tools) ≡ (
          is_some (authorize fnmatch (init ps d) (some roles) name next)
          && contains (append "tool:" name) tools)
  unfolding filter_allowed authorize init
  filter_allowed-authorize ps d roles tools name next =
      let tool = append "tool:" name in
      let shown : String → Bool = λ r. allows (evaluate fnmatch (init ps d) roles r) in
      elim (init_decides ps d roles tool) [
        | inl e ↦
            rw e (contains-select shown tool tools ∙ ap (λ x. allows x && contains tool tools) e)
        | inr e ↦
            rw e (contains-select shown tool tools ∙ ap (λ x. allows x && contains tool tools) e)
      ]
