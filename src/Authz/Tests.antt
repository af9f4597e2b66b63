-- ===== src/Authz/Tests.antt =====
-- A viewer who may use every tool but one.
use Prim.Native.String.{◌++◌ as append}
use argus_mcp.Base.{
  ◌≡◌, ◌⊎◌, refl, Bool, String, some, List, [], ◌∷◌, ◌&&◌, text_keys, ◌==◌, contains,
}
use argus_mcp.Authz.{
  AuthzPolicy, deny, init, evaluate, first_match, matches, resource_matches, filter_allowed,
  authorize,
}
use argus_mcp.Authz.FirstMatch.{
  DecidedBy, Unmatched, evaluate-DecidedBy, is_some, filter_allowed-authorize,
}

abbrev fnmatch : String → String → Bool
fnmatch name pattern = name == pattern

abbrev policies : List AuthzPolicy
policies =
    record {
      effect = "deny";
      roles = "viewer" ∷ [];
      resources = "tool:drop" ∷ [];
      description = "";
    }
    ∷ record { effect = "allow"; roles = "*" ∷ []; resources = "*" ∷ []; description = "" }
    ∷ []

denied : evaluate fnmatch (init policies "deny") ("viewer" ∷ []) "tool:drop" ≡ deny
unfolding evaluate first_match matches resource_matches init
denied = refl

evaluate-DecidedBy_example :
    DecidedBy fnmatch
      ("viewer" ∷ [])
      "tool:drop"
      ((init policies "deny").policies)
      (evaluate fnmatch (init policies "deny") ("viewer" ∷ []) "tool:drop")
    ⊎ (Unmatched fnmatch ("viewer" ∷ []) "tool:drop" ((init policies "deny").policies)
        × (evaluate fnmatch (init policies "deny") ("viewer" ∷ []) "tool:drop"
            ≡ (init policies "deny").default))
evaluate-DecidedBy_example =
    evaluate-DecidedBy fnmatch ("viewer" ∷ []) "tool:drop" (init policies "deny")

filter_allowed-authorize_example :
    contains (append "tool:" "drop") (
      filter_allowed fnmatch
        (init policies "deny")
        ("viewer" ∷ [])
        ("tool:drop" ∷ "tool:read" ∷ []))
    ≡ (is_some (
          authorize fnmatch
            (init policies "deny")
            (some ("viewer" ∷ []))
            "drop"
            (λ (n : String). n))
        && contains (append "tool:" "drop") ("tool:drop" ∷ "tool:read" ∷ []))
filter_allowed-authorize_example =
    filter_allowed-authorize fnmatch policies "deny" ("viewer" ∷ [])
      ("tool:drop" ∷ "tool:read" ∷ []) "drop" (λ (n : String). n)
