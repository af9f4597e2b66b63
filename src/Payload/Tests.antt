-- ===== src/Payload/Tests.antt =====
-- The limits at concrete requests.
use argus_mcp.Base.{
  ◌⊎◌, none, ℕ, ◌≤◌, ◌≡◌, ◌≢◌, refl, Bool, true, false, String, Option, some, List, [], ◌∷◌, ◌++◌,
  length, arith,
}
use argus_mcp.Payload.{
  Json, scalar, array, object, no_value, value, no_member, member, check_json_depth,
  PayloadLimitsConfig, Message, request, Scope, waits, replayed, buffer, call, is_json_content,
}
use argus_mcp.Payload.Depth.{depth}
use argus_mcp.Payload.Body.{body_of, disconnects, call-disconnects, call-replayed}

abbrev limits : PayloadLimitsConfig
limits = record { enabled = true; max_body_bytes = 4; max_json_depth = 1 }

abbrev post : Scope
post = record {
  type = "http";
  method = "POST";
  headers = ("content-type", "application/json") ∷ [];
}

abbrev same : String → String
same m = m

abbrev every : String → Bool
every content = true

abbrev flat : List ℕ → Option Json
flat bytes = some (array (value scalar no_value))

abbrev nested : Json
nested = object (member "a" (array (value scalar no_value)) no_member)

too_nested : check_json_depth nested 1 0 ≡ true
unfolding check_json_depth
too_nested = refl

abbrev started : List (Message ℕ)
started = request (1 ∷ 2 ∷ []) true ∷ []

two_fit : length (body_of started) ≤ 4
two_fit = omega arith

call-disconnects_example : call same every flat limits post (started ++ disconnects 1000) ≡ waits
call-disconnects_example =
    call-disconnects same every flat limits post started 1000 refl refl refl refl two_fit

abbrev sent : List (Message ℕ)
sent = request (1 ∷ 2 ∷ []) false ∷ []

abbrev bytes : List ℕ
bytes = 1 ∷ 2 ∷ []

not_empty : bytes ≢ []
not_empty e = absurd (cc)

forwarded : call same every flat limits post sent ≡ replayed bytes
unfolding call buffer check_json_depth
forwarded = refl

call-replayed_example :
    (length bytes ≤ 4)
    × ((bytes ≡ [])
        ⊎ (is_json_content every post.headers ≡ false)
        ⊎ (flat bytes ≡ none)
        ⊎ ((parsed : Json) × (flat bytes ≡ some parsed) × (depth parsed ≤ 1)))
call-replayed_example = call-replayed same every flat limits post sent bytes forwarded
