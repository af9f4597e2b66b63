-- ===== src/Groups/Tests.antt =====
-- A small configuration and its changes.
use argus_mcp.Base.{refl, String, [], ◌∷◌, text_keys}
use argus_mcp.Base.Dict.{Dict, has}
use argus_mcp.Groups.{init}
use argus_mcp.Groups.Inverse.{IsInverse, empty, adds, removes, changes, history-IsInverse}

abbrev backends : Dict String String
backends = ("git", "dev") ∷ ("mail", "") ∷ []

history-IsInverse_example :
    IsInverse (changes (init backends empty) (adds "git" "ops" ∷ removes "mail" ∷ []))
unfolding has
history-IsInverse_example =
    history-IsInverse backends (adds "git" "ops" ∷ removes "mail" ∷ []) (refl, (refl, tt))
