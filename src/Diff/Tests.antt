-- ===== src/Diff/Tests.antt =====
-- The difference of two configurations that share one backend.
use argus_mcp.Base.{◌≡◌, refl, String, none, some, [], ◌∷◌, text_keys}
use argus_mcp.Base.Dict.{Dict, get, has}
use argus_mcp.Diff.{BackendConfig, compute_diff, configs_differ}

abbrev at : String → BackendConfig String
at url = record {
  type = some "sse";
  params = none;
  url = some url;
  command = none;
  args = none;
  env = none;
  headers = none;
  auth = none;
}

abbrev old : Dict String (BackendConfig String)
old = ("wiki", at "a") ∷ ("mail", at "b") ∷ []

abbrev new : Dict String (BackendConfig String)
new = ("mail", at "c") ∷ ("news", at "d") ∷ []

changes :
    compute_diff old new
    ≡ record { added = "news" ∷ []; removed = "wiki" ∷ []; changed = "mail" ∷ [] }
unfolding compute_diff has get configs_differ
changes = refl
