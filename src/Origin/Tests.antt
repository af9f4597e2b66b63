-- ===== src/Origin/Tests.antt =====
-- Origins of concrete requests.
use argus_mcp.Base.{◌≡◌, ◌≢◌, refl, String, Option, some, [], ◌∷◌}
use argus_mcp.Origin.{OriginValidation, Scope, forwarded, disallowed_origin, origin_of, call}
use argus_mcp.Origin.Trusted.{Trusted, call-Trusted}

abbrev same : String → String
same t = t

abbrev no_host : String → Option String
no_host origin = some "example.org"

abbrev listed : OriginValidation
listed = record { require_origin = "strict"; allowed_origins = "https://example.org" ∷ [] }

abbrev from : String → Scope
from origin = record { type = "http"; path = "/mcp"; headers = ("origin", origin) ∷ [] }

accepted : call same no_host listed (from "https://example.org") ≡ forwarded
unfolding call origin_of
accepted = refl

rejected : call same no_host listed (from "https://evil.org") ≡ disallowed_origin "https://evil.org"
unfolding call origin_of
rejected = refl

call-Trusted_example :
    (origin : String) × ((origin_of (("origin", "https://example.org") ∷ []) ≡ some origin)
      × (origin ≢ "")
      × Trusted same no_host listed origin)
call-Trusted_example =
    call-Trusted same no_host listed (from "https://example.org") refl refl refl refl accepted
