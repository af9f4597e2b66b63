-- ===== src/Origin.antt =====
-- argus_mcp/server/origin.py: which requests the check of the Origin header lets through. The lower
-- case of a text and the host of an origin, which Python's library gives, are parameters.
pub mod Trusted
mod Tests
use text.Mathlib.Text.{starts_with}
use argus_mcp.Base.{
  Bool, true, false, String, Option, none, some, List, [], ◌∷◌, not, ◌||◌, any, contains,
  if◌then◌else◌, text_keys, ◌==◌,
}

-- `_MCP_PATH_PREFIXES`
abbrev pub mcp_path_prefixes : List String
mcp_path_prefixes = "/mcp" ∷ "/sse" ∷ "/messages" ∷ []

-- `_LOCALHOST_HOSTS`
abbrev pub localhost_hosts : List String
localhost_hosts = "localhost" ∷ "127.0.0.1" ∷ "::1" ∷ "[::1]" ∷ []

-- The mode is in lower case; the origins are those of the environment, read once.
pub record OriginValidation : Type 0 where
  pub require_origin : String
  pub allowed_origins : List String

pub record Scope : Type 0 where
  pub type : String
  pub path : String
  pub headers : List (String × String)

pub data Verdict : Type 0 where
  forwarded : Verdict
  -- 403
  missing_origin : Verdict
  disallowed_origin : String → Verdict

abbrev pub is_mcp_path : String → Bool
is_mcp_path path = any (starts_with path) mcp_path_prefixes

-- The first header of that name.
unfoldable pub origin_of : List (String × String) → Option String
origin_of [] = none
origin_of ((key, content) ∷ hs) = if key == "origin" then some content else origin_of hs

-- `hostname origin` is the host in lower case, `none` where there is none or the parsing fails.
module _ (lower : String → String) (hostname : String → Option String) (v : OriginValidation) where
  abbrev pub is_localhost : Option String → Bool
  is_localhost none = contains "" localhost_hosts
  is_localhost (some host) = contains host localhost_hosts

  -- `_is_localhost_origin`
  abbrev pub is_localhost_origin : String → Bool
  is_localhost_origin origin = is_localhost (hostname origin)

  abbrev pub wildcard : Bool
  wildcard = contains "*" v.allowed_origins

  abbrev pub without_origin : Verdict
  without_origin = if v.require_origin == "strict" then missing_origin else forwarded

  abbrev pub with_origin : String → Verdict
  with_origin origin =
      if is_localhost_origin (lower origin)
      then forwarded
      else if wildcard
      then forwarded
      else if contains (lower origin) v.allowed_origins
      then forwarded
      else disallowed_origin origin

  abbrev pub check_origin : Option String → Verdict
  check_origin none = without_origin
  check_origin (some origin) = if origin == "" then without_origin else with_origin origin

  -- `__call__`
  unfoldable pub call : Scope → Verdict
  unfolding origin_of
  call scope =
      if not (scope.type == "http")
      then forwarded
      else if not (is_mcp_path scope.path)
      then forwarded
      else check_origin (origin_of scope.headers)
