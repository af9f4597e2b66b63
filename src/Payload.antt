-- ===== src/Payload.antt =====
-- argus_mcp/server/payload_limits.py: the body of a request is buffered and checked before the
-- application sees it. The messages that the server has delivered are a list; a byte is of any type.
pub mod Depth
pub mod Body
mod Tests
use argus_mcp.Base.{
  ℕ, suc, ◌+◌, Bool, true, false, String, Option, none, some, List, [], ◌∷◌, ◌++◌, not, ◌&&◌, ◌||◌,
  length, ltb, if◌then◌else◌, text_keys, ◌==◌,
}

-- What `json.loads` gives, with the scalars left out.
mutual
  pub data Json : Type 0 where
    scalar : Json
    array : Values → Json
    object : Members → Json

  pub data Values : Type 0 where
    no_value : Values
    value : Json → Values → Values

  pub data Members : Type 0 where
    no_member : Members
    member : String → Json → Members → Members

-- `_check_json_depth`
unfoldable mutual
  pub check_json_depth : Json → ℕ → ℕ → Bool
  check_json_depth scalar max_depth current = ltb max_depth current
  check_json_depth (array vs) max_depth current =
      let deeper = any_value vs max_depth (current + 1) in
      if ltb max_depth current then true else deeper
  check_json_depth (object ms) max_depth current =
      let deeper = any_member ms max_depth (current + 1) in
      if ltb max_depth current then true else deeper

  pub any_value : Values → ℕ → ℕ → Bool
  any_value no_value max_depth current = false
  any_value (value v vs) max_depth current =
      check_json_depth v max_depth current || any_value vs max_depth current

  pub any_member : Members → ℕ → ℕ → Bool
  any_member no_member max_depth current = false
  any_member (member k v ms) max_depth current =
      check_json_depth v max_depth current || any_member ms max_depth current

pub record PayloadLimitsConfig : Type 0 where
  pub enabled : Bool
  pub max_body_bytes : ℕ
  pub max_json_depth : ℕ

-- What the server delivers: a chunk of the body, with `more_body`, or another message, such as
-- `http.disconnect`.
pub data Message (B : Type 0) : Type 0 where
  request : List B → Bool → Message B
  other : String → Message B

pub record Scope : Type 0 where
  pub type : String
  pub method : String
  pub headers : List (String × String)

-- The loop `while not body_done` after some messages: it was left with the size, or with the body,
-- or it is still running.
pub data Buffered (B : Type 0) : Type 0 where
  too_large : ℕ → Buffered B
  complete : List B → Buffered B
  unfinished : List B → Buffered B

-- What the middleware did.
pub data Decision (B : Type 0) : Type 0 where
  passed_through : Decision B
  payload_too_large : ℕ → Decision B
  bad_request : Decision B
  replayed : List B → Decision B
  waits : Decision B

module _ {B : Type 0} where
  -- `total_size` is the size of `body`, the chunks so far.
  unfoldable pub buffer : ℕ → List B → List (Message B) → Buffered B
  buffer limit body [] = unfinished body
  buffer limit body (other type ∷ ms) = buffer limit body ms
  buffer limit body (request chunk more ∷ ms) =
      let received = body ++ chunk in
      let rest = buffer limit received ms in
      if ltb limit (length received)
      then too_large (length received)
      else if more
      then rest
      else complete received

-- Bodies are not read for these.
abbrev pub has_no_body : String → Bool
has_no_body m = m == "GET" || (m == "HEAD" || (m == "OPTIONS" || m == "DELETE"))

-- `mentions_json content` is `b"json" in content.lower()`; the first header of that name decides.
abbrev pub is_json_content : (String → Bool) → List (String × String) → Bool
is_json_content mentions_json [] = false
is_json_content mentions_json ((key, content) ∷ hs) =
    if key == "content-type" then mentions_json content else is_json_content mentions_json hs

-- `parse` is `json.loads`, `none` where it raises.
module _ {B : Type 0} (upper : String → String) (mentions_json : String → Bool)
    (parse : List B → Option Json) (c : PayloadLimitsConfig) where
  abbrev pub too_deep : Option Json → Bool
  too_deep none = false
  too_deep (some parsed) = check_json_depth parsed c.max_json_depth 0

  abbrev pub check_depth : Scope → List B → Decision B
  check_depth scope [] = replayed []
  check_depth scope (b ∷ body) =
      if is_json_content mentions_json scope.headers && too_deep (parse (b ∷ body))
      then bad_request
      else replayed (b ∷ body)

  abbrev pub decide : Scope → Buffered B → Decision B
  decide scope (too_large received) = payload_too_large received
  decide scope (complete body) = check_depth scope body
  decide scope (unfinished body) = waits

  -- `__call__`
  unfoldable pub call : Scope → List (Message B) → Decision B
  unfolding buffer check_json_depth
  call scope messages =
      if not (scope.type == "http") || not c.enabled
      then passed_through
      else if has_no_body (upper scope.method)
      then passed_through
      else decide scope (buffer c.max_body_bytes [] messages)
