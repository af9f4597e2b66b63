-- ===== src/Requests.antt =====
-- argus_mcp/bridge/middleware/chain.py, class RequestContext, with what one request does on its way:
-- the context is a mutable object there, so a run returns it beside the outcome, and the calls
-- and records that leave the process are a list of effects.
use argus_mcp.Base.{Bool, String, Option, List, ◌++◌}
use argus_mcp.Base.Dict.{Dict}

-- argus_mcp/server/auth/providers.py; the claims are not read here.
pub record UserIdentity : Type 0 where
  pub subject : String
  pub email : String
  pub name : String
  pub roles : List String
  pub provider : String

-- The values of `metadata` that the middleware reads and writes.
pub data Value : Type 0 where
  text : String → Value
  identity : UserIdentity → Value

pub data Error : Type 0 where
  authentication_error : String → Error
  -- of a plugin, in a hook
  plugin_error : String → String → Error
  backend_server_error : Error
  -- no such capability
  value_error : String → Error
  -- no session with that backend
  runtime_error : String → Error
  not_implemented_error : String → Error
  -- a middleware that returned `None`
  assertion_error : Error
  -- any other exception, by its text
  other_error : String → Error

pub data Result {ℓ} (B : Type ℓ) : Type ℓ where
  returned : B → Result B
  raised : Error → Result B

pub data Effect : Type 0 where
  -- the server, the method and the name at the server
  called : String → String → String → Effect
  -- the audit event: the server, and the error that its outcome reports
  audited : Option String → Option Error → Effect
  -- the metric: the server, and whether the request succeeded
  recorded : String → Bool → Effect

module _ (A : Type 0) where
  pub record RequestContext : Type 0 where
    pub capability_name : String
    pub mcp_method : String
    pub arguments : Option (Dict String A)
    pub request_id : String
    pub server_name : Option String
    pub original_name : Option String
    pub metadata : Dict String Value
    pub error : Option Error

  -- `none` is the response `None`.
  pub record Run (R : Type 0) : Type 0 where
    pub context : RequestContext
    pub effects : List Effect
    pub result : Result (Option R)

abbrev pub Handler : Type 0 → Type 0 → Type 0
Handler A R = RequestContext A → Run A R

module _ {A R : Type 0} where
  abbrev pub also : List Effect → Run A R → Run A R
  also es r = record r { effects = r.effects ++ es }
