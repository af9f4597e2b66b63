-- ===== src/Middleware/Stack.antt =====
-- argus_mcp/server/lifespan.py, `_build_middleware_stack`: the order in which the chain is put
-- together.
use argus_mcp.Base.{Bool, true, false, String, Option, none, some, List, [], ◌∷◌, ◌++◌}
use argus_mcp.Requests.{UserIdentity, Result, Handler}
use argus_mcp.Registry.{Registry}
use argus_mcp.Plugins.{Plugin}
use argus_mcp.Middleware.{AuthMode, build_chain, auth, recovery, telemetry, audit}
use argus_mcp.Middleware.Hooks.{plugin}
use argus_mcp.Middleware.Routing.{Backends, Manager, routing}

-- The provider registry and the mode, if authentication is configured; the plugins, if their
-- framework is enabled and has loaded; what the client library builds from an error.
pub record Settings (A R : Type 0) : Type 0 where
  pub authenticator : Option ((Option String → Result UserIdentity) × AuthMode)
  pub plugins : Option (List (Plugin A R))
  pub telemetry_enabled : Bool
  pub error_response : String → R

module _ {A R : Type 0} where
  abbrev pub if_auth :
      Option ((Option String → Result UserIdentity) × AuthMode) → List (Handler A R → Handler A R)
  if_auth none = []
  if_auth (some (authenticate, mode)) = auth authenticate mode ∷ []

  abbrev pub if_plugins : Option (List (Plugin A R)) → List (Handler A R → Handler A R)
  if_plugins none = []
  if_plugins (some ps) = plugin ps ∷ []

  abbrev pub if_telemetry : Bool → List (Handler A R → Handler A R)
  if_telemetry false = []
  if_telemetry true = telemetry ∷ []

  unfoldable pub middlewares : Settings A R → List (Handler A R → Handler A R)
  middlewares s =
      if_auth s.authenticator
      ++ recovery s.error_response
        ∷ (if_plugins s.plugins ++ (if_telemetry s.telemetry_enabled ++ audit ∷ []))

  unfoldable pub build_middleware_stack :
      Settings A R → Backends A R → Option Registry → Option Manager → Handler A R
  unfolding middlewares
  build_middleware_stack s backends registry manager =
      build_chain (middlewares s) (routing backends registry manager)
