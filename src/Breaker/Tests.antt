-- ===== src/Breaker/Tests.antt =====
-- The breaker on concrete histories.
use argus_mcp.Base.{List, [], ◌∷◌}
use argus_mcp.Breaker.{Event}

abbrev history : List Event
history = Event.fails 1 ∷ Event.fails 2 ∷ Event.fails 3 ∷ Event.asks 70 ∷ []
