-- ===== src/Sessions/Tests.antt =====
-- A session that is used, outlived by a sweep, and routed by the table of its creation.
use argus_mcp.Base.{arith, String, List, ◌≡◌, refl, none, some, [], ◌∷◌, text_keys}
use argus_mcp.Base.Dict.{get, insert, remove}
use argus_mcp.Sessions.{
  McpSession, SessionManager, Request, World, create_session, get_session, cleanup, expired_ids,
  remove_ids, resolve_backend,
}
use argus_mcp.Sessions.Frozen.{Event, gets, changes, sweeps, step, run, run-resolve_backend}

abbrev manager : SessionManager
manager = record { sessions = []; default_ttl = 30 }

-- The table of the caller is at 0.
abbrev world : World
world = record {
  tables = record { next = 1; cell = λ r. ("read", "files") ∷ [] };
  snapshots = record { next = 0; cell = λ r. [] };
  manager = manager;
}

abbrev request : Request
request = record {
  routing_table = 0;
  capability_snapshot = none;
  transport_type = "sse";
  session_id = none;
}

abbrev left : McpSession
left = record {
  id = "u";
  routing_table = 1;
  capability_snapshot = 0;
  created_at = 5;
  last_active = 20;
  ttl = 30;
  transport_type = "sse";
}

-- The caller empties its table.
abbrev history : List Event
history = gets "u" 20 ∷ changes 0 [] ∷ sweeps 40 ∷ []

lives : get (run (create_session "u" 5 request world).0 history).manager.sessions "u" ≡ some left
unfolding run step create_session get_session cleanup expired_ids remove_ids get insert remove
lives = refl

run-resolve_backend_example :
    resolve_backend (run (create_session "u" 5 request world).0 history).tables "read" left
    ≡ get {K = String} (("read", "files") ∷ []) "read"
run-resolve_backend_example =
    run-resolve_backend "u" 5 request world history left "read"
      (tt, ((λ e. absurd (omega (arith, e))), (tt, tt))) lives
