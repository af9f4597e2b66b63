-- ===== src/Client.antt =====
-- argus_mcp/bridge/client_manager.py and bridge/backend_connection.py: the sessions with the
-- backends, the exit stacks that own their transports, and the status records. What a transport and
-- the MCP initialization come to is data that the operations take.
pub mod Slots
use argus_mcp.Base.{
  ℕ, Bool, true, false, String, Option, none, some, List, [], ◌∷◌, text_keys, ◌==◌, if◌then◌else◌,
}
use argus_mcp.Base.Dict.{Dict, get, insert, remove}
use argus_mcp.Runtime.{BackendPhase, BackendStatusRecord, transition, is_operational}

module _ (S K : Type 0) where
  pub record Client : Type 0 where
    pub sessions : Dict String S
    pub backend_stacks : Dict String K
    pub status_records : Dict String (BackendStatusRecord ℕ)

  -- What one attempt to connect comes to: the image could not be built (of a stdio backend); it
  -- failed, before or after its exit stack was opened, with an authentication discovery running or
  -- not (a timeout does not ask for one); or it has a session.
  pub data Connection : Type 0 where
    unbuilt : String → Connection
    failed : Option K → Bool → String → Connection
    connected : K → S → Connection

-- A transition whose `ValueError` is passed over.
abbrev pub attempted : BackendPhase → String → BackendStatusRecord ℕ → BackendStatusRecord ℕ
attempted phase message r = elim (transition phase message r) [ none ↦ r | some r' ↦ r' ]

abbrev pub fresh : BackendStatusRecord ℕ
fresh = record {
  phase = BackendPhase.pending;
  last_latency_ms = none;
  error = none;
  conditions = [];
}

-- `ensure_status_record`
unfoldable pub ensure_status_record :
    String → Dict String (BackendStatusRecord ℕ) → BackendStatusRecord ℕ
ensure_status_record name records = elim (get records name) [ none ↦ fresh | some r ↦ r ]

-- `record_auth_pending_or_failure`
abbrev pub auth_pending_or_failure : Bool → String → BackendStatusRecord ℕ → BackendStatusRecord ℕ
auth_pending_or_failure running message r =
    if running
    then attempted BackendPhase.initializing message r
    else attempted BackendPhase.failed message r

abbrev pub shut_down : Dict String (BackendStatusRecord ℕ) → Dict String (BackendStatusRecord ℕ)
shut_down [] = []
shut_down ((name, r) ∷ d) =
    (
      name,
      if is_operational r then attempted BackendPhase.shutting_down "Graceful shutdown" r else r,
    )
    ∷ shut_down d

module _ {S K : Type 0} where
  abbrev pub with_record :
      String → (BackendStatusRecord ℕ → BackendStatusRecord ℕ) → Client S K → Client S K
  with_record name f c = record c {
    status_records = insert c.status_records name (f (ensure_status_record name c.status_records));
  }

  -- `prepare_backend_stack`: the stack of an earlier attempt is closed.
  abbrev pub prepare_backend_stack : String → Option K → Client S K → Client S K
  prepare_backend_stack name none c = c
  prepare_backend_stack name (some k) c = record c {
    backend_stacks = insert (remove c.backend_stacks name) name k;
  }

  -- What follows the transition to INITIALIZING.
  abbrev pub connect_backend : String → Connection S K → Client S K → Bool × Client S K
  connect_backend name (unbuilt message) c =
      (false, with_record name (attempted BackendPhase.failed message) c)
  connect_backend name (failed stack running message) c = (
    false,
    with_record name (auth_pending_or_failure running message) (prepare_backend_stack name stack c),
  )
  connect_backend name (connected stack session) c =
      let opened = prepare_backend_stack name (some stack) c in
      (
        true,
        with_record name (attempted BackendPhase.ready "Connection established")
            (record opened { sessions = insert opened.sessions name session }),
      )

  -- `connecting` is the text with the type of the transport.
  unfoldable pub start_backend_svr :
      String → String → Connection S K → Client S K → Bool × Client S K
  unfolding ensure_status_record
  start_backend_svr name connecting outcome c =
      connect_backend name outcome
        (with_record name (attempted BackendPhase.initializing connecting) c)

  unfoldable pub disconnect_one : String → Client S K → Client S K
  disconnect_one name c = record c {
    sessions = remove c.sessions name;
    backend_stacks = remove c.backend_stacks name;
  }

  -- `stop_all`
  unfoldable pub stop_all : Client S K → Client S K
  stop_all c = record {
    sessions = [];
    backend_stacks = [];
    status_records = shut_down c.status_records;
  }
