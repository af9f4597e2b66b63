-- ===== src/Sessions.antt =====
-- argus_mcp/server/session/manager.py and models.py: client sessions, each with a copy of the
-- routing table that it was given when it was created. The dictionaries that others may hold and
-- change are objects of a heap, named by their addresses. A reading of the monotonic clock is the
-- argument `now`; `uuid` stands for the identifier that a new session draws.
pub mod Frozen
mod Tests
use argus_mcp.Base.{
  ℕ, suc, ◌+◌, eqb, Bool, true, false, String, Option, none, some, List, [], ◌∷◌, not, ltb, count,
  if◌then◌else◌, text_keys, ◌==◌,
}
use argus_mcp.Base.Dict.{Dict, get, insert, remove, has, values}

-- The dictionaries with values of one type; `next` is the address that the next new one gets.
pub record Heap (A : Type 0) : Type 0 where
  pub next : ℕ
  pub cell : ℕ → Dict String A

module _ {A : Type 0} where
  -- What the object at an address holds is replaced.
  abbrev pub write : Heap A → ℕ → Dict String A → Heap A
  write h ref d = record h { cell = λ r. if eqb r ref then d else h.cell r }

  -- A new object.
  abbrev pub allocate : Heap A → Dict String A → Heap A × ℕ
  allocate h d =
      (record { next = suc h.next; cell = λ r. if eqb r h.next then d else h.cell r }, h.next)

-- The routing table and the snapshot are objects of the two heaps.
pub record McpSession : Type 0 where
  pub id : String
  pub routing_table : ℕ
  pub capability_snapshot : ℕ
  pub created_at : ℕ
  pub last_active : ℕ
  pub ttl : ℕ
  pub transport_type : String

-- `(monotonic() - self.last_active) > self.ttl`
abbrev pub expired : ℕ → McpSession → Bool
expired now s = ltb (s.last_active + s.ttl) now

abbrev pub touch : ℕ → McpSession → McpSession
touch now s = record s { last_active = now }

unfoldable pub resolve_backend : Heap String → String → McpSession → Option String
resolve_backend tables tool s = get (tables.cell s.routing_table) tool

pub record SessionManager : Type 0 where
  pub sessions : Dict String McpSession
  pub default_ttl : ℕ

-- The manager, and the dictionaries of the process that may get to it.
pub record World : Type 0 where
  pub tables : Heap String
  pub snapshots : Heap ℕ
  pub manager : SessionManager

pub record Request : Type 0 where
  pub routing_table : ℕ
  pub capability_snapshot : Option ℕ
  pub transport_type : String
  pub session_id : Option String

abbrev or_else {ℓ} : {A : Type ℓ} → A → Option A → A
or_else d none = d
or_else d (some x) = x

-- A given id is used unless it is empty.
abbrev pub id_of : String → Request → String
id_of uuid q = let given = or_else "" q.session_id in if given == "" then uuid else given

-- What `dict(capability_snapshot) if capability_snapshot else {}` holds.
abbrev snapshot_of : Heap ℕ → Option ℕ → Dict String ℕ
snapshot_of h none = []
snapshot_of h (some ref) = h.cell ref

-- `dict(routing_table)` is a new object with what the given one holds.
unfoldable pub create_session : String → ℕ → Request → World → World × McpSession
create_session uuid now q w =
    let (tables, table) = allocate w.tables (w.tables.cell q.routing_table) in
    let (snapshots, snapshot) =
      allocate w.snapshots (snapshot_of w.snapshots q.capability_snapshot) in
    let s : McpSession = record {
      id = id_of uuid q;
      routing_table = table;
      capability_snapshot = snapshot;
      created_at = now;
      last_active = now;
      ttl = w.manager.default_ttl;
      transport_type = q.transport_type;
    } in
    (
      record {
        tables = tables;
        snapshots = snapshots;
        manager = record w.manager { sessions = insert w.manager.sessions s.id s };
      },
      s,
    )

abbrev pub drop : String → SessionManager → SessionManager
drop id m = record m { sessions = remove m.sessions id }

-- A session that is found and not expired is touched; an expired one is removed.
abbrev pub found :
    String → ℕ → SessionManager → Option McpSession → SessionManager × Option McpSession
found id now m none = (m, none)
found id now m (some s) =
    if expired now s
    then (drop id m, none)
    else (record m { sessions = insert m.sessions id (touch now s) }, some (touch now s))

unfoldable pub get_session : String → ℕ → SessionManager → SessionManager × Option McpSession
get_session id now m = found id now m (get m.sessions id)

unfoldable pub remove_session : String → SessionManager → SessionManager × Bool
remove_session id m = if has m.sessions id then (drop id m, true) else (m, false)

unfoldable pub expired_ids : ℕ → Dict String McpSession → List String
expired_ids now [] = []
expired_ids now ((id, s) ∷ d) =
    let rest = expired_ids now d in if expired now s then id ∷ rest else rest

unfoldable pub remove_ids : List String → Dict String McpSession → Dict String McpSession
remove_ids [] d = d
remove_ids (id ∷ ids) d = remove_ids ids (remove d id)

-- One sweep of the clean-up loop.
unfoldable pub cleanup : ℕ → SessionManager → SessionManager
unfolding expired_ids remove_ids
cleanup now m = record m { sessions = remove_ids (expired_ids now m.sessions) m.sessions }

unfoldable pub stop : SessionManager → SessionManager
stop m = record m { sessions = [] }

unfoldable pub active_count : ℕ → SessionManager → ℕ
active_count now m = count (λ s. not (expired now s)) (values m.sessions)
