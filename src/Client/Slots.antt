-- ===== src/Client/Slots.antt =====
-- The slot of a backend: its session and its exit stack, as the operations of the client manager
-- change them, backend by backend.
use argus_mcp.Base.{
  ◌≡◌, refl, ◌∙◌, Bool-cases, inl, inr, String, Option, none, some, if◌then◌else◌, text_keys, ◌==◌,
  arith,
}
use argus_mcp.Base.Dict.{Dict, get, insert, remove, get-insert, get-remove}
use argus_mcp.Client.{
  Client, Connection, unbuilt, failed, connected, connect_backend, start_backend_svr,
  disconnect_one, attempted, with_record,
}
use argus_mcp.Runtime.{BackendPhase}

get-replaced :
    {K : Type 0} (d : Dict String K) (name : String) (k : K) (x : String)
    → get (insert (remove d name) name k) x ≡ (if name == x then some k else get d x)
get-replaced d name k x = get-insert (remove d name) name k x ∙ elim (Bool-cases (name == x)) [
  | inl b ↦ rw b refl
  | inr b ↦ rw (b, get-remove d name x, b) refl
]

module _ {S K : Type 0} where
  abbrev pub slot : Client S K → String → Option S × Option K
  slot c x = (get c.sessions x, get c.backend_stacks x)

  -- What an attempt to connect makes of the slot of its own backend.
  abbrev pub connect_slot : Connection S K → Option S × Option K → Option S × Option K
  connect_slot (unbuilt message) v = v
  connect_slot (failed none running message) v = v
  connect_slot (failed (some k) running message) (s, _) = (s, some k)
  connect_slot (connected k s) v = (some s, some k)

  -- A backend without a session is not disconnected, and keeps its stack.
  abbrev pub disconnect_slot : Option S × Option K → Option S × Option K
  disconnect_slot (none, k) = (none, k)
  disconnect_slot (some s, k) = (none, none)

  connect-slot :
      (name : String) (o : Connection S K) (c : Client S K) (x : String)
      → slot (connect_backend name o c).1 x
        ≡ (if name == x then connect_slot o (slot c x) else slot c x)
  connect-slot name (unbuilt m) c x = ground arith
  connect-slot name (failed none r m) c x = ground arith
  connect-slot name (failed (some k) r m) c x =
      rw (get-replaced c.backend_stacks name k x) (ground arith)
  connect-slot name (connected k s) c x =
      rw (get-replaced c.backend_stacks name k x, get-insert c.sessions name s x) (ground arith)

  pub slot-start_backend_svr :
      (name connecting : String) (o : Connection S K) (c : Client S K) (x : String)
      → slot (start_backend_svr name connecting o c).1 x
        ≡ (if name == x then connect_slot o (slot c x) else slot c x)
  unfolding start_backend_svr
  slot-start_backend_svr name connecting o c x =
      connect-slot name o (with_record name (attempted BackendPhase.initializing connecting) c) x

  pub slot-disconnect_one :
      (name : String) (c : Client S K) (x : String)
      → slot (disconnect_one name c) x ≡ (if name == x then (none, none) else slot c x)
  unfolding disconnect_one
  slot-disconnect_one name c x =
      rw (get-remove c.sessions name x, get-remove c.backend_stacks name x) (ground arith)
