-- ===== src/Sessions/Frozen.antt =====
-- What the routing table of a session holds does not change while it lives.
use argus_mcp.Base.{
  ℕ, ◌<◌, ◌≡◌, ◌≢◌, ◌∙◌, arith, inl, inr, refl, Bool, true, false, String, Option, none, some, List,
  [], ◌∷◌, if◌then◌else◌, text_keys, ◌==◌, ==_refl, eq_iff, Bool-cases, All, subst, sym, ap,
}
use argus_mcp.Base.Dict.{Dict, get, insert, remove, has, get-insert, get-remove}
use argus_mcp.Sessions.{
  McpSession, SessionManager, World, Heap, allocate, write, Request, id_of, expired, touch, drop,
  found, create_session, get_session, remove_session, expired_ids, remove_ids, cleanup, stop,
  resolve_backend,
}

-- Beside the operations of the manager, other code makes routing tables and changes them.
pub data Event : Type 0 where
  creates : String → ℕ → Request → Event
  gets : String → ℕ → Event
  removes : String → Event
  sweeps : ℕ → Event
  stops : Event
  allocates : Dict String String → Event
  changes : ℕ → Dict String String → Event

unfoldable pub step : World → Event → World
unfolding create_session get_session remove_session cleanup stop
step w (creates uuid now q) = (create_session uuid now q w).0
step w (gets id now) = record w { manager = (get_session id now w.manager).0 }
step w (removes id) = record w { manager = (remove_session id w.manager).0 }
step w (sweeps now) = record w { manager = cleanup now w.manager }
step w stops = record w { manager = stop w.manager }
step w (allocates d) = record w { tables = (allocate w.tables d).0 }
step w (changes ref d) = record w { tables = write w.tables ref d }

unfoldable pub run : World → List Event → World
unfolding step
run w [] = w
run w (e ∷ es) = run (step w e) es

-- The event does not create a session under this id, and does not change the table at `own`.
abbrev pub IsOther : String → ℕ → Event → Type 0
IsOther id own (creates uuid now q) = (id_of uuid q == id) ≡ false
IsOther id own (changes ref d) = ref ≢ own
IsOther id own _ = Unit

-- The session is gone, or it has the routing table at this address.
abbrev pub Froze : ℕ → Option McpSession → Type 0
Froze table none = Unit
Froze table (some s) = s.routing_table ≡ table

Froze-remove :
    (table : ℕ) (d : Dict String McpSession) (k id : String)
    → Froze table (get d id)
    → Froze table (get (remove d k) id)
Froze-remove table d k id h = elim (Bool-cases (k == id)) [
  | inl b ↦ rw (get-remove d k id, b) tt
  | inr b ↦ rw (get-remove d k id, b) h
]

Froze-remove_ids :
    (table : ℕ) (ks : List String) (d : Dict String McpSession) (id : String)
    → Froze table (get d id)
    → Froze table (get (remove_ids ks d) id)
unfolding remove_ids
Froze-remove_ids table [] d id h = h
Froze-remove_ids table (k ∷ ks) d id h =
    Froze-remove_ids table ks (remove d k) id (Froze-remove table d k id h)

Froze-touch :
    (table : ℕ) (d : Dict String McpSession) (k id : String) (now : ℕ) (s : McpSession)
    → get d k ≡ some s
    → Froze table (get d id)
    → Froze table (get (insert d k (touch now s)) id)
Froze-touch table d k id now s e h = elim (Bool-cases (k == id)) [
  | inl b ↦
      rw (get-insert d k (touch now s) id, b)
        (rw e at (subst (λ j. Froze table (get d j)) (sym ((eq_iff k id).0 b)) h))
  | inr b ↦ rw (get-insert d k (touch now s) id, b) h
]

found-Froze :
    (table : ℕ) (k id : String) (now : ℕ) (m : SessionManager) (o : Option McpSession)
    → get m.sessions k ≡ o
    → Froze table (get m.sessions id)
    → Froze table (get ((found k now m o).0.sessions) id)
found-Froze table k id now m none e h = h
found-Froze table k id now m (some s) e h = elim (Bool-cases (expired now s)) [
  | inl b ↦ rw b (Froze-remove table m.sessions k id h)
  | inr b ↦ rw b (Froze-touch table m.sessions k id now s e h)
]

Froze-nothing : (table : ℕ) (id : String) → Froze table (get [] id)
unfolding get
Froze-nothing table id = tt

removed-Froze :
    (table : ℕ) (k id : String) (m : SessionManager) (held : Bool)
    → Froze table (get m.sessions id)
    → let r : SessionManager × Bool = if held then (drop k m, true) else (m, false) in
      Froze table (get r.0.sessions id)
removed-Froze table k id m true h = Froze-remove table m.sessions k id h
removed-Froze table k id m false h = h

-- The table at `own` is an object that holds `content`, and the session has it or is gone.
Owns : String → ℕ → Dict String String → World → Type 0
Owns id own content w =
    (own < w.tables.next) × (w.tables.cell own ≡ content) × Froze own (get w.manager.sessions id)

fresh_cell :
    (h : Heap String) (d : Dict String String) (own : ℕ)
    → own < h.next
    → (allocate h d).0.cell own ≡ h.cell own
fresh_cell h d own l = ground (arith, l)

step-Owns :
    (id : String) (own : ℕ) (content : Dict String String) (w : World) (e : Event)
    → IsOther id own e
    → Owns id own content w
    → Owns id own content (step w e)
unfolding step create_session get_session remove_session cleanup stop Owns
step-Owns id own content w (creates uuid now q) o (l, c, f) = (
  omega (arith, l),
  fresh_cell w.tables _ own l ∙ c,
  rw (get-insert w.manager.sessions (id_of uuid q) _ id, o) f,
)
step-Owns id own content w (allocates d) o (l, c, f) =
    (omega (arith, l), fresh_cell w.tables d own l ∙ c, f)
step-Owns id own content w (changes ref d) o (l, c, f) = (l, ground (arith, o, c), f)
step-Owns id own content w (removes k) o (l, c, f) =
    (l, c, removed-Froze own k id w.manager (has w.manager.sessions k) f)
step-Owns id own content w (sweeps now) o (l, c, f) =
    (l, c, Froze-remove_ids own (expired_ids now w.manager.sessions) w.manager.sessions id f)
step-Owns id own content w stops o (l, c, f) = (l, c, Froze-nothing own id)
step-Owns id own content w (gets k now) o (l, c, f) =
    (l, c, found-Froze own k id now w.manager (get w.manager.sessions k) refl f)

run-Owns :
    (id : String) (own : ℕ) (content : Dict String String) (es : List Event) (w : World)
    → All (IsOther id own) es
    → Owns id own content w
    → Owns id own content (run w es)
unfolding run
run-Owns id own content [] w o h = h
run-Owns id own content (e ∷ es) w o h =
    run-Owns id own content es (step w e) o.1 (step-Owns id own content w e o.0 h)

create_session-Owns :
    (uuid : String) (now : ℕ) (q : Request) (w : World)
    → Owns
        (id_of uuid q)
        w.tables.next
        (w.tables.cell q.routing_table)
        (create_session uuid now q w).0
unfolding create_session Owns
create_session-Owns uuid now q w = (
  omega arith,
  ground arith,
  rw (get-insert w.manager.sessions (id_of uuid q) _ (id_of uuid q), ==_refl (id_of uuid q)) refl,
)

-- After a session was created, in every history in which no other session is created under its id: a
-- session that is found under the id resolves each tool as the table of the request did when it
-- was created, whatever becomes of that table and of every other table but the new one that the
-- session was given.
pub run-resolve_backend :
    (uuid : String) (now : ℕ) (q : Request) (w : World) (es : List Event) (s : McpSession)
    (tool : String)
    → All (IsOther (id_of uuid q) w.tables.next) es
    → get (run (create_session uuid now q w).0 es).manager.sessions (id_of uuid q) ≡ some s
    → resolve_backend (run (create_session uuid now q w).0 es).tables tool s
      ≡ get (w.tables.cell q.routing_table) tool
unfolding resolve_backend Owns
run-resolve_backend uuid now q w es s tool o e =
    let w' = (create_session uuid now q w).0 in
    let (l, c, f) =
      run-Owns (id_of uuid q) w.tables.next (w.tables.cell q.routing_table) es w' o
        (create_session-Owns uuid now q w) in
    let same : s.routing_table ≡ w.tables.next = rw e at f in
    ap (λ t. get t tool) (ap (run w' es).tables.cell same ∙ c)
