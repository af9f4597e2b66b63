-- ===== src/Reload/Loops.antt =====
-- What each loop of `reload` makes of the slot of one backend.
use argus_mcp.Base.{
  ◌≡◌, refl, sym, subst, ◌∙◌, Bool, true, false, Bool-cases, inl, inr, String, Option, none, some,
  List, [], ◌∷◌, if◌then◌else◌, contains, text_keys, ◌==◌, Comparable,
}
use argus_mcp.Base.Dict.{Dict, get}
use argus_mcp.Diff.{BackendConfig}
use argus_mcp.Client.{Client, Connection, unbuilt, failed, connected}
use argus_mcp.Client.Slots.{
  slot, connect_slot, disconnect_slot, slot-start_backend_svr, slot-disconnect_one,
}
use argus_mcp.Reload.{
  ReloadError, Network, each, disconnect_backend, disconnect_found, connect, outcome, remove_turn,
  change_turn, add_turn,
}

if-same : {T : Type 0} (b : Bool) (v : T) → (if b then v else v) ≡ v
if-same true v = refl
if-same false v = refl

module _ {B T : Type 0} (look : B → String → T) (step : String → B → B) (f : String → T → T) where
  -- Each turn of a loop changes what it is for by `f`, and nothing else; turns that are repeated
  -- change nothing more.
  pub look-each :
      ((name : String) (b : B) (x : String)
        → look (step name b) x ≡ (if name == x then f x (look b x) else look b x))
      → ((x : String) (v : T) → f x (f x v) ≡ f x v)
      → (xs : List String) (b : B) (x : String)
      → look (each step xs b) x ≡ (if contains x xs then f x (look b x) else look b x)
  look-each h i [] b x = refl
  look-each h i (y ∷ ys) b x = look-each h i ys (step y b) x ∙ elim (Bool-cases (y == x)) [
    | inl e ↦ rw (h y b x, e, i x (look b x)) (if-same (contains x ys) (f x (look b x)))
    | inr e ↦ rw (h y b x, e) refl
  ]

module _ {S K : Type 0} where
  abbrev pub connect_to : Option (Connection S K) → Option S × Option K → Option S × Option K
  connect_to none v = v
  connect_to (some o) v = connect_slot o v

  connect_slot-twice :
      (o : Connection S K) (v : Option S × Option K)
      → connect_slot o (connect_slot o v) ≡ connect_slot o v
  connect_slot-twice (unbuilt m) v = refl
  connect_slot-twice (failed none r m) v = refl
  connect_slot-twice (failed (some k) r m) (s, _) = refl
  connect_slot-twice (connected k s) v = refl

  pub connect_to-twice :
      (o : Option (Connection S K)) (v : Option S × Option K)
      → connect_to o (connect_to o v) ≡ connect_to o v
  connect_to-twice none v = refl
  connect_to-twice (some o) v = connect_slot-twice o v

  pub disconnect_slot-twice :
      (v : Option S × Option K) → disconnect_slot (disconnect_slot v) ≡ disconnect_slot v
  disconnect_slot-twice (none, k) = refl
  disconnect_slot-twice (some s, k) = refl

  pub reconnect-twice :
      (o : Option (Connection S K)) (v : Option S × Option K)
      → connect_to o (disconnect_slot (connect_to o (disconnect_slot v)))
        ≡ connect_to o (disconnect_slot v)
  reconnect-twice none v = disconnect_slot-twice v
  reconnect-twice (some (unbuilt m)) v = disconnect_slot-twice v
  reconnect-twice (some (failed none r m)) v = disconnect_slot-twice v
  reconnect-twice (some (failed (some k) r m)) (none, _) = refl
  reconnect-twice (some (failed (some k) r m)) (some s, _) = refl
  reconnect-twice (some (connected k s)) v = refl

  pub slot-disconnect_backend :
      (name : String) (c : Client S K) (x : String)
      → slot (disconnect_backend name c) x
        ≡ (if name == x then disconnect_slot (slot c x) else slot c x)
  slot-disconnect_backend name c x = found (get c.sessions name) refl
    where
      found :
          (o : Option S)
          → get c.sessions name ≡ o
          → slot (disconnect_found name o c) x
            ≡ (if name == x then disconnect_slot (slot c x) else slot c x)
      found none e = elim (Bool-cases (name == x)) [
        | inr b ↦ rw b refl
        | inl b ↦
            rw (b, subst (λ n. get c.sessions n ≡ none) ((text_keys.equals_iff name x).0 b) e) refl
      ]
      found (some s) e = slot-disconnect_one name c x ∙ elim (Bool-cases (name == x)) [
        | inr b ↦ rw b refl
        | inl b ↦
            rw (b, subst (λ n. get c.sessions n ≡ some s) ((text_keys.equals_iff name x).0 b) e)
              refl
      ]

  pub slot-connect :
      (e : ReloadError) (name : String) (type : Option String) (o : Option (Connection S K))
      (p : Client S K × List ReloadError) (x : String)
      → slot (connect e name type o p).0 x
        ≡ (if name == x then connect_to o (slot p.0 x) else slot p.0 x)
  slot-connect e name type none p x = sym (if-same (name == x) (slot p.0 x))
  slot-connect e name type (some o) (c, errors) x = slot-start_backend_svr name _ o c x

module _ {V S K : Type 0} ⦃v : Comparable V⦄ (network : Network V S K) where
  abbrev pub of_client : Client S K × List ReloadError → String → Option S × Option K
  of_client p = slot p.0

  pub remove_turn-slot :
      (name : String) (p : Client S K × List ReloadError) (x : String)
      → of_client (remove_turn network name p) x
        ≡ (if name == x then disconnect_slot (of_client p x) else of_client p x)
  remove_turn-slot name (c, errors) x = slot-disconnect_backend name c x

  pub add_turn-slot :
      (new : Dict String (BackendConfig V)) (name : String) (p : Client S K × List ReloadError)
      (x : String)
      → of_client (add_turn network new name p) x ≡ (
          if name == x
          then connect_to (outcome network x (get new x)) (of_client p x)
          else of_client p x)
  add_turn-slot new name p x =
      slot-connect _ name _ (outcome network name (get new name)) p x
      ∙ elim (Bool-cases (name == x)) [
        | inr b ↦ rw b refl
        | inl b ↦ rw (b, (text_keys.equals_iff name x).0 b) refl
      ]

  pub change_turn-slot :
      (new : Dict String (BackendConfig V)) (name : String) (p : Client S K × List ReloadError)
      (x : String)
      → of_client (change_turn network new name p) x ≡ (
          if name == x
          then connect_to (outcome network x (get new x)) (disconnect_slot (of_client p x))
          else of_client p x)
  change_turn-slot new name (c, errors) x =
      slot-connect _ name _ (outcome network name (get new name))
        (disconnect_backend name c, errors) x
      ∙ elim (Bool-cases (name == x)) [
        | inr b ↦ rw (b, slot-disconnect_backend name c x, b) refl
        | inl b ↦
            rw (b, slot-disconnect_backend name c x, b, (text_keys.equals_iff name x).0 b) refl
      ]
