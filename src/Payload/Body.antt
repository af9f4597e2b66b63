-- ===== src/Payload/Body.antt =====
-- What the buffering of a body comes to.
use argus_mcp.Base.{
  ℕ, zero, suc, ◌≤◌, ◌≡◌, refl, sym, subst, ◌∙◌, Bool, true, false, String, Option, none, some, inl,
  inr, ◌⊎◌, List, [], ◌∷◌, ◌++◌, not, ◌&&◌, ◌||◌, any, length, length-append, ltb, if◌then◌else◌,
  text_keys, ◌==◌, arith,
}
use mathlib.Core.List.{append-nil, append_assoc}
use argus_mcp.Payload.{
  Json, PayloadLimitsConfig, Message, request, other, Scope, Buffered, too_large, complete,
  unfinished, passed_through, bad_request, replayed, waits, buffer, has_no_body, is_json_content,
  too_deep, decide, call,
}
use argus_mcp.Payload.Depth.{depth, check_json_depth-depth}

module _ {B : Type 0} where
  -- The last chunk of a body.
  abbrev pub is_last : Message B → Bool
  is_last (request chunk more) = not more
  is_last (other type) = false

  -- The chunks of some messages, one after the other.
  abbrev pub body_of : List (Message B) → List B
  body_of [] = []
  body_of (request chunk more ∷ ms) = chunk ++ body_of ms
  body_of (other type ∷ ms) = body_of ms

  abbrev pub disconnects : ℕ → List (Message B)
  disconnects zero = []
  disconnects (suc n) = other "http.disconnect" ∷ disconnects n

  fits : (limit : ℕ) (xs ys : List B) → length (xs ++ ys) ≤ limit → ltb limit (length xs) ≡ false
  fits limit xs ys h = let e = length-append xs ys in ground (arith, h, e)

  run_on :
      (limit : ℕ) (body : List B) (ms rest : List (Message B))
      → any is_last ms ≡ false
      → length (body ++ body_of ms) ≤ limit
      → buffer limit body (ms ++ rest) ≡ buffer limit (body ++ body_of ms) rest
  unfolding buffer
  run_on limit body [] rest h k = rw (append-nil body) refl
  run_on limit body (other type ∷ ms) rest h k = run_on limit body ms rest h k
  run_on limit body (request chunk false ∷ ms) rest h k = absurd (cc)
  run_on limit body (request chunk true ∷ ms) rest h k =
      let e = append_assoc body chunk (body_of ms) in
      let k' : length ((body ++ chunk) ++ body_of ms) ≤ limit =
        subst (λ xs. length xs ≤ limit) (sym e) k in
      rw (fits limit (body ++ chunk) (body_of ms) k', sym e)
        (run_on limit (body ++ chunk) ms rest h k')

  -- Nothing more of a body comes with messages that are all disconnects.
  still_unfinished :
      (limit : ℕ) (body : List B) (n : ℕ) → buffer limit body (disconnects n) ≡ unfinished body
  unfolding buffer
  still_unfinished limit body zero = refl
  still_unfinished limit body (suc n) = still_unfinished limit body n

  -- After the last chunk, the loop ends with all the chunks in their order, and reads no further
  -- message; it ends with the size where that is above the limit.
  pub buffer-last :
      (limit : ℕ) (ms rest : List (Message B)) (chunk : List B)
      → any is_last ms ≡ false
      → length (body_of ms) ≤ limit
      → buffer limit [] (ms ++ request chunk false ∷ rest) ≡ (
          if ltb limit (length (body_of ms ++ chunk))
          then too_large (length (body_of ms ++ chunk))
          else complete (body_of ms ++ chunk))
  unfolding buffer
  buffer-last limit ms rest chunk h k = run_on limit [] ms (request chunk false ∷ rest) h k

  -- The body that is buffered is never above the limit.
  buffer-bounds :
      (limit : ℕ) (body : List B) (ms : List (Message B)) (full : List B)
      → buffer limit body ms ≡ complete full
      → length full ≤ limit
  unfolding buffer
  buffer-bounds limit body [] full e = absurd (cc)
  buffer-bounds limit body (other type ∷ ms) full e = buffer-bounds limit body ms full e
  buffer-bounds limit body (request chunk more ∷ ms) full e =
      turn (buffer-bounds limit (body ++ chunk) ms full) (ltb limit (length (body ++ chunk))) more
        refl e
    where
      turn :
          (buffer limit (body ++ chunk) ms ≡ complete full → length full ≤ limit)
          → (above more : Bool) → ltb limit (length (body ++ chunk)) ≡ above
          → (if above
              then too_large (length (body ++ chunk))
              else if more
              then buffer limit (body ++ chunk) ms
              else complete (body ++ chunk))
            ≡ complete full
          → length full ≤ limit
      turn ih true more q e = absurd (cc)
      turn ih false true q e = ih e
      turn ih false false q e =
          let p : body ++ chunk ≡ full = cc in subst (λ xs. length xs ≤ limit) p (ground (arith, q))

  module _ (upper : String → String) (mentions_json : String → Bool) (parse : List B → Option Json)
      (c : PayloadLimitsConfig) where
    -- A client that disconnects before the last chunk, within the limit, keeps the middleware in its
    -- loop: after any number of messages that all report the disconnection it is still waiting, and
    -- it has neither answered nor called the application.
    pub call-disconnects :
        (scope : Scope) (ms : List (Message B)) (n : ℕ)
        → scope.type ≡ "http"
        → c.enabled ≡ true
        → has_no_body (upper scope.method) ≡ false
        → any is_last ms ≡ false
        → length (body_of ms) ≤ c.max_body_bytes
        → call upper mentions_json parse c scope (ms ++ disconnects n) ≡ waits
    unfolding call
    call-disconnects scope ms n t y m h k =
        let e =
          run_on c.max_body_bytes [] ms (disconnects n) h k
          ∙ still_unfinished c.max_body_bytes (body_of ms) n in
        rw (t, y, m, e) refl

    -- What is known of a body that is replayed: its size, and its depth where it is JSON that parses.
    abbrev pub Within : Scope → List B → Type 0
    Within scope body =
        (length body ≤ c.max_body_bytes)
        × ((body ≡ [])
            ⊎ (is_json_content mentions_json scope.headers ≡ false)
            ⊎ (parse body ≡ none)
            ⊎ ((parsed : Json) × (parse body ≡ some parsed) × (depth parsed ≤ c.max_json_depth)))

    depths :
        (scope : Scope) (full : List B) (is_json : Bool) (o : Option Json)
        → is_json_content mentions_json scope.headers ≡ is_json
        → parse full ≡ o
        → length full ≤ c.max_body_bytes
        → (is_json && too_deep upper mentions_json parse c o) ≡ false
        → Within scope full
    depths scope full false o j p k d = (k, inr (inl j))
    depths scope full true none j p k d = (k, inr (inr (inl p)))
    depths scope full true (some parsed) j p k d =
        let l = sym (check_json_depth-depth parsed c.max_json_depth 0) ∙ d in
        (k, inr (inr (inr (parsed, p, ground (arith, l)))))

    is_replayed :
        (deep : Bool) (full body : List B)
        → (if deep then bad_request else replayed full) ≡ replayed body
        → (full ≡ body) × (deep ≡ false)
    is_replayed true full body e = absurd (cc)
    is_replayed false full body e = (cc, refl)

    decide-Within :
        (scope : Scope) (r : Buffered B) (body : List B)
        → ((full : List B) → r ≡ complete full → length full ≤ c.max_body_bytes)
        → decide upper mentions_json parse c scope r ≡ replayed body
        → Within scope body
    decide-Within scope (too_large n) body k e = absurd (cc)
    decide-Within scope (unfinished b) body k e = absurd (cc)
    decide-Within scope (complete []) body k e =
        let q : [] ≡ body = cc in subst (Within scope) q (k [] refl, inl refl)
    decide-Within scope (complete (b ∷ full)) body k e =
        let q = is_replayed _ (b ∷ full) body e in
        subst (Within scope) q.0 (
          depths scope (b ∷ full) (is_json_content mentions_json scope.headers) (parse (b ∷ full))
            refl refl (k (b ∷ full) refl) q.1)

    -- A request whose body the middleware has read reaches the application only with a body within the
    -- limit of bytes, whatever its content; and unless the body is empty, its content type is not
    -- JSON or the JSON does not parse, only with a depth within the limit of depth.
    pub call-replayed :
        (scope : Scope) (ms : List (Message B)) (body : List B)
        → call upper mentions_json parse c scope ms ≡ replayed body
        → (length body ≤ c.max_body_bytes)
          × ((body ≡ [])
              ⊎ (is_json_content mentions_json scope.headers ≡ false)
              ⊎ (parse body ≡ none)
              ⊎ ((parsed : Json) × (parse body ≡ some parsed) × (depth parsed ≤ c.max_json_depth)))
    unfolding call
    call-replayed scope ms body e =
        guards (not (scope.type == "http") || not c.enabled) (has_no_body (upper scope.method)) e
      where
        guards :
            (first second : Bool)
            → (if first
                then passed_through
                else if second
                then passed_through
                else decide upper mentions_json parse c scope (buffer c.max_body_bytes [] ms))
              ≡ replayed body
            → Within scope body
        guards true second e = absurd (cc)
        guards false true e = absurd (cc)
        guards false false e =
            decide-Within scope (buffer c.max_body_bytes [] ms) body
              (buffer-bounds c.max_body_bytes [] ms) e
