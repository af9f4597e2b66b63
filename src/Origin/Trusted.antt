-- ===== src/Origin/Trusted.antt =====
-- What a request to a transport path has when it is let through.
use argus_mcp.Base.{
  ◌≡◌, ◌≢◌, ◌⊎◌, inl, inr, refl, sym, ◌∙◌, true, false, Bool-cases, String, Option, none, some,
  contains, text_keys, ◌==◌,
}
use argus_mcp.Origin.{
  OriginValidation, Scope, forwarded, missing_origin, disallowed_origin, is_mcp_path, origin_of,
  is_localhost_origin, wildcard, with_origin, check_origin, call,
}

module _ (lower : String → String) (hostname : String → Option String) (v : OriginValidation) where
  -- The origin is that of the local host, or one of the configured ones.
  abbrev pub Trusted : String → Type 0
  Trusted origin =
      (is_localhost_origin lower hostname v (lower origin) ≡ true)
      ⊎ (contains (lower origin) v.allowed_origins ≡ true)

  with_origin-Trusted :
      (o : String)
      → wildcard lower hostname v ≡ false
      → with_origin lower hostname v o ≡ forwarded
      → Trusted o
  with_origin-Trusted o w e = elim (Bool-cases (is_localhost_origin lower hostname v (lower o))) [
    | inl b ↦ inl b
    | inr b ↦ elim (Bool-cases (contains (lower o) v.allowed_origins)) [
      | inl c ↦ inr c
      | inr c ↦
          let q : with_origin lower hostname v o ≡ disallowed_origin o = rw (b, w, c) refl in
          absurd (cc)
    ]
  ]

  check_origin-Trusted :
      (o : Option String)
      → (v.require_origin == "strict") ≡ true
      → wildcard lower hostname v ≡ false
      → check_origin lower hostname v o ≡ forwarded
      → (origin : String) × ((o ≡ some origin) × (origin ≢ "") × Trusted origin)
  check_origin-Trusted none r w e =
      let q : check_origin lower hostname v none ≡ missing_origin = rw r refl in absurd (cc)
  check_origin-Trusted (some o) r w e = elim (Bool-cases (o == "")) [
    | inl b ↦
        let q : check_origin lower hostname v (some o) ≡ missing_origin = rw (b, r) refl in
        absurd (cc)
    | inr b ↦
        let q : check_origin lower hostname v (some o) ≡ with_origin lower hostname v o =
          rw b refl in
        (
          o,
          (
            refl,
            (λ n. let k = (text_keys.equals_iff o "").1 n in absurd (cc)),
            with_origin-Trusted o w (sym q ∙ e),
          ),
        )
  ]

  -- In strict mode and without the wildcard, a request to a transport path that is let through has an
  -- Origin header that is not empty, and whose origin is that of the local host or one of those
  -- that are configured.
  pub call-Trusted :
      (scope : Scope)
      → scope.type ≡ "http"
      → is_mcp_path scope.path ≡ true
      → v.require_origin ≡ "strict"
      → wildcard lower hostname v ≡ false
      → call lower hostname v scope ≡ forwarded
      → (origin : String) × ((origin_of scope.headers ≡ some origin)
          × (origin ≢ "")
          × Trusted origin)
  unfolding call
  call-Trusted scope t p r w e =
      let q : call lower hostname v scope
          ≡ check_origin lower hostname v (origin_of scope.headers) =
        rw (t, p) refl in
      check_origin-Trusted (origin_of scope.headers)
        ((text_keys.equals_iff v.require_origin "strict").1 r) w (sym q ∙ e)
