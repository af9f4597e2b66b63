-- ===== src/Version/Parsing.antt =====
-- Versions that are written out are read back.
use argus_mcp.Base.{
  ℕ, eqb, zero, suc, ◌+◌, ◌*◌, ◌/◌, ◌%◌, ◌≤◌, ◌<◌, ◌≡◌, refl, ap, ◌∙◌, false, Bool-cases, inl, inr,
  none, some, List, [], ◌∷◌, ◌++◌, map, All, append-All, ◌||◌, length, ltb, ltb→lt, arith,
  if◌then◌else◌,
}
use argus_mcp.Version.{
  Text, Characters, digits, some_digits, strip, skip_v, match_semver, value, numbers, parse_semver,
}

-- The decimal digits of a number, with fuel for their count.
abbrev pub decimal : ℕ → ℕ → List ℕ
decimal zero n = n % 10 ∷ []
decimal (suc fuel) n = if ltb n 10 then n ∷ [] else decimal fuel (n / 10) ++ n % 10 ∷ []

-- Digits in ASCII.
abbrev pub ascii : List ℕ → Text
ascii = map (λ d. 48 + d)

-- A version as it is written, with something after it.
abbrev pub written : ℕ → ℕ → ℕ → Text → Text
written a b c rest =
    ascii (decimal a a) ++ 46 ∷ (ascii (decimal b b) ++ 46 ∷ (ascii (decimal c c) ++ rest))

value-snoc : (ds : List ℕ) (n d : ℕ) → value n (ds ++ d ∷ []) ≡ 10 * value n ds + d
value-snoc [] n d = refl
value-snoc (x ∷ ds) n d = value-snoc ds (10 * n + x) d

value-decimal : (fuel n : ℕ) → n ≤ fuel → value 0 (decimal fuel n) ≡ n
value-decimal zero n h = omega (arith, h)
value-decimal (suc fuel) n h = elim (Bool-cases (ltb n 10)) [
  | inl b ↦ rw b (omega arith)
  | inr b ↦
      let few : n / 10 ≤ fuel = omega (arith, h) in
      rw (b, value-snoc (decimal fuel (n / 10)) 0 (n % 10), value-decimal fuel (n / 10) few)
        (omega arith)
]

decimal-digits : (fuel n : ℕ) → All (λ d. d < 10) (decimal fuel n)
decimal-digits zero n = (omega arith, tt)
decimal-digits (suc fuel) n = elim (Bool-cases (ltb n 10)) [
  | inl b ↦ rw b (ltb→lt n 10 b, tt)
  | inr b ↦ rw b (
      append-All (λ d. d < 10) (decimal fuel (n / 10)) (n % 10 ∷ [])
        (decimal-digits fuel (n / 10), (omega arith, tt)))
]

-- The first digit and the others.
Front : List ℕ → Type 0
Front ds = (d : ℕ) × (rest : List ℕ) × (ds ≡ d ∷ rest) × (d < 10)

decimal-Front : (fuel n : ℕ) → Front (decimal fuel n)
unfolding Front
decimal-Front zero n = (n % 10, [], refl, omega arith)
decimal-Front (suc fuel) n = elim (Bool-cases (ltb n 10)) [
  | inl b ↦ rw b (n, [], refl, ltb→lt n 10 b)
  | inr b ↦
      let (d, rest, e, l) = decimal-Front fuel (n / 10) in
      rw (b, e) (d, rest ++ n % 10 ∷ [], refl, l)
]

module _ (ch : Characters) (ascii_digit : (d : ℕ) → d < 10 → ch.digit (48 + d) ≡ some d)
    (dot_none : ch.digit 46 ≡ none) (no_blank : (d : ℕ) → d < 10 → ch.blank (48 + d) ≡ false) where
  -- The next character is no digit.
  abbrev pub Ends : Text → Type 0
  Ends [] = Unit
  Ends (c ∷ cs) = ch.digit c ≡ none

  digits-ascii :
      (ds : List ℕ) (rest : Text)
      → All (λ d. d < 10) ds
      → Ends rest
      → digits ch.digit (ascii ds ++ rest) ≡ (ds, rest)
  digits-ascii [] [] h e = refl
  digits-ascii [] (c ∷ cs) h e = rw e refl
  digits-ascii (d ∷ ds) rest h e = rw (ascii_digit d h.0, digits-ascii ds rest h.1 e) refl

  some_digits-ascii :
      (n : ℕ) (rest : Text)
      → Ends rest
      → some_digits (digits ch.digit (ascii (decimal n n) ++ rest)) ≡ some (decimal n n, rest)
  unfolding Front
  some_digits-ascii n rest e =
      let (d, ds, q, l) = decimal-Front n n in
      ap some_digits (digits-ascii (decimal n n) rest (decimal-digits n n) e) ∙ rw q refl

  match-written :
      (a b c : ℕ) (rest : Text)
      → Ends rest
      → match_semver ch.digit (written a b c rest) ≡ some (decimal a a, (decimal b b, decimal c c))
  match-written a b c rest e =
      rw
        (
          some_digits-ascii a (46 ∷ (ascii (decimal b b) ++ 46 ∷ (ascii (decimal c c) ++ rest)))
              dot_none,
          some_digits-ascii b (46 ∷ (ascii (decimal c c) ++ rest)) dot_none,
          some_digits-ascii c rest e,
        )
        refl

  bare :
      (ds : List ℕ) (rest : Text)
      → Front ds
      → skip_v (strip ch.blank (ascii ds ++ rest)) ≡ ascii ds ++ rest
  unfolding Front
  bare ds rest (d, more, e, l) =
      let q : eqb (48 + d) 118 ≡ false = ground (arith, l) in rw (e, no_blank d l, q) refl

  read_back :
      (limit a b c : ℕ)
      → numbers limit (some (decimal a a, (decimal b b, decimal c c))) ≡ (
          if ltb limit (length (decimal a a))
            || (ltb limit (length (decimal b b)) || ltb limit (length (decimal c c)))
          then none
          else some (some (a, (b, c))))
  read_back limit a b c =
      let va = value-decimal a a (omega arith) in
      let vb = value-decimal b b (omega arith) in
      let vc = value-decimal c c (omega arith) in
      elim (Bool-cases (ltb limit (length (decimal a a)))) [
        | inl p ↦ rw p refl
        | inr p ↦ elim (Bool-cases (ltb limit (length (decimal b b)))) [
          | inl q ↦ rw (p, q) refl
          | inr q ↦ elim (Bool-cases (ltb limit (length (decimal c c)))) [
            | inl r ↦ rw (p, q, r) refl
            | inr r ↦ rw (p, q, r, va, vb, vc) refl
          ]
        ]
      ]

  -- Round trip: a version that is written with its three numbers in ASCII decimal, whatever follows it
  -- that does not start with a digit, is read as those three numbers, unless one of them has more
  -- digits than `int` takes: then the parser raises the ValueError. Of the characters it is used
  -- that the ASCII digits have their values and are no blanks, and that the dot is no digit.
  pub parse_semver-written :
      (a b c : ℕ) (rest : Text)
      → Ends rest
      → parse_semver ch (written a b c rest) ≡ (
          if ltb ch.max_str_digits (length (decimal a a))
            || (ltb ch.max_str_digits (length (decimal b b))
                || ltb ch.max_str_digits (length (decimal c c)))
          then none
          else some (some (a, (b, c))))
  unfolding parse_semver
  parse_semver-written a b c rest e =
      let text = 46 ∷ (ascii (decimal b b) ++ 46 ∷ (ascii (decimal c c) ++ rest)) in
      ap (λ t. numbers ch.max_str_digits (match_semver ch.digit t))
        (bare (decimal a a) text (decimal-Front a a))
      ∙ (ap (numbers ch.max_str_digits) (match-written a b c rest e)
          ∙ read_back ch.max_str_digits a b c)
