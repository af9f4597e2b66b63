-- ===== src/Version/Tests.antt =====
-- Versions and their drift, with the ASCII digits and blanks, and a limit of three digits.
use argus_mcp.Base.{
  ℕ, ◌+◌, ◌-◌, ◌<◌, ◌≡◌, refl, Bool, false, Option, none, some, [], ◌∷◌, ◌&&◌, ◌||◌, eqb, leb,
  length, ltb, arith, if◌then◌else◌,
}
use argus_mcp.Version.{Text, Characters, minor, parse_semver, classify, classify_drift}
use argus_mcp.Version.Parsing.{decimal, written, parse_semver-written}

abbrev ascii_digit : ℕ → Option ℕ
ascii_digit c = if leb 48 c && leb c 57 then some (c - 48) else none

abbrev ascii_blank : ℕ → Bool
ascii_blank c = eqb c 32 || (leb 9 c && leb c 13)

abbrev characters : Characters
characters = record { digit = ascii_digit; blank = ascii_blank; max_str_digits = 3 }

ascii_digit-value : (d : ℕ) → d < 10 → ascii_digit (48 + d) ≡ some d
ascii_digit-value d h = let e : (48 + d) - 48 ≡ d = omega arith in rw e (ground (arith, h))

ascii_blank-digit : (d : ℕ) → d < 10 → ascii_blank (48 + d) ≡ false
ascii_blank-digit d h = ground (arith, h)

-- "-rc"
abbrev suffix : Text
suffix = 45 ∷ 114 ∷ 99 ∷ []

parse_semver-written_example : parse_semver characters (written 12 0 345 suffix) ≡ (
    if ltb 3 (length (decimal 12 12))
      || (ltb 3 (length (decimal 0 0)) || ltb 3 (length (decimal 345 345)))
    then none
    else some (some (12, (0, 345))))
parse_semver-written_example =
    parse_semver-written characters ascii_digit-value refl ascii_blank-digit 12 0 345 suffix refl

too_long : parse_semver characters (written 1 1000 0 []) ≡ none
unfolding parse_semver
too_long = refl

drifted : classify_drift characters (written 1 9 0 suffix) (written 1 10 0 []) ≡ some minor
unfolding classify_drift parse_semver classify
drifted = refl
