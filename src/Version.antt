-- ===== src/Version.antt =====
-- argus_mcp/bridge/version_checker.py: versions, their comparison, and the check of the
-- capabilities. A version is its characters, by their codes; which of them are digits and blanks
-- is Python's, and what the registry knows is a function of the name.
pub mod Parsing
pub mod Severity
mod Tests
use argus_mcp.Base.{
  ℕ, zero, suc, ◌+◌, ◌-◌, ◌*◌, Bool, true, false, String, Option, none, some, List, [], ◌∷◌, ◌++◌,
  ◌&&◌, ◌||◌, not, leb, ltb, eqb, length, if◌then◌else◌, text_keys, ◌==◌,
}
use argus_mcp.Base.Dict.{Dict}

pub data DriftSeverity : Type 0 where
  current patch minor major unknown : DriftSeverity

abbrev pub Text : Type 0
Text = List ℕ

-- What `str` and `re` know of characters: `digit c` is the value of a decimal digit, as `\d` and `int`
-- take it, and `blank c` is whether `strip` drops the character. `int` raises a ValueError on more
-- digits than `max_str_digits`.
pub record Characters : Type 0 where
  pub digit : ℕ → Option ℕ
  pub blank : ℕ → Bool
  pub max_str_digits : ℕ

-- `strip`; what follows the version does not matter to the match.
abbrev pub strip : (ℕ → Bool) → Text → Text
strip blank [] = []
strip blank (c ∷ cs) = let rest = strip blank cs in if blank c then rest else c ∷ cs

-- `v?`
abbrev pub skip_v : Text → Text
skip_v [] = []
skip_v (c ∷ cs) = if eqb c 118 then cs else c ∷ cs

-- The values of the digits at the front, and what follows them.
abbrev pub digits : (ℕ → Option ℕ) → Text → List ℕ × Text
digits digit [] = ([], [])
digits digit (c ∷ cs) =
    let rest = digits digit cs in
    elim (digit c) [ none ↦ ([], c ∷ cs) | some d ↦ (d ∷ rest.0, rest.1) ]

-- `(\d+)`
abbrev pub some_digits : List ℕ × Text → Option (List ℕ × Text)
some_digits ([], rest) = none
some_digits (d ∷ ds, rest) = some (d ∷ ds, rest)

-- `\.`
abbrev pub dot : Text → Option Text
dot [] = none
dot (c ∷ cs) = if eqb c 46 then some cs else none

abbrev pub after {ℓ κ} : {A : Type ℓ} {B : Type κ} → Option A → (A → Option B) → Option B
after none k = none
after (some a) k = k a

-- `_SEMVER_RE` is `^v?(\d+)\.(\d+)\.(\d+)`: the digits of the three groups.
abbrev pub match_semver : (ℕ → Option ℕ) → Text → Option (List ℕ × (List ℕ × List ℕ))
match_semver digit cs = after (some_digits (digits digit cs)) λ a. after (dot a.1) λ s.
    after (some_digits (digits digit s))
      λ b. after (dot b.1) λ t. after (some_digits (digits digit t)) λ c. some (a.0, (b.0, c.0))

-- The number of some digits, after a number.
abbrev pub value : ℕ → List ℕ → ℕ
value n [] = n
value n (d ∷ ds) = value (10 * n + d) ds

-- `int(group)`, `none` for its ValueError.
abbrev pub int : ℕ → List ℕ → Option ℕ
int limit ds = if ltb limit (length ds) then none else some (value 0 ds)

abbrev pub numbers : ℕ → Option (List ℕ × (List ℕ × List ℕ)) → Option (Option (ℕ × (ℕ × ℕ)))
numbers limit none = some none
numbers limit (some (a, (b, c))) =
    after (int limit a)
      λ x. after (int limit b) λ y. after (int limit c) λ z. some (some (x, (y, z)))

-- `none` is the ValueError of `int`, `some none` the None of a version that does not match.
unfoldable pub parse_semver : Characters → Text → Option (Option (ℕ × (ℕ × ℕ)))
parse_semver ch version =
    numbers ch.max_str_digits (match_semver ch.digit (skip_v (strip ch.blank version)))

-- `>=` on tuples
abbrev pub at_least : ℕ × (ℕ × ℕ) → ℕ × (ℕ × ℕ) → Bool
at_least (a, (b, c)) (x, (y, z)) =
    if eqb a x then (if eqb b y then leb z c else ltb y b) else ltb x a

-- `classify_drift` of parsed versions.
unfoldable pub classify : Option (ℕ × (ℕ × ℕ)) → Option (ℕ × (ℕ × ℕ)) → DriftSeverity
classify (some (a, (b, c))) (some (x, (y, z))) =
    if at_least (a, (b, c)) (x, (y, z))
    then current
    else if ltb a x
    then major
    else if ltb b y
    then minor
    else patch
classify _ _ = unknown

-- `none` where `int` raises.
unfoldable pub classify_drift : Characters → Text → Text → Option DriftSeverity
unfolding parse_semver classify
classify_drift ch cur lat =
    after (parse_semver ch cur) λ c. after (parse_semver ch lat) λ l. some (classify c l)

pub record DriftResult : Type 0 where
  pub name : String
  pub current_version : Text
  pub latest_version : Text
  pub severity : DriftSeverity
  pub backend : String

-- A missing version or backend is the empty one.
pub record Info : Type 0 where
  pub version : Text
  pub backend : String

abbrev pub result_of : String → Info → Text → DriftSeverity → DriftResult
result_of name info latest severity = record {
  name = name;
  current_version = info.version;
  latest_version = latest;
  severity = severity;
  backend = info.backend;
}

-- What follows the look-up of one capability in `check_all`.
abbrev pub found :
    Characters → String → Info → Option Text → Option (List DriftResult) → Option (List DriftResult)
found ch name info none rest = rest
found ch name info (some []) rest = rest
found ch name info (some (c ∷ cs)) rest =
    after (classify_drift ch info.version (c ∷ cs))
      λ severity. after rest λ results. some (result_of name info (c ∷ cs) severity ∷ results)

-- `_get_latest_version` is `none` where the registry is not there, fails, or has no version. A
-- ValueError, `none`, ends the check.
unfoldable pub check_all :
    Characters → (String → Option Text) → Dict String Info → Option (List DriftResult)
unfolding classify_drift
check_all ch latest [] = some []
check_all ch latest ((name, info) ∷ rest) =
    let results = check_all ch latest rest in
    elim info.version [ [] ↦ results | c ∷ cs ↦ found ch name info (latest name) results ]
