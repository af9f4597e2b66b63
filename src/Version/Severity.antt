-- ===== src/Version/Severity.antt =====
-- The severity of a drift against the first component that differs.
use argus_mcp.Base.{ℕ, ◌≡◌, some, ltb, arith, if◌then◌else◌}
use argus_mcp.Version.{DriftSeverity, current, patch, minor, major, classify}

-- The component of highest rank in which two versions differ decides: a drift of its severity if
-- the latest is above, and none if it is below or if no component differs.
abbrev pub first_difference : ℕ × (ℕ × ℕ) → ℕ × (ℕ × ℕ) → DriftSeverity
first_difference (a, (b, c)) (x, (y, z)) =
    if ltb a x
    then major
    else if ltb x a
    then current
    else if ltb b y
    then minor
    else if ltb y b
    then current
    else if ltb c z
    then patch
    else current

-- Of two versions that can be parsed, the severity is that of the highest component in which they
-- differ, and there is no drift where the running version is the latest or above it.
pub classify-first_difference :
    (v w : ℕ × (ℕ × ℕ)) → classify (some v) (some w) ≡ first_difference v w
unfolding classify
classify-first_difference (a, (b, c)) (x, (y, z)) = ground arith
