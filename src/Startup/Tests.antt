-- ===== src/Startup/Tests.antt =====
-- Two backends that fail at first: one opens at its second retry, the other never.
use argus_mcp.Base.{
  ℕ, ◌≤◌, ◌≡◌, refl, Bool, false, String, none, some, List, [], ◌∷◌, length, text_keys, ◌==◌, eqb,
  ◌&&◌,
}
use argus_mcp.Base.Dict.{Dict, get}
use argus_mcp.Startup.{
  StartConfig, sort_backends, retry_failed_backends, retry_attempts, retries_of,
}
use argus_mcp.Startup.Alone.{attempts_of, Distinct, retry_failed_backends-alone}

abbrev config : Dict String StartConfig
config =
    ("files", record { type = some "stdio"; retries = some 1 })
    ∷ ("wiki", record { type = some "sse"; retries = none })
    ∷ ("mail", record { type = some "streamable-http"; retries = none })
    ∷ []

abbrev opens : String → ℕ → Bool
opens name attempt = name == "wiki" && eqb attempt 2

abbrev running : ℕ → Bool
running attempt = false

abbrev failed : List String
failed = "wiki" ∷ "files" ∷ []

fast_first :
    (sort_backends config).0
    ≡ ("mail", record { type = some "streamable-http"; retries = none })
      ∷ ("wiki", record { type = some "sse"; retries = none })
      ∷ []
unfolding sort_backends
fast_first = refl

retried :
    retry_failed_backends config opens running failed
    ≡ record { starts = ("wiki", 1) ∷ ("files", 1) ∷ ("wiki", 2) ∷ []; failed_names = "files" ∷ [] }
unfolding retry_failed_backends retry_attempts get
retried = refl

failed-Distinct : Distinct failed
failed-Distinct = (refl, (refl, tt))

retry_failed_backends-alone_example :
    (attempts_of "wiki" (retry_failed_backends config opens running failed).starts
      ≡ attempts_of "wiki" (retry_failed_backends config opens running ("wiki" ∷ [])).starts)
    × (length (attempts_of "wiki" (retry_failed_backends config opens running failed).starts)
        ≤ retries_of (get config "wiki"))
retry_failed_backends-alone_example =
    retry_failed_backends-alone config opens running failed "wiki" refl failed-Distinct
