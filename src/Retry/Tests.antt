-- ===== src/Retry/Tests.antt =====
-- A request that is answered at the third attempt.
use argus_mcp.Base.{ℕ, zero, suc, ◌+◌, ◌≤◌, ◌≡◌, refl, [], ◌∷◌, All}
use argus_mcp.Retry.{Answer, status_code, transport_error, response, execute, attempts, turn, is_in}
use argus_mcp.Retry.Attempts.{Retried, Decides, decided, from, execute-decided}

abbrev answers : ℕ → Answer
answers zero = status_code 200
answers (suc zero) = status_code 503
answers (suc (suc zero)) = transport_error "reset"
answers n = status_code 200

third : execute 3 answers ≡ record { outcome = response 200; requests = 3; waits = 1 ∷ 2 ∷ [] }
unfolding execute attempts turn is_in
third = refl

execute-decided_example :
    (k : ℕ) × ((k ≤ 3)
      × (All (Retried 3 answers) (from k 1))
      × (Decides 3 answers (1 + k))
      × (execute 3 answers ≡ decided 3 answers k 1))
execute-decided_example = execute-decided 3 answers
