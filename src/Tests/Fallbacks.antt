-- ===== src/Tests/Fallbacks.antt =====
-- Two providers of a language model, the first of which is down. The world is the clock.
use numi_dba_agent.Common.{ℕ, ◌+◌, ◌≤◌, [], ◌∷◌, refl, All, arith}
use numi_dba_agent.Common.Exec.{ok, err}
use numi_dba_agent.Agent.Fallback.{Candidate, unavailable, overall_deadline, walk}
use numi_dba_agent.Agent.Fallback.Deadline.{IsPunctual, walk-le}
use numi_dba_agent.Agent.Fallback.Order.{Answered, walk-Answered}

abbrev clock : ℕ → ℕ
clock w = w

abbrev down : Candidate ℕ ℕ
down = record {
  name = "gemini";
  build = λ w. (ok tt, w);
  call = λ limit w. (err unavailable, w + limit);
}

abbrev up : Candidate ℕ ℕ
up = record { name = "anthropic"; build = λ w. (ok tt, w); call = λ limit w. (ok 7, w) }

both-IsPunctual : All (IsPunctual clock) (down ∷ up ∷ [])
both-IsPunctual = (
  record { builds = λ w. refl; later = λ limit w. omega arith; within = λ limit w. omega arith },
  (
    record { builds = λ w. refl; later = λ limit w. omega arith; within = λ limit w. omega arith },
    tt,
  ),
)

walk-le_example :
    clock (walk clock overall_deadline (down ∷ up ∷ []) [] 100).2 ≤ 100 + overall_deadline
walk-le_example = walk-le clock overall_deadline (down ∷ up ∷ []) [] 100 both-IsPunctual

walk-Answered_example :
    Answered (down ∷ up ∷ []) [] [] (walk clock overall_deadline (down ∷ up ∷ []) [] 100)
walk-Answered_example = walk-Answered clock overall_deadline (down ∷ up ∷ []) [] 100
