-- ===== src/RateLimit/Backend.antt =====
-- common/rate_limit_backend.py
use numi_dba_agent.Common.{ℕ, ◌+◌, ◌*◌, Bool, Option, none, some, leb, Eq, if◌then◌else◌}
use numi_dba_agent.Common.Dict
use numi_dba_agent.Common.Dict.{Dict}

-- `increment_and_check key limit window_seconds now`, on the backend's state `B`
pub record RateLimitBackend (K B : Type 0) : Type 0 where
  pub increment_and_check : K → ℕ → ℕ → ℕ → B → Bool × B

abbrev pub microseconds : ℕ
microseconds = 1000000

-- key -> (count, window_start)
abbrev pub Buckets : Type 0 → Type 0
Buckets K = Dict K (ℕ × ℕ)

-- `_buckets.get(key, (0, now))`, with a window that is over replaced by a new one
unfoldable pub current_bucket : Option (ℕ × ℕ) → ℕ → ℕ → ℕ × ℕ
current_bucket none window_seconds now = (0, now)
current_bucket (some (count, window_start)) window_seconds now =
    if leb (window_start + window_seconds * microseconds) now
    then (0, now)
    else (count, window_start)

module _ {K : Type 0} ⦃e : Eq K⦄ where
  -- `InMemoryRateLimitBackend`
  unfoldable pub increment_and_check : K → ℕ → ℕ → ℕ → Buckets K → Bool × Buckets K
  unfolding current_bucket
  increment_and_check key limit window_seconds now buckets =
      let b = current_bucket (Dict.get buckets key) window_seconds now in
      (leb (b.0 + 1) limit, Dict.set buckets key (b.0 + 1, b.1))

  unfoldable pub in_memory : RateLimitBackend K (Buckets K)
  unfolding increment_and_check
  in_memory = record { increment_and_check = increment_and_check }
