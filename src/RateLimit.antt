-- ===== src/RateLimit.antt =====
-- gateway/domain/rate_limiter.py over the backends of common/rate_limit_backend.py.
pub mod Backend
pub mod Window
pub mod Cooldown
use numi_dba_agent.Common.{ℕ, String, Bool, true, false, ◌||◌, List, [], ◌∷◌, ◌==◌, if◌then◌else◌}
use numi_dba_agent.Common.Exec.{Exec, pure, raise, ok, err}
use numi_dba_agent.Models.Failures.{Error, numi_error, rate_limited}
use numi_dba_agent.Models.Target.{Environment, environment_value}
use numi_dba_agent.Models.Tool.{OperationType, write, privileged, operation_type_eq}
use numi_dba_agent.RateLimit.Backend.{RateLimitBackend}

pub data Tier : Type 0 where
  read_tier write_tier critical_tier : Tier

pub record Limits : Type 0 where
  pub per_user_per_minute : ℕ
  pub per_conversation_per_minute : ℕ
  pub per_tool_per_minute : ℕ
  pub per_database_per_minute : ℕ
  pub per_environment_per_minute : ℕ

-- a bucket's key, `rl:<tier>:<dimension>:<name>`
pub record Key : Type 0 where
  pub tier : Tier
  pub dimension : String
  pub name : String

unfoldable pub tier_for : OperationType → Bool → Tier
tier_for operation_type requires_approval =
    if operation_type == privileged || requires_approval
    then critical_tier
    else if operation_type == write
    then write_tier
    else read_tier

pub record RateCheck : Type 0 where
  pub operation_type : OperationType
  pub requires_approval : Bool
  pub user_subject_id : String
  pub conversation_id : String
  pub tool_id : String
  pub database_id : String
  pub environment : Environment

-- the keys of a call and their limits, in the order in which they are counted
unfoldable pub checks_of : (Tier → Limits) → RateCheck → List (Key × ℕ)
unfolding tier_for
checks_of limits_of c =
    let tier = tier_for c.operation_type c.requires_approval in
    let limits = limits_of tier in
    (
      record { tier = tier; dimension = "user"; name = c.user_subject_id },
      limits.per_user_per_minute,
    )
    ∷ (
      record { tier = tier; dimension = "conv"; name = c.conversation_id },
      limits.per_conversation_per_minute,
    )
    ∷ (record { tier = tier; dimension = "tool"; name = c.tool_id }, limits.per_tool_per_minute)
    ∷ (
      record { tier = tier; dimension = "db"; name = c.database_id },
      limits.per_database_per_minute,
    )
    ∷ (
      record { tier = tier; dimension = "env"; name = environment_value c.environment },
      limits.per_environment_per_minute,
    )
    ∷ []

module _ {B : Type 0} (backend : RateLimitBackend Key B) where
  -- the loop: it stops at the first key that is over its limit, and keeps what it has counted
  unfoldable pub count_all : List (Key × ℕ) → ℕ → Exec Error B (Unit {0})
  count_all [] now b = (ok tt, b)
  count_all ((key, limit) ∷ rest) now b =
      let (within, b') = backend.increment_and_check key limit 60 now b in
      let more = count_all rest now b' in
      if within then more else (err (numi_error rate_limited), b')

  unfoldable pub check : (Tier → Limits) → RateCheck → ℕ → Exec Error B (Unit {0})
  unfolding checks_of count_all
  check limits_of c now = count_all (checks_of limits_of c) now
