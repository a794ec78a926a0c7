-- ===== src/RateLimit/Window.antt =====
-- common/rate_limit_backend.py: how many calls a window lets through.
use numi_dba_agent.Common.{
  ℕ, suc, ◌+◌, ◌-◌, ◌*◌, ◌<◌, ◌≤◌, ◌≡◌, refl, Option, none, some, List, [], ◌∷◌, All, Eq, leb,
  arith, if◌then◌else◌, length,
}
use numi_dba_agent.Common.Dict
use numi_dba_agent.Common.Dict.{get-set_self}
use numi_dba_agent.RateLimit.Backend.{Buckets, microseconds, current_bucket, increment_and_check}

unfoldable pub smaller : ℕ → ℕ → ℕ
smaller a b = if leb a b then a else b

module _ {K : Type 0} ⦃e : Eq K⦄ (key : K) (limit window : ℕ) where
  -- how many of the calls made at these times are within budget
  pub passed : List ℕ → Buckets K → ℕ
  passed [] buckets = 0
  passed (t ∷ ts) buckets =
      let (within, buckets') = increment_and_check key limit window t buckets in
      let rest = passed ts buckets' in if within then suc rest else rest

  passed_open :
      (ts : List ℕ) (buckets : Buckets K) (count opened : ℕ)
      → Dict.get buckets key ≡ some (count, opened)
      → All (λ t. t < opened + window * microseconds) ts
      → passed ts buckets ≡ smaller (length ts) (limit - count)
  unfolding passed smaller increment_and_check
  passed_open [] buckets count opened found times = ground arith
  passed_open (t ∷ ts) buckets count opened found (now, times) = ground (
    arith,
    get-set_self buckets key (count + 1, opened),
    passed_open ts (Dict.set buckets key (count + 1, opened)) (count + 1) opened,
  )

  -- the key has not been counted, or its window is over at this time
  abbrev pub IsOver : ℕ → Option (ℕ × ℕ) → Type 0
  IsOver now none = Unit
  IsOver now (some (count, started)) = started + window * microseconds ≤ now

  current_bucket-IsOver :
      (now : ℕ) (bucket : Option (ℕ × ℕ))
      → IsOver now bucket
      → current_bucket bucket window now ≡ (0, now)
  unfolding current_bucket
  current_bucket-IsOver now none over = refl
  current_bucket-IsOver now (some (count, started)) over = ground (arith, over)

  -- The in-memory backend opens a window for a key that it has not counted yet, and anew for one whose
  -- last window is over, whatever that one has counted. Of the calls for the key from then on, at
  -- whatever times before the new window is over, exactly the first `limit` are within budget: as many
  -- as there are, if they are no more than `limit`, and `limit` otherwise.
  pub passed-window :
      (opened : ℕ) (ts : List ℕ) (buckets : Buckets K)
      → IsOver opened (Dict.get buckets key)
      → All (λ t. t < opened + window * microseconds) ts
      → passed (opened ∷ ts) buckets ≡ smaller (length (opened ∷ ts)) limit
  unfolding passed smaller increment_and_check
  passed-window opened ts buckets over times =
      let fresh = current_bucket-IsOver opened (Dict.get buckets key) over in
      rw fresh (
        ground (
          arith,
          get-set_self buckets key (1, opened),
          passed_open ts (Dict.set buckets key (1, opened)) 1 opened,
        ))
