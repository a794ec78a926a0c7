-- ===== src/RateLimit/Cooldown.antt =====
-- common/rate_limit_backend.py: a limit of one call in a window.
use numi_dba_agent.Common.{
  ℕ, zero, suc, ◌+◌, ◌*◌, ◌≤◌, ◌<◌, ◌≢◌, true, false, Option, none, some, ◌≡◌, refl, ap, ◌∙◌, [],
  ◌==◌, Eq, leb, arith,
}
use numi_dba_agent.Common.Dict
use numi_dba_agent.Common.Dict.{get-set_other, get-set_self}
use numi_dba_agent.RateLimit.Backend.{Buckets, microseconds, current_bucket, increment_and_check}

module _ (window : ℕ) where
  current_open :
      (count opened now : ℕ)
      → now < opened + window * microseconds
      → current_bucket (some (count, opened)) window now ≡ (count, opened)
  unfolding current_bucket
  current_open count opened now early = ground arith

  current_passed :
      (now : ℕ) (bucket : Option (ℕ × ℕ))
      → ((opened : ℕ) → bucket ≢ some (0, opened))
      → leb ((current_bucket bucket window now).0 + 1) 1 ≡ true
      → current_bucket bucket window now ≡ (0, now)
  unfolding current_bucket
  current_passed now none counted passed = refl
  current_passed now (some (zero, opened)) counted passed = absurd (counted opened refl)
  current_passed now (some (suc count, opened)) counted passed = ground arith

module _ {K : Type 0} ⦃e : Eq K⦄ (key : K) (window : ℕ) where
  -- the bucket of the key has let a call through, and is open until `until` at least
  abbrev pub Full : ℕ → Buckets K → Type 0
  Full until buckets =
      (count : ℕ) × (opened : ℕ) × (Dict.get buckets key ≡ some (count + 1, opened))
      × (until ≤ opened + window * microseconds)

  -- a bucket has counted a call
  abbrev pub Counted : Buckets K → Type 0
  Counted buckets = (opened : ℕ) → Dict.get buckets key ≢ some (0, opened)

  pub increment_other :
      (other : K) (now : ℕ) (buckets : Buckets K)
      → (other == key) ≡ false
      → Dict.get (increment_and_check other 1 window now buckets).1 key ≡ Dict.get buckets key
  unfolding increment_and_check
  increment_other other now buckets differ = get-set_other buckets other key _ differ

  pub increment-Full :
      (until now : ℕ) (buckets : Buckets K)
      → now < until
      → Full until buckets
      → ((increment_and_check key 1 window now buckets).0 ≡ false)
        × Full until (increment_and_check key 1 window now buckets).1
  unfolding increment_and_check current_bucket
  increment-Full until now buckets early (count, opened, found, late) =
      let same : current_bucket (Dict.get buckets key) window now ≡ (count + 1, opened) =
        ap (λ (o : Option (ℕ × ℕ)). current_bucket o window now) found
        ∙ current_open window (count + 1) opened now (omega (arith, early, late)) in
      rw same
        (ground arith, (count + 1, opened, get-set_self buckets key (count + 1 + 1, opened), late))

  pub increment_passed :
      (now : ℕ) (buckets : Buckets K)
      → Counted buckets
      → (increment_and_check key 1 window now buckets).0 ≡ true
      → Dict.get (increment_and_check key 1 window now buckets).1 key ≡ some (1, now)
  unfolding increment_and_check current_bucket
  increment_passed now buckets counted passed =
      get-set_self buckets key _
      ∙ ap (λ (b : ℕ × ℕ). some (b.0 + 1, b.1))
          (current_passed window now (Dict.get buckets key) counted passed)

  pub increment-Counted :
      (now : ℕ) (buckets : Buckets K) → Counted (increment_and_check key 1 window now buckets).1
  unfolding increment_and_check current_bucket
  increment-Counted now buckets = λ opened h. ground (
    arith,
    h,
    get-set_self buckets key (
      (current_bucket (Dict.get buckets key) window now).0 + 1,
      (current_bucket (Dict.get buckets key) window now).1,
    ),
  )

  pub Full-Counted : (until : ℕ) (buckets : Buckets K) → Full until buckets → Counted buckets
  Full-Counted until buckets (count, opened, found, late) = λ opened' h. ground (arith, found, h)

  pub fresh-Counted : (buckets : Buckets K) → buckets ≡ [] → Counted buckets
  unfolding Dict.get
  fresh-Counted buckets fresh =
      λ opened h. let empty = ap (λ (d : Buckets K). Dict.get d key) fresh in absurd (cc)
