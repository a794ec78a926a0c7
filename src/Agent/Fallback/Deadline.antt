-- ===== src/Agent/Fallback/Deadline.antt =====
-- agent/llm/fallback.py: a walk over the providers takes no longer than its deadline.
use Prim.Native.Nat.{min}
use numi_dba_agent.Common.{
  ℕ, ◌+◌, ◌-◌, ◌≤◌, String, false, List, [], ◌∷◌, ◌≡◌, All, Bool-cases, inl, inr, leb, arith,
}
use numi_dba_agent.Common.Exec.{Result, ok, err}
use numi_dba_agent.Agent.Fallback.{
  FallbackEvent, CallError, unavailable, timed_out, other, Candidate, Walked, after_call,
  after_build, walk_from, walk,
}

-- the limit of a call lies within the time that is left
min_within :
    (total budget started t : ℕ)
    → leb total (t - started) ≡ false
    → started ≤ t
    → t + min budget (total - (t - started)) ≤ started + total
min_within total budget started t left from = ground arith

module _ {World A : Type 0} (now : World → ℕ) where
  -- Building a provider takes no time, and a call ends within its limit.
  pub record IsPunctual (c : Candidate World A) : Type 0 where
    pub builds : (w : World) → now (c.build w).1 ≡ now w
    pub later : (limit : ℕ) (w : World) → now w ≤ now (c.call limit w).1
    pub within : (limit : ℕ) (w : World) → now (c.call limit w).1 ≤ now w + limit

  module _ (started deadline : ℕ) where
    -- the walk goes on from here to the deadline
    abbrev Ends : (List String → World → Walked World A) → Type 0
    Ends next =
        (names : List String) (w : World)
        → started ≤ now w
        → now w ≤ deadline
        → now (next names w).2 ≤ deadline

    after_call-le :
        (name : String) (next : List String → World → Walked World A) (failed : List String)
        (notices : List FallbackEvent) (r : Result CallError A × World)
        → Ends next
        → started ≤ now r.1
        → now r.1 ≤ deadline
        → now (after_call name next failed notices r).2 ≤ deadline
    unfolding after_call
    after_call-le name next failed notices (ok result, w) h from le = le
    after_call-le name next failed notices (err unavailable, w) h from le = h _ w from le
    after_call-le name next failed notices (err timed_out, w) h from le = h _ w from le
    after_call-le name next failed notices (err (other text), w) h from le = le

    after_build-le :
        (c : Candidate World A) (next : List String → World → Walked World A) (limit : ℕ)
        (failed : List String) (notices : List FallbackEvent) (r : Result String (Unit {0}) × World)
        → IsPunctual c
        → Ends next
        → started ≤ now r.1
        → now r.1 + limit ≤ deadline
        → now (after_build c next limit failed notices r).2 ≤ deadline
    unfolding after_build
    after_build-le c next limit failed notices (ok built, w) p h from le =
        after_call-le c.name next failed notices (c.call limit w) h (omega (arith, p.later limit w))
          (omega (arith, p.within limit w))
    after_build-le c next limit failed notices (err text, w) p h from le = h _ w from (omega arith)

  module _ (total budget started : ℕ) where
    walk_from-le :
        (chain : List (Candidate World A)) (failed : List String) (notices : List FallbackEvent)
        (w : World)
        → All IsPunctual chain
        → started ≤ now w
        → now w ≤ started + total
        → now (walk_from now total budget started chain failed notices w).2 ≤ started + total
    unfolding walk_from
    walk_from-le [] failed notices w h from le = le
    walk_from-le (c ∷ chain) failed notices w (p, h) from le =
        elim (Bool-cases (leb total (now w - started))) [
          | inl late ↦ rw late le
          | inr left ↦ rw left (
              after_build-le started (started + total) c
                (λ names w'. walk_from now total budget started chain names notices w') _ failed
                notices (c.build w) p
                (λ names w' from' le'. walk_from-le chain names notices w' h from' le')
                (omega (arith, p.builds w))
                (omega (arith, p.builds w, min_within total budget started (now w) left from)))
        ]

  -- Where building a provider takes no time and every call ends within its time limit: however many
  -- providers there are, and whatever they answer, the walk ends at most `total` after it began.
  pub walk-le :
      (total : ℕ) (chain : List (Candidate World A)) (notices : List FallbackEvent) (w : World)
      → All IsPunctual chain
      → now (walk now total chain notices w).2 ≤ now w + total
  unfolding walk
  walk-le total chain notices w h =
      walk_from-le total _ (now w) chain [] notices w h (omega arith) (omega arith)
