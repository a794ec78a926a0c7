-- ===== src/Agent/Fallback/Order.antt =====
-- agent/llm/fallback.py: which provider answers, and what the notice says of those before it.
use Prim.Native.Nat.{min}
use mathlib.Core.List.{append_assoc, append-nil}
use numi_dba_agent.Common.{
  ℕ, ◌-◌, String, List, [], ◌∷◌, ◌++◌, map, ◌≡◌, refl, sym, ap, ◌∙◌, Bool-cases, inl, inr, leb,
}
use numi_dba_agent.Common.Exec.{Result, ok, err}
use numi_dba_agent.Agent.Fallback.{
  FallbackEvent, CallError, unavailable, timed_out, other, Candidate, Walked, record_use,
  after_call, after_build, walk_from, walk,
}

module _ {World A : Type 0} where
  abbrev pub names_of : List (Candidate World A) → List String
  names_of chain = map (λ (c : Candidate World A). c.name) chain

  -- An answer is that of a provider of the chain, and the notice, if one is due, names the providers
  -- before it in their order. Without an answer no notice is added.
  abbrev pub Answered :
      List (Candidate World A) → List String → List FallbackEvent → Walked World A → Type 0
  Answered chain failed notices (ok result, notices', w) =
      (before : List (Candidate World A)) × (c : Candidate World A) × (after : List
        (Candidate World A))
      × (limit : ℕ) × (start : World) × (chain ≡ before ++ c ∷ after)
      × (c.call limit start ≡ (ok result, w))
      × (notices' ≡ record_use (failed ++ names_of before) c.name notices)
  Answered chain failed notices (err e, notices', w) = notices' ≡ notices

  later-Answered :
      (c : Candidate World A) (chain : List (Candidate World A)) (failed : List String)
      (notices : List FallbackEvent) (out : Walked World A)
      → Answered chain (failed ++ c.name ∷ []) notices out
      → Answered (c ∷ chain) failed notices out
  later-Answered c chain failed notices (ok result, notices', w)
        (before, d, after, limit, start, split, answers, noted) =
      (
        c ∷ before,
        d,
        after,
        limit,
        start,
        ap (λ rest. c ∷ rest) split,
        answers,
        noted
            ∙ ap (λ (names : List String). record_use names d.name notices)
                (append_assoc failed (c.name ∷ []) (names_of before)),
      )
  later-Answered c chain failed notices (err e, notices', w) h = h

  module _ (c : Candidate World A) (chain : List (Candidate World A))
      (next : List String → World → Walked World A) (failed : List String)
      (notices : List FallbackEvent)
      (goes_on : (names : List String) (w : World)
        → Answered chain names notices (next names w)) where
    after_call-Answered :
        (limit : ℕ) (start : World) (r : Result CallError A × World)
        → c.call limit start ≡ r
        → Answered (c ∷ chain) failed notices (after_call c.name next failed notices r)
    unfolding after_call
    after_call-Answered limit start (ok result, w) e = (
      [],
      c,
      chain,
      limit,
      start,
      refl,
      e,
      ap (λ (names : List String). record_use names c.name notices) (sym (append-nil failed)),
    )
    after_call-Answered limit start (err unavailable, w) e =
        later-Answered c chain failed notices _ (goes_on _ w)
    after_call-Answered limit start (err timed_out, w) e =
        later-Answered c chain failed notices _ (goes_on _ w)
    after_call-Answered limit start (err (other text), w) e = refl

    after_build-Answered :
        (limit : ℕ) (r : Result String (Unit {0}) × World)
        → Answered (c ∷ chain) failed notices (after_build c next limit failed notices r)
    unfolding after_build
    after_build-Answered limit (ok built, w) = after_call-Answered limit w _ refl
    after_build-Answered limit (err text, w) = later-Answered c chain failed notices _ (goes_on _ w)

  module _ (now : World → ℕ) (total : ℕ) where
    walk_from-Answered :
        (budget started : ℕ) (chain : List (Candidate World A)) (failed : List String)
        (notices : List FallbackEvent) (w : World)
        → Answered chain failed notices (walk_from now total budget started chain failed notices w)
    unfolding walk_from
    walk_from-Answered budget started [] failed notices w = refl
    walk_from-Answered budget started (c ∷ chain) failed notices w =
        elim (Bool-cases (leb total (now w - started))) [
          | inl late ↦ rw late refl
          | inr left ↦ rw left (
              after_build-Answered c chain
                (λ names w'. walk_from now total budget started chain names notices w') failed
                notices (λ names w'. walk_from-Answered budget started chain names notices w')
                (min budget (total - (now w - started))) (c.build w))
        ]

    -- An answer of the walk is what the call of one provider of the chain gave; if there are providers
    -- before it, exactly one notice is added, which names them in their order and the one that was
    -- used, and otherwise none is. A walk that ends without an answer adds no notice.
    pub walk-Answered :
        (chain : List (Candidate World A)) (notices : List FallbackEvent) (w : World)
        → Answered chain [] notices (walk now total chain notices w)
    unfolding walk
    walk-Answered chain notices w = walk_from-Answered _ (now w) chain [] notices w
