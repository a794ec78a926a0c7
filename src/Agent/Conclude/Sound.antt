-- ===== src/Agent/Conclude/Sound.antt =====
-- agent/orchestrator.py: what holds of every conclusion that `_finalize_conclude` accepts.
use mathlib.Core.Path.{subst⁻¹}
use numi_dba_agent.Common.{
  String, Bool, true, false, not, Option, none, some, List, [], ◌∷◌, ◌≡◌, refl, ◌==◌, ==→eq,
  contains, string_eq, All, Bool-cases, inl, inr, ◌⊎◌, is_empty, arith, if◌then◌else◌,
}
use numi_dba_agent.Common.Exec.{Result, ok, err}
use numi_dba_agent.Common.Text.{lower, is_in}
use numi_dba_agent.Agent.Actions.{Conclude, CritiqueVerdict, AgentReply}
use numi_dba_agent.Agent.State.{InvestigationState, PendingVerification}
use numi_dba_agent.Agent.Session.{Services, Session}
use numi_dba_agent.Agent.Conclude.Grounding.{
  missing_names, claimed_text, haystack, ungrounded_identifiers,
}
use numi_dba_agent.Agent.Conclude.{
  conclusion_stage, accept, log, accepted, judged, reviewed, checked, finalize_conclude,
}

-- the haystack has the name, whatever its case
abbrev pub IsGrounded : String → String → Type 0
IsGrounded hay name = is_in (lower name) hay ≡ true

contains-IsGrounded :
    (hay name : String) (seen : List String)
    → All (IsGrounded hay) seen
    → contains seen name ≡ true
    → IsGrounded hay name
contains-IsGrounded hay name [] h c = absurd (cc)
contains-IsGrounded hay name (x ∷ seen) h c = elim (Bool-cases (name == x)) [
  | inl same ↦ subst⁻¹ (IsGrounded hay) (==→eq name x same) h.0
  | inr other ↦ contains-IsGrounded hay name seen h.1 (ground arith)
]

missing_names_none :
    (hay : String) (seen names : List String)
    → All (IsGrounded hay) seen
    → missing_names hay seen names ≡ []
    → All (IsGrounded hay) names
unfolding missing_names
missing_names_none hay seen [] known h = tt
missing_names_none hay seen (name ∷ names) known h = elim (Bool-cases (contains seen name)) [
  | inl again ↦ (
    contains-IsGrounded hay name seen known again,
    missing_names_none hay seen names known (ground arith),
  )
  | inr new ↦ elim (Bool-cases (is_in (lower name) hay)) [
    | inl here ↦ (here, missing_names_none hay (name ∷ seen) names (here, known) (ground arith))
    | inr missing ↦ absurd (ground arith)
  ]
]

is_empty_nil {ℓ} : {A : Type ℓ} (xs : List A) → not (is_empty xs) ≡ false → xs ≡ []
is_empty_nil [] h = refl
is_empty_nil (x ∷ xs) h = absurd (cc)

module _ {World : Type 0} (services : Services World) (action : Conclude) where
  -- if there is a reply, the investigation is in the stage that its own verification gives it
  abbrev Stage : InvestigationState → Option AgentReply × Session World → Type 0
  Stage inv (none, s') = Unit
  Stage inv (some reply, s') = s'.investigation.status ≡ conclusion_stage inv

  judged-Stage :
      (verdict : Result String CritiqueVerdict) (s : Session World)
      → Stage s.investigation (judged services action verdict s)
  unfolding judged accepted accept log
  judged-Stage (err text) s = refl
  judged-Stage (ok verdict) s = elim (Bool-cases verdict.sound) [
    | inl e ↦ rw e refl
    | inr e ↦ rw e tt
  ]

  reviewed-Stage : (s : Session World) → Stage s.investigation (reviewed services action s)
  unfolding reviewed accepted accept
  reviewed-Stage s = elim (Bool-cases services.self_critique_enabled) [
    | inl e ↦ rw e (
        judged-Stage (services.critique_conclusion s.investigation action s.world).0
          (record s { world = (services.critique_conclusion s.investigation action s.world).1 }))
    | inr e ↦ rw e refl
  ]

  checked-Stage :
      (pending : Option PendingVerification) (s : Session World)
      → Stage s.investigation (checked services pending action s)
  unfolding checked
  checked-Stage (some pending) s = tt
  checked-Stage none s = reviewed-Stage s

  of_Stage :
      (inv : InvestigationState) (out : Option AgentReply × Session World) (reply : AgentReply)
      → Stage inv out
      → out.0 ≡ some reply
      → out.1.investigation.status ≡ conclusion_stage inv
  of_Stage inv (none, s') reply h e = absurd (cc)
  of_Stage inv (some r, s') reply h e = h

  checked_pending :
      (pending : Option PendingVerification) (s : Session World) (reply : AgentReply)
      → (checked services pending action s).0 ≡ some reply
      → pending ≡ none
  unfolding checked
  checked_pending (some pending) s reply h = absurd (cc)
  checked_pending none s reply h = refl

  grounded_branch :
      (final_chance : Bool) (s : Session World) (reply : AgentReply)
      → (if final_chance
          then accepted services action s
          else checked services s.investigation.pending_verification action s).0
        ≡ some reply
      → ((final_chance ≡ true) ⊎ (s.investigation.pending_verification ≡ none))
        × ((if final_chance
              then accepted services action s
              else checked services s.investigation.pending_verification action
                  s).1.investigation.status
            ≡ conclusion_stage s.investigation)
  unfolding accepted accept
  grounded_branch true s reply h = (inl refl, refl)
  grounded_branch false s reply h = (
    inr (checked_pending s.investigation.pending_verification s reply h),
    of_Stage s.investigation _ reply (checked-Stage s.investigation.pending_verification s) h,
  )

  -- Where a conclusion is accepted: every CamelCase name in its summary, root cause or recommendation
  -- occurs, whatever its case, in what the investigation saw; before the last chance no executed
  -- write still waits for its check; and the investigation ends in the stage that its verification
  -- gives it.
  pub finalize_conclude_sound :
      (final_chance : Bool) (s : Session World) (reply : AgentReply)
      → (finalize_conclude services final_chance action s).0 ≡ some reply
      → All
          (IsGrounded (haystack services s.investigation))
          (services.camel_case_names (claimed_text action))
        × ((final_chance ≡ true) ⊎ (s.investigation.pending_verification ≡ none))
        × ((finalize_conclude services final_chance action s).1.investigation.status
            ≡ conclusion_stage s.investigation)
  unfolding finalize_conclude
  finalize_conclude_sound final_chance s reply h =
      elim (Bool-cases (not (is_empty (ungrounded_identifiers services action s.investigation)))) [
        | inl missing ↦ absurd (ground arith)
        | inr e ↦
            let rest = grounded_branch final_chance s reply (rw e at h) in
            (grounded e, rest.0, rw e rest.1)
      ]
    where
      grounded :
          not (is_empty (ungrounded_identifiers services action s.investigation)) ≡ false
          → All
              (IsGrounded (haystack services s.investigation))
              (services.camel_case_names (claimed_text action))
      grounded e = missing_names_none (haystack services s.investigation) [] _ tt (is_empty_nil _ e)
