-- ===== src/Agent/Conclude/Frame.antt =====
-- agent/orchestrator.py: what `_finalize_conclude` leaves alone.
use numi_dba_agent.Common.{
  String, Bool, true, false, Option, none, some, ◌≡◌, refl, Bool-cases, inl, inr, arith, is_empty,
  not, if◌then◌else◌,
}
use numi_dba_agent.Common.Exec.{Result, ok, err}
use numi_dba_agent.Agent.Actions.{Conclude, CritiqueVerdict, AgentReply, HasNoCard}
use numi_dba_agent.Agent.State.{InvestigationState, PendingVerification, Entry}
use numi_dba_agent.Agent.Session.{Services, Session}
use numi_dba_agent.Agent.Conclude.Grounding.{ungrounded_identifiers}
use numi_dba_agent.Agent.Conclude.{
  append_evidence_once, send_back, reject_ungrounded, reject_pending, reject_unsound, accept,
  ok_reply, log, accepted, judged, reviewed, checked, finalize_conclude,
}

-- An outcome that sent nothing, asked for no approval and spent no turn.
pub record IsQuiet {World : Type 0} (s : Session World) (out : Option AgentReply × Session World)
    : Type 0 where
  pub mode : out.1.investigation.read_only ≡ s.investigation.read_only
  pub turns : out.1.investigation.turn_count ≡ s.investigation.turn_count
  pub conversation : out.1.conversation ≡ s.conversation
  pub sent : out.1.sent ≡ s.sent
  pub no_card : HasNoCard out.0

send_back_mode :
    (entry : Entry) (line : String) (inv : InvestigationState)
    → ((send_back entry line inv).read_only ≡ inv.read_only)
      × ((send_back entry line inv).turn_count ≡ inv.turn_count)
unfolding send_back append_evidence_once
send_back_mode entry line inv = ground arith

module _ {World : Type 0} (services : Services World) where
  accepted-IsQuiet :
      (action : Conclude) (s : Session World) → IsQuiet s (accepted services action s)
  unfolding accepted accept ok_reply
  accepted-IsQuiet action s = record {
    mode = refl;
    turns = refl;
    conversation = refl;
    sent = refl;
    no_card = refl;
  }

  judged-IsQuiet :
      (action : Conclude) (verdict : Result String CritiqueVerdict) (s : Session World)
      → IsQuiet s (judged services action verdict s)
  unfolding judged log accepted accept ok_reply reject_unsound
  judged-IsQuiet action (err text) s = record {
    mode = refl;
    turns = refl;
    conversation = refl;
    sent = refl;
    no_card = refl;
  }
  judged-IsQuiet action (ok verdict) s = elim (Bool-cases verdict.sound) [
    | inl e ↦
        rw e
          (record { mode = refl; turns = refl; conversation = refl; sent = refl; no_card = refl })
    | inr e ↦ rw e (record {
      mode = (send_back_mode _ _ s.investigation).0;
      turns = (send_back_mode _ _ s.investigation).1;
      conversation = refl;
      sent = refl;
      no_card = tt;
    })
  ]

  reviewed-IsQuiet :
      (action : Conclude) (s : Session World) → IsQuiet s (reviewed services action s)
  unfolding reviewed
  reviewed-IsQuiet action s = elim (Bool-cases services.self_critique_enabled) [
    | inl e ↦ rw e (
        let q =
          judged-IsQuiet action (services.critique_conclusion s.investigation action s.world).0
            (record s {
              world = (services.critique_conclusion s.investigation action s.world).1;
            }) in
        record {
          mode = q.mode;
          turns = q.turns;
          conversation = q.conversation;
          sent = q.sent;
          no_card = q.no_card;
        })
    | inr e ↦ rw e (accepted-IsQuiet action s)
  ]

  checked-IsQuiet :
      (pending : Option PendingVerification) (action : Conclude) (s : Session World)
      → IsQuiet s (checked services pending action s)
  unfolding checked log reject_pending
  checked-IsQuiet (some pending) action s = record {
    mode = (send_back_mode _ _ s.investigation).0;
    turns = (send_back_mode _ _ s.investigation).1;
    conversation = refl;
    sent = refl;
    no_card = tt;
  }
  checked-IsQuiet none action s = reviewed-IsQuiet action s

  unless_final :
      (final_chance : Bool) (action : Conclude) (s : Session World)
      → IsQuiet s (
          if final_chance
          then accepted services action s
          else checked services s.investigation.pending_verification action s)
  unless_final true action s = accepted-IsQuiet action s
  unless_final false action s = checked-IsQuiet _ action s

  pub finalize_conclude-IsQuiet :
      (final_chance : Bool) (action : Conclude) (s : Session World)
      → IsQuiet s (finalize_conclude services final_chance action s)
  unfolding finalize_conclude log reject_ungrounded
  finalize_conclude-IsQuiet final_chance action s =
      elim (Bool-cases (not (is_empty (ungrounded_identifiers services action s.investigation)))) [
        | inl e ↦ rw e (record {
          mode = (send_back_mode _ _ s.investigation).0;
          turns = (send_back_mode _ _ s.investigation).1;
          conversation = refl;
          sent = refl;
          no_card = tt;
        })
        | inr e ↦ rw e (unless_final final_chance action s)
      ]
