-- ===== src/Agent/Digest/Coverage.antt =====
-- agent/scheduled_report.py: the digest accounts for every server that was selected.
use mathlib.Core.List.{Perm}
use mathlib.Core.List.Perm
use numi_dba_agent.Common.{
  ◌+◌, String, Bool, true, false, not, Option, none, some, List, [], ◌∷◌, ◌++◌, ◌≡◌, string_eq, All,
  length,
}
use numi_dba_agent.Common.Exec.{Result, ok, err}
use numi_dba_agent.Agent.Session.{Services, Session, Stop}
use numi_dba_agent.Agent.Continue.{Backend}
use numi_dba_agent.Agent.Unattended.{ScheduledSummary, is_ok, is_clean, run_comprehensive_summary}
use numi_dba_agent.Agent.Digest.{
  RegisteredServer, select_servers, Sections, Digest, registry_unreachable, nothing_swept, sections,
  Settings, Office, Desk, environment_or_empty,
}

module _ {ℓ} {A : Type ℓ} (p : A → Bool) where
  abbrev rejects : A → Bool
  rejects x = not (p x)

abbrev is_unclean : ScheduledSummary → Bool
is_unclean s = not (is_clean s)

-- The sections hold exactly these summaries, counted, and each where it belongs.
pub record Holds (summaries : List ScheduledSummary) (parts : Sections) : Type 0 where
  pub all : Perm ((parts.clean ++ parts.flagged) ++ parts.failed) summaries
  pub swept : parts.swept ≡ length summaries
  pub counted : parts.checked + parts.could_not ≡ parts.swept
  pub clean_ok : All (λ s. is_ok s ≡ true) parts.clean
  pub clean : All (λ s. is_clean s ≡ true) parts.clean
  pub flagged_ok : All (λ s. is_ok s ≡ true) parts.flagged
  pub flagged : All (λ s. is_unclean s ≡ true) parts.flagged
  pub failed : All (λ s. not (is_ok s) ≡ true) parts.failed

-- The summary that stands for a sweep: the one that the run handed back, and for a run that raised (or
-- ended without a reply) one that is not ok.
abbrev pub Reports : Result Stop (Option ScheduledSummary) → ScheduledSummary → Type 0
Reports (ok (some run)) summary = summary ≡ run
Reports (ok none) summary = is_ok summary ≡ false
Reports (err e) summary = is_ok summary ≡ false

module _ {World : Type 0} (services : Services World) (backend : Backend World)
    (office : Office World) (settings : Settings) where
  -- the run of the sweep for one server
  abbrev pub sweep :
      RegisteredServer → World → Result Stop (Option ScheduledSummary) × Session World
  sweep server w =
      run_comprehensive_summary services backend (office.new_ids w).0 server.id
        (environment_or_empty server.environment) settings.daily_report_identity_channel
        settings.daily_report_identity_account (office.new_ids w).1

  -- one summary for the sweep of each server, one sweep after the other, each in the world that the
  -- one before left
  abbrev pub Swept : List RegisteredServer → World → List ScheduledSummary → Type 0
  Swept [] w [] = Unit
  Swept [] w (summary ∷ summaries) = ⊥
  Swept (server ∷ servers) w [] = ⊥
  Swept (server ∷ servers) w (summary ∷ summaries) =
      (summary.server_id ≡ server.id)
      × Reports (sweep server w).0 summary
      × Swept servers (sweep server w).1.world summaries

  -- what a digest says of the servers that were selected
  abbrev pub Accounts : List RegisteredServer → World → Digest → Type 0
  Accounts [] w digest = digest ≡ nothing_swept
  Accounts (first ∷ others) w digest =
      (summaries : List ScheduledSummary) × (parts : Sections) × (digest ≡ sections parts)
      × Swept (first ∷ others) w summaries
      × Holds summaries parts

  -- what one run did: it published one digest, on the channel, and the digest is this
  abbrev pub Publishes : (Digest → Type 0) → Desk World → Option Digest × Desk World → Type 0
  Publishes P d (none, d') = ⊥
  Publishes P d (some digest, d') =
      (d'.published ≡ (settings.daily_report_slack_channel, digest) ∷ d.published) × P digest

  -- what the registry's answer calls for
  abbrev pub Due : Result String (List RegisteredServer) × World → Digest → Type 0
  Due (err text, w) digest = digest ≡ registry_unreachable
  Due (ok servers, w) digest =
      Accounts (select_servers servers settings.daily_report_servers) w digest
