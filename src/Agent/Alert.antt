-- ===== src/Agent/Alert.antt =====
-- agent/alert_trigger.py: an investigation that an alert of a monitoring system starts. A post is
-- modelled by its parts.
pub mod Problem
pub mod Answers
pub mod Cooldown
pub mod Once
use numi_dba_agent.Common.{
  ℕ, String, Bool, true, false, not, ◌&&◌, Option, none, some, List, [], ◌∷◌, ◌==◌, string_eq, any,
  filter, is_empty, map, leb, if◌then◌else◌,
}
use numi_dba_agent.Common.Exec.{Result, ok, err}
use numi_dba_agent.Common.Format.{concat}
use numi_dba_agent.ServerReference.{normalize_server_reference}
use numi_dba_agent.RateLimit.Backend.{RateLimitBackend}
use numi_dba_agent.Agent.Session.{Services, Session, Stop, raised}
use numi_dba_agent.Agent.Continue.{Backend}
use numi_dba_agent.Agent.Unattended.{
  ScheduledSummary, SummaryError, is_ok, RunIds, run_triggered_investigation,
}
use numi_dba_agent.Agent.Digest.{RegisteredServer, environment_or_empty}
use numi_dba_agent.Agent.Alert.Problem.{AlertPayload, build_problem_statement, format}

pub data PostBody : Type 0 where
  could_not_complete : Option SummaryError → PostBody
  reported : ScheduledSummary → Option (List String) → PostBody

pub record Post : Type 0 where
  pub server_id : String
  pub environment : String
  pub trigger : String
  pub body : PostBody

pub data AlertError : Type 0 where
  not_configured registry_unreachable unknown_server not_delivered : AlertError

-- `text` is what was or was to be posted
pub record AlertTriggerOutcome : Type 0 where
  pub is_done : Bool
  pub text : Option Post
  pub error : Option AlertError
  pub suppressed : Bool

failed_with : Option Post → AlertError → AlertTriggerOutcome
failed_with text e = record { is_done = false; text = text; error = some e; suppressed = false }

unfoldable pub is_named_by : String → RegisteredServer → Bool
unfolding string_eq normalize_server_reference
is_named_by reference s =
    any (λ n. not (n == "") && normalize_server_reference n == normalize_server_reference reference)
      (s.id ∷ s.aliases)

only : List RegisteredServer → Option RegisteredServer
only [] = none
only (server ∷ []) = some server
only (server ∷ other ∷ servers) = none

unfoldable pub resolve_server : String → List RegisteredServer → Option RegisteredServer
unfolding only is_named_by
resolve_server reference servers = only (filter (is_named_by reference) servers)

-- the tools that a run would have proposed, where it would have; the sorting is left out
proposals : List String → Option (List String)
unfolding string_eq
proposals [] = none
proposals (first ∷ others) = some (filter (λ t. not (t == "")) (first ∷ others))

trigger_line : AlertPayload → String
unfolding concat string_eq
trigger_line alert = concat (
    "Triggered by: "
    ∷ (if alert.metric == "" then "monitoring alert" else alert.metric)
    ∷ (if alert.source == "" then "" else concat (" via " ∷ alert.source ∷ []))
    ∷ [])

format_alert_result : AlertPayload → ScheduledSummary → Post
unfolding trigger_line proposals is_ok
format_alert_result alert summary = record {
  server_id = summary.server_id;
  environment = summary.environment;
  trigger = trigger_line alert;
  body =
      if is_ok summary
      then reported summary (proposals summary.dropped_proposals)
      else could_not_complete summary.error;
}

pub record AlertSettings : Type 0 where
  pub alert_webhook_slack_channel : String
  pub alert_webhook_identity_channel : String
  pub alert_webhook_identity_account : String
  pub alert_webhook_cooldown_seconds : ℕ

-- `formatted` is Python's formatting from a replacement field on that is not `{server_id}`.
pub record AlertOffice (World : Type 0) : Type 0 where
  pub list_registered_servers : World → Result String (List RegisteredServer) × World
  pub new_ids : World → RunIds × World
  pub publish : String → Post → World → Result String (Unit {0}) × World
  pub formatted : String → Option String

-- the log line `alert_trigger_starting`
pub record Start : Type 0 where
  pub server_id : String
  pub metric : String

-- `started` and `published` have the latest first.
pub record Room (World B : Type 0) : Type 0 where
  pub world : World
  pub cooldowns : B
  pub started : List Start
  pub published : List (String × Post)

unfoldable pub cooldown_key : String → String → String
unfolding concat string_eq
cooldown_key server_id metric =
    concat ("alert-cooldown:" ∷ server_id ∷ ":" ∷ (if metric == "" then "_" else metric) ∷ [])

delivered : Post → Result String (Unit {0}) → AlertTriggerOutcome
unfolding failed_with
delivered post (ok done) = record {
  is_done = true;
  text = some post;
  error = none;
  suppressed = false;
}
delivered post (err text) = failed_with (some post) not_delivered

unfoldable pub cooled_down : AlertTriggerOutcome
cooled_down = record { is_done = true; text = none; error = none; suppressed = true }

abbrev pub Handled : Type 0 → Type 0 → Type 0
Handled World B = Result Stop AlertTriggerOutcome × Room World B

module _ {World B : Type 0} (services : Services World) (backend : Backend World)
    (limiter : RateLimitBackend String B) (office : AlertOffice World)
    (settings : AlertSettings) where
  deliver : Post → Room World B → Handled World B
  unfolding delivered
  deliver post r =
      let channel = settings.alert_webhook_slack_channel in
      let (answer, w) = office.publish channel post r.world in
      (
        ok (delivered post answer),
        record r { world = w; published = (channel, post) ∷ r.published },
      )

  -- An exception of the run is not caught. (A run that ends without a reply does not occur.)
  answer_with :
      AlertPayload → Result Stop (Option ScheduledSummary) → Room World B → Handled World B
  unfolding deliver format_alert_result
  answer_with alert (ok (some summary)) r = deliver (format_alert_result alert summary) r
  answer_with alert (ok none) r = (err (raised "no reply"), r)
  answer_with alert (err e) r = (err e, r)

  start : AlertPayload → RegisteredServer → String → Room World B → Handled World B
  unfolding answer_with run_triggered_investigation environment_or_empty
  start alert server problem r =
      let (ids, drawn) = office.new_ids r.world in
      let (result, s) =
        run_triggered_investigation services backend ids server.id
          (environment_or_empty server.environment) settings.alert_webhook_identity_channel
          settings.alert_webhook_identity_account problem drawn in
      let line : Start = record { server_id = server.id; metric = alert.metric } in
      answer_with alert result (record r { world = s.world; started = line ∷ r.started })

  -- an exception of `str.format` is not caught
  start_with : AlertPayload → RegisteredServer → Option String → Room World B → Handled World B
  unfolding start
  start_with alert server none r = (err (raised "str.format"), r)
  start_with alert server (some problem) r = start alert server problem r

  unfoldable pub problem_for : AlertPayload → RegisteredServer → Option String
  unfolding format build_problem_statement
  problem_for alert server = format office.formatted server.id 0 (build_problem_statement alert)

  -- the answer of the cooldown, which is not asked where it is 0 seconds, and what it has counted;
  -- `now` is the time at which the backend counts
  unfoldable pub charge : AlertPayload → RegisteredServer → ℕ → B → Bool × B
  unfolding cooldown_key
  charge alert server now counts =
      if leb 1 settings.alert_webhook_cooldown_seconds
      then limiter.increment_and_check (cooldown_key server.id alert.metric) 1
          settings.alert_webhook_cooldown_seconds now counts
      else (true, counts)

  abbrev pub charged : AlertPayload → RegisteredServer → ℕ → Room World B → Room World B
  charged alert server now r = record r { cooldowns = (charge alert server now r.cooldowns).1 }

  after_cooldown : AlertPayload → RegisteredServer → ℕ → Room World B → Handled World B
  unfolding start_with charge cooled_down problem_for
  after_cooldown alert server now r =
      let paid = charged alert server now r in
      if (charge alert server now r.cooldowns).0
      then start_with alert server (problem_for alert server) paid
      else (ok cooled_down, paid)

  with_server : AlertPayload → Option RegisteredServer → ℕ → Room World B → Handled World B
  unfolding after_cooldown failed_with
  with_server alert none now r = (ok (failed_with none unknown_server), r)
  with_server alert (some server) now r = after_cooldown alert server now r

  with_registry :
      AlertPayload → Result String (List RegisteredServer) → ℕ → Room World B → Handled World B
  unfolding with_server resolve_server failed_with
  with_registry alert (err text) now r = (ok (failed_with none registry_unreachable), r)
  with_registry alert (ok servers) now r =
      with_server alert (resolve_server alert.server servers) now r

  unfoldable pub handle_alert : AlertPayload → ℕ → Room World B → Handled World B
  unfolding with_registry string_eq failed_with
  handle_alert alert now r =
      let (registry, listed) = office.list_registered_servers r.world in
      if settings.alert_webhook_slack_channel == ""
      then (ok (failed_with none not_configured), r)
      else with_registry alert registry now (record r { world = listed })
