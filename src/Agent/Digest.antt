-- ===== src/Agent/Digest.antt =====
-- agent/scheduled_report.py: the daily digest, one health sweep of every selected server. A digest is
-- modelled by its sections; the scheduler that starts it every day is not.
pub mod Coverage
use Prim.Native.Char.{Char, code}
use Prim.Native.String as Text
use numi_dba_agent.Common.{
  ℕ, String, Bool, true, false, not, ◌&&◌, ◌||◌, Option, none, some, List, [], ◌∷◌, ◌++◌, map, ◌==◌,
  contains, string_eq, ℕ_discrete, any, filter, is_empty, length, leb, if◌then◌else◌,
}
use numi_dba_agent.Common.Exec.{Result, ok, err}
use numi_dba_agent.Common.Text.{lower, strip}
use numi_dba_agent.Models.Json.{given}
use numi_dba_agent.Agent.Actions.{ReplyStatus}
use numi_dba_agent.Agent.Session.{Services, Session, Stop}
use numi_dba_agent.Agent.Continue.{Backend}
use numi_dba_agent.Agent.Unattended.{
  ScheduledSummary, SummaryError, sweep_failed, is_ok, is_clean, RunIds, run_comprehensive_summary,
}

-- an entry of the registry, as the digest reads it; its environment may be missing, or null
pub record RegisteredServer : Type 0 where
  pub id : String
  pub aliases : List String
  pub environment : Option (Option String)
  pub status : Option String

-- `text.split(",")`
with_char : Char → List String → List String
with_char ch [] = []
with_char ch (part ∷ parts) = Text.◌∷◌ ch part ∷ parts

split_commas : String → List String
unfolding with_char
split_commas Text.[] = "" ∷ []
split_commas (Text.◌∷◌ ch rest) =
    let parts = split_commas rest in
    let comma = leb (code ch) 44 && leb 44 (code ch) in
    if comma then "" ∷ parts else with_char ch parts

wanted_of : List String → List String
unfolding lower strip string_eq
wanted_of [] = []
wanted_of (part ∷ parts) =
    let rest = wanted_of parts in if strip part == "" then rest else lower (strip part) ∷ rest

is_active : Option String → Bool
unfolding given string_eq
is_active none = true
is_active (some status) = not (given (some status)) || status == "active"

is_wanted : List String → RegisteredServer → Bool
unfolding lower string_eq
is_wanted wanted s = any (contains wanted) (lower s.id ∷ map lower s.aliases)

unfoldable pub select_servers : List RegisteredServer → String → List RegisteredServer
unfolding is_active is_wanted wanted_of split_commas
select_servers servers configured_subset =
    let active = filter (λ (s : RegisteredServer). is_active s.status) servers in
    let wanted = wanted_of (split_commas configured_subset) in
    if is_empty wanted then active else filter (is_wanted wanted) active

-- The sections of a digest: what needs attention, what could not be checked, what is clean.
pub record Sections : Type 0 where
  pub swept : ℕ
  pub checked : ℕ
  pub could_not : ℕ
  pub flagged : List ScheduledSummary
  pub failed : List ScheduledSummary
  pub clean : List ScheduledSummary

pub data Digest : Type 0 where
  registry_unreachable nothing_swept : Digest
  sections : Sections → Digest

unfoldable pub sections_of : List ScheduledSummary → Sections
unfolding is_ok is_clean
sections_of summaries =
    let checked = filter is_ok summaries in
    let failed = filter (λ (s : ScheduledSummary). not (is_ok s)) summaries in
    record {
      swept = length summaries;
      checked = length checked;
      could_not = length failed;
      flagged = filter (λ (s : ScheduledSummary). not (is_clean s)) checked;
      failed = failed;
      clean = filter is_clean checked;
    }

unfoldable pub build_digest : List ScheduledSummary → Digest
unfolding sections_of
build_digest [] = nothing_swept
build_digest (s ∷ summaries) = sections (sections_of (s ∷ summaries))

pub record Settings : Type 0 where
  pub daily_report_slack_channel : String
  pub daily_report_servers : String
  pub daily_report_identity_channel : String
  pub daily_report_identity_account : String

-- `err` of `list_registered_servers` or of `publish` is an exception.
pub record Office (World : Type 0) : Type 0 where
  pub list_registered_servers : World → Result String (List RegisteredServer) × World
  pub new_ids : World → RunIds × World
  pub publish : String → Digest → World → Result String (Unit {0}) × World

-- `published` lists what was handed to the publisher, the latest first.
pub record Desk (World : Type 0) : Type 0 where
  pub world : World
  pub published : List (String × Digest)

failed_summary : String → String → ScheduledSummary
failed_summary server_id environment = record {
  server_id = server_id;
  environment = environment;
  investigation_id = "";
  status = ReplyStatus.error;
  findings = [];
  recommendations = [];
  dropped_proposals = [];
  error = some sweep_failed;
}

-- `str(server.get("environment", ""))`
unfoldable pub environment_or_empty : Option (Option String) → String
environment_or_empty none = ""
environment_or_empty (some none) = "None"
environment_or_empty (some (some e)) = e

-- An exception of a sweep is a summary too. (A run that ends without a reply does not occur.)
summary_or_failed : String → String → Result Stop (Option ScheduledSummary) → ScheduledSummary
unfolding failed_summary
summary_or_failed server_id environment (ok (some summary)) = summary
summary_or_failed server_id environment (ok none) = failed_summary server_id environment
summary_or_failed server_id environment (err e) = failed_summary server_id environment

module _ {World : Type 0} (services : Services World) (backend : Backend World)
    (office : Office World) (settings : Settings) where
  summarize : RegisteredServer → World → ScheduledSummary × World
  unfolding run_comprehensive_summary summary_or_failed environment_or_empty
  summarize server w =
      let environment = environment_or_empty server.environment in
      let (ids, drawn) = office.new_ids w in
      let (result, s) =
        run_comprehensive_summary services backend ids server.id environment
          settings.daily_report_identity_channel settings.daily_report_identity_account drawn in
      (summary_or_failed server.id environment result, s.world)

  summarize_all : List RegisteredServer → World → List ScheduledSummary × World
  unfolding summarize
  summarize_all [] w = ([], w)
  summarize_all (server ∷ servers) w =
      let (summary, after) = summarize server w in
      let (summaries, ended) = summarize_all servers after in (summary ∷ summaries, ended)

  digest_of : Result String (List RegisteredServer) → World → Digest × World
  unfolding summarize_all build_digest select_servers
  digest_of (err text) w = (registry_unreachable, w)
  digest_of (ok servers) w =
      let (summaries, ended) =
        summarize_all (select_servers servers settings.daily_report_servers) w in
      (build_digest summaries, ended)

  -- a failure to publish is only logged
  publish_digest : Digest → Desk World → Option Digest × Desk World
  publish_digest digest d =
      let (r, w) = office.publish settings.daily_report_slack_channel digest d.world in
      (
        some digest,
        record {
          world = w;
          published = (settings.daily_report_slack_channel, digest) ∷ d.published;
        },
      )

  unfoldable pub run_once : Desk World → Option Digest × Desk World
  unfolding digest_of publish_digest string_eq
  run_once d =
      if settings.daily_report_slack_channel == ""
      then (none, d)
      else (let (registry, listed) = office.list_registered_servers d.world in
          let (digest, w) = digest_of registry listed in
          publish_digest digest (record d { world = w }))
