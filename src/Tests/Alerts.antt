-- ===== src/Tests/Alerts.antt =====
-- Alerts at an installation with two servers, of which one has the alias that the alerts name.
use numi_dba_agent.Common.{suc, ◌≤◌, none, some, List, [], ◌∷◌, ◌≡◌, refl, string_eq, arith}
use numi_dba_agent.Common.Exec.{ok, err}
use numi_dba_agent.RateLimit.Backend.{in_memory}
use numi_dba_agent.Agent.Session.{raised}
use numi_dba_agent.Agent.Alert.Problem.{AlertPayload}
use numi_dba_agent.Agent.Alert.{
  AlertSettings, AlertOffice, Room, cooldown_key, handle_alert, resolve_server,
}
use numi_dba_agent.Agent.Alert.Answers.{Answered, handle_alert-Answered}
use numi_dba_agent.Agent.Alert.Cooldown.{Counts, starts}
use numi_dba_agent.Agent.Alert.Once.{Timed, handle_all, handle_all_once}
use numi_dba_agent.Tests.Agents.{Script, services, backend, ids}
use numi_dba_agent.Tests.Digests.{registry}

-- an exception for each replacement field but `{server_id}`
abbrev office : AlertOffice Script
office = record {
  list_registered_servers = λ w. (ok registry, w);
  new_ids = λ w. (ids, w);
  publish = λ channel post w. (ok tt, w);
  formatted = λ template. none;
}

abbrev settings : AlertSettings
settings = record {
  alert_webhook_slack_channel = "C1";
  alert_webhook_identity_channel = "email";
  alert_webhook_identity_account = "numi";
  alert_webhook_cooldown_seconds = 900;
}

abbrev quiet : Room Script Counts
quiet = record { world = []; cooldowns = []; started = []; published = [] }

abbrev cpu : AlertPayload
cpu = record {
  server = "Core";
  metric = "cpu";
  current_value = "97";
  threshold = "90";
  severity = "";
  source = "";
  message = "";
}

handle_alert-Answered_example :
    Answered services backend in_memory office settings cpu 5 quiet
      (handle_alert services backend in_memory office settings cpu 5 quiet)
handle_alert-Answered_example =
    handle_alert-Answered services backend in_memory office settings cpu 5 quiet

abbrev flapping : List Timed
flapping = (cpu, 5) ∷ (cpu, 6) ∷ []

handle_all_once_example :
    starts "alert-cooldown:pg-prod-01:cpu"
      (handle_all services backend office settings flapping
        (handle_all services backend office settings [] quiet)).started
    ≤ suc (
        starts "alert-cooldown:pg-prod-01:cpu"
          (handle_all services backend office settings [] quiet).started)
handle_all_once_example =
    handle_all_once services backend office settings "alert-cooldown:pg-prod-01:cpu" [] flapping 5
      quiet (omega arith) refl ((omega arith, omega arith), ((omega arith, omega arith), tt))

flapping_starts :
    starts "alert-cooldown:pg-prod-01:cpu"
      (handle_all services backend office settings flapping quiet).started
    ≡ 1
unfolding handle_all handle_alert string_eq in_memory cooldown_key
flapping_starts = refl

-- the message `100% }` is no template
abbrev unbalanced : AlertPayload
unbalanced = record cpu { message = "100% }" }

unbalanced_raises :
    (handle_alert services backend in_memory office settings unbalanced 5 quiet).0
    ≡ err (raised "str.format")
unfolding handle_alert string_eq in_memory
unbalanced_raises = refl

named_once :
    resolve_server "core" registry
    ≡ some (record {
      id = "pg-prod-01";
      aliases = "core" ∷ [];
      environment = some (some "production");
      status = none;
    })
unfolding resolve_server string_eq
named_once = refl
