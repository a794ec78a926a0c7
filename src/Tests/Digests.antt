-- ===== src/Tests/Digests.antt =====
-- A daily digest over a registry of two servers, one of them retired, whose sweep finds no model.
use numi_dba_agent.Common.{none, some, List, [], ◌∷◌}
use numi_dba_agent.Common.Exec.{ok}
use numi_dba_agent.Agent.Digest.{RegisteredServer, Settings, Office, Desk}
use numi_dba_agent.Tests.Agents.{Script, ids}

abbrev pub registry : List RegisteredServer
registry =
    record {
      id = "pg-prod-01";
      aliases = "core" ∷ [];
      environment = some (some "production");
      status = none;
    }
    ∷ record { id = "pg-old"; aliases = []; environment = none; status = some "retired" }
    ∷ []

abbrev office : Office Script
office = record {
  list_registered_servers = λ w. (ok registry, w);
  new_ids = λ w. (ids, w);
  publish = λ channel digest w. (ok tt, w);
}

abbrev settings : Settings
settings = record {
  daily_report_slack_channel = "C1";
  daily_report_servers = "Core , pg-old";
  daily_report_identity_channel = "email";
  daily_report_identity_account = "numi";
}

abbrev morning : Desk Script
morning = record { world = []; published = [] }
