-- ===== src/Agent/Playbooks/Operations.antt =====
-- agent/playbooks/library.py: the third part of `PLAYBOOKS`, in its order.
use numi_dba_agent.Common.{[], ◌∷◌}
use numi_dba_agent.Agent.Playbooks.Defs.{Playbook, step}

abbrev pub storage : Playbook
storage = record {
  playbook_id = "storage";
  name = "Storage Capacity Investigation";
  description =
      "Disk space or overall storage capacity risk (not specifically the transaction log).";
  triggers =
      "disk space" ∷ "disk full" ∷ "running out of space" ∷ "out of disk" ∷ "out of space"
      ∷ "storage" ∷ [];
  steps =
      step "database.get_storage" "Checking overall storage/space utilization." []
      ∷ step "database.get_health" "Establishing a baseline." []
      ∷ [];
  conclusion_guidance =
      "State current usage vs. capacity, and — if the evidence points to one — what's actually driving growth: unexpected data growth, transaction log retention, a failed/paused backup chain, table/index bloat, an archive/purge job that stopped running, auto-growth events, replication backlog holding old WAL/log segments, or storage throttling. If the transaction log specifically looks like the driver, say so explicitly and note that the transaction_log playbook (triggered by phrasing like 'transaction log full' or 'log won't truncate') investigates log reuse blockers in depth.";
}

abbrev pub transaction_log : Playbook
transaction_log = record {
  playbook_id = "transaction_log";
  name = "Transaction Log Investigation";
  description = "The transaction log (or WAL) growing, filling up, or failing to reuse space.";
  triggers =
      "transaction log full" ∷ "transaction log growth" ∷ "log growing" ∷ "log full" ∷ "log is full"
      ∷ "wal growing" ∷ "log can't reuse" ∷ "log cannot reuse" ∷ "log won't truncate"
      ∷ "log will not truncate" ∷ "log reuse" ∷ "transaction log" ∷ [];
  steps =
      step "database.get_transaction_log" "Checking transaction log / WAL usage." []
      ∷ step "database.get_replication_status"
          "Checking for a lagging replica holding the log/WAL open." []
      ∷ step "database.get_backup_status"
          "Checking for a stalled or failed log backup blocking log reuse." []
      ∷ step "database.get_health" "Establishing a baseline." []
      ∷ [];
  conclusion_guidance =
      "Identify which concrete reuse blocker is actually responsible, not just current log usage: an active or long-running transaction, replication lag (a lagging replica holding the log open), a failed or stalled log backup (the single most common reuse blocker on SQL Server, and often tied to WAL retention/archiving on Postgres), log shipping/mirroring/snapshots holding old log records, or a maintenance operation blocking log reuse. Name the specific blocker the evidence supports rather than describing usage alone.";
}

abbrev pub errors : Playbook
errors = record {
  playbook_id = "errors";
  name = "Error Log Investigation";
  description = "Errors, exceptions, or failures reported in the error log.";
  triggers =
      "error log" ∷ "error logs" ∷ "errors in the log" ∷ "exceptions" ∷ "failing queries"
      ∷ "crashing" ∷ "keeps crashing" ∷ "seeing errors" ∷ [];
  steps =
      step "database.get_error_logs" "Pulling recent error log entries." []
      ∷ step "database.get_health" "Establishing a baseline." []
      ∷ step "database.get_blocking_sessions"
          "Checking for current blocking to correlate against any lock-timeout or blocking-related error entries."
          []
      ∷ step "database.get_deadlocks"
          "Checking for recent deadlock graphs to correlate against any deadlock-related error entries."
          []
      ∷ step "database.get_running_queries" "Checking what's currently executing." []
      ∷ [];
  conclusion_guidance =
      "Summarize the distinct error(s) found (not just a raw dump), how recent/frequent each is, and which looks most likely to be the reported problem. Classify each distinct finding into a category rather than a raw list of log lines — pick whichever of these actually fits: availability, authentication, authorization, storage, memory, CPU, network, corruption, backup, replication, locking, configuration, security, or application integration. Correlate against the other signals gathered in this same investigation when relevant, rather than treating log entries in isolation: a lock-timeout or deadlock-related error should be cross-checked against the blocking-chain and deadlock-graph evidence gathered above to say whether it's still happening or was transient, and note when a logged error's underlying condition no longer appears in the other evidence gathered (it looks resolved) versus still being present now (still ongoing).";
}

abbrev pub comprehensive_summary : Playbook
comprehensive_summary = record {
  playbook_id = "comprehensive_summary";
  name = "Comprehensive Health Summary";
  description =
      "A DBA-requested comprehensive sweep across this project's read-only diagnostics for ONE server in one shot — not tied to a specific symptom, and deliberately broader/heavier than general_health's quick 4-step pulse check. Scoped honestly, two ways: (1) this reports the server's CURRENT state only — there is no historical data store anywhere in this system, so it cannot do trend/delta comparison against yesterday or any prior run — and it covers exactly one server per invocation, never a fleet. Sweeping multiple servers on a schedule is separate orchestration that calls this playbook once per server; it now exists (`agent.scheduled_report`, via `orchestrator.run_comprehensive_summary`), but it is still not something this playbook does itself, and nothing about this playbook changes when it is invoked that way except that the investigation is marked read-only. (2) Every investigation in this project — playbook or freeform — shares one turn budget, `orchestrator._MAX_INVESTIGATION_TURNS` (6 as of this writing), and every playbook in this library is required to leave at least one turn free for the model's own unrestricted concluding call (see `test_deepened_playbooks_stay_within_the_shared_turn_budget`), so a single invocation can run at most 5 deterministic diagnostic calls before that final call. Rather than declare 12 steps — one per instance-wide read tool — and have most of them silently never run (verified live — the turn budget simply stops submitting further steps once spent, with no warning), this playbook's 5 steps were chosen to span the widest practical breadth — availability, resource pressure, workload/blocking, protection/backups, storage capacity, and logs — within that shared budget. Configuration is deliberately left out of this particular sweep: it already has its own dedicated `configuration_review` playbook, and cutting it here (rather than blocking, backups, storage, or logs) keeps the daily-pulse categories that change moment to moment. Raising the shared cap (or giving this one playbook a larger budget of its own) is an orchestrator.py change and explicitly out of scope here.";
  triggers =
      "daily summary" ∷ "comprehensive health check" ∷ "full health report" ∷ "complete status"
      ∷ "everything about this server" ∷ "full report" ∷ "daily report" ∷ "comprehensive check"
      ∷ "complete health check" ∷ "full diagnostic" ∷ [];
  steps =
      step "database.get_health" "Establishing the overall instance/database health baseline." []
      ∷ step "database.get_blocking_sessions" "Checking for any active blocking chains." []
      ∷ step "database.get_backup_status" "Checking recent backup history and status." []
      ∷ step "database.get_storage" "Checking storage/space utilization." []
      ∷ step "database.get_error_logs" "Pulling recent error log entries." []
      ∷ [];
  conclusion_guidance =
      "This is the broadest playbook in the library — the concluding report must synthesize, not restate. Organize findings into the categories a DBA actually triages by, mirroring the General Health Check structure used elsewhere in this project: availability (is it up, overall health snapshot), resource pressure (from get_health's own numbers), workload/blocking (active blocking chains), protection/backups (backup status, storage headroom), and logs (recent error log entries). Only speak to a category you actually have evidence for — this playbook's fixed steps do not include a replication/HA or configuration check, so never state or imply replication is 'fine' or that configuration looks reasonable; simply omit those categories rather than guessing (point the DBA at the dedicated `replication` or `configuration_review` playbook if either looks worth a closer look). THIS IS THE IMPORTANT PART: for each category you do have evidence for, report ONLY what deviates from normal or needs attention — do not restate a clean result at all, for any category. Close with an explicit sentence to the effect of 'all other checks came back clean' (naming which categories, if it reads better) covering everything unremarkable, instead of walking through every check one by one. A DBA asking for a comprehensive summary wants a short, scannable list of what matters, not a wall of 'X is fine, Y is fine, Z is fine' for a half-dozen checks. Also state plainly, once, that this reflects only the current moment on this one server — no trend/delta comparison against a prior day is available (no historical data store exists in this system), and this is not a multi-server sweep.";
}
