-- ===== src/Agent/Playbooks/Performance.antt =====
-- agent/playbooks/library.py: the second part of `PLAYBOOKS`, in its order.
use numi_dba_agent.Common.{[], ◌∷◌}
use numi_dba_agent.Models.Json.{str}
use numi_dba_agent.Agent.Playbooks.Defs.{Playbook, step}

abbrev pub high_memory : Playbook
high_memory = record {
  playbook_id = "high_memory";
  name = "High Memory Investigation";
  description = "Memory pressure, high memory usage, or out-of-memory conditions.";
  triggers =
      "memory" ∷ "high memory" ∷ "memory pressure" ∷ "out of memory" ∷ "oom" ∷ "memory usage"
      ∷ "memory leak" ∷ "running out of memory" ∷ [];
  steps =
      step "database.get_health" "Establishing a memory baseline." []
      ∷ step "database.get_configuration" "Checking configured memory limits." []
      ∷ step "database.get_top_queries" "Ranking queries by reads (buffer/memory pressure proxy)."
          (("order_by", str "reads") ∷ [])
      ∷ step "database.get_running_queries" "Checking what's currently executing." []
      ∷ [];
  conclusion_guidance =
      "State whether the configured memory limit looks undersized for the observed load, or whether a small number of queries are driving the pressure. Before recommending anything, work out where the pressure is actually coming from: the database engine's own allocations (buffer pool/shared buffers/plan cache), a specific query or small set of queries, or pressure outside the engine entirely (the host, a container/VM memory limit, or another service sharing the box) — note plainly that host/container-level memory isn't something this system can directly measure, so treat that as a hypothesis to raise when the in-engine evidence doesn't explain the pressure, not a measured finding. Validate — don't just assume — each plausible hypothesis against the evidence gathered: an oversized memory grant/setting relative to the actual workload, a poor query plan requesting more memory than it needs (e.g. a bad cardinality estimate driving a large sort/hash), excessive concurrent sessions each holding their own allocation, a genuine leak (usage that only climbs, with no corresponding drop), a configuration value left at an unreasonable default, host-level overcommitment, or the instance being undersized for its actual load. Treat a restart as a last resort that requires explicit DBA approval — never the first recommendation, and never proposed unprompted before the above has actually been checked; when it is worth mentioning, say plainly that it only clears symptoms like a leak or plan-cache bloat and does not fix a genuine undersizing or misconfiguration, which will recur.";
}

abbrev pub connections : Playbook
connections = record {
  playbook_id = "connections";
  name = "Connection Saturation Investigation";
  description = "Connection limits, refused/failed connections, or too many open sessions.";
  triggers =
      "connection" ∷ "connections" ∷ "too many connections" ∷ "connection pool" ∷ "max connections"
      ∷ "can't connect" ∷ "cannot connect" ∷ "connection refused" ∷ "connection limit"
      ∷ "out of connections" ∷ [];
  steps =
      step "database.get_sessions" "Listing current sessions." []
      ∷ step "database.get_health" "Establishing a baseline." []
      ∷ step "database.get_configuration" "Checking the configured max-connections limit." []
      ∷ [];
  conclusion_guidance =
      "State the current session count against the configured limit, and whether one application/account is holding a disproportionate number of connections. Lead with that comparison: if current usage is well under the configured max (comfortable headroom), say so plainly and stop there — do not manufacture a false alarm or invent tuning advice from otherwise-healthy numbers just because an investigation was run. Reserve genuine concern for when usage is meaningfully close to the limit, or one application/account holds a disproportionate share regardless of the overall total.";
}

abbrev pub replication : Playbook
replication = record {
  playbook_id = "replication";
  name = "Replication Investigation";
  description = "Replication lag, Always On, or streaming replication issues.";
  triggers =
      "replication" ∷ "replica" ∷ "replicas" ∷ "replication lag" ∷ "lagging" ∷ "always on"
      ∷ "availability group" ∷ "streaming replication" ∷ "standby" ∷ [];
  steps =
      step "database.get_replication_status" "Checking replication/Always On status and lag." []
      ∷ step "database.get_health" "Establishing a primary-side health baseline." []
      ∷ step "database.get_wait_statistics"
          "Checking for waits consistent with replication pressure." []
      ∷ [];
  conclusion_guidance =
      "State the current lag (or sync state) per replica and whether it's within the expected range for this environment — but go beyond the raw number: assess stale-read risk for anything reading from that replica, RPO/RTO exposure if the primary failed over right now, whether the lag is itself creating primary-side risk (a lagging or disconnected replica can hold WAL/log open, which shows up as unexpected storage growth on the primary — worth a separate storage check if that's suspected), whether the lag/queue is growing or holding steady, and which applications or read paths are actually affected. Validate the likely cause against the evidence rather than only reporting the lag figure: network latency between primary and replica, storage or CPU pressure on the replica itself, an unusually large write volume on the primary outpacing apply capacity, a long-running transaction on the replica blocking apply, a disconnected or dropped replica, replication-slot retention holding WAL/log no longer being consumed, an apply/redo worker that has stalled or errored, or the replica being undersized for the write rate it needs to keep up with.";
}

abbrev pub backups : Playbook
backups = record {
  playbook_id = "backups";
  name = "Backup Health Investigation";
  description = "Missed, failed, or overdue backups.";
  triggers =
      "backup" ∷ "backups" ∷ "backup failed" ∷ "backup job" ∷ "last backup" ∷ "backup status" ∷ [];
  steps =
      step "database.get_backup_status" "Checking recent backup history and status." []
      ∷ step "database.get_storage" "Checking available storage for the next backup." []
      ∷ [];
  conclusion_guidance =
      "State the time and status of the most recent full/log backup and whether it's within the expected recovery-point objective for this environment — and do the actual arithmetic: explicitly calculate and state the recovery-point gap (time elapsed since the last successful full backup, and separately since the last successful log/differential backup) against the environment's expected RPO, rather than only reporting whether the most recent job 'succeeded' or 'failed'. If the backup history data returned includes any signal about restore-test history (e.g. a last restore-test timestamp or status), report it; if no such signal is present, say plainly that restore-test history isn't available from this data rather than guessing or omitting it silently. Classify the overall finding with an explicit severity instead of a flat pass/fail: informational (healthy, comfortably within RPO), warning (approaching the RPO boundary, or a single non-critical job failed), high (the RPO is already exceeded, or the full-backup chain is broken), or critical (no successful backup within a large multiple of the RPO, or backups have been failing repeatedly with no current recovery point achievable). State which severity applies and why.";
}
