-- ===== src/Agent/Playbooks/Reviews.antt =====
-- agent/playbooks/library.py: the last part of `PLAYBOOKS`, in its order.
use numi_dba_agent.Common.{[], ◌∷◌}
use numi_dba_agent.Agent.Playbooks.Defs.{Playbook, step}

abbrev pub general_health : Playbook
general_health = record {
  playbook_id = "general_health";
  name = "General Health Check";
  description = "A general request to check overall health/status, not a specific symptom.";
  triggers =
      "health check" ∷ "how is" ∷ "how's" ∷ "overall status" ∷ "general status" ∷ "status check"
      ∷ "how is it doing" ∷ "how's it doing" ∷ "everything okay" ∷ "everything ok" ∷ [];
  steps =
      step "database.get_health" "Checking overall instance/database health." []
      ∷ step "database.get_running_queries" "Checking current activity." []
      ∷ step "database.get_wait_statistics" "Checking dominant wait types." []
      ∷ step "database.get_storage" "Checking storage headroom." []
      ∷ [];
  conclusion_guidance =
      "Give a concise overall status and call out anything that stood out, even if nothing looks urgent. Classify the overall finding with one explicit status word — healthy, informational, warning, high, critical, or unknown (use unknown only when the diagnostics themselves failed or returned unusable data, never as a hedge when they succeeded) — rather than a loose narrative. Crucially: an all-clear answer must look just as complete and confident as a problem answer, never vaguer or shorter just because nothing was wrong — a DBA reading the reply should not be able to tell, from how thin it is, whether things were actually checked and found fine versus not checked carefully. State plainly what was checked (current activity, dominant wait types, storage headroom) and that nothing concerning was found there, rather than a one-line 'looks fine'.";
}

abbrev pub configuration_review : Playbook
configuration_review = record {
  playbook_id = "configuration_review";
  name = "Configuration Tuning Review";
  description =
      "A proactive review of server/database configuration for common, rule-of-thumb misconfigurations — not a request tied to a specific symptom. Scoped honestly: this flags settings that look clearly unreasonable by common rule-of-thumb ranges and obvious misconfigurations, not true capacity-based sizing (Numi's server registry has no instance-class/hardware-sizing data to size against).";
  triggers =
      "tune" ∷ "tuning" ∷ "configuration review" ∷ "review settings" ∷ "optimize configuration"
      ∷ "recommend settings" ∷ "config recommendations" ∷ "are our settings okay" ∷ [];
  steps =
      step "database.get_configuration" "Pulling current server/database configuration parameters."
        []
      ∷ step "database.get_health"
          "Establishing a baseline (connection count, size, uptime) to contextualize the settings."
          []
      ∷ [];
  conclusion_guidance =
      "This is a rule-of-thumb review, not a capacity-sized recommendation — be explicit that no instance-class/hardware (CPU/RAM) data was available to size against, so never claim a setting is 'correctly sized for this hardware'; only flag values that look clearly unreasonable or left at an obvious default. Weigh the parameters relevant to whichever engine actually responded: Postgres — shared_buffers, effective_cache_size, work_mem, maintenance_work_mem, wal_buffers, checkpoint_completion_target, max_connections, default_statistics_target, random_page_cost, effective_io_concurrency, min_wal_size/max_wal_size, max_worker_processes, max_parallel_workers(_per_gather). SQL Server — 'max server memory (MB)'/'min server memory (MB)', 'max degree of parallelism', 'cost threshold for parallelism', and the max-connections-equivalent ('user connections'). MySQL/MariaDB — innodb_buffer_pool_size, innodb_log_file_size, max_connections, tmp_table_size/max_heap_table_size, innodb_flush_log_at_trx_commit, thread_cache_size. Cross-check against get_health's own numbers (e.g. active_connections vs. max_connections) where relevant, and say plainly when nothing looks obviously misconfigured rather than manufacturing tuning advice from reasonable-looking defaults.";
}
