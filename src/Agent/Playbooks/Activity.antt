-- ===== src/Agent/Playbooks/Activity.antt =====
-- agent/playbooks/library.py: the first part of `PLAYBOOKS`, in its order.
use numi_dba_agent.Common.{[], ◌∷◌}
use numi_dba_agent.Models.Json.{str}
use numi_dba_agent.Agent.Playbooks.Defs.{Playbook, step}

abbrev pub deadlocks : Playbook
deadlocks = record {
  playbook_id = "deadlocks";
  name = "Deadlock Investigation";
  description = "A reported deadlock or repeated deadlocking.";
  triggers = "deadlock" ∷ "deadlocks" ∷ "deadlocked" ∷ "deadlocking" ∷ "dead lock" ∷ [];
  steps =
      step "database.get_deadlocks" "Pulling recent deadlock graphs." []
      ∷ step "database.get_blocking_sessions" "Checking for blocking still in progress." []
      ∷ step "database.get_running_queries" "Checking what's running now around the same objects."
          []
      ∷ step "database.get_sessions"
          "Checking session durations for long-running transactions that could be contributing to the lock-acquisition cycle."
          []
      ∷ [];
  conclusion_guidance =
      "Reconstruct the lock-acquisition cycle from the deadlock graph(s): which sessions/queries were involved, what each held and what each was waiting on, and in what order. State which session was chosen as the deadlock victim and whether the same access pattern is still occurring now. Then identify the root-cause category the evidence actually supports, rather than a generic 'a deadlock happened': inconsistent table/object access order across the competing transactions, a missing index forcing a broader scan-and-lock footprint than necessary, a long-running transaction (check session durations) holding locks longer than needed, a large batch operation or lock escalation turning many row locks into a table lock, an isolation level stricter than the workload needs, a trigger or foreign-key check acquiring an additional unexpected lock, or a maintenance operation contending with normal traffic. If more than one deadlock graph was returned, note how often this pattern is recurring and whether it clusters around a particular time. Recommend a fix that matches the actual root cause — consistent access order, an index, smaller transactions/batches, application-level retry handling, an isolation-level review, or separating conflicting workloads — rather than generic advice.";
}

abbrev pub blocking : Playbook
blocking = record {
  playbook_id = "blocking";
  name = "Blocking / Locking Investigation";
  description = "Sessions blocked, stuck, or waiting on locks.";
  triggers =
      "blocking" ∷ "blocked" ∷ "block chain" ∷ "locking" ∷ "lock wait" ∷ "stuck" ∷ "hanging"
      ∷ "won't complete" ∷ "not completing" ∷ [];
  steps =
      step "database.get_blocking_sessions" "Mapping the current blocking chain." []
      ∷ step "database.get_running_queries"
          "Checking what the head blocker and waiters are running." []
      ∷ step "database.get_wait_statistics"
          "Checking whether lock waits dominate overall wait time." []
      ∷ step "database.get_sessions" "Checking how long the blocking session has been open." []
      ∷ [];
  conclusion_guidance =
      "Identify the head blocker (session, query, how long it's held the lock) and who's waiting on it. Classify what the head blocker actually is, not just that it's blocking: an active/long-running query, an idle-in-transaction session (its statement finished but the transaction was never committed/rolled back), a large batch operation, a reporting query, a DDL statement, a maintenance operation, a replication/log-shipping process, or unknown if the evidence doesn't clearly say. Quantify the impact: how many sessions are blocked, the longest single wait, and whether the chain is static or spreading (more waiters appearing behind the same head blocker). Then test — not just narrate — the plausible hypotheses against the evidence actually gathered: a long-running transaction holding locks past when they were needed, a missing index forcing broader locking, lock escalation to a table-level lock, DDL contention (a schema change blocking readers/writers), an isolation level stricter than necessary, an application connection/transaction leak (a session left open after its work finished), a large batch operation, or a broader infrastructure slowdown making every query — including the blocker itself — run long. State which hypothesis the evidence supports and which it rules out. Recommend cancelling the blocking query or killing the session only if it's clearly safe to do so — never propose it as the only option without saying what it would affect.";
}

abbrev pub slow_queries : Playbook
slow_queries = record {
  playbook_id = "slow_queries";
  name = "Slow Query Investigation";
  description = "Queries or the database generally running slower than expected.";
  triggers =
      "slow" ∷ "slowness" ∷ "slow query" ∷ "slow queries" ∷ "performance issue" ∷ "taking too long"
      ∷ "timing out" ∷ "timeout" ∷ "high latency" ∷ "latency" ∷ "queries are slow" ∷ "query is slow"
      ∷ "running slow" ∷ [];
  steps =
      step "database.get_health" "Establishing a baseline health snapshot." []
      ∷ step "database.get_running_queries" "Checking what's executing right now." []
      ∷ step "database.get_top_queries" "Ranking queries by duration."
          (("order_by", str "duration") ∷ [])
      ∷ step "database.get_wait_statistics" "Checking what the engine is spending time waiting on."
          []
      ∷ step "database.get_blocking_sessions" "Ruling out blocking as the cause." []
      ∷ [];
  conclusion_guidance =
      "Name the specific query/queries responsible if the evidence points to one, and whether the cause looks like a missing index, stale statistics, blocking, or resource pressure (CPU/waits) rather than the query itself. Avoid introspection/system-catalog queries when picking 'the' slow query — THIS IS VERY IMPORTANT: a top-ranked row against the engine's own catalog/metadata views (Postgres: pg_catalog, information_schema; SQL Server: sys.*, INFORMATION_SCHEMA; MySQL/MariaDB: information_schema, performance_schema, mysql) is noise from monitoring/introspection, almost never the reported slowness, and must not be named as the root cause.";
}

abbrev pub high_cpu : Playbook
high_cpu = record {
  playbook_id = "high_cpu";
  name = "High CPU Investigation";
  description = "Elevated or spiking CPU usage on the instance.";
  triggers =
      "cpu" ∷ "high cpu" ∷ "cpu spike" ∷ "cpu usage" ∷ "cpu utilization" ∷ "processor usage" ∷ [];
  steps =
      step "database.get_health" "Establishing a CPU/resource baseline." []
      ∷ step "database.get_top_queries" "Ranking queries by CPU consumption."
          (("order_by", str "cpu") ∷ [])
      ∷ step "database.get_running_queries" "Checking what's currently executing." []
      ∷ step "database.get_wait_statistics" "Checking for CPU-related (signal) waits." []
      ∷ [];
  conclusion_guidance =
      "Name the query/queries driving CPU if the evidence points to one or a small number, and whether this looks like a single runaway query, a plan regression, or broad concurrent load. Avoid introspection/system-catalog queries when picking 'the' hot query — THIS IS VERY IMPORTANT: a top-ranked row against the engine's own catalog/metadata views (Postgres: pg_catalog, information_schema; SQL Server: sys.*, INFORMATION_SCHEMA; MySQL/MariaDB: information_schema, performance_schema, mysql) is noise from monitoring/introspection, almost never the reported CPU driver, and must not be named as the root cause.";
}
