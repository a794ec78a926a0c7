-- ===== src/Agent/Playbooks.antt =====
-- agent/playbooks/library.py: the fixed diagnostic sequences and the keyword matcher.
pub mod Defs
pub mod Activity
pub mod Performance
pub mod Operations
pub mod Reviews
pub mod Steps
use numi_dba_agent.Common.{
  String, Bool, Option, none, some, List, [], ◌∷◌, ◌==◌, string_eq, any, if◌then◌else◌,
}
use numi_dba_agent.Common.Text.{lower, strip}
use numi_dba_agent.Agent.Playbooks.Defs.{Playbook}
use numi_dba_agent.Agent.Playbooks.Activity.{deadlocks, blocking, slow_queries, high_cpu}
use numi_dba_agent.Agent.Playbooks.Performance.{high_memory, connections, replication, backups}
use numi_dba_agent.Agent.Playbooks.Operations.{
  storage, transaction_log, errors, comprehensive_summary,
}
use numi_dba_agent.Agent.Playbooks.Reviews.{general_health, configuration_review}

unfoldable pub playbooks : List Playbook
playbooks =
    deadlocks ∷ blocking ∷ slow_queries ∷ high_cpu ∷ high_memory ∷ connections ∷ replication
    ∷ backups ∷ storage ∷ transaction_log ∷ errors ∷ comprehensive_summary ∷ general_health
    ∷ configuration_review ∷ []

find_playbook : String → List Playbook → Option Playbook
find_playbook id [] = none
find_playbook id (p ∷ ps) = if p.playbook_id == id then some p else find_playbook id ps

-- `playbook_id` may be `None`. The identifiers differ, so the first match is that of `_BY_ID`.
unfoldable pub get_playbook : Option String → Option Playbook
unfolding find_playbook playbooks
get_playbook none = none
get_playbook (some id) = find_playbook id playbooks

-- `found text trigger` is `re.search` for the escaped trigger between word boundaries.
module _ (found : String → String → Bool) where
  first_match : String → List Playbook → Option Playbook
  first_match text [] = none
  first_match text (p ∷ ps) = if any (found text) p.triggers then some p else first_match text ps

  unfoldable pub match_playbook : String → Option Playbook
  unfolding first_match playbooks lower strip string_eq
  match_playbook problem_text =
      let text = lower problem_text in if strip text == "" then none else first_match text playbooks
