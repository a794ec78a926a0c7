-- ===== src/Risk.antt =====
-- gateway/domain/risk_engine.py
pub mod Bounds
use numi_dba_agent.Common.{
  ℕ, ◌+◌, String, Bool, true, false, not, ◌&&◌, ◌||◌, Option, none, some, List, [], ◌∷◌, ◌++◌, ◌==◌,
  string_eq, ltb, leb, if◌then◌else◌,
}
use numi_dba_agent.Common.Dict
use numi_dba_agent.Common.Dict.{Dict}
use numi_dba_agent.Models.Risk
use numi_dba_agent.Models.Risk.{
  RiskLevel, low, medium, high, critical, BlastRadius, blast_radius_eq, single_query,
  single_session, single_object, single_database, multiple_objects, multiple_databases, cluster,
  enterprise, ReasonCode, non_production, critical_database, high_criticality_database,
  write_operation, read_operation, irreversible, availability_impact, high_current_load,
  large_blast_radius, many_affected_sessions, many_affected_objects, privileged_operation,
  RiskAssessment,
}
use numi_dba_agent.Models.Target.{Environment, production, environment_eq}
use numi_dba_agent.Models.Tool.{ToolDefinition, privileged, operation_type_eq}
use numi_dba_agent.TargetValidation.{TargetContext}

-- `_BASE_SCORE`
unfoldable pub base_score : RiskLevel → ℕ
base_score low = 10
base_score medium = 35
base_score high = 60
base_score critical = 85

abbrev tool_blast_radius : Dict String BlastRadius
tool_blast_radius =
    ("database.cancel_query", single_query)
    ∷ ("database.kill_session", single_session)
    ∷ ("database.update_statistics", single_object)
    ∷ ("database.create_index", single_object)
    ∷ ("database.rebuild_index", single_object)
    ∷ ("database.modify_configuration", single_database)
    ∷ ("database.restart_instance", single_database)
    ∷ ("database.failover", cluster)
    ∷ ("database.execute_sql", single_object)
    ∷ ("database.execute_readonly_sql", single_query)
    ∷ ("database.restore_database", single_database)
    ∷ ("database.create_database", single_database)
    ∷ ("database.drop_database", single_database)
    ∷ ("database.truncate_table", single_object)
    ∷ ("database.bulk_delete", single_object)
    ∷ []

-- `_CRITICALITY_POINTS.get(criticality, 0)`
unfoldable pub criticality_points : String → ℕ
criticality_points c =
    if c == "critical" then 20 else if c == "high" then 12 else if c == "standard" then 4 else 0

abbrev or_single_object : Option BlastRadius → BlastRadius
or_single_object none = single_object
or_single_object (some b) = b

-- `_TOOL_BLAST_RADIUS.get(tool_id, SINGLE_OBJECT)`
unfoldable pub declared_radius : String → BlastRadius
declared_radius tool_id = or_single_object (Dict.get tool_blast_radius tool_id)

-- `points` where the test holds
abbrev pub points : Bool → ℕ → ℕ
points true n = n
points false n = 0

abbrev pub when : Bool → ReasonCode → List ReasonCode
when true reason = reason ∷ []
when false reason = []

abbrev pub impactful : ToolDefinition → Bool
impactful tool = tool.data_modification || tool.availability_impact

-- the sum before it is cut to 0..100
unfoldable pub raw_score : ToolDefinition → Environment → String → ℕ → Bool → ℕ
raw_score tool environment criticality affected_session_count current_load_critical =
    base_score tool.risk_level
    + points (environment == production && impactful tool) 15
    + (if impactful tool then criticality_points criticality else 0)
    + points tool.data_modification 10
    + points (not tool.reversible) 15
    + points tool.availability_impact 10
    + points (ltb 10 affected_session_count) 5
    + points current_load_critical 10

abbrev pub capped : ℕ → ℕ
capped score = if ltb score 100 then score else 100

unfoldable pub level_of : ℕ → RiskLevel
level_of score =
    if leb 85 score
    then critical
    else if leb 60 score
    then high
    else if leb 30 score
    then medium
    else low

-- `order.index(level)`
unfoldable pub level_index : RiskLevel → ℕ
level_index low = 0
level_index medium = 1
level_index high = 2
level_index critical = 3

abbrev pub at_least : RiskLevel → RiskLevel → RiskLevel
at_least floor level = if ltb (level_index level) (level_index floor) then floor else level

abbrev spreads : BlastRadius → Bool
spreads single_object = true
spreads single_database = true
spreads _ = false

abbrev is_large : BlastRadius → Bool
is_large cluster = true
is_large enterprise = true
is_large multiple_databases = true
is_large _ = false

unfoldable pub assess : ToolDefinition → Environment → TargetContext → ℕ → ℕ → Bool → RiskAssessment
assess tool environment ctx affected_object_count affected_session_count current_load_critical =
    let score =
      capped
        (raw_score tool environment ctx.criticality affected_session_count current_load_critical) in
    let declared = declared_radius tool.tool_id in
    let many = ltb 1 affected_object_count && spreads declared in
    let blast_radius = if many then multiple_objects else declared in
    record {
      risk_level = at_least tool.risk_level (level_of score);
      score = score;
      blast_radius = blast_radius;
      reversible = tool.reversible;
      availability_impact = tool.availability_impact;
      reason_codes =
          (if environment == production then Risk.ReasonCode.production else non_production)
          ∷ (when (ctx.criticality == "critical") critical_database
              ++ (when (not (ctx.criticality == "critical") && ctx.criticality == "high")
                    high_criticality_database
                  ++ ((if tool.data_modification then write_operation else read_operation)
                      ∷ (when (not tool.reversible) irreversible
                          ++ (when tool.availability_impact availability_impact
                              ++ (when many many_affected_objects
                                  ++ (when (ltb 10 affected_session_count) many_affected_sessions
                                      ++ (when current_load_critical high_current_load
                                          ++ (when (tool.operation_type == privileged)
                                                privileged_operation
                                              ++ when (is_large blast_radius)
                                                  large_blast_radius)))))))));
    }
