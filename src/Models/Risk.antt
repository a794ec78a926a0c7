-- ===== src/Models/Risk.antt =====
-- common/models/risk.py
use numi_dba_agent.Common.{ℕ, Bool, List, Eq}

pub data RiskLevel : Type 0 where
  low medium high critical : RiskLevel

pub RiskLevel-discrete : Discrete RiskLevel
RiskLevel-discrete = hlevel

instance abbrev pub risk_level_eq : Eq RiskLevel
risk_level_eq = record { dec = RiskLevel-discrete }

pub data BlastRadius : Type 0 where
  single_query single_session single_object single_database : BlastRadius
  multiple_objects multiple_databases cluster enterprise : BlastRadius

unfoldable pub BlastRadius-discrete : Discrete BlastRadius
BlastRadius-discrete = hlevel

instance abbrev pub blast_radius_eq : Eq BlastRadius
blast_radius_eq = record { dec = BlastRadius-discrete }

pub data ReasonCode : Type 0 where
  production non_production critical_database high_criticality_database : ReasonCode
  write_operation read_operation irreversible availability_impact : ReasonCode
  outside_maintenance_window inside_maintenance_window high_current_load : ReasonCode
  large_blast_radius many_affected_sessions many_affected_objects : ReasonCode
  privileged_operation : ReasonCode

pub ReasonCode-discrete : Discrete ReasonCode
ReasonCode-discrete = hlevel

instance abbrev pub reason_code_eq : Eq ReasonCode
reason_code_eq = record { dec = ReasonCode-discrete }

pub record RiskAssessment : Type 0 where
  pub risk_level : RiskLevel
  pub score : ℕ
  pub blast_radius : BlastRadius
  pub reversible : Bool
  pub availability_impact : Bool
  pub reason_codes : List ReasonCode
