-- ===== src/Risk/Bounds.antt =====
-- gateway/domain/risk_engine.py: the range of an assessment, its floor, and what raises it.
use numi_dba_agent.Common.{ℕ, ◌≤◌, String, Bool, false, ◌≡◌, ap, arith}
use numi_dba_agent.Models.Risk.{RiskLevel}
use numi_dba_agent.Models.Target.{Environment, production}
use numi_dba_agent.Models.Tool.{ToolDefinition}
use numi_dba_agent.TargetValidation.{TargetContext}
use numi_dba_agent.Risk.{impactful, raw_score, level_of, level_index, capped, at_least, assess}

-- The score is at most 100, and the level is never below the tool's declared one.
pub assess_bounds :
    (tool : ToolDefinition) (environment : Environment) (ctx : TargetContext) (objects sessions : ℕ)
    (loaded : Bool)
    → let a = assess tool environment ctx objects sessions loaded in
      (a.score ≤ 100) × (level_index tool.risk_level ≤ level_index a.risk_level)
unfolding assess level_index
assess_bounds tool environment ctx objects sessions loaded = (ground arith, ground arith)

capped_mono : (m n : ℕ) → m ≤ n → capped m ≤ capped n
capped_mono m n h = ground arith

at_least_mono :
    (floor a b : RiskLevel)
    → level_index a ≤ level_index b
    → level_index (at_least floor a) ≤ level_index (at_least floor b)
unfolding level_index
at_least_mono floor a b h = ground arith

level_of_mono : (m n : ℕ) → m ≤ n → level_index (level_of m) ≤ level_index (level_of n)
unfolding level_of level_index
level_of_mono m n h = ground arith

raw_score_production :
    (tool : ToolDefinition) (environment : Environment) (c : String) (sessions : ℕ) (loaded : Bool)
    → raw_score tool environment c sessions loaded ≤ raw_score tool production c sessions loaded
unfolding raw_score
raw_score_production tool environment c sessions loaded = ground arith

raw_score_read :
    (tool : ToolDefinition) (e e' : Environment) (c c' : String) (sessions : ℕ) (loaded : Bool)
    → impactful tool ≡ false
    → raw_score tool e c sessions loaded ≡ raw_score tool e' c' sessions loaded
unfolding raw_score
raw_score_read tool e e' c c' sessions loaded h = ground arith

-- In no environment is a call assessed above what it is in production: neither its score nor its
-- level.
pub assess_production :
    (tool : ToolDefinition) (environment : Environment) (ctx : TargetContext) (objects sessions : ℕ)
    (loaded : Bool)
    → let a = assess tool environment ctx objects sessions loaded in
      let p = assess tool production ctx objects sessions loaded in
      (a.score ≤ p.score) × (level_index a.risk_level ≤ level_index p.risk_level)
unfolding assess
assess_production tool environment ctx objects sessions loaded =
    let m = raw_score tool environment ctx.criticality sessions loaded in
    let n = raw_score tool production ctx.criticality sessions loaded in
    let le : capped m ≤ capped n =
      capped_mono m n (raw_score_production tool environment ctx.criticality sessions loaded) in
    (
      le,
      at_least_mono tool.risk_level (level_of (capped m)) (level_of (capped n))
          (level_of_mono (capped m) (capped n) le),
    )

-- A tool that modifies no data and has no impact on availability has the same score and level in
-- every environment and on servers of every criticality.
assess_read :
    (tool : ToolDefinition) (e e' : Environment) (ctx ctx' : TargetContext) (objects sessions : ℕ)
    (loaded : Bool)
    → impactful tool ≡ false
    → let a = assess tool e ctx objects sessions loaded in
      let b = assess tool e' ctx' objects sessions loaded in
      (a.score ≡ b.score) × (a.risk_level ≡ b.risk_level)
unfolding assess
assess_read tool e e' ctx ctx' objects sessions loaded h =
    let same = raw_score_read tool e e' ctx.criticality ctx'.criticality sessions loaded h in
    (ap capped same, ap (λ n. at_least tool.risk_level (level_of (capped n))) same)
