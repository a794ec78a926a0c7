-- ===== src/Models/Target.antt =====
-- common/models/target.py
use numi_dba_agent.Common.{String, Option, Eq}

pub data Environment : Type 0 where
  development uat production : Environment

unfoldable pub Environment-discrete : Discrete Environment
Environment-discrete = hlevel

instance abbrev pub environment_eq : Eq Environment
environment_eq = record { dec = Environment-discrete }

-- `environment.value`
unfoldable pub environment_value : Environment → String
environment_value development = "development"
environment_value uat = "uat"
environment_value production = "production"

pub data Platform : Type 0 where
  sqlserver postgresql mysql oracle mariadb : Platform

-- `platform.value`
abbrev pub platform_value : Platform → String
platform_value sqlserver = "sqlserver"
platform_value postgresql = "postgresql"
platform_value mysql = "mysql"
platform_value oracle = "oracle"
platform_value mariadb = "mariadb"

unfoldable pub Platform-discrete : Discrete Platform
Platform-discrete = hlevel

instance abbrev pub platform_eq : Eq Platform
platform_eq = record { dec = Platform-discrete }

pub record DatabaseTarget : Type 0 where
  pub environment : Environment
  pub platform : Option Platform
  pub cluster : Option String
  pub instance_name : Option String  -- `instance`
  pub database : Option String
  pub schema_name : Option String
  pub object_name : Option String
  pub session_id : Option String
  pub query_id : Option String
