-- ===== src/Models/Identity.antt =====
-- common/models/identity.py
use numi_dba_agent.Common.{
  ℕ, String, Bool, not, Option, none, some, List, [], ◌∷◌, Eq, contains, ltb, is_empty,
  if◌then◌else◌,
}

pub data DbaRole : Type 0 where
  dba_l1 dba_l2 dba_l3 dba_manager : DbaRole

unfoldable pub DbaRole-discrete : Discrete DbaRole
DbaRole-discrete = hlevel

instance abbrev pub dba_role_eq : Eq DbaRole
dba_role_eq = record { dec = DbaRole-discrete }

-- `role.value`
unfoldable pub role_value : DbaRole → String
role_value dba_l1 = "DBA_L1"
role_value dba_l2 = "DBA_L2"
role_value dba_l3 = "DBA_L3"
role_value dba_manager = "DBA_MANAGER"

unfoldable pub role_rank : DbaRole → ℕ
role_rank dba_l1 = 1
role_rank dba_l2 = 2
role_rank dba_l3 = 3
role_rank dba_manager = 4

pub record VerifiedIdentity : Type 0 where
  pub subject_id : String
  pub email : String
  pub display_name : String
  pub enterprise_groups : List String
  pub dba_roles : List DbaRole
  pub mfa_satisfied : Bool
  pub authenticated_at : String

unfoldable pub is_dba : VerifiedIdentity → Bool
is_dba identity = not (is_empty identity.dba_roles)

unfoldable pub has_role : VerifiedIdentity → DbaRole → Bool
has_role identity role = contains identity.dba_roles role

-- `max(best, *roles, key=rank)`: the first of the maximal elements
max_by_rank : DbaRole → List DbaRole → DbaRole
unfolding role_rank
max_by_rank best [] = best
max_by_rank best (r ∷ rs) = max_by_rank (if ltb (role_rank best) (role_rank r) then r else best) rs

highest_of : List DbaRole → Option DbaRole
unfolding max_by_rank
highest_of [] = none
highest_of (r ∷ rs) = some (max_by_rank r rs)

unfoldable pub highest_role : VerifiedIdentity → Option DbaRole
unfolding highest_of
highest_role identity = highest_of identity.dba_roles
