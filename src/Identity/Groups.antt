-- ===== src/Identity/Groups.antt =====
-- common/identity/provider.py: `GroupRoleMapping`, and the directory of `MockIdentityProvider`.
use numi_dba_agent.Common.{
  String, Bool, true, not, Option, none, some, List, [], ◌∷◌, ◌≡◌, ◌==◌, contains, string_eq,
  option_eq, any, arith, if◌then◌else◌,
}
use numi_dba_agent.Common.Dict
use numi_dba_agent.Common.Dict.{Dict}
use numi_dba_agent.Models.Identity.{DbaRole, VerifiedIdentity}

pub record GroupRoleMapping : Type 0 where
  pub dba_team_groups : List String
  pub role_group_map : Dict DbaRole (List String)

-- the two sets have an element in common
unfoldable pub meets : List String → List String → Bool
unfolding string_eq
meets xs ys = any (contains ys) xs

roles_of : List String → Dict DbaRole (List String) → List DbaRole
unfolding meets
roles_of groups [] = []
roles_of groups ((role, required) ∷ map) =
    let rest = roles_of groups map in if meets groups required then role ∷ rest else rest

unfoldable pub derive_roles : GroupRoleMapping → List String → List DbaRole
unfolding roles_of meets
derive_roles mapping groups =
    if not (meets groups mapping.dba_team_groups)
    then []
    else roles_of groups mapping.role_group_map

-- Only a member of the DBA team's groups has a role.
pub derive_roles-cons :
    (mapping : GroupRoleMapping) (groups : List String) {role : DbaRole} {others : List DbaRole}
    → derive_roles mapping groups ≡ role ∷ others
    → meets groups mapping.dba_team_groups ≡ true
unfolding derive_roles
derive_roles-cons mapping groups h = ground arith

pub record DirectoryEntry : Type 0 where
  pub subject_id : String
  pub email : String
  pub display_name : String
  pub channel_accounts : Dict String String
  pub groups : List String
  pub mfa : Bool

-- `now` is the time as a text
entry_identity : GroupRoleMapping → String → DirectoryEntry → VerifiedIdentity
unfolding derive_roles
entry_identity mapping now entry = record {
  subject_id = entry.subject_id;
  email = entry.email;
  display_name = entry.display_name;
  enterprise_groups = entry.groups;
  dba_roles = derive_roles mapping entry.groups;
  mfa_satisfied = entry.mfa;
  authenticated_at = now;
}

module _ (mapping : GroupRoleMapping) (now : String) where
  -- `MockIdentityProvider.resolve_by_external_account`
  unfoldable pub find_account : List DirectoryEntry → String → String → Option VerifiedIdentity
  unfolding entry_identity string_eq Dict.get
  find_account [] channel account = none
  find_account (e ∷ entries) channel account =
      let rest = find_account entries channel account in
      if Dict.get e.channel_accounts channel == some account
      then some (entry_identity mapping now e)
      else rest

  -- `MockIdentityProvider.refresh`
  unfoldable pub find_subject : List DirectoryEntry → String → Option VerifiedIdentity
  unfolding entry_identity string_eq
  find_subject [] subject_id = none
  find_subject (e ∷ entries) subject_id =
      let rest = find_subject entries subject_id in
      if e.subject_id == subject_id then some (entry_identity mapping now e) else rest
