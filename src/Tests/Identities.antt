-- ===== src/Tests/Identities.antt =====
-- A directory that knows one account, asked for it; and a value that tries to leave its quotes.
use Prim.Native.String as Text
use numi_dba_agent.Common.{String, true, false, none, some, [], ◌∷◌, ◌≡◌, refl, string_eq}
use numi_dba_agent.Common.Dict
use numi_dba_agent.Common.Exec.{ok, err}
use numi_dba_agent.Common.Text.{strip}
use numi_dba_agent.Models.Identity.{VerifiedIdentity, dba_l2}
use numi_dba_agent.Models.Json.{Json, str, bool, arr, obj, nil, cons, end, field}
use numi_dba_agent.Identity.Scim.{
  scim_string_literal, read_literal, read_literal-scim_string_literal,
}
use numi_dba_agent.Identity.Oidc.{
  Network, Config, Cache, directory_get, to_identity, resolve_by_external_account,
}
use numi_dba_agent.Identity.Oidc.Proven.{Names, filter_for, resolve_by_external_account-Names}

read_literal-scim_string_literal_example :
    read_literal (Text.◌++◌ (scim_string_literal "U1\" or \"\\") " and active")
    ≡ some ("U1\" or \"\\", " and active")
read_literal-scim_string_literal_example =
    read_literal-scim_string_literal "U1\" or \"\\" " and active"

abbrev account : Json
account = obj (
    field "id" (str "ana")
      (field "groups" (arr (cons (str "dba-team") nil)) (field "active" (bool true) end)))

abbrev network : Network (Unit {0})
network = record {
  get = λ url headers params w. (
    ok (record {
      is_found = true;
      is_success = true;
      body = ok (obj (field "Resources" (arr (cons account nil)) end));
    }),
    w,
  );
  post = λ url form w. (err "offline", w);
  monotonic = λ w. 5;
  iso_now = λ w. "2026-01-01T00:00:00+00:00";
  text = λ v. "";
  lifetime = λ v. ok 0;
}

abbrev config : Config
config = record {
  issuer = "https://id.example.com";
  client_id = "numi";
  client_secret = "secret";
  roles = record {
    dba_team_groups = "dba-team" ∷ [];
    role_group_map = (dba_l2, "dba-team" ∷ []) ∷ [];
  };
  directory_endpoint = "https://id.example.com/scim/Users";
  channel_attributes = ("slack", "slackId") ∷ [];
  groups_attribute = "groups";
  mfa_attribute = "mfaEnrolled";
  scopes = "";
}

-- a token that is still valid
abbrev cache : Cache (Unit {0})
cache = record { discovery = none; access_token = some "token"; expires_at = 9; world = tt }

abbrev ana_of_directory : VerifiedIdentity
ana_of_directory = record {
  subject_id = "ana";
  email = "";
  display_name = "";
  enterprise_groups = "dba-team" ∷ [];
  dba_roles = dba_l2 ∷ [];
  mfa_satisfied = false;
  authenticated_at = "2026-01-01T00:00:00+00:00";
}

resolve_by_external_account-Names_example :
    (attribute : String) × (Dict.get config.channel_attributes "slack" ≡ some attribute)
    × Names network config
        (directory_get network config config.directory_endpoint
          (filter_for attribute (strip "U1"))
          cache).0
        ana_of_directory
unfolding resolve_by_external_account to_identity directory_get
resolve_by_external_account-Names_example =
    resolve_by_external_account-Names network config "slack" "U1" cache ana_of_directory refl
