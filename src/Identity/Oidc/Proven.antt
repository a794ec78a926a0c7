-- ===== src/Identity/Oidc/Proven.antt =====
-- common/identity/oidc_provider.py: an identity that the provider hands out was proven by the
-- directory.
use numi_dba_agent.Common.{
  String, true, false, Option, none, some, List, [], ◌∷◌, ◌≡◌, refl, inl, inr, Bool-cases, ◌==◌,
  string_eq, ◌||◌, arith,
}
use numi_dba_agent.Common.Dict
use numi_dba_agent.Common.Exec.{Result, ok, err}
use numi_dba_agent.Common.Format.{concat}
use numi_dba_agent.Common.Text.{strip}
use numi_dba_agent.Models.Identity.{DbaRole, VerifiedIdentity}
use numi_dba_agent.Models.Json.{Json, null, bool, num, str, arr, obj, nil, cons, truthy, given}
use numi_dba_agent.Models.JsonAccess.{json_get}
use numi_dba_agent.Identity.Groups.{meets, derive_roles-cons}
use numi_dba_agent.Identity.Scim.{scim_string_literal}
use numi_dba_agent.Identity.Oidc.{
  Network, Config, Cache, groups_of, is_inactive, or_missing, identity_of, active_identity,
  to_identity, single, from_payload, look_up, directory_get, resolve_by_external_account,
}

-- the question: the accounts whose attribute for the channel has the value
abbrev pub filter_for : String → String → Dict.Dict String String
filter_for attribute account =
    ("filter", concat (attribute ∷ " eq " ∷ scim_string_literal account ∷ [])) ∷ []

module _ {World : Type 0} (network : Network World) (config : Config) where
  -- The account of the directory that an identity is made of: it is not inactive and has an
  -- identifier, the groups are the account's, and roles are held only in the DBA team.
  pub record IsAccountOf (user : Json) (identity : VerifiedIdentity) : Type 0 where
    pub active : is_inactive (json_get "active" user) ≡ false
    pub identified : (id : Json) × (json_get "id" user ≡ some id) × (truthy id ≡ true)
    pub groups : identity.enterprise_groups ≡ groups_of config user
    pub roles :
        (role : DbaRole) (others : List DbaRole)
        → identity.dba_roles ≡ role ∷ others
        → meets (groups_of config user) config.roles.dba_team_groups ≡ true

  or_missing-some :
      (o : Option Json) (v : Json) → or_missing o ≡ some v → (o ≡ some v) × (truthy v ≡ true)
  or_missing-some none v h = absurd (cc)
  or_missing-some (some x) v h = ground arith

  active_identity-IsAccountOf :
      (o : Option Json) (user : Json) (w : World) (identity : VerifiedIdentity)
      → or_missing (json_get "id" user) ≡ o
      → active_identity network config o user w ≡ some identity
      → IsAccountOf user identity
  unfolding active_identity identity_of
  active_identity-IsAccountOf none user w identity e h = absurd (cc)
  active_identity-IsAccountOf (some id) user w identity e h =
      elim (Bool-cases (is_inactive (json_get "active" user))) [
        | inl inactive ↦ absurd (ground arith)
        | inr active ↦ record {
          active = active;
          identified = (
            id,
            (or_missing-some (json_get "id" user) id e).0,
            (or_missing-some (json_get "id" user) id e).1,
          );
          groups = ground arith;
          roles = λ role others held.
              derive_roles-cons config.roles (groups_of config user) {role = role} {others = others}
                (ground arith);
        }
      ]

  to_identity-IsAccountOf :
      (user : Json) (w : World) (identity : VerifiedIdentity)
      → to_identity network config user w ≡ some identity
      → IsAccountOf user identity
  unfolding to_identity
  to_identity-IsAccountOf null w identity h = absurd (cc)
  to_identity-IsAccountOf (bool b) w identity h = absurd (cc)
  to_identity-IsAccountOf (num t) w identity h = absurd (cc)
  to_identity-IsAccountOf (str t) w identity h = absurd (cc)
  to_identity-IsAccountOf (arr items) w identity h = absurd (cc)
  to_identity-IsAccountOf (obj fields) w identity h =
      active_identity-IsAccountOf _ (obj fields) w identity refl h

  -- one resource, and no more
  single-IsAccountOf :
      (o : Option Json) (w : World) (identity : VerifiedIdentity)
      → single network config o w ≡ some identity
      → (user : Json) × (o ≡ some (arr (cons user nil))) × IsAccountOf user identity
  unfolding single
  single-IsAccountOf none w identity h = absurd (cc)
  single-IsAccountOf (some null) w identity h = absurd (cc)
  single-IsAccountOf (some (bool b)) w identity h = absurd (cc)
  single-IsAccountOf (some (num t)) w identity h = absurd (cc)
  single-IsAccountOf (some (str t)) w identity h = absurd (cc)
  single-IsAccountOf (some (obj fields)) w identity h = absurd (cc)
  single-IsAccountOf (some (arr nil)) w identity h = absurd (cc)
  single-IsAccountOf (some (arr (cons user nil))) w identity h =
      (user, refl, to_identity-IsAccountOf user w identity h)
  single-IsAccountOf (some (arr (cons user (cons other items)))) w identity h = absurd (cc)

  -- what the directory answered names one account, and the identity is that account's
  abbrev pub Names : Result String (Option Json) → VerifiedIdentity → Type 0
  Names answer identity =
      (payload : Json) × (user : Json) × (answer ≡ ok (some payload))
      × (json_get "Resources" payload ≡ some (arr (cons user nil)))
      × IsAccountOf user identity

  from_payload-Names :
      (answer : Result String (Option Json)) (w : World) (identity : VerifiedIdentity)
      → from_payload network config answer w ≡ some identity
      → Names answer identity
  unfolding from_payload
  from_payload-Names (ok (some payload)) w identity h =
      let (user, one, account) = single-IsAccountOf (json_get "Resources" payload) w identity h in
      (payload, user, refl, one, account)
  from_payload-Names (ok none) w identity h = absurd (cc)
  from_payload-Names (err text) w identity h = absurd (cc)

  look_up-Names :
      (account : String) (o : Option String) (s : Cache World) (identity : VerifiedIdentity)
      → (look_up network config account o s).0 ≡ some identity
      → (attribute : String) × (o ≡ some attribute)
        × Names
            (directory_get network config config.directory_endpoint
              (filter_for attribute account)
              s).0
            identity
  unfolding look_up
  look_up-Names account none s identity h = absurd (cc)
  look_up-Names account (some attribute) s identity h = elim (Bool-cases (given (some attribute))) [
    | inl g ↦ (attribute, refl, from_payload-Names _ _ identity (rw g at h))
    | inr g ↦ absurd (ground arith)
  ]

  -- Whoever an account of a channel is resolved to: the directory, asked through the attribute that is
  -- configured for the channel for the account's name, answered with exactly one resource. It is not
  -- inactive and has an identifier, the identity has its groups, and if the identity has a role, one of
  -- the groups is of the DBA team.
  pub resolve_by_external_account-Names :
      (channel account : String) (s : Cache World) (identity : VerifiedIdentity)
      → (resolve_by_external_account network config channel account s).0 ≡ some identity
      → (attribute : String) × (Dict.get config.channel_attributes channel ≡ some attribute)
        × Names
            (directory_get network config config.directory_endpoint
              (filter_for attribute (strip account))
              s).0
            identity
  unfolding resolve_by_external_account
  resolve_by_external_account-Names channel account s identity h =
      elim (Bool-cases (config.directory_endpoint == "" || strip account == "")) [
        | inl unset ↦ absurd (ground arith)
        | inr set ↦ look_up-Names (strip account) _ s identity (rw set at h)
      ]
