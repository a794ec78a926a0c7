-- ===== src/Identity/Oidc.antt =====
-- common/identity/oidc_provider.py: `OIDCIdentityProvider`, which asks a company's directory who a
-- message comes from. The network and the clock are parameters; what fails on the way is an exception,
-- by a text that is only logged.
pub mod Proven
use numi_dba_agent.Common.{
  ℕ, ◌+◌, ◌-◌, String, Bool, true, false, not, ◌&&◌, ◌||◌, Option, none, some, List, [], ◌∷◌, ◌==◌,
  contains, string_eq, ℕ_discrete, ltb, if◌then◌else◌,
}
use numi_dba_agent.Common.Dict
use numi_dba_agent.Common.Dict.{Dict}
use numi_dba_agent.Common.Exec.{Result, ok, err, Exec, ◌>>=◌, ◌>>◌, lift, raise, gets, modify, pure}
use numi_dba_agent.Common.Format.{concat}
use numi_dba_agent.Common.Text.{lower, strip}
use numi_dba_agent.Models.Identity.{VerifiedIdentity}
use numi_dba_agent.Models.Json.{
  Json, null, bool, num, str, arr, obj, Items, nil, cons, truthy, given,
}
use numi_dba_agent.Models.JsonAccess.{json_get}
use numi_dba_agent.Identity.Groups.{GroupRoleMapping, derive_roles}
use numi_dba_agent.Identity.Scim.{scim_string_literal}

-- 30 and 300 seconds
abbrev token_expiry_skew : ℕ
token_expiry_skew = 30000000

abbrev default_token_lifetime : ℕ
default_token_lifetime = 300000000

-- the body is read by `response.json()`, which may raise
pub record Response : Type 0 where
  pub is_found : Bool  -- the status is not 404
  pub is_success : Bool  -- the status is 200
  pub body : Result String Json

-- `text` is `str` of a JSON value, `lifetime` is `float`, in microseconds.
pub record Network (World : Type 0) : Type 0 where
  pub get :
      String → Dict String String → Dict String String → World → Result String Response × World
  pub post : Json → Dict String String → World → Result String Response × World
  pub monotonic : World → ℕ
  pub iso_now : World → String
  pub text : Json → String
  pub lifetime : Json → Result String ℕ

pub record Config : Type 0 where
  pub issuer : String
  pub client_id : String
  pub client_secret : String
  pub roles : GroupRoleMapping
  pub directory_endpoint : String
  pub channel_attributes : Dict String String
  pub groups_attribute : String
  pub mfa_attribute : String
  pub scopes : String

-- what the provider keeps from call to call
pub record Cache (World : Type 0) : Type 0 where
  pub discovery : Option Json
  pub access_token : Option String
  pub expires_at : ℕ
  pub world : World

-- `x if isinstance(x, dict) else None`, and `dict.get` of it
abbrev as_dict : Json → Option Json
as_dict (obj fields) = some (obj fields)
as_dict v = none

-- `user.get(a) or ...`
abbrev or_missing : Option Json → Option Json
or_missing none = none
or_missing (some v) = if truthy v then some v else none

first_of : Option Json → Option Json → Option Json
first_of (some a) b = some a
first_of none b = b

add_text : Option Json → List String → List String
add_text (some (str s)) names = s ∷ names
add_text v names = names

group_names : Items → List String
unfolding first_of add_text json_get truthy
group_names nil = []
group_names (cons (str s) items) = s ∷ group_names items
group_names (cons (obj fields) items) =
    add_text
      (first_of (or_missing (json_get "display" (obj fields))) (json_get "value" (obj fields)))
      (group_names items)
group_names (cons v items) = group_names items

groups_in : Option Json → List String
unfolding group_names
groups_in (some (arr items)) = group_names items
groups_in v = []

-- `_groups_of`
unfoldable pub groups_of : Config → Json → List String
unfolding groups_in json_get
groups_of config user = groups_in (json_get config.groups_attribute user)

-- the first entry that has a value, and is primary if that is asked
abbrev is_set : Option Json → Bool
is_set none = false
is_set (some v) = truthy v

email_entry : Bool → Items → Option Json
unfolding json_get truthy
email_entry primary nil = none
email_entry primary (cons (obj fields) items) =
    let rest = email_entry primary items in
    if (not primary || is_set (json_get "primary" (obj fields)))
      && is_set (json_get "value" (obj fields))
    then json_get "value" (obj fields)
    else rest
email_entry primary (cons v items) = email_entry primary items

module _ (text : Json → String) where
  -- `str(value)`; a text is itself
  shown : Json → String
  shown (str s) = s
  shown v = text v

  text_or_empty : Option Json → String
  unfolding shown
  text_or_empty none = ""
  text_or_empty (some v) = shown v

  email_in : Option Json → Json → String
  unfolding first_of email_entry text_or_empty json_get truthy
  email_in (some (str s)) user = s
  email_in (some (arr items)) user = text_or_empty (
      first_of (email_entry true items)
        (first_of (email_entry false items) (or_missing (json_get "userName" user))))
  email_in v user = text_or_empty (or_missing (json_get "userName" user))

  -- `_email_of`
  email_of : Json → String
  unfolding email_in json_get
  email_of user = email_in (json_get "emails" user) user

  -- a text that is not empty
  non_empty : Option Json → Option Json
  unfolding truthy
  non_empty (some (str s)) = or_missing (some (str s))
  non_empty v = none

  formatted_name : Option Json → Option Json
  unfolding non_empty json_get
  formatted_name (some (obj fields)) = non_empty (json_get "formatted" (obj fields))
  formatted_name v = none

  -- `_display_name_of`
  display_name_of : Json → String
  unfolding text_or_empty first_of non_empty formatted_name json_get
  display_name_of user = text_or_empty (
      first_of (non_empty (json_get "displayName" user))
        (first_of (formatted_name (json_get "name" user)) (or_missing (json_get "userName" user))))

mfa_in : Option Json → Bool
unfolding lower strip string_eq
mfa_in (some (bool b)) = b
mfa_in (some (str s)) = contains ("true" ∷ "yes" ∷ "1" ∷ []) (lower (strip s))
mfa_in v = false

-- `user.get("active") is False`
abbrev pub is_inactive : Option Json → Bool
is_inactive (some (bool false)) = true
is_inactive v = false

module _ {World : Type 0} (network : Network World) (config : Config) where
  abbrev pub Call : Type 0 → Type 0
  Call A = Exec String (Cache World) A

  fetch : String → Dict String String → Dict String String → Call Response
  fetch url headers params s =
      let (r, w) = network.get url headers params s.world in (r, record s { world = w })

  send : Json → Dict String String → Call Response
  send url form s = let (r, w) = network.post url form s.world in (r, record s { world = w })

  -- the discovery document is fetched once
  keep_discovery : Json → Call Json
  keep_discovery (obj fields) s = (ok (obj fields), record s { discovery = some (obj fields) })
  keep_discovery v s = (err "OIDC discovery document was not a JSON object", s)

  fetch_discovery : Call Json
  unfolding fetch keep_discovery concat
  fetch_discovery = do
    response ← fetch (concat (config.issuer ∷ "/.well-known/openid-configuration" ∷ [])) [] []
    (if response.is_success
        then lift response.body >>= keep_discovery
        else raise "OIDC discovery failed")

  discovery_document : Call Json
  unfolding fetch_discovery
  discovery_document s = elim s.discovery [
    | some document ↦ (ok document, s)
    | none ↦ fetch_discovery s
  ]

  form : Dict String String
  unfolding string_eq
  form =
      ("grant_type", "client_credentials")
      ∷ ("client_id", config.client_id)
      ∷ ("client_secret", config.client_secret)
      ∷ (if config.scopes == "" then [] else ("scope", config.scopes) ∷ [])

  lifetime_of : Option Json → Result String ℕ
  lifetime_of none = ok default_token_lifetime
  lifetime_of (some v) = network.lifetime v

  keep_token : ℕ → Option Json → Json → Call String
  unfolding lifetime_of shown json_get truthy
  keep_token now none payload = raise "OIDC token response carried no access_token"
  keep_token now (some token) payload = do
    lifetime ← lift (lifetime_of (or_missing (json_get "expires_in" payload)))
    modify (λ (s : Cache World). record s {
      access_token = some (shown network.text token);
      expires_at = now + (lifetime - token_expiry_skew);
    })
    pure (shown network.text token)

  ask_token : ℕ → Option Json → Call String
  unfolding send form keep_token json_get truthy
  ask_token now none = raise "OIDC discovery document has no token_endpoint"
  ask_token now (some endpoint) = do
    response ← send endpoint form
    payload ←
        (if response.is_success then lift response.body else raise "OIDC token endpoint failed")
    keep_token now (or_missing (json_get "access_token" payload)) payload

  new_token : ℕ → Call String
  unfolding discovery_document ask_token json_get truthy
  new_token now = do
    document ← discovery_document
    ask_token now (or_missing (json_get "token_endpoint" document))

  -- `_bearer_token`: the token of the cache until it expires
  cached_token : Option String → ℕ → ℕ → Call String
  unfolding new_token given
  cached_token none expires now = new_token now
  cached_token (some token) expires now =
      if given (some token) && ltb now expires then pure token else new_token now

  bearer_token : Call String
  unfolding cached_token
  bearer_token s = cached_token s.access_token s.expires_at (network.monotonic s.world) s

  -- `_directory_get`: `none` is an unknown subject
  unfoldable pub directory_get : String → Dict String String → Call (Option Json)
  unfolding bearer_token fetch concat
  directory_get url params = do
    token ← bearer_token
    response ←
        fetch url
          (("Authorization", concat ("Bearer " ∷ token ∷ []))
            ∷ ("Accept", "application/scim+json")
            ∷ [])
          params
    (if not response.is_found
        then pure none
        else if response.is_success
        then lift response.body >>= (λ payload. pure (some payload))
        else raise "SCIM directory failed")

  identity_of : Json → Json → World → VerifiedIdentity
  unfolding shown email_of display_name_of groups_of derive_roles mfa_in json_get
  identity_of user subject w = record {
    subject_id = shown network.text subject;
    email = email_of network.text user;
    display_name = display_name_of network.text user;
    enterprise_groups = groups_of config user;
    dba_roles = derive_roles config.roles (groups_of config user);
    mfa_satisfied = mfa_in (json_get config.mfa_attribute user);
    authenticated_at = network.iso_now w;
  }

  -- an account with an identifier, which is not inactive
  active_identity : Option Json → Json → World → Option VerifiedIdentity
  unfolding identity_of json_get
  active_identity none user w = none
  active_identity (some subject) user w =
      if is_inactive (json_get "active" user) then none else some (identity_of user subject w)

  -- `_to_identity`
  unfoldable pub to_identity : Json → World → Option VerifiedIdentity
  unfolding active_identity json_get truthy
  to_identity (obj fields) w =
      active_identity (or_missing (json_get "id" (obj fields))) (obj fields) w
  to_identity v w = none

  -- exactly one resource
  single : Option Json → World → Option VerifiedIdentity
  unfolding to_identity
  single (some (arr (cons user nil))) w = to_identity user w
  single v w = none

  from_payload : Result String (Option Json) → World → Option VerifiedIdentity
  unfolding single json_get
  from_payload (ok (some payload)) w = single (json_get "Resources" payload) w
  from_payload (ok none) w = none
  from_payload (err text) w = none

  look_up : String → Option String → Cache World → Option VerifiedIdentity × Cache World
  unfolding directory_get from_payload concat scim_string_literal given
  look_up account none s = (none, s)
  look_up account (some attribute) s =
      if given (some attribute)
      then (let (r, s') =
            directory_get config.directory_endpoint
              (("filter", concat (attribute ∷ " eq " ∷ scim_string_literal account ∷ [])) ∷ []) s in
          (from_payload r s'.world, s'))
      else (none, s)

  unfoldable pub resolve_by_external_account :
      String → String → Cache World → Option VerifiedIdentity × Cache World
  unfolding look_up Dict.get strip string_eq
  resolve_by_external_account channel external_account_id s =
      if config.directory_endpoint == "" || strip external_account_id == ""
      then (none, s)
      else look_up (strip external_account_id) (Dict.get config.channel_attributes channel) s

  from_user : Result String (Option Json) → World → Option VerifiedIdentity
  unfolding to_identity
  from_user (ok (some user)) w = to_identity user w
  from_user (ok none) w = none
  from_user (err text) w = none

  unfoldable pub refresh : String → Cache World → Option VerifiedIdentity × Cache World
  unfolding directory_get from_user concat strip string_eq
  refresh subject_id s =
      if config.directory_endpoint == "" || strip subject_id == ""
      then (none, s)
      else (let (r, s') =
            directory_get (concat (config.directory_endpoint ∷ "/" ∷ strip subject_id ∷ [])) [] s in
          (from_user r s'.world, s'))
