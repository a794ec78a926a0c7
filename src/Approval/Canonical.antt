-- ===== src/Approval/Canonical.antt =====
-- gateway/domain/approval.py: the dict of `compute_action_hash`, and the order in which `json.dumps`
-- writes its keys under `sort_keys=True`.
use Prim.Native.Nat.{Ordering}
use Prim.Native.String as Text
use numi_dba_agent.Common.{String, [], ◌∷◌}
use numi_dba_agent.Models.Json.{Json, arr, obj, Items, nil, cons, Fields, end, field, Arguments}
use numi_dba_agent.Models.Risk.{RiskLevel}
use numi_dba_agent.Models.Target.{DatabaseTarget, Environment}

-- The dict that `compute_action_hash` writes as canonical JSON.
pub record Action : Type 0 where
  pub actor : String
  pub tool_id : String
  pub tool_version : String
  pub target : DatabaseTarget
  pub arguments : Arguments
  pub environment : Environment
  pub database_id : String
  pub risk_level : RiskLevel

insert_field : String → Json → Fields → Fields
insert_field key v end = field key v end
insert_field key v (field k w rest) =
    let later = insert_field key v rest in
    elim (Text.compare key k) [ Ordering.gt ↦ field k w later | _ ↦ field key v (field k w rest) ]

-- the dicts inside a value are sorted too
mutual
  unfolding insert_field

  sort_json : Json → Json
  sort_json (arr items) = arr (sort_items items)
  sort_json (obj fields) = obj (sort_fields fields)
  sort_json v = v

  sort_items : Items → Items
  sort_items nil = nil
  sort_items (cons v items) = cons (sort_json v) (sort_items items)

  sort_fields : Fields → Fields
  sort_fields end = end
  sort_fields (field key v fields) = insert_field key (sort_json v) (sort_fields fields)

insert_argument : String → Json → Arguments → Arguments
insert_argument key v [] = (key, v) ∷ []
insert_argument key v ((k, w) ∷ rest) =
    let later = insert_argument key v rest in
    elim (Text.compare key k) [ Ordering.gt ↦ (k, w) ∷ later | _ ↦ (key, v) ∷ (k, w) ∷ rest ]

unfoldable pub sort_keys : Arguments → Arguments
unfolding insert_argument sort_json
sort_keys [] = []
sort_keys ((key, v) ∷ rest) = insert_argument key (sort_json v) (sort_keys rest)

-- the action as the canonical JSON writes it; the keys of the target's dict stand in one order anyway
unfoldable pub canonical : Action → Action
unfolding sort_keys
canonical a = record a { arguments = sort_keys a.arguments }
