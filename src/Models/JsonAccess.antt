-- ===== src/Models/JsonAccess.antt =====
-- JSON objects and lists, as the program reads them with `dict.get`.
use numi_dba_agent.Common.{
  String, Option, none, some, List, [], ◌∷◌, ◌==◌, string_eq, if◌then◌else◌,
}
use numi_dba_agent.Models.Json.{Json, str, arr, obj, Items, nil, cons, Fields, end, field}

field_of : String → Fields → Option Json
unfolding string_eq
field_of key end = none
field_of key (field k v fs) = let rest = field_of key fs in if k == key then some v else rest

-- `value.get(key)` of a dict
unfoldable pub json_get : String → Json → Option Json
unfolding field_of
json_get key (obj fs) = field_of key fs
json_get key v = none

item_texts : Items → List String
item_texts nil = []
item_texts (cons (str s) items) = s ∷ item_texts items
item_texts (cons v items) = item_texts items

-- a list of texts; `[]` by default
unfoldable pub texts_of : Option Json → List String
unfolding item_texts
texts_of (some (arr items)) = item_texts items
texts_of v = []

field_names : Fields → List String
field_names end = []
field_names (field k v fs) = k ∷ field_names fs

-- the keys of a dict; none by default
unfoldable pub keys_of : Option Json → List String
unfolding field_names
keys_of (some (obj fs)) = field_names fs
keys_of v = []
