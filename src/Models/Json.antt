-- ===== src/Models/Json.antt =====
-- JSON values: what the program types as `Any`, and `dict[str, Any]` as `Dict String Json`.
use numi_dba_agent.Common.{
  String, Bool, true, false, not, Option, none, some, ◌∷◌, [], ◌==◌, contains, string_eq, List,
}
use numi_dba_agent.Common.Dict.{Dict}

mutual
  pub data Json : Type 0 where
    null : Json
    bool : Bool → Json
    num : String → Json  -- a number, by its JSON text
    str : String → Json
    arr : Items → Json
    obj : Fields → Json

  pub data Items : Type 0 where
    nil : Items
    cons : Json → Items → Items

  pub data Fields : Type 0 where
    end : Fields
    field : String → Json → Fields → Fields

abbrev pub Arguments : Type 0
Arguments = Dict String Json

-- the texts that JSON writes for a number that is zero
abbrev zeros : List String
zeros = "0" ∷ "-0" ∷ "0.0" ∷ "-0.0" ∷ []

-- `bool(value)` of Python
unfoldable pub truthy : Json → Bool
unfolding string_eq
truthy null = false
truthy (bool b) = b
truthy (num t) = not (contains zeros t)
truthy (str s) = not (s == "")
truthy (arr nil) = false
truthy (arr (cons x xs)) = true
truthy (obj end) = false
truthy (obj (field k v fs)) = true

-- `if text:` of Python, for `str | None`
unfoldable pub given : Option String → Bool
unfolding string_eq
given none = false
given (some s) = not (s == "")
