-- ===== src/DataPolicy.antt =====
-- gateway/domain/data_policy.py: what of a result reaches the agent.
pub mod Masking
use numi_dba_agent.Common.{
  ℕ, ◌+◌, String, Bool, true, false, not, ◌&&◌, ◌||◌, Option, none, some, List, [], ◌∷◌, ◌==◌,
  contains, string_eq, take, length, ltb, leb, if◌then◌else◌,
}
use numi_dba_agent.Common.Dict.{Dict}
use numi_dba_agent.Common.Text.{lower}
use numi_dba_agent.Models.Json.{Json, str}

abbrev pub Row : Type 0
Row = Dict String Json

-- The two regular expressions enter as the tests that their `search` makes, and
-- `scrub_sql_literals` as a function of the dialect and the text.
pub record DataPolicyConfig : Type 0 where
  pub is_sensitive : String → Bool
  pub is_free_text_sql : String → Bool
  pub scrub : Option String → String → String
  pub field_allowlist : Option (List String)
  pub field_denylist : List String
  pub max_rows : ℕ
  pub max_columns : ℕ

pub record MinimizedResult : Type 0 where
  pub rows : List Row
  pub masked_fields : List String
  pub truncated : Bool
  pub literal_scrubbed_fields : List String

-- what the loops over rows and columns carry
pub record Progress : Type 0 where
  pub masked : List String
  pub scrubbed : List String
  pub truncated : Bool

abbrev pub masked_value : Json
masked_value = str "***MASKED***"

-- `names.add(name)`
abbrev add : String → List String → List String
add name names = if contains names name then names else name ∷ names

abbrev add_if : Bool → String → List String → List String
add_if true name names = add name names
add_if false name names = names

-- the field goes on: its name is not on the denylist, and on the allowlist if there is one
unfoldable pub passes : DataPolicyConfig → String → Bool
passes cfg k =
    (elim cfg.field_allowlist [ none ↦ true | some l ↦ contains l k ])
    && not (contains cfg.field_denylist k)

-- the value that goes on in place of `v`, and whether it was scrubbed
unfoldable pub clean_value : DataPolicyConfig → Option String → String → Json → Json × Bool
clean_value cfg dialect k (str v) =
    if cfg.is_sensitive k
    then (masked_value, false)
    else if cfg.is_free_text_sql k
    then (str (cfg.scrub dialect v), not (cfg.scrub dialect v == v))
    else (str v, false)
clean_value cfg dialect k v = if cfg.is_sensitive k then (masked_value, false) else (v, false)

-- the loop over one row; `col_count` columns have passed. The third part is what was collected.
unfoldable pub clean_row : DataPolicyConfig → Option String → ℕ → Progress → Row → Row × Progress
unfolding passes clean_value
clean_row cfg dialect col_count p [] = ([], p)
clean_row cfg dialect col_count p ((k, v) ∷ rest) =
    let skipped = clean_row cfg dialect col_count p rest in
    let c = clean_value cfg dialect k v in
    let p' = record p {
      masked = add_if (cfg.is_sensitive k) k p.masked;
      scrubbed = add_if c.1 k p.scrubbed;
    } in
    let more = clean_row cfg dialect (col_count + 1) p' rest in
    if not (passes cfg k)
    then skipped
    else if leb cfg.max_columns col_count
    then ([], record p { truncated = true })
    else ((k, c.0) ∷ more.0, more.1)

unfoldable pub clean_rows :
    DataPolicyConfig → Option String → Progress → List Row → List Row × Progress
unfolding clean_row
clean_rows cfg dialect p [] = ([], p)
clean_rows cfg dialect p (row ∷ rows) =
    let (row', p') = clean_row cfg dialect 0 p row in
    let (rows', p'') = clean_rows cfg dialect p' rows in (row' ∷ rows', p'')

-- `max_rows or cfg.max_rows`
unfoldable pub row_cap : DataPolicyConfig → ℕ → ℕ
row_cap cfg max_rows = if leb max_rows 0 then cfg.max_rows else max_rows

-- `minimize`, called with a row limit. `sort` is Python's `sorted`.
unfoldable pub minimize :
    (List String → List String) → DataPolicyConfig → List Row → ℕ → Option String → MinimizedResult
unfolding clean_rows row_cap
minimize sort cfg rows max_rows dialect =
    let cap = row_cap cfg max_rows in
    let start : Progress = record {
      masked = [];
      scrubbed = [];
      truncated = ltb cap (length rows);
    } in
    let (rows', p) = clean_rows cfg dialect start (take cap rows) in
    record {
      rows = rows';
      masked_fields = sort p.masked;
      truncated = p.truncated;
      literal_scrubbed_fields = sort p.scrubbed;
    }

-- `_SQLGLOT_DIALECTS.get(platform.lower())`, by the platform's value
unfoldable pub sqlglot_dialect_for_platform : String → Option String
sqlglot_dialect_for_platform platform =
    let p = lower platform in
    if p == "sqlserver"
    then some "tsql"
    else if p == "postgresql"
    then some "postgres"
    else if p == "mysql" || p == "mariadb"
    then some "mysql"
    else none
