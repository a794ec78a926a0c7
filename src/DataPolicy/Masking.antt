-- ===== src/DataPolicy/Masking.antt =====
-- gateway/domain/data_policy.py: what a minimised result can hold.
use numi_dba_agent.Common.{
  ℕ, suc, refl, ap, ◌+◌, ◌-◌, ◌≤◌, String, true, false, ◌≡◌, Option, List, [], ◌∷◌, All, take,
  length, length-take, leb, Bool-cases, inl, inr, string_eq, arith,
}
use numi_dba_agent.Models.Json.{Json, str}
use numi_dba_agent.DataPolicy.{
  Row, DataPolicyConfig, Progress, masked_value, passes, clean_value, clean_row, clean_rows,
  row_cap, minimize,
}

module _ (cfg : DataPolicyConfig) where
  -- a field that the policy lets through, with its value masked if the field is sensitive
  pub record IsPermitted (cell : String × Json) : Type 0 where
    pub allowed : passes cfg cell.0 ≡ true
    pub masked : cfg.is_sensitive cell.0 ≡ true → cell.1 ≡ masked_value

  -- a row of permitted fields, no more than `limit` of them
  pub record IsCleanRow (limit : ℕ) (row : Row) : Type 0 where
    pub cells : All IsPermitted row
    pub width : length row ≤ limit

  clean_value-masked :
      (dialect : Option String) (k : String) (v : Json)
      → cfg.is_sensitive k ≡ true
      → (clean_value cfg dialect k v).0 ≡ masked_value
  unfolding clean_value
  clean_value-masked dialect k (str v) h = ground arith
  clean_value-masked dialect k _ h = ground arith

  cons-IsCleanRow :
      (dialect : Option String) (n : ℕ) (k : String) (v : Json) (rest : Row)
      → passes cfg k ≡ true
      → leb cfg.max_columns n ≡ false
      → IsCleanRow (cfg.max_columns - (n + 1)) rest
      → IsCleanRow (cfg.max_columns - n) ((k, (clean_value cfg dialect k v).0) ∷ rest)
  cons-IsCleanRow dialect n k v rest allowed space h = record {
    cells = (record { allowed = allowed; masked = clean_value-masked dialect k v }, h.cells);
    width = ground (arith, h.width);
  }

  -- the three ways of a field, on whatever the rest of the row gives
  clean_row-IsCleanRow :
      (dialect : Option String) (n : ℕ) (p : Progress) (row : Row)
      → IsCleanRow (cfg.max_columns - n) (clean_row cfg dialect n p row).0
  unfolding clean_row
  clean_row-IsCleanRow dialect n p [] = record { cells = tt; width = omega arith }
  clean_row-IsCleanRow dialect n p ((k, v) ∷ rest) = elim (Bool-cases (passes cfg k)) [
    | inr skipped ↦ rw skipped (clean_row-IsCleanRow dialect n p rest)
    | inl allowed ↦ elim (Bool-cases (leb cfg.max_columns n)) [
      | inl full ↦ rw (allowed, full) (record { cells = tt; width = omega arith })
      | inr space ↦
          rw (allowed, space)
            (cons-IsCleanRow dialect n k v _ allowed space
              (clean_row-IsCleanRow dialect (n + 1) _ rest))
    ]
  ]

  clean_rows-All :
      (dialect : Option String) (p : Progress) (rows : List Row)
      → let out = (clean_rows cfg dialect p rows).0 in
        All (IsCleanRow cfg.max_columns) out × (length out ≡ length rows)
  unfolding clean_rows
  clean_rows-All dialect p [] = (tt, refl)
  clean_rows-All dialect p (row ∷ rows) =
      let h = clean_rows-All dialect (clean_row cfg dialect 0 p row).1 rows in
      let first = clean_row-IsCleanRow dialect 0 p row in
      ((record { cells = first.cells; width = omega (arith, first.width) }, h.0), ap suc h.1)

  -- Whatever a tool returned, what goes on to the agent has at most as many rows as the cap, each of
  -- at most `max_columns` fields, and every field is one that the allowlist and the denylist let
  -- through, with the value of a sensitive field replaced by the mask.
  pub minimize-IsCleanRow :
      (sort : List String → List String) (rows : List Row) (max_rows : ℕ) (dialect : Option String)
      → let out = (minimize sort cfg rows max_rows dialect).rows in
        (length out ≤ row_cap cfg max_rows) × All (IsCleanRow cfg.max_columns) out
  unfolding minimize
  minimize-IsCleanRow sort rows max_rows dialect =
      let kept = take (row_cap cfg max_rows) rows in
      let h = clean_rows-All dialect _ kept in
      (omega (arith, h.1, length-take (row_cap cfg max_rows) rows), h.0)
