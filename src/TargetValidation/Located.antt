-- ===== src/TargetValidation/Located.antt =====
-- gateway/domain/target_validation.py: what a validated target is.
use numi_dba_agent.Common.{
  String, ◌≡◌, Bool, true, false, Option, some, List, [], ◌∷◌, All, filter, is_empty, string_eq,
  arith, Bool-cases, inl, inr,
}
use numi_dba_agent.Common.Exec.{ok}
use numi_dba_agent.Common.Text.{strip}
use numi_dba_agent.Models.Catalog.{ServerCatalog, DiscoveredDatabase}
use numi_dba_agent.Models.Target.{DatabaseTarget}
use numi_dba_agent.Servers.{ServerEntry, or_else, resolve, effective_for}
use numi_dba_agent.Servers.Resolution.{Fits, resolve-Fits}
use numi_dba_agent.TargetValidation.{
  TargetContext, is_missing, check_required_fields, locate_database, validate,
}

-- none of the list is missing
filter-empty :
    (missing : String → Bool) (names : List String)
    → is_empty (filter missing names) ≡ true
    → All (λ name. missing name ≡ false) names
filter-empty missing [] h = tt
filter-empty missing (n ∷ ns) h = elim (Bool-cases (missing n)) [
  | inl t ↦ absurd (ground arith)
  | inr f ↦ (f, filter-empty missing ns (ground arith))
]

module _ (entries : List ServerEntry) (catalog_of : String → Option ServerCatalog)
    (target : DatabaseTarget) (required : List String) where
  -- What the rest of the gateway may rely on.
  pub record IsLocated (ctx : TargetContext) : Type 0 where
    pub same_target : ctx.target ≡ target
    pub server_fits : Fits entries target ctx.server
    pub complete : All (λ name. is_missing target ctx.server ctx.database name ≡ false) required
    pub policy :
        (ctx.criticality ≡ (effective_for ctx.server ctx.database).criticality)
        × (ctx.allowed_roles ≡ (effective_for ctx.server ctx.database).allowed_roles)
    pub known : (d : DiscoveredDatabase) → ctx.discovered_database ≡ some d → ctx.database ≡ d.name

  complete-All :
      (server : ServerEntry) (database : String)
      → check_required_fields target server database required ≡ ok tt
      → All (λ name. is_missing target server database name ≡ false) required
  unfolding check_required_fields
  complete-All server database h =
      filter-empty (is_missing target server database) required (ground arith)

  locate_database-known :
      (catalog : Option ServerCatalog) (database : String) (l : String × Option DiscoveredDatabase)
      → locate_database catalog database required ≡ ok l
      → (d : DiscoveredDatabase) → l.1 ≡ some d
      → l.0 ≡ d.name
  unfolding locate_database
  locate_database-known catalog database l h d e = ground arith

  -- A target that is validated has a registered, active server of its environment (and platform, if it
  -- names one), all the fields that the tool requires, the criticality and the roles that the server
  -- sets for the database, and, where the database was found in the catalog, the catalog's spelling of
  -- its name.
  pub validate-IsLocated :
      (ctx : TargetContext) → validate entries catalog_of target required ≡ ok ctx → IsLocated ctx
  unfolding validate
  validate-IsLocated ctx h =
      let found : resolve entries target ≡ ok ctx.server = ground arith in
      let located : locate_database (catalog_of ctx.server.id) (strip (or_else target.database ""))
            required
          ≡ ok (ctx.database, ctx.discovered_database) =
        ground arith in
      record {
        same_target = ground arith;
        server_fits = resolve-Fits entries target ctx.server found;
        complete = complete-All ctx.server ctx.database (ground arith);
        policy = ground arith;
        known =
            locate_database-known (catalog_of ctx.server.id) (strip (or_else target.database ""))
              (ctx.database, ctx.discovered_database) located;
      }
