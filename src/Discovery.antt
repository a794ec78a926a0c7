-- ===== src/Discovery.antt =====
-- gateway/domain/discovery.py over a catalog store (gateway/domain/catalog.py).
use numi_dba_agent.Common.{
  ℕ, ◌+◌, ◌*◌, String, Bool, false, Option, none, some, List, ltb, string_eq, if◌then◌else◌,
}
use numi_dba_agent.Common.Dict
use numi_dba_agent.Common.Dict.{Dict}
use numi_dba_agent.Models.Catalog.{ServerCatalog}
use numi_dba_agent.Models.Execution.{DiscoveryRequest}
use numi_dba_agent.Servers.{ServerEntry, by_id}

-- `InMemoryCatalogStore`
abbrev pub Catalogs : Type 0
Catalogs = Dict String ServerCatalog

pub record DiscoverySettings : Type 0 where
  pub discovery_max_objects_per_database : ℕ
  pub discovery_refresh_minutes : ℕ

abbrev minute : ℕ
minute = 60000000

module _ (settings : DiscoverySettings) (discover : DiscoveryRequest → Option ServerCatalog) where
  -- what the Execution Service answers; `none` stands for any exception on the way
  crawl : Option ServerEntry → Option ServerCatalog
  crawl none = none
  crawl (some server) = discover (record {
    server_id = server.id;
    platform = server.platform;
    max_objects_per_database = settings.discovery_max_objects_per_database;
  })

  -- `refresh_server`: the store after it, and the catalog, or `none` where it raises
  unfoldable pub refresh_server :
      List ServerEntry → String → Catalogs → Option ServerCatalog × Catalogs
  unfolding crawl
  refresh_server servers server_id catalogs = elim (crawl (by_id servers server_id)) [
    | none ↦ (none, catalogs)
    | some catalog ↦ (some catalog, Dict.set catalogs catalog.server_id catalog)
  ]

  -- the catalog is there, dated, and young enough
  is_fresh : Option ServerCatalog → ℕ → Bool
  is_fresh none now = false
  is_fresh (some catalog) now = elim catalog.discovered_at [
    | none ↦ false
    | some t ↦ ltb now (t + settings.discovery_refresh_minutes * minute)
  ]

  -- `ensure_fresh`, which lets no exception out
  unfoldable pub ensure_fresh : List ServerEntry → String → ℕ → Catalogs → Catalogs
  unfolding refresh_server is_fresh
  ensure_fresh servers server_id now catalogs =
      if is_fresh (Dict.get catalogs server_id) now
      then catalogs
      else (refresh_server servers server_id catalogs).1
