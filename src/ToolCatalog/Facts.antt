-- ===== src/ToolCatalog/Facts.antt =====
-- gateway/domain/tool_catalog.py: what holds of every tool of the catalog.
use numi_dba_agent.Common.{
  not, ◌&&◌, ◌||◌, ◌==◌, ◌≡◌, refl, true, false, some, All, string_eq, arith,
}
use numi_dba_agent.Common.Dict
use numi_dba_agent.Models.Tool.{
  operation_type_eq, OperationType-discrete, read, privileged, ToolDefinition,
}
use numi_dba_agent.ToolRegistry.{build}
use numi_dba_agent.ToolCatalog.Builders.{
  ArgumentModel, Schemas, read_tool, write_tool, restricted_tool,
}
use numi_dba_agent.ToolCatalog.Writes.{Settings}
use numi_dba_agent.ToolCatalog.{argument_models, build_tool_catalog}

module _ (schema : Schemas) (settings : Settings) where
  -- what the catalog, the registry and the table of argument models agree on for one tool
  pub record IsGuarded (t : ToolDefinition) : Type 0 where
    pub changes : t.data_modification ≡ true → t.requires_approval ≡ true
    pub reads :
        t.operation_type ≡ read → (t.data_modification ≡ false) × (t.availability_impact ≡ false)
    pub restricted : t.operation_type ≡ privileged → t.requires_dual_approval ≡ true
    pub found : Dict.get (build (build_tool_catalog schema settings)) t.tool_id ≡ some t
    pub model : ArgumentModel
    pub has_model : Dict.get argument_models t.tool_id ≡ some model
    pub same_schema : t.argument_schema ≡ schema.of_arguments model

  abbrev IsFound : ToolDefinition → Type 0
  IsFound t = Dict.get (build (build_tool_catalog schema settings)) t.tool_id ≡ some t

  -- a tool whose fields compute
  guarded :
      (t : ToolDefinition) {m : ArgumentModel}
      → (not t.data_modification || t.requires_approval)
          && (not (t.operation_type == read) || not (t.data_modification || t.availability_impact))
          && (not (t.operation_type == privileged) || t.requires_dual_approval)
        ≡ true
      → IsFound t
      → Dict.get argument_models t.tool_id ≡ some m
      → t.argument_schema ≡ schema.of_arguments m
      → IsGuarded t
  guarded t {m} flags found has same = record {
    changes = λ h. ground arith;
    reads = λ h. (ground arith, ground arith);
    restricted = λ h. ground arith;
    found = found;
    model = m;
    has_model = has;
    same_schema = same;
  }

  -- Whatever the switches, every tool of the catalog is guarded: one that changes data asks for
  -- approval, a read changes neither data nor availability, a restricted tool asks for two approvers,
  -- the registry built from the catalog finds the tool under its identifier, and its arguments are
  -- checked against the model whose schema it declares.
  pub build_tool_catalog-IsGuarded : All IsGuarded (build_tool_catalog schema settings)
  unfolding build_tool_catalog build Dict.get Dict.set argument_models string_eq read_tool
      write_tool restricted_tool OperationType-discrete
  build_tool_catalog-IsGuarded = (
    guarded _ refl refl refl refl,
    (
      guarded _ refl refl refl refl,
      (
        guarded _ refl refl refl refl,
        (
          guarded _ refl refl refl refl,
          (
            guarded _ refl refl refl refl,
            (
              guarded _ refl refl refl refl,
              (
                guarded _ refl refl refl refl,
                (
                  guarded _ refl refl refl refl,
                  (
                    guarded _ refl refl refl refl,
                    (
                      guarded _ refl refl refl refl,
                      (
                        guarded _ refl refl refl refl,
                        (
                          guarded _ refl refl refl refl,
                          (
                            guarded _ refl refl refl refl,
                            (
                              guarded _ refl refl refl refl,
                              (
                                guarded _ refl refl refl refl,
                                (
                                  guarded _ refl refl refl refl,
                                  (
                                    guarded _ refl refl refl refl,
                                    (
                                      guarded _ refl refl refl refl,
                                      (
                                        guarded _ refl refl refl refl,
                                        (
                                          guarded _ refl refl refl refl,
                                          (
                                            guarded _ refl refl refl refl,
                                            (
                                              guarded _ refl refl refl refl,
                                              (
                                                guarded _ refl refl refl refl,
                                                (
                                                  guarded _ refl refl refl refl,
                                                  (
                                                    guarded _ refl refl refl refl,
                                                    (
                                                      guarded _ refl refl refl refl,
                                                      (
                                                        guarded _ refl refl refl refl,
                                                        (
                                                          guarded _ refl refl refl refl,
                                                          (
                                                            guarded _ refl refl refl refl,
                                                            (
                                                            guarded _ refl refl refl refl,
                                                            (
                                                            guarded _ refl refl refl refl,
                                                            (
                                                            guarded _ refl refl refl refl,
                                                            (guarded _ refl refl refl refl, tt),
                                                            ),
                                                            ),
                                                            ),
                                                          ),
                                                        ),
                                                      ),
                                                    ),
                                                  ),
                                                ),
                                              ),
                                            ),
                                          ),
                                        ),
                                      ),
                                    ),
                                  ),
                                ),
                              ),
                            ),
                          ),
                        ),
                      ),
                    ),
                  ),
                ),
              ),
            ),
          ),
        ),
      ),
    ),
  )
