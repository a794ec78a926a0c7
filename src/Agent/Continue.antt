-- ===== src/Agent/Continue.antt =====
-- agent/orchestrator.py: `_continue_investigation`, which fetches the tools, runs the loop and tells
-- the Gateway what came of it.
pub mod Offered
use numi_dba_agent.Common.{
  ℕ, String, Bool, true, false, ◌&&◌, Option, none, some, List, [], ◌∷◌, ◌++◌, map, ◌==◌, string_eq,
  filter, ltb, if◌then◌else◌,
}
use numi_dba_agent.Common.Dict
use numi_dba_agent.Common.Dict.{Dict}
use numi_dba_agent.Common.Exec.{Result, ok, err}
use numi_dba_agent.Models.Json.{Json, str, Arguments, given}
use numi_dba_agent.Models.JsonAccess.{json_get, texts_of, keys_of}
use numi_dba_agent.Models.Tool.{
  OperationType, operation_type_eq, OperationType-discrete, read, ToolDefinition,
}
use numi_dba_agent.Agent.Actions.{AgentReply}
use numi_dba_agent.Agent.State.{
  InvestigationState, InvestigationStage, effective_status, Done, ConversationState,
}
use numi_dba_agent.Agent.Session.{Menu, Services, Session, Stop, raised, amend}
use numi_dba_agent.Agent.Loop.{run_investigation_loop}
use numi_dba_agent.Agent.Targets.{ServerInfo, canonical_server_id}

-- what the Gateway is told of an investigation when it begins, and when a run of it ends
pub record Created : Type 0 where
  pub investigation_id : String
  pub conversation_id : String
  pub user_subject_id : String
  pub server_id : Option String
  pub playbook_id : Option String
  pub environment : Option Json
  pub target : Arguments
  pub problem : String
  pub status : InvestigationStage

pub record Updated : Type 0 where
  pub server_id : Option String
  pub playbook_id : Option String
  pub environment : Option Json
  pub target : Arguments
  pub status : InvestigationStage
  pub evidence : List String
  pub findings : List String
  pub recommendations : List String
  pub actions : List Done

-- The rest of the Gateway's interface. Only `available_tools` can raise: the client catches what
-- goes wrong in the others.
pub record Backend (World : Type 0) : Type 0 where
  pub available_tools : String → String → World → Result String (List ToolDefinition) × World
  pub list_servers : World → List ServerInfo × World
  pub create_investigation : Created → World → World
  pub update_investigation : String → Updated → World → World
  pub get_investigation_memory : String → String → ℕ → World → List Json × World
  pub get_cross_server_patterns : String → Option Json → Option String → World → List Json × World
  pub memory_lookback : ℕ

-- `{t.tool_id: f(t) for t in tools}`
collect {ℓ} :
    {A : Type ℓ} → (ToolDefinition → A) → Dict String A → List ToolDefinition → Dict String A
unfolding Dict.set
collect f d [] = d
collect f d (t ∷ tools) = collect f (Dict.set d t.tool_id (f t)) tools

abbrev is_read_definition : ToolDefinition → Bool
is_read_definition t = t.operation_type == read

-- a read-only run is offered nothing but reads
offered : Bool → List ToolDefinition → List ToolDefinition
offered read_only tools = if read_only then filter is_read_definition tools else tools

unfoldable pub menu_of : String → String → Bool → List ToolDefinition → Menu
unfolding collect offered json_get texts_of keys_of
menu_of channel account read_only tools =
    let available = offered read_only tools in
    record {
      channel = channel;
      channel_account_id = account;
      available_ids = map (λ (t : ToolDefinition). t.tool_id) available;
      tool_requirements =
          collect (λ (t : ToolDefinition). texts_of (json_get "required" t.argument_schema)) []
            available;
      tool_allowed_arguments =
          collect (λ (t : ToolDefinition). keys_of (json_get "properties" t.argument_schema)) []
            available;
      tool_operation_types = collect (λ (t : ToolDefinition). t.operation_type) [] available;
    }

module _ {World : Type 0} (services : Services World) (backend : Backend World) where
  -- `await self._canonical_server_id(raw) if raw else None`
  server_of : Option Json → World → Option String × World
  unfolding canonical_server_id
  server_of (some (str raw)) w =
      if given (some raw)
      then (let (servers, w') = backend.list_servers w in
          (some (canonical_server_id servers raw), w'))
      else (none, w)
  server_of _ w = (none, w)

  recall : Option String → String → World → List Json × World
  recall none id w = ([], w)
  recall (some server) id w =
      if given (some server) && ltb 0 backend.memory_lookback
      then backend.get_investigation_memory server id backend.memory_lookback w
      else ([], w)

  correlate : Option String → Option Json → Option String → World → List Json × World
  correlate none environment server w = ([], w)
  correlate (some playbook) environment server w =
      if given (some playbook)
      then backend.get_cross_server_patterns playbook environment server w
      else ([], w)

  remember : String → Session World → Session World
  unfolding server_of recall correlate Dict.get
  remember account s =
      let context = s.conversation.database_context in
      let inv = s.investigation in
      let environment = Dict.get context "environment" in
      let (server, found) = server_of (Dict.get context "instance") s.world in
      let created =
        backend.create_investigation
          (record {
            investigation_id = inv.investigation_id;
            conversation_id = s.conversation.conversation_id;
            user_subject_id = account;
            server_id = server;
            playbook_id = inv.playbook_id;
            environment = environment;
            target = context;
            problem = inv.problem;
            status = inv.status;
          })
          found in
      let (entries, recalled) = recall server inv.investigation_id created in
      let (patterns, correlated) = correlate inv.playbook_id environment server recalled in
      record s {
        investigation = record inv {
          remote_bootstrap_done = true;
          memory_context = entries ++ patterns;
        };
        world = correlated;
      }

  -- `_bootstrap_investigation_memory`
  unfoldable pub bootstrap_investigation_memory : String → Session World → Session World
  unfolding remember
  bootstrap_investigation_memory account s =
      if s.investigation.remote_bootstrap_done then s else remember account s

  report : Session World → Session World
  unfolding server_of Dict.get effective_status
  report s =
      let context = s.conversation.database_context in
      let inv = s.investigation in
      let (server, found) = server_of (Dict.get context "instance") s.world in
      record s {
        world =
            backend.update_investigation inv.investigation_id
              (record {
                server_id = server;
                playbook_id = inv.playbook_id;
                environment = Dict.get context "environment";
                target = context;
                status = effective_status inv;
                evidence = inv.evidence;
                findings = inv.findings;
                recommendations = inv.recommendations;
                actions = inv.actions;
              })
              found;
      }

  -- a loop that raised is not reported
  reported :
      Result Stop (Option AgentReply) × Session World
      → Result Stop (Option AgentReply) × Session World
  unfolding report
  reported (ok reply, s) = (ok reply, report s)
  reported (err e, s) = (err e, s)

  with_tools :
      String
      → String
      → Result String (List ToolDefinition)
      → Session World
      → Result Stop (Option AgentReply) × Session World
  unfolding menu_of reported run_investigation_loop
  with_tools channel account (err text) s = (err (raised text), s)
  with_tools channel account (ok tools) s =
      reported (
        run_investigation_loop services (menu_of channel account s.investigation.read_only tools) s)

  unfoldable pub continue_investigation :
      String → String → Session World → Result Stop (Option AgentReply) × Session World
  unfolding bootstrap_investigation_memory with_tools
  continue_investigation channel account s =
      let begun = bootstrap_investigation_memory account s in
      let (tools, fetched) = backend.available_tools channel account begun.world in
      with_tools channel account tools (record begun { world = fetched })
