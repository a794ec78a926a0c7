-- ===== src/Agent/Continue/Offered.antt =====
-- agent/orchestrator.py: the requests of an unattended run, against the tools of the Gateway.
use mathlib.Core.Path.{subst⁻¹}
use numi_dba_agent.Common.{
  String, Bool, true, ◌&&◌, Option, none, List, [], ◌∷◌, ◌≡◌, ◌==◌, string_eq, filter, any, All,
  Bool-cases, inl, inr, ◌⊎◌, arith,
}
use numi_dba_agent.Common.Dict
use numi_dba_agent.Common.Dict.{Dict}
use numi_dba_agent.Common.Exec.{Result, ok, err}
use numi_dba_agent.Models.Tool.{OperationType, operation_type_eq, ToolDefinition, ToolCallRequest}
use numi_dba_agent.Agent.Actions.{AgentReply}
use numi_dba_agent.Agent.Session.{Services, Session, Stop}
use numi_dba_agent.Agent.Limits.{is_read, is_confirmed_read_tool}
use numi_dba_agent.Agent.Loop.{run_investigation_loop}
use numi_dba_agent.Agent.Loop.ReadOnly.{ShowsNoCard, run_investigation_loop-OnlyReads}
use numi_dba_agent.Agent.Continue.{
  Backend, collect, offered, is_read_definition, menu_of, remember, bootstrap_investigation_memory,
  report, reported, with_tools, continue_investigation,
}

-- one of the tools has this name and is classified as a read
abbrev pub is_offered_read : List ToolDefinition → String → Bool
is_offered_read tools id =
    any (λ (t : ToolDefinition). t.tool_id == id && is_read_definition t) tools

types_of : Dict String OperationType → List ToolDefinition → Dict String OperationType
unfolding collect
types_of d tools = collect (λ (t : ToolDefinition). t.operation_type) d tools

collect_reads :
    (d : Dict String OperationType) (tools : List ToolDefinition) (id : String)
    → is_read (Dict.get (types_of d tools) id) ≡ true
    → (is_read (Dict.get d id) ≡ true) ⊎ (is_offered_read tools id ≡ true)
unfolding types_of collect is_read
collect_reads d [] id h = inl h
collect_reads d (t ∷ tools) id h =
    elim (collect_reads (Dict.set d t.tool_id t.operation_type) tools id h) [
      | inl before ↦ ground (arith, Dict.get-set d t.tool_id id t.operation_type)
      | inr later ↦ inr (ground arith)
    ]

is_offered_read-filter :
    (p : ToolDefinition → Bool) (tools : List ToolDefinition) (id : String)
    → is_offered_read (filter p tools) id ≡ true
    → is_offered_read tools id ≡ true
is_offered_read-filter p [] id h = h
is_offered_read-filter p (t ∷ tools) id h = ground (arith, is_offered_read-filter p tools id)

module _ (channel account : String) (tools : List ToolDefinition) where
  confirmed_of_menu :
      (id : String)
      → is_confirmed_read_tool (menu_of channel account true tools).tool_operation_types id ≡ true
      → is_offered_read tools id ≡ true
  unfolding menu_of is_confirmed_read_tool offered types_of is_read Dict.get
  confirmed_of_menu id h = elim (collect_reads [] (filter is_read_definition tools) id h) [
    | inl none_yet ↦ cc
    | inr found ↦ is_offered_read-filter is_read_definition tools id found
  ]

All-offered :
    (types : Dict String OperationType) (tools : List ToolDefinition) (sent : List ToolCallRequest)
    → ((id : String) → is_confirmed_read_tool types id ≡ true → is_offered_read tools id ≡ true)
    → All (λ (r : ToolCallRequest). is_confirmed_read_tool types r.tool_id ≡ true) sent
    → All (λ (r : ToolCallRequest). is_offered_read tools r.tool_id ≡ true) sent
All-offered types tools [] offers h = tt
All-offered types tools (r ∷ sent) offers h =
    (offers r.tool_id h.0, All-offered types tools sent offers h.1)

-- the tools that the Gateway listed; none if the list could not be had
abbrev pub listed : Result String (List ToolDefinition) → List ToolDefinition
listed (ok tools) = tools
listed (err text) = []

module _ {World : Type 0} where
  -- a read-only run that has sent nothing, with no approval waiting
  pub record IsFresh (s : Session World) : Type 0 where
    pub mode : s.investigation.read_only ≡ true
    pub no_pending : s.conversation.pending_approval ≡ none
    pub nothing_sent : s.sent ≡ []

  -- what an unattended run may have done, given the tools of the Gateway
  pub record OnlyObserved (tools : List ToolDefinition)
      (out : Result Stop (Option AgentReply) × Session World) : Type 0 where
    pub no_card : ShowsNoCard out.0
    pub no_pending : out.1.conversation.pending_approval ≡ none
    pub reads : All (λ (r : ToolCallRequest). is_offered_read tools r.tool_id ≡ true) out.1.sent

module _ {World : Type 0} (services : Services World) (backend : Backend World) where
  bootstrap-IsFresh :
      (account : String) (s : Session World)
      → IsFresh s
      → IsFresh (bootstrap_investigation_memory services backend account s)
  unfolding bootstrap_investigation_memory remember
  bootstrap-IsFresh account s h = elim (Bool-cases s.investigation.remote_bootstrap_done) [
    | inl e ↦ ground arith
    | inr e ↦ ground arith
  ]

  reported-OnlyObserved :
      (tools : List ToolDefinition) (out : Result Stop (Option AgentReply) × Session World)
      → OnlyObserved tools out
      → OnlyObserved tools (reported services backend out)
  unfolding reported report
  reported-OnlyObserved tools (ok reply, s) h = record {
    no_card = h.no_card;
    no_pending = h.no_pending;
    reads = h.reads;
  }
  reported-OnlyObserved tools (err e, s) h = h

  loop-OnlyObserved :
      (channel account : String) (tools : List ToolDefinition) (s : Session World)
      → IsFresh s
      → OnlyObserved tools (run_investigation_loop services (menu_of channel account true tools) s)
  loop-OnlyObserved channel account tools s h =
      let menu = menu_of channel account true tools in
      let out = run_investigation_loop-OnlyReads services menu s (record {
        mode = h.mode;
        no_pending = h.no_pending;
        reads =
            subst⁻¹
              (All (λ (r : ToolCallRequest).
                is_confirmed_read_tool menu.tool_operation_types r.tool_id ≡ true))
              h.nothing_sent tt;
      }) in
      record {
        no_card = out.0;
        no_pending = out.1.no_pending;
        reads =
            All-offered menu.tool_operation_types tools _ (confirmed_of_menu channel account tools)
              out.1.reads;
      }

  with_tools-OnlyObserved :
      (channel account : String) (r : Result String (List ToolDefinition)) (s : Session World)
      → IsFresh s
      → OnlyObserved (listed r) (with_tools services backend channel account r s)
  unfolding with_tools
  with_tools-OnlyObserved channel account (err text) s h = record {
    no_card = tt;
    no_pending = h.no_pending;
    reads =
        subst⁻¹ (All (λ (r : ToolCallRequest). is_offered_read [] r.tool_id ≡ true)) h.nothing_sent
          tt;
  }
  with_tools-OnlyObserved channel account (ok tools) s h = reported-OnlyObserved tools _ (
      subst⁻¹
        (λ (mode : Bool).
          OnlyObserved tools
            (run_investigation_loop services (menu_of channel account mode tools) s))
        h.mode (loop-OnlyObserved channel account tools s h))

  -- A read-only run that begins with nothing sent and no approval waiting, whatever the model and the
  -- Gateway answer: every request that it sends names a tool that the Gateway's own list, fetched for
  -- this run, classifies as a read; no approval waits afterwards and its reply shows no card. If the
  -- list cannot be fetched, nothing is sent.
  pub continue_investigation-OnlyObserved :
      (channel account : String) (s : Session World)
      → IsFresh s
      → OnlyObserved
          (listed
            (backend.available_tools channel account
              (bootstrap_investigation_memory services backend account s).world).0)
          (continue_investigation services backend channel account s)
  unfolding continue_investigation
  continue_investigation-OnlyObserved channel account s h =
      let begun = bootstrap_investigation_memory services backend account s in
      let fetched = backend.available_tools channel account begun.world in
      let fresh = bootstrap-IsFresh account s h in
      with_tools-OnlyObserved channel account fetched.0 (record begun { world = fetched.1 })
        (record {
          mode = fresh.mode;
          no_pending = fresh.no_pending;
          nothing_sent = fresh.nothing_sent;
        })
