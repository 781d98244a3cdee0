-- ===== src/Lib.antt =====
-- The deterministic control logic of the MCP software factory.
--
-- The factory turns a requirement into code by a LangGraph workflow. A supervisor node
-- (graph/supervisor) hands the workflow to planning, implementation, testing, Git, CI and promotion.
--
-- Supervisor models graph/supervisor:
--   - Supervisor.Types and Supervisor.State hold the enumerations and the keys of
--     `SoftwareFactoryState` (graph/state.py) that the supervisor reads. A flag that every reader
--     takes by its truth is a `Bool`, a counter with the default 0 is a number; a key whose absence
--     is told apart is an `Option`. Python's counters never fall below 0, so they are naturals.
--   - Supervisor.Guards is graph/supervisor/guards.py, function by function: the underscored helpers
--     carry an `is_` or `are_` name. `determine_allowed_handoffs` is split at its early returns.
--   - Supervisor.Fingerprint and Supervisor.Loops are the progress fingerprint and the loop test.
--   - Supervisor.Decide is `SupervisorService.decide` of graph/supervisor/service.py,
--     graph/supervisor/validators.py and the hooks of graph/supervisor/config.py. What awaiting the
--     OpenAI client gives is the argument `Response`.
--   - Supervisor.Node and Supervisor.Step are `_handoff_entry`, `_stagnant_loop_probe_updates` and
--     `supervisor_node` of graph/supervisor/service.py, and graph/supervisor/routers.py. The node
--     returns the state into which its dictionary has been merged.
--   - Supervisor.Handoffs, Progress, Stagnation, Numbering and Validation hold the proofs.
--
-- Ci models the CI pipeline, api/ci_models.py and api/services/ci_service.py:
--   - Ci.Types holds the models and the policies, without commands, directories, exit codes and times.
--   - Ci.Gates is `build_ci_gate_definitions` and `evaluate_ci_gates`, Ci.Promotion
--     `evaluate_ci_promotion_eligibility` with `normalize_commit_id` of api/services/git_store.py, and
--     Ci.Repair `classify_ci_failure_for_repair`.
--   - Ci.Execution is the loop of `CIPipelineService.run` with `_execute_step`, `_skip_pending` and the
--     rows that api/services/ci_store.py keeps of the steps. What the clock and the subprocess of a
--     step give is an argument, a `Tick` for each step; the loop is structural, so it needs no fuel.
--   - Ci.GateLaws, PromotionLaws, ExecutionLaws and RepairLaws hold the proofs.
--
-- Events models the workflow events, api/services/event_broker.py with streaming/catalog.py,
-- streaming/models.py and streaming/sequence.py:
--   - Events.Types holds the event types and the event, Events.Queue `_make_room`, and Events.Broker
--     the broker, whose dictionaries become one function from a thread and a branch to a stream. A
--     locked section is one step; Events.Broker.Step has the steps that may interleave, and a
--     subscription is a sequence of them. `deliver` is the part of `subscribe` that chooses what to
--     yield, over the list of the events that come to it.
--   - Events.Sequence is `WorkflowEventSequence` of streaming/sequence.py. A `Call` is a call of `next`
--     or `ensure_at_least`; `clear`, which starts a thread anew, is not among them.
--   - What `WorkflowEventStore.append` answers is an argument of `publish`.
--   - Events.QueueLaws, StreamLaws, BrokerLaws, DeliveryLaws and SequenceLaws hold the proofs.
--
-- Host models the host of the tools, host.py, which the nodes of the graph call for every tool
-- (through tool_executor.py) and which also drives a workflow of its own:
--   - Host.Types is `ExecutionState` with the arguments and the answers of tools; texts that are only
--     shown, versions and commands are left out, and so are the fields of a related source that host.py
--     never writes. An empty payload counts as none, as in the source.
--   - Host.Actions is `determine_next_action` and `get_allowed_tools`, Host.Validation
--     `validate_call_against_state`, Host.Update `reconcile_execution_result` and
--     `_update_execution_state`, Host.Call `handle_function_call` and `enforce_test_retry_limit`.
--   - Host.Paths is the normalisation of paths and the choice of a related source file, with two
--     functions of graph/nodes.py; pathlib, re, ast and keyword are a parameter, `Libraries`.
--   - What a server answers, what the user decides, whether the arguments parse and fit the schema are
--     part of a `Call`. `Step` is a call of a tool that is allowed in the state it meets, which is what
--     the loop of the host offers to the model.
--   - Host.RepairLaws, CallLaws and ActionLaws hold the proofs.
--
-- Planning is the part of the planning subgraph that orders the tasks of a plan, `_topological_sort` of
-- graph/subgraphs/planning/executability.py:
--   - Planning.Order is the sort. The source reads its dictionary `graph` by sorted keys alone, so it is
--     the list of its items in that order; a set is a list without repeats. The fuel of the outer loop
--     is one round for each task and one to see that nothing is ready; Termination shows it is enough.
--   - Planning.Entries, Soundness, Keys, Marks, Completeness and Acceptance hold the proofs.
--
-- PlanReview is what follows a valid plan: graph/subgraphs/planning/risk.py,
-- graph/planning_approval_policy.py and the nodes of graph/builder.py up to the judge of the plan:
--   - PlanReview.Words, Terms, Risk and Analysis are the risk of a plan. A set of areas is a list, of
--     which only members are asked for. `\b` and `\w` know the digits, the underscore and the Latin
--     letters; the pattern of `_paths` is a parameter.
--   - PlanReview.Policy is the policy, `planning_risk_policy_node`, `approval_node` of graph/nodes.py,
--     `accept_planning_risk_node`, `reject_planning_risk_node` and the edges between them. The digest
--     of the fingerprint is a parameter; the answer to the interrupt is an argument.
--   - PlanReview.Members, RiskLaws, PolicyLaws and ReviewLaws hold the proofs.
--
-- PlanSubgraph is the loop of the planning subgraph, graph/subgraphs/planning/builder.py:
--   - PlanSubgraph.Gate is `evaluate_quality_gate` of graph/subgraphs/planning/quality.py.
--   - PlanSubgraph.Loop is `validate_plan` and `refine_plan`, each the second function of that name in
--     the source, with graph/subgraphs/planning/routers.py and the edges. The validations, the quality
--     of a plan, which is scored in floating point, and the answers of the service are parameters that
--     may look at the whole state. An exception of the service that is no `PlanningDomainError` ends
--     the run and is left out. The fuel is one round for each attempt that is left and one more, and
--     LoopLaws shows it is enough. `from_planning` is `from_planning_output` of graph/subgraph_adapters.py.
--   - LoopLaws and DangerLaws hold the proofs; DangerLaws joins the loop to PlanReview.
--
-- TestingRepair is the subgraph that runs the tests and repairs what fails, graph/subgraphs/testing_repair
-- with its nodes of graph/nodes.py, on top of the host:
--   - TestingRepair.State is `TestingRepairState`, with what tool_executor.py gives to the host and takes
--     from it. What the subgraph has no field for is a default of the host's state in each call. Fields
--     that are only shown or stored are left out.
--   - TestingRepair.Nodes and Reads hold the nodes. Each meets a `Turn`: the arguments that the model gives, the
--     answer of the server, the decision of the user, whether the texts that a repair needs are there,
--     and whether knowledge is fetched. `none` is an exception.
--   - TestingRepair.Routers holds the routers, and Graph the edges. `run` has the nodes that may be
--     visited as its fuel; Termination shows that 26 are enough.
--   - Forward, Calls, Later, Ranks, NodeSteps, Termination and NodeLaws hold the proofs.
--
-- EventStore is the durable side of the events, streaming/sqlite_store.py with the tables of
-- streaming/migrations.py, and `DurableWorkflowEventEmitter` of streaming/emitter.py:
--   - EventStore.Types holds the rows, with the columns that the code reads, and the keys. A key is the
--     tuple of its parts, where the source has their JSON text. `is_readable` stands for what the
--     parsers of JSON and of the model say of a row.
--   - EventStore.Table is the reservation of a number and the append, each a transaction and so one
--     step; the primary key and the two unique indexes are `violates`. EventStore.Query is the reading,
--     whose loop has one round for each row and one more as its fuel.
--   - EventStore.Emitter is `emit`, under its locks. The statements that SQLite refuses in the course
--     of a call are an argument, `Faults`; a call whose lookup of the key fails changes nothing and is
--     left out. The subscribers that are told are left out but for whether they are.
--   - EventStore.Journal is the specification of the store: a journal for each branch. Refinement,
--     Effects, EmitterLaws and RunLaws hold the refinement, Consistency, JournalLaws, AnswerLaws,
--     ClosedLaws and ReadLaws what follows, and QueryLaws, FetchLaws and BatchLaws the reading in batches.
--
-- Confidences are floats in the source: the model keeps them in thousandths, with a sign. Console
-- output, logging and the request that is sent to the model are left out. Of `casefold` and `strip`
-- the model has the ASCII part.
pub mod Prelude
pub mod Ci
pub mod EventStore
pub mod Events
pub mod Host
pub mod PlanReview
pub mod PlanSubgraph
pub mod Planning
pub mod Supervisor
pub mod TestingRepair
