-- ===== src/Host/CallLaws.antt =====
-- What a call keeps, and how often the tests are run.
use mcp_software_factory.Prelude.{
  ◌≤◌, String, ◌≡◌, refl, sym, ◌∙◌, subst, ◌≢◌, inl, inr, Bool, true, false, not, ◌&&◌, Option,
  none, some, [], ◌==◌, string_eq, option_eq, leb, contains, arith, Bool-cases, if◌then◌else◌,
}
use mcp_software_factory.Host.Types.{
  Tool, read_file, run_tests, tool_eq, Tool-discrete, not_started, ExecutionState, Arguments,
  Intent, initial_state,
}
use mcp_software_factory.Host.Paths.{Libraries}
use mcp_software_factory.Host.Actions.{determine_next_action, get_allowed_tools}
use mcp_software_factory.Host.Validation.{
  Verdict, accepted, rejected, raised, ◌orelse◌, is_repair, validate_call_against_state,
  validate_repair, validate_read,
}
use mcp_software_factory.Host.Call.{
  Host, Surroundings, Call, Reply, fail_arguments, reject_call, execute_call, ask_and_execute,
  count_attempt, project_key, reach_limit, limit_and_execute, by_verdict, check_and_execute,
  handle_function_call, calls_allowed, Reachable, started, stepped, max_test_attempts,
}
use mcp_software_factory.Host.RepairLaws.{IsBounded, update-IsBounded}

orelse_accepted : (u v : Verdict) → (u orelse v) ≡ accepted → (u ≡ accepted) × (v ≡ accepted)
orelse_accepted accepted v h = (refl, h)
orelse_accepted raised v h = cc
orelse_accepted (rejected s) v h = cc

-- Where a repair is the next action, the limit has not been reached.
repair_is_unlimited :
    (s : ExecutionState)
    → is_repair (determine_next_action s) ≡ true
    → s.retry_limit_reached ≡ false
unfolding determine_next_action
repair_is_unlimited s h = ground arith

-- Reading a file is allowed in a repair only.
allowed_read :
    (w : Tool → Bool) (s : ExecutionState)
    → contains read_file (get_allowed_tools w s) ≡ true
    → is_repair (determine_next_action s) ≡ true
unfolding get_allowed_tools Tool-discrete
allowed_read w s h = ground arith

chosen : (b : Bool) (v : Verdict) → b ≡ true → (if b then v else accepted) ≡ v
chosen b v h = rw h

validated_repair :
    (l : Libraries) (policy : Arguments → Bool) (s : ExecutionState) (t : Tool) (a : Arguments)
    → is_repair (determine_next_action s) ≡ true
    → validate_call_against_state l policy s t a ≡ accepted
    → validate_repair l s t a ≡ accepted
unfolding validate_call_against_state
validated_repair l policy s t a h v =
    let (before, _) = orelse_accepted _ _ v in
    let (_, checked) = orelse_accepted _ _ before in
    sym (chosen (is_repair (determine_next_action s)) (validate_repair l s t a) h) ∙ checked

validated_read :
    (l : Libraries) (s : ExecutionState) (a : Arguments)
    → IsBounded s
    → s.retry_limit_reached ≡ false
    → validate_repair l s read_file a ≡ accepted
    → s.repair_phase ≢ not_started
unfolding validate_read
validated_read l s a b k v q = ground arith

-- The repairs are bounded, and no project is tested more often than the limit says.
pub record IsLimited (h : Host) : Type 0 where
  pub repairs : IsBounded h.state
  pub tests : (project : String) → h.test_attempts project ≤ max_test_attempts

fail_arguments-IsLimited : (h : Host) → IsLimited h → IsLimited (fail_arguments h)
fail_arguments-IsLimited h b = record { repairs = noted_failure h.state b.repairs; tests = b.tests }
  where
    noted_failure :
        (s : ExecutionState)
        → IsBounded s
        → IsBounded (record s { failure_type = some "invalid_tool_arguments" })
    noted_failure s b = ground arith

reject_call-IsBounded :
    (c : Call) (h : Host) → IsBounded h.state → IsBounded (reject_call c h).state
reject_call-IsBounded c h b = ground arith

reach_limit-IsBounded : (h : Host) → IsBounded h.state → IsBounded (reach_limit h).state
reach_limit-IsBounded h b = ground arith

execute_call-IsLimited :
    (w : Surroundings) (c : Call) (a : Arguments) (h : Host)
    → (c.tool ≡ read_file → h.state.repair_phase ≢ not_started)
    → IsLimited h
    → IsLimited (execute_call w c a h)
unfolding execute_call
execute_call-IsLimited w c a h m b = record {
  repairs = update-IsBounded w.libraries w.requires_approval c.tool a _ h.state m b.repairs;
  tests = b.tests;
}

rejected-IsLimited : (c : Call) (h : Host) → IsLimited h → IsLimited (reject_call c h)
rejected-IsLimited c h b = record { repairs = reject_call-IsBounded c h b.repairs; tests = b.tests }

reached-IsLimited : (h : Host) → IsLimited h → IsLimited (reach_limit h)
reached-IsLimited h b = record { repairs = reach_limit-IsBounded h b.repairs; tests = b.tests }

either-IsLimited :
    (b : Bool) (x y : Host × Reply)
    → IsLimited x.0
    → IsLimited y.0
    → IsLimited (if b then x else y).0
either-IsLimited true x y p q = p
either-IsLimited false x y p q = q

ask_and_execute-IsLimited :
    (w : Surroundings) (c : Call) (a : Arguments) (h : Host)
    → (c.tool ≡ read_file → h.state.repair_phase ≢ not_started)
    → IsLimited h
    → IsLimited (ask_and_execute w c a h).0
unfolding ask_and_execute
ask_and_execute-IsLimited w c a h m b =
    let run = execute_call-IsLimited w c a h m b in
    either-IsLimited (w.requires_approval c.tool && c.prompts) _ _
      (either-IsLimited (contains c.tool h.state.rejected_tools) _ _ b
        (either-IsLimited c.approves _ _ run (rejected-IsLimited c h b)))
      run

count_attempt-IsLimited :
    (project : String) (h : Host)
    → leb max_test_attempts (h.test_attempts project) ≡ false
    → IsLimited h
    → IsLimited (count_attempt project h)
count_attempt-IsLimited project h k b = record {
  repairs = b.repairs;
  tests = λ p. elim (Bool-cases (p == project)) [
    | inl q ↦ rw q (ground arith)
    | inr q ↦ rw q (b.tests p)
  ];
}

limit_and_execute-IsLimited :
    (w : Surroundings) (c : Call) (a : Arguments) (h : Host)
    → (c.tool ≡ read_file → h.state.repair_phase ≢ not_started)
    → IsLimited h
    → IsLimited (limit_and_execute w c a h).0
unfolding limit_and_execute
limit_and_execute-IsLimited w c a h m b =
    elim (Bool-cases (leb max_test_attempts (h.test_attempts (project_key a)))) [
      | inl k ↦
          either-IsLimited (c.tool == run_tests) _ _ (rw k (reached-IsLimited h b))
            (ask_and_execute-IsLimited w c a h m b)
      | inr k ↦
          either-IsLimited (c.tool == run_tests) _ _
            (rw k (
              ask_and_execute-IsLimited w c a (count_attempt (project_key a) h) m
                (count_attempt-IsLimited (project_key a) h k b)))
            (ask_and_execute-IsLimited w c a h m b)
    ]

by_verdict-IsLimited :
    (w : Surroundings) (c : Call) (a : Arguments) (h : Host) (v : Verdict)
    → (v ≡ accepted → c.tool ≡ read_file → h.state.repair_phase ≢ not_started)
    → IsLimited h
    → IsLimited (by_verdict w c a h v).0
by_verdict-IsLimited w c a h accepted m b = limit_and_execute-IsLimited w c a h (m refl) b
by_verdict-IsLimited w c a h (rejected s) m b = b
by_verdict-IsLimited w c a h raised m b = b

-- An accepted read of an allowed call meets a repair on its way.
may_read :
    (w : Surroundings) (h : Host) (t : Tool) (a : Arguments)
    → IsBounded h.state
    → contains t (get_allowed_tools w.registered h.state) ≡ true
    → validate_call_against_state w.libraries w.policy h.state t a ≡ accepted
    → t ≡ read_file
    → h.state.repair_phase ≢ not_started
may_read w h t a b k v q =
    let k' = subst (λ x. contains x (get_allowed_tools w.registered h.state) ≡ true) q k in
    let v' =
      subst (λ x. validate_call_against_state w.libraries w.policy h.state x a ≡ accepted) q v in
    let repair = allowed_read w.registered h.state k' in
    validated_read w.libraries h.state a b (repair_is_unlimited h.state repair)
      (validated_repair w.libraries w.policy h.state read_file a repair v')

check_and_execute-IsLimited :
    (w : Surroundings) (c : Call) (h : Host) (a : Option Arguments)
    → contains c.tool (get_allowed_tools w.registered h.state) ≡ true
    → IsLimited h
    → IsLimited (check_and_execute w c h a).0
unfolding check_and_execute
check_and_execute-IsLimited w c h none k b = b
check_and_execute-IsLimited w c h (some a) k b =
    either-IsLimited (contains c.key h.rejected_calls) _ _ b
      (by_verdict-IsLimited w c a h _ (λ v. may_read w h c.tool a b.repairs k v) b)

handle-IsLimited :
    (w : Surroundings) (c : Call) (h : Host)
    → contains c.tool (get_allowed_tools w.registered h.state) ≡ true
    → IsLimited h
    → IsLimited (handle_function_call w c h).0
unfolding handle_function_call
handle-IsLimited w c h k b = either-IsLimited (not c.parses) _ _ b (
    either-IsLimited (not (w.registered c.tool)) _ _ b (
      either-IsLimited c.has_schema_errors _ _ (fail_arguments-IsLimited h b)
        (check_and_execute-IsLimited w c h _ k b)))

abbrev pub fresh_host : Option String → Intent → Host
fresh_host name intent = record {
  state = initial_state name intent;
  rejected_calls = [];
  test_attempts = λ p. 0;
}

fresh-IsLimited : (name : Option String) (intent : Intent) → IsLimited (fresh_host name intent)
fresh-IsLimited name intent = record {
  repairs = record { at_most = omega arith; repairing = λ h. cc; idle = λ h. inl refl };
  tests = λ p. omega arith;
}

-- However the tools answer and the user decides, calls that are allowed when they are made never
-- lead to more than two repairs, nor to more than three counted test runs of a project.
pub Reachable-IsLimited :
    (w : Surroundings) (name : Option String) (intent : Intent) (h : Host)
    → Reachable w (fresh_host name intent) h
    → (h.state.repair_attempts ≤ 2) × ((project : String) → h.test_attempts project ≤ 3)
Reachable-IsLimited w name intent h r = let b = invariant h r in (b.repairs.at_most, b.tests)
  where
    invariant : (h : Host) → Reachable w (fresh_host name intent) h → IsLimited h
    invariant _ started = fresh-IsLimited name intent
    invariant _ (stepped r (calls_allowed c h k)) = handle-IsLimited w c h k (invariant h r)
