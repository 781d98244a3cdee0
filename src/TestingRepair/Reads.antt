-- ===== src/TestingRepair/Reads.antt =====
-- The nodes that read the failing test and the source that belongs to it (graph/nodes.py).
use mcp_software_factory.Prelude.{
  ℕ, zero, suc, ◌+◌, String, Bool, true, false, not, ◌||◌, Option, none, some, List, [], ◌∷◌,
  string_eq, option_eq, bool_eq, get_or, is_some, is_nonempty, dedup, if◌then◌else◌,
}
use mcp_software_factory.Host.Types.{
  Tool, read_file, update_project_files, other, RepairPhase, repair_phase_eq, read_failing_test,
  read_related_source, Arguments, Payload, ToolExecutionResult, ExecutionState,
}
use mcp_software_factory.Host.Types
use mcp_software_factory.Host.Paths.{
  Libraries, normalize_project_relative_path, project_name_to_python_package,
  extract_related_source_path_from_test, with_main,
}
use mcp_software_factory.Host.Call.{Surroundings}
use mcp_software_factory.TestingRepair.State.{operation_eq, approval_status_eq, TestingRepairState}
use mcp_software_factory.TestingRepair.Nodes.{
  Turn, System, ToolExecutionOutcome, execute, project_of_state, for_path, has_success,
}

-- Whether a read failed: an error, a reported failure, or no text.
abbrev pub read_failed : ToolExecutionOutcome → Bool
read_failed o = o.is_error || has_success false o.payload || not (is_some o.content)

abbrev pub after_test_read : System → Option ToolExecutionOutcome → Option System
after_test_read y none = none
after_test_read y (some o) =
    if read_failed o
    then some (record {
      host = o.system.host;
      state = record y.state {
        failure_type = some "failing_test_read_failed";
        repair_phase = read_failing_test;
      };
    })
    else some (record o.system {
      state = record o.system.state {
        failing_test_content = o.content;
        repair_phase = read_related_source;
      };
    })

-- A path outside the project is an exception.
abbrev pub read_path : Surroundings → Turn → System → Option String → Option ToolExecutionOutcome
read_path w u y none = none
read_path w u y (some path) = execute w u read_file (for_path path) true y

abbrev pub read_test : Surroundings → Turn → System → List String → Option System
read_test w u y [] = some (record y {
  state = record y.state {
    retry_limit_reached = true;
    failure_type = some "missing_failing_test_file";
  };
})
read_test w u y (f ∷ _) =
    after_test_read y
      (read_path w u y (normalize_project_relative_path w.libraries (project_of_state y.state) f))

unfoldable pub read_failing_test_node : Surroundings → Turn → System → Option System
unfolding execute
read_failing_test_node w u y = read_test w u y y.state.failing_test_files

-- `[path for path in (imported, fallback) if path]`, without repeats
abbrev pub candidates_of : Option String → String → List String
candidates_of none fallback = fallback ∷ []
candidates_of (some imported) fallback = dedup (imported ∷ fallback ∷ [])

abbrev pub fresh_candidates : Libraries → TestingRepairState → Option String → Option (List String)
fresh_candidates l s none = none
fresh_candidates l s (some fallback) = some (
    candidates_of (extract_related_source_path_from_test l (get_or s.failing_test_content ""))
      fallback)

-- `_related_source_candidates`; `none` is the `ValueError` of a name that gives no package
unfoldable pub related_source_candidates : Libraries → TestingRepairState → Option (List String)
related_source_candidates l s =
    if is_nonempty s.related_source_candidates
    then some s.related_source_candidates
    else fresh_candidates l s (with_main (project_name_to_python_package l (project_of_state s)))

-- The item at an index, with what is behind the end.
abbrev pub item_at : ℕ → List String → Option String
item_at n [] = none
item_at zero (x ∷ xs) = some x
item_at (suc n) (x ∷ xs) = item_at n xs

-- `common`
abbrev pub attempted : String → List String → ℕ → TestingRepairState → TestingRepairState
attempted path candidates attempt s = record s {
  related_source_file = some path;
  related_source_candidates = candidates;
  related_source_read_attempts = attempt + 1;
}

abbrev pub after_source_read :
    System → String → List String → Option ToolExecutionOutcome → Option System
after_source_read y path candidates none = none
after_source_read y path candidates (some o) =
    if read_failed o
    then some (record {
      host = o.system.host;
      state = record (attempted path candidates y.state.related_source_read_attempts y.state) {
        failure_type = some "related_source_read_failed";
        repair_phase = read_related_source;
      };
    })
    else some (record {
      host = o.system.host;
      state =
          record (attempted path candidates y.state.related_source_read_attempts o.system.state) {
            related_source_content = o.content;
            repair_phase = Types.apply_fix;
            failure_type = none;
          };
    })

abbrev pub read_candidate :
    Surroundings → Turn → System → List String → Option String → Option System
read_candidate w u y candidates none = none
read_candidate w u y candidates (some path) =
    after_source_read y path candidates (read_path w u y (some path))

abbrev pub read_source : Surroundings → Turn → System → List String → Option String → Option System
read_source w u y candidates none = some (record y {
  state = record y.state {
    failure_type = some "related_source_read_failed";
    repair_phase = read_related_source;
    related_source_candidates = candidates;
  };
})
read_source w u y candidates (some source) =
    read_candidate w u y candidates
      (normalize_project_relative_path w.libraries (project_of_state y.state) source)

abbrev pub read_candidates : Surroundings → Turn → System → Option (List String) → Option System
read_candidates w u y none = some (record y {
  state = record y.state {
    failure_type = some "related_source_resolution_failed";
    repair_phase = read_related_source;
  };
})
read_candidates w u y (some candidates) =
    read_source w u y candidates (item_at y.state.related_source_read_attempts candidates)

unfoldable pub read_related_source_node : Surroundings → Turn → System → Option System
unfolding execute related_source_candidates
read_related_source_node w u y =
    read_candidates w u y (related_source_candidates w.libraries y.state)
