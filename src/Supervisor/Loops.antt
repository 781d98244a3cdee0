-- ===== src/Supervisor/Loops.antt =====
-- `detect_supervisor_loop` of graph/supervisor/guards.py.
use mcp_software_factory.Prelude.{
  String, Bool, true, false, not, ◌&&◌, Option, none, some, List, [], ◌∷◌, ◌==◌, string_eq, nat_eq,
  bool_eq, option_eq, or_else, keep, last_n, last?, is_nonempty, get_or, if◌then◌else◌,
}
use mcp_software_factory.Supervisor.Types.{value, planning, implementation, testing_repair}
use mcp_software_factory.Supervisor.State.{Handoff, Fingerprint}
use mcp_software_factory.Supervisor.Fingerprint.{fingerprint_eq}

-- `item.get("executed_to") or item.get("to")`
unfoldable pub reached : Handoff → Option String
reached h = or_else h.executed_to h.to

-- An item belongs to the active branch; `branch` is that of the last item.
unfoldable pub is_on_branch : Option String → Handoff → Bool
is_on_branch none h = true
is_on_branch (some b) h = get_or h.branch_id "original" == b

-- Old checkpoints carry no fingerprint: the counters that belong to the target are compared.
unfoldable pub no_progress_without_fingerprint : Handoff → Handoff → Handoff → Bool
unfolding reached
no_progress_without_fingerprint a b c =
    if reached a == some (value planning)
    then a.planning_attempts == b.planning_attempts && b.planning_attempts == c.planning_attempts
    else (if reached a == some (value implementation)
        then a.implementation_attempts == b.implementation_attempts
          && b.implementation_attempts == c.implementation_attempts
        else (if reached a == some (value testing_repair)
            then a.tests_executed == b.tests_executed
              && b.tests_executed == c.tests_executed
              && a.tests_passed == b.tests_passed
              && b.tests_passed == c.tests_passed
              && a.repair_phase == b.repair_phase
              && b.repair_phase == c.repair_phase
              && a.repair_attempts == b.repair_attempts
              && b.repair_attempts == c.repair_attempts
            else true))

-- the comparison of three fingerprints, or `fallback` where one is missing
abbrev pub same_prints : Bool → Option Fingerprint → Option Fingerprint → Option Fingerprint → Bool
same_prints fallback (some f) (some g) (some h) = f == g && g == h
same_prints fallback _ _ _ = fallback

-- `fingerprints[0] == fingerprints[1] == fingerprints[2]`, where all three are there
unfoldable pub no_progress : Handoff → Handoff → Handoff → Bool
no_progress a b c =
    same_prints (no_progress_without_fingerprint a b c) a.progress_fingerprint
      b.progress_fingerprint c.progress_fingerprint

unfoldable pub detect_on : Handoff → Handoff → Handoff → Bool
detect_on a b c =
    if not (reached a == reached b && reached b == reached c) then false else no_progress a b c

-- The last three items of the active branch, oldest first.
unfoldable pub detect_on_recent : List Handoff → Bool
detect_on_recent (a ∷ b ∷ c ∷ []) = detect_on a b c
detect_on_recent _ = false

-- `history[-1].get("branch_id")`, where there is a last item
abbrev pub branch_of : Option Handoff → Option String
branch_of none = none
branch_of (some h) = h.branch_id

unfoldable pub latest_branch : List Handoff → Option String
latest_branch history = branch_of (last? history)

unfoldable pub active_history : List Handoff → List Handoff
unfolding is_on_branch latest_branch
active_history history = keep (is_on_branch (latest_branch history)) history

unfoldable pub detect_supervisor_loop : List Handoff → Bool
unfolding active_history detect_on_recent
detect_supervisor_loop history =
    if not (is_nonempty history)
    then false
    else detect_on_recent (last_n 3 (active_history history))
