-- ===== src/PlanReview/Policy.antt =====
-- graph/planning_approval_policy.py, and the nodes of graph/builder.py between the planning subgraph
-- and the judge of a plan.
use mcp_software_factory.Prelude.{
  Bool, true, false, not, ◌&&◌, Option, none, some, List, [], ◌∷◌, String, ◌==◌, string_eq,
  option_eq, any, contains, or_else, if◌then◌else◌, take_chars, text_append,
}
use mcp_software_factory.Supervisor.Types.{
  TerminalStatus, PendingApprovalStatus, no_approval, waiting, approved, rejected,
}
use mcp_software_factory.PlanReview.Risk.{
  PlanTask, RiskLevel, low, medium, high, critical, Area, area_eq, configuration, database,
  dependencies, infrastructure, runtime, security,
}
use mcp_software_factory.PlanReview.Analysis.{SensitiveTask, RiskAnalysis}

-- `PlanningApprovalDecision`; `required` and `decision` say the same.
pub data PolicyReason : Type 0 where
  risk_level_is : RiskLevel → PolicyReason
  high_sensitive_tasks sensitive_areas : PolicyReason
  needs_no_approval : RiskLevel → PolicyReason

pub record PolicyDecision : Type 0 where
  pub required : Bool
  pub reason : PolicyReason

abbrev pub is_high : RiskLevel → Bool
is_high high = true
is_high critical = true
is_high _ = false

abbrev pub is_medium : RiskLevel → Bool
is_medium medium = true
is_medium _ = false

abbrev pub medium_sensitive_areas : List Area
medium_sensitive_areas =
    configuration ∷ database ∷ dependencies ∷ infrastructure ∷ runtime ∷ security ∷ []

abbrev pub touches_sensitive : List Area → Bool
touches_sensitive areas = any (λ a. contains a medium_sensitive_areas) areas

abbrev pub has_high_task : List SensitiveTask → Bool
has_high_task tasks = any (λ t. is_high t.level) tasks

unfoldable pub evaluate_policy : RiskLevel → List Area → List SensitiveTask → PolicyDecision
evaluate_policy level areas tasks =
    if is_high level
    then record { required = true; reason = risk_level_is level }
    else (if has_high_task tasks
        then record { required = true; reason = high_sensitive_tasks }
        else (if is_medium level && touches_sensitive areas
            then record { required = true; reason = sensitive_areas }
            else record { required = false; reason = needs_no_approval level }))

pub data PlanningApprovalStatus : Type 0 where
  not_required awaiting_approval plan_approved plan_rejected : PlanningApprovalStatus

abbrev pub is_plan_approved : Option PlanningApprovalStatus → Bool
is_plan_approved (some plan_approved) = true
is_plan_approved _ = false

-- What the fingerprint is of. The analysis and the criteria are a text.
pub record PlanPayload : Type 0 where
  pub project_name : Option String
  pub risk : Option RiskAnalysis
  pub analysis : String
  pub tasks : List PlanTask

-- The keys of the state that the nodes read and write, but for the quality and the copies in
-- `planning_result`.
pub record ReviewState : Type 0 where
  pub planning_valid : Bool
  pub payload : PlanPayload
  pub approval_required : Bool
  pub policy_reason : Option PolicyReason
  pub approval_status : Option PlanningApprovalStatus
  pub approval_id : Option String
  pub approval_fingerprint : Option String
  pub pending_operation : Option String
  pub pending_fingerprint : Option String
  pub pending_status : PendingApprovalStatus
  pub terminal_status : Option TerminalStatus
  pub failure_type : Option String
  pub user_cancelled : Bool

abbrev pub decision_of : Option RiskAnalysis → PolicyDecision
unfolding evaluate_policy
decision_of none = evaluate_policy low [] []
decision_of (some r) = evaluate_policy r.level r.impact_areas r.sensitive

abbrev pub approval_id_of : String → String
approval_id_of fingerprint = text_append "planning-risk-" (take_chars 16 fingerprint)

abbrev pub without_pending : Option TerminalStatus → Option TerminalStatus
without_pending (some TerminalStatus.pending) = none
without_pending t = t

abbrev pub is_waiting : PendingApprovalStatus → Bool
is_waiting waiting = true
is_waiting _ = false

-- The answer to the interrupt; `unclear` is one that is invalid twice.
pub data Answer : Type 0 where
  agrees refuses unclear : Answer

-- Where a review goes.
pub data Destination : Type 0 where
  judge supervisor finalize : Destination

-- `approval_node`
unfoldable pub answered : Answer → ReviewState → ReviewState
answered agrees s = record s { pending_status = approved }
answered refuses s = record s {
  pending_operation = none;
  pending_fingerprint = none;
  pending_status = rejected;
  user_cancelled = true;
  terminal_status = some TerminalStatus.user_cancelled;
  failure_type = some "user_rejected";
}
answered unclear s = record s {
  pending_status = rejected;
  user_cancelled = true;
  terminal_status = some TerminalStatus.user_cancelled;
  failure_type = some "invalid_approval_response";
}

unfoldable pub reject_planning_risk : ReviewState → ReviewState
reject_planning_risk s = record s {
  approval_status = some plan_rejected;
  approval_required = true;
  failure_type = some "user_rejected";
  terminal_status = some TerminalStatus.user_cancelled;
  user_cancelled = true;
}

-- `"approved" if …` behind the approval
abbrev pub is_granted : PendingApprovalStatus → Bool
is_granted approved = true
is_granted _ = false

-- `planning_approval_fingerprint`: the digest of the payload is a parameter.
module _ (digest : PlanPayload → String) where
  abbrev pub allowed : PolicyReason → ReviewState → ReviewState
  allowed reason s = record s {
    approval_required = false;
    policy_reason = some reason;
    approval_status = some not_required;
    approval_id = none;
    approval_fingerprint = some (digest s.payload);
    terminal_status = without_pending s.terminal_status;
  }

  abbrev pub still_approved : PolicyReason → ReviewState → ReviewState
  still_approved reason s = record s {
    approval_required = true;
    policy_reason = some reason;
    approval_status = some plan_approved;
    approval_id = or_else s.approval_id (some (approval_id_of (digest s.payload)));
    approval_fingerprint = some (digest s.payload);
    terminal_status = none;
  }

  abbrev pub asking_approval : PolicyReason → ReviewState → ReviewState
  asking_approval reason s = record s {
    approval_required = true;
    policy_reason = some reason;
    approval_status = some awaiting_approval;
    approval_id = some (approval_id_of (digest s.payload));
    approval_fingerprint = some (digest s.payload);
    pending_operation = some "planning_risk_approval";
    pending_fingerprint = some (digest s.payload);
    pending_status = waiting;
    terminal_status = some TerminalStatus.pending;
  }

  unfoldable pub planning_risk_policy : ReviewState → ReviewState
  unfolding evaluate_policy take_chars
  planning_risk_policy s =
      let d = decision_of s.payload.risk in
      if not s.planning_valid
      then s
      else (if not d.required
          then allowed d.reason s
          else (if is_plan_approved s.approval_status
                && s.approval_fingerprint == some (digest s.payload)
              then still_approved d.reason s
              else asking_approval d.reason s))

  unfoldable pub accept_planning_risk : ReviewState → ReviewState
  accept_planning_risk s =
      if not (s.pending_fingerprint == some (digest s.payload))
      then record s {
        approval_status = some awaiting_approval;
        failure_type = some "planning_approval_stale";
        pending_status = waiting;
      }
      else record s {
        approval_status = some plan_approved;
        approval_required = true;
        pending_operation = none;
        pending_fingerprint = none;
        pending_status = no_approval;
        terminal_status = none;
      }

  -- The edges behind the approval.
  abbrev pub resolved : ReviewState → Destination × ReviewState
  unfolding accept_planning_risk reject_planning_risk
  resolved s =
      if is_granted s.pending_status
      then (judge, accept_planning_risk s)
      else (finalize, reject_planning_risk s)

  abbrev pub is_asking : ReviewState → Bool
  is_asking s = s.pending_operation == some "planning_risk_approval" && is_waiting s.pending_status

  -- The edges behind the policy node, up to the judge, the supervisor or the end.
  abbrev pub directed : Answer → ReviewState → Destination × ReviewState
  unfolding answered
  directed a s =
      if is_asking s
      then resolved (answered a s)
      else (if s.planning_valid then (judge, s) else (supervisor, s))

  unfoldable pub review_plan : Answer → ReviewState → Destination × ReviewState
  unfolding planning_risk_policy answered accept_planning_risk reject_planning_risk
  review_plan a s = directed a (planning_risk_policy s)
