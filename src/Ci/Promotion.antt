-- ===== src/Ci/Promotion.antt =====
-- `normalize_commit_id` of api/services/git_store.py and `evaluate_ci_promotion_eligibility` of
-- api/services/ci_service.py.
use mcp_software_factory.Prelude.{
  ℕ, String, Bool, true, false, not, ◌&&◌, ◌||◌, Option, none, some, List, [], ◌∷◌, ◌==◌, string_eq,
  option_eq, nat_eq, leb, get_or, is_some, truthy, or_else, is_nonempty, strip, char_count,
  all_chars, if◌then◌else◌,
}
use mcp_software_factory.Ci.Types.{
  PipelineStatus, Decision, PromotionPolicy, pipeline_status_eq, decision_eq,
}

-- `[0-9a-fA-F]`
unfoldable pub is_hex : ℕ → Bool
is_hex c = (leb b'0' c && leb c b'9') || (leb b'a' c && leb c b'f') || (leb b'A' c && leb c b'F')

-- `SHA_RE.fullmatch`
unfoldable pub is_sha : String → Bool
unfolding is_hex
is_sha s = leb 40 (char_count s) && leb (char_count s) 64 && all_chars is_hex s

unfoldable pub normalize_commit_id : Option String → Option String
unfolding is_sha
normalize_commit_id v = let text = strip (get_or v "") in if is_sha text then some text else none

-- The keys of the Git state that hold the commit.
pub record GitState : Type 0 where
  pub workflow_head : Option String
  pub commit_sha : Option String
  pub head_commit : Option String

-- The keys of a CI run that eligibility reads.
pub record CiRun : Type 0 where
  pub ci_run_id : Option String
  pub status : Option PipelineStatus
  pub source_mode : Option String
  pub source_commit : Option String
  pub ci_validated_commit : Option String
  pub decision : Option Decision
  pub warning_gates : List String
  pub warnings : List String
  pub failed_gates : List String
  pub blocking_gate : Option String

-- `CIPromotionEligibility`, without the versions and the metadata that it copies.
pub record Eligibility : Type 0 where
  pub required : Bool
  pub eligible : Bool
  pub reason : String
  pub commit_match : Bool
  pub source_commit : Option String
  pub target_commit : Option String
  pub run_id : Option String
  pub ci_status : Option PipelineStatus
  pub ci_decision : Option Decision
  pub blocking_gates : List String
  pub warnings : List String

unfoldable pub target_of : GitState → Option String
target_of g = normalize_commit_id (or_else (or_else g.workflow_head g.commit_sha) g.head_commit)

unfoldable pub source_of : CiRun → Option String
source_of r = normalize_commit_id (or_else r.source_commit r.ci_validated_commit)

-- `str(source.get("source_mode") or "").strip() or None`
unfoldable pub mode_of : CiRun → Option String
mode_of r = let text = strip (get_or r.source_mode "") in if text == "" then none else some text

abbrev pub without_run : Bool → Bool → String → Bool → Option String → Eligibility
without_run required eligible reason commit_match target = record {
  required = required;
  eligible = eligible;
  reason = reason;
  commit_match = commit_match;
  source_commit = none;
  target_commit = target;
  run_id = none;
  ci_status = none;
  ci_decision = none;
  blocking_gates = [];
  warnings = [];
}

-- The result with the `common` values of a run.
abbrev pub with_run : CiRun → Option String → Bool → String → Eligibility
with_run r target eligible reason = record {
  required = true;
  eligible = eligible;
  reason = reason;
  commit_match = source_of r == target;
  source_commit = source_of r;
  target_commit = target;
  run_id = r.ci_run_id;
  ci_status = r.status;
  ci_decision = r.decision;
  blocking_gates =
      if is_nonempty r.failed_gates
      then r.failed_gates
      else (if truthy r.blocking_gate then get_or r.blocking_gate "" ∷ [] else []);
  warnings = if is_nonempty r.warning_gates then r.warning_gates else r.warnings;
}

-- `status in {"passed", "failed"} and decision`
abbrev pub is_completed : CiRun → Bool
is_completed r =
    (r.status == some PipelineStatus.passed || r.status == some PipelineStatus.failed)
    && is_some r.decision

-- The checks of a run against the target commit.
unfoldable pub judge_run : PromotionPolicy → CiRun → Option String → Eligibility
judge_run policy r target =
    if not (mode_of r == some "commit") || not (is_some (source_of r))
    then with_run r target false "ci_required_for_promotion"
    else (if not (source_of r == target)
        then with_run r target false "ci_commit_mismatch"
        else (if not (is_completed r)
            then with_run r target false "ci_run_not_completed"
            else (if r.decision == some Decision.rejected
                then with_run r target false "ci_promotion_blocked"
                else (if r.decision == some Decision.accepted_with_warnings
                      && not policy.allow_warnings
                    then with_run r target false "ci_warnings_blocked"
                    else (if r.decision == some Decision.accepted_with_warnings
                        then with_run r target true "ci_accepted_with_warnings"
                        else with_run r target true "ci_accepted")))))

abbrev pub judge_optional_run : PromotionPolicy → Option CiRun → Option String → Eligibility
judge_optional_run policy none target =
    without_run true false "ci_required_for_promotion" false target
judge_optional_run policy (some r) target = judge_run policy r target

unfoldable pub evaluate_ci_promotion_eligibility :
    GitState → Option CiRun → PromotionPolicy → Eligibility
unfolding judge_run
evaluate_ci_promotion_eligibility g run policy =
    let target = target_of g in
    if not policy.required
    then without_run false true "ci_not_required" true target
    else (if not (is_some target)
        then without_run true false "ci_target_commit_missing" false none
        else judge_optional_run policy run target)
