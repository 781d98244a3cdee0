-- ===== src/Ci/Types.antt =====
-- The models of api/ci_models.py and the policies of api/services/ci_service.py. Times, exit codes,
-- commands and directories are left out: no decision of the gates reads them.
use mcp_software_factory.Prelude.{ℕ, String, Bool, Option, List, Eq, discrete_eq}

pub data StepType : Type 0 where
  build test lint packaging custom : StepType

pub data StepStatus : Type 0 where
  pending running passed failed skipped timed_out cancelled interrupted : StepStatus

pub data PipelineStatus : Type 0 where
  pending running passed failed timed_out cancelled interrupted : PipelineStatus

pub data GateType : Type 0 where
  build test lint packaging : GateType

pub data GateStatus : Type 0 where
  passed failed warning skipped not_applicable : GateStatus

pub data Decision : Type 0 where
  accepted accepted_with_warnings rejected : Decision

unfoldable pub StepType-discrete : Discrete StepType
StepType-discrete = hlevel

instance abbrev pub step_type_eq : Eq StepType
step_type_eq = discrete_eq StepType-discrete

unfoldable pub StepStatus-discrete : Discrete StepStatus
StepStatus-discrete = hlevel

instance abbrev pub step_status_eq : Eq StepStatus
step_status_eq = discrete_eq StepStatus-discrete

unfoldable pub PipelineStatus-discrete : Discrete PipelineStatus
PipelineStatus-discrete = hlevel

instance abbrev pub pipeline_status_eq : Eq PipelineStatus
pipeline_status_eq = discrete_eq PipelineStatus-discrete

unfoldable pub GateStatus-discrete : Discrete GateStatus
GateStatus-discrete = hlevel

instance abbrev pub gate_status_eq : Eq GateStatus
gate_status_eq = discrete_eq GateStatus-discrete

unfoldable pub Decision-discrete : Discrete Decision
Decision-discrete = hlevel

instance abbrev pub decision_eq : Eq Decision
decision_eq = discrete_eq Decision-discrete

-- A gate type is also a step type, and a text.
abbrev pub step_type : GateType → StepType
step_type GateType.build = StepType.build
step_type GateType.test = StepType.test
step_type GateType.lint = StepType.lint
step_type GateType.packaging = StepType.packaging

abbrev pub gate_text : GateType → String
gate_text GateType.build = "build"
gate_text GateType.test = "test"
gate_text GateType.lint = "lint"
gate_text GateType.packaging = "package"

-- `CIPipelineStep`
pub record PipelineStep : Type 0 where
  pub step_id : String
  pub name : String
  pub type : StepType
  pub required : Bool
  pub continue_on_error : Bool

-- `CIPipelineDefinition`; the time limit is in milliseconds
pub record Pipeline : Type 0 where
  pub version : String
  pub steps : List PipelineStep
  pub fail_fast : Bool
  pub timeout_ms : ℕ

-- `CIStepRun`
pub record StepRun : Type 0 where
  pub step_id : String
  pub name : String
  pub type : StepType
  pub status : StepStatus
  pub stdout_summary : Option String
  pub stderr_summary : Option String
  pub failure_type : Option String
  pub failure_message : Option String

-- `CIGateDefinition`
pub record GateDefinition : Type 0 where
  pub gate_id : String
  pub type : GateType
  pub required : Bool
  pub blocking : Bool
  pub source_step_types : List GateType
  pub minimum_success_count : Option ℕ
  pub allow_skipped : Bool
  pub policy_version : String

-- `CIGateResult`
pub record GateResult : Type 0 where
  pub gate_id : String
  pub type : GateType
  pub status : GateStatus
  pub required : Bool
  pub blocking : Bool
  pub reason : String
  pub source_steps : List String
  pub failure_type : Option String

pub record GateSummary : Type 0 where
  pub total : ℕ
  pub passed : ℕ
  pub failed : ℕ
  pub warning : ℕ
  pub skipped : ℕ
  pub not_applicable : ℕ
  pub blocking_failed_count : ℕ

-- `CIGateEvaluation`
pub record GateEvaluation : Type 0 where
  pub policy_version : String
  pub gates : List GateResult
  pub decision : Decision
  pub failed_gates : List String
  pub warning_gates : List String
  pub blocking_gate : Option String
  pub failure_type : Option String
  pub summary : GateSummary

-- `CIGatePolicy`
pub record GatePolicy : Type 0 where
  pub version : String
  pub build_blocking : Bool
  pub test_blocking : Bool
  pub lint_blocking : Bool
  pub package_blocking : Bool

-- `CIPromotionPolicy`
pub record PromotionPolicy : Type 0 where
  pub version : String
  pub required : Bool
  pub allow_warnings : Bool
