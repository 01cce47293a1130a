-- ===== src/Pipeline/Review.antt =====
-- internal/pipeline/state_machine.go and stage_runner.go: what becomes of a stage that has run.
use devteam.Prelude.{
  Bool, List, Option, String, false, none, not, some, true, ℕ, ◌&&◌, ◌||◌, ◌==◌, if◌then◌else◌,
  nat_eq, string_eq, text_eq,
}
use devteam.Gate.{Gate, is_open}
use devteam.Stage.Status.{status_eq, awaiting_approval, revising, completed, phase_initialization}
use devteam.Feature.Types.{Feature}
use devteam.Db.Types.{OutcomeRow, StageDefinition, FeatureStage, text, auto_approved}
use devteam.Db.Stages.{get_stage_definition}
use devteam.Pipeline.System.{
  broadcast, save_stage_log, System, Env, call, audit, ◌▷◌, get_feature_stage_row,
  update_feature_stage_row, execution_guided, execution_autonomous, effective_mode,
}

-- Where the outcome of a stage run came from.
pub data OutcomeSource : Type 0 where
  agent_signal default_pass smoke_failed reviewer_said_no agent_failed : OutcomeSource

-- The name of a source in the source's texts.
abbrev pub source_text : OutcomeSource → String
source_text agent_signal = "agent_signal"
source_text default_pass = "default_pass"
source_text smoke_failed = "smoke_failed"
source_text reviewer_said_no = "reviewer_rejected"
source_text agent_failed = "agent_failed"

-- role.DispatchResult
pub record RoleResult : Type 0 where
  pub output : String
  pub error : String
  pub success : Bool

pub record ReviewerResult : Type 0 where
  pub reviewer : String
  pub verdict : String
  pub notes : String
  pub iterations : ℕ

-- The duration is left out.
pub record StageRunResult : Type 0 where
  pub stage_id : String
  pub phase : String
  pub stage_name : String
  pub bolt_number : ℕ
  pub role_result : Option RoleResult
  pub smoke_failures : List String
  pub outcome : OutcomeRow
  pub outcome_source : OutcomeSource
  pub gate : Option Gate
  pub reviewer_result : Option ReviewerResult

-- `panicked` is the nil dereference of `result.RoleResult.Error`.
pub data StageOutcome : Type 0 where
  needs_review auto_approved_stage failed complete panicked : StageOutcome

abbrev pub is_failure : OutcomeSource → Bool
is_failure smoke_failed = true
is_failure reviewer_said_no = true
is_failure agent_failed = true
is_failure _ = false

abbrev pub gate_open : Option Gate → Bool
gate_open none = false
gate_open (some g) = is_open g

abbrev pub is_init_stage : Option StageDefinition → Bool
is_init_stage none = false
is_init_stage (some def) = def.phase == phase_initialization

abbrev pub is_phase_end : String → Option StageDefinition → Bool
is_phase_end stage none = false
is_phase_end stage (some def) = stage == "1.7" || stage == "2.8" || stage == "3.7" || stage == "4.7"

abbrev pub should_auto_approve : String → String → Option StageDefinition → Bool
should_auto_approve mode stage def =
    is_init_stage def
    || mode == execution_autonomous
    || (mode == execution_guided && not (is_phase_end stage def))

unfoldable pub log_output : Feature → String → StageRunResult → System → System
log_output f stage result sys = elim result.role_result [
  | none ↦ sys
  | some rr ↦
      if rr.output == ""
      then sys
      else call (save_stage_log f.id stage result.bolt_number result.stage_name rr.output) sys
]

-- The four ends of ProcessStageResult, in the order of the source.
module _ (env : Env) (f : Feature) (stage : String) (bolt : ℕ) (fs : FeatureStage) where
  unfoldable pub after_failure : Option RoleResult → System → System × StageOutcome
  unfolding update_feature_stage_row audit
  after_failure role_result sys =
      let marked =
        update_feature_stage_row f.id stage bolt revising fs.revision_count (some env.now) none
          sys in
      elim role_result [
        | none ↦ (marked, panicked)
        | some rr ↦ (
          marked
              ▷ audit f.id "STAGE_FAILED" stage "" (text rr.error)
              ▷ call (broadcast f.id "stage_revising" stage bolt),
          failed,
        )
      ]

  abbrev finished : System → System
  finished sys =
      update_feature_stage_row f.id stage bolt completed fs.revision_count fs.started_at
        (some env.now) sys

  unfoldable pub after_closed_gate : System → System
  unfolding update_feature_stage_row audit
  after_closed_gate sys =
      finished sys
      ▷ audit f.id "STAGE_COMPLETED" stage "" (text "")
      ▷ call (broadcast f.id "stage_completed" stage bolt)

  unfoldable pub after_auto_approval : String → System → System
  unfolding update_feature_stage_row audit
  after_auto_approval mode sys =
      finished sys
      ▷ audit f.id "GATE_APPROVED" stage "" (auto_approved mode)
      ▷ audit f.id "STAGE_COMPLETED" stage "" (text "")
      ▷ call (broadcast f.id "stage_completed" stage bolt)
      ▷ call (broadcast f.id "gate_approved" stage bolt)

  unfoldable pub after_open_gate : System → System
  unfolding update_feature_stage_row audit
  after_open_gate sys =
      sys
      ▷ update_feature_stage_row f.id stage bolt awaiting_approval fs.revision_count fs.started_at
          (some env.now)
      ▷ audit f.id "STAGE_AWAITING_APPROVAL" stage "" (text "")
      ▷ call (broadcast f.id "stage_awaiting_approval" stage bolt)

-- ProcessStageResult behind the read of the row.
unfoldable pub settle :
    Env → Feature → String → StageRunResult → Option FeatureStage → System → System × StageOutcome
unfolding after_failure after_closed_gate after_auto_approval after_open_gate log_output
settle env f stage result none sys = (sys, failed)
settle env f stage result (some fs) sys =
    let bolt = result.bolt_number in
    let logged = log_output f stage result sys in
    let mode = effective_mode f.execution_mode in
    if is_failure result.outcome_source
    then after_failure env f stage bolt fs result.role_result logged
    else if not (gate_open result.gate)
    then (after_closed_gate env f stage bolt fs logged, auto_approved_stage)
    else if should_auto_approve mode stage (get_stage_definition sys.db stage)
    then (after_auto_approval env f stage bolt fs mode logged, auto_approved_stage)
    else (after_open_gate env f stage bolt fs logged, needs_review)

unfoldable pub process_stage_result :
    Env → Feature → String → Option StageRunResult → System → System × StageOutcome
process_stage_result env f stage none sys = (sys, failed)
process_stage_result env f stage (some result) sys =
    settle env f stage result (get_feature_stage_row sys f.id stage result.bolt_number) sys

unfoldable pub should_auto_advance : System → Feature → String → Bool
should_auto_advance sys f stage =
    let mode = effective_mode f.execution_mode in
    is_init_stage (get_stage_definition sys.db stage)
    || mode == execution_guided
    || mode == execution_autonomous
