-- ===== src/Pipeline/Verdict.antt =====
-- internal/pipeline/state_machine.go and stage_runner.go: approving, rejecting and accepting as is.
use devteam.Prelude.{
  Bool, Option, String, false, ltb, none, not, some, true, ℕ, ◌+◌, ◌==◌, if◌then◌else◌, nat_eq,
  string_eq, text_eq,
}
use devteam.Gate.{max_revisions}
use devteam.Stage.Status.{Status, status_eq, awaiting_approval, revising, completed}
use devteam.Feature.Types.{Feature}
use devteam.Db.Types.{StageDefinition, FeatureStage, text}
use devteam.Db.Stages.{is_per_bolt_stage, get_stage_definition}
use devteam.Db.Events.{get_latest_outcome}
use devteam.Pipeline.System.{
  broadcast, add_note, save_rule, System, Env, call, audit, ◌▷◌, get_feature_stage_row,
  update_feature_stage_row, Error, stage_not_found, wrong_state, reviewer_rejected, no_definition,
  too_few_revisions,
}
use devteam.Pipeline.Advance.{advance_stage, next_stage_to_run}

abbrev pub is_recirculated : System → String → String → Bool
is_recirculated sys f stage = elim (get_latest_outcome sys.db f stage) [
  | none ↦ false
  | some o ↦ o.outcome == "recirculate"
]

-- The row of the stage is completed and the gate's approval is told.
unfoldable pub complete_stage : Env → String → String → ℕ → FeatureStage → System → System
unfolding update_feature_stage_row audit
complete_stage env f stage bolt fs sys =
    sys
    ▷ update_feature_stage_row f stage bolt completed fs.revision_count fs.started_at (some env.now)
    ▷ audit f "GATE_APPROVED" stage "" (text "")
    ▷ audit f "STAGE_COMPLETED" stage "" (text "")
    ▷ call (broadcast f "stage_completed" stage bolt)
    ▷ call (broadcast f "gate_approved" stage bolt)

-- What ApproveAndAdvance returns: the next stage to run or an error.
pub data Approval : Type 0 where
  next : String → Approval
  refused : Error → Approval

abbrev then_next : Env → System × Feature × Option Error → System × Feature × Approval
then_next env (sys, f, some e) = (sys, f, refused e)
then_next env (sys, f, none) =
    let (sys', stage) = next_stage_to_run env f.id sys in (sys', f, next stage)

abbrev pub can_review : Status → Bool
can_review awaiting_approval = true
can_review revising = true
can_review _ = false

-- ApproveAndAdvance behind the read of the row.
unfoldable pub approve_row :
    Env → Feature → String → ℕ → Option FeatureStage → System → System × Feature × Approval
approve_row env f stage bolt none sys = (sys, f, refused (stage_not_found stage bolt))
approve_row env f stage bolt (some fs) sys =
    let approved = complete_stage env f.id stage bolt fs sys in
    let advanced =
      if is_per_bolt_stage stage then (approved, f, none) else advance_stage env f stage approved in
    if not (can_review fs.status)
    then (sys, f, refused (wrong_state stage bolt fs.status))
    else if is_recirculated sys f.id stage
    then (sys, f, refused (reviewer_rejected stage))
    else then_next env advanced

unfoldable pub approve_and_advance :
    Env → Feature → String → ℕ → System → System × Feature × Approval
approve_and_advance env f stage bolt sys =
    approve_row env f stage bolt (get_feature_stage_row sys f.id stage bolt) sys

-- ApproveStage delegates.
abbrev pub approve_stage : Env → Feature → String → ℕ → System → System × Feature × Approval
approve_stage = approve_and_advance

unfoldable pub revise :
    Feature → String → ℕ → String → FeatureStage → StageDefinition → System → System
unfolding update_feature_stage_row audit
revise f stage bolt notes fs def sys =
    sys
    ▷ update_feature_stage_row f.id stage bolt revising (fs.revision_count + 1) fs.started_at none
    ▷ call (add_note f.id stage def.lead_agent "revision" notes)
    ▷ audit f.id "GATE_REJECTED" stage "" (text notes)
    ▷ audit f.id "RULE_LEARNED" stage "" (text notes)
    ▷ call (broadcast f.id "gate_rejected" stage bolt)
    ▷ call (save_rule f.id def.lead_agent stage notes)

-- RejectStage behind the reads of the row and of the definition.
unfoldable pub reject_row :
    Feature
    → String
    → ℕ
    → String
    → Option FeatureStage
    → Option StageDefinition
    → System
    → System × Option Error
unfolding revise
reject_row f stage bolt notes none def sys = (sys, some (stage_not_found stage bolt))
reject_row f stage bolt notes (some fs) def sys =
    if not (can_review fs.status)
    then (sys, some (wrong_state stage bolt fs.status))
    else elim def [
      | none ↦ (sys, some (no_definition stage))
      | some d ↦ (revise f stage bolt notes fs d sys, none)
    ]

unfoldable pub reject_stage : Feature → String → ℕ → String → System → System × Option Error
reject_stage f stage bolt notes sys =
    reject_row f stage bolt notes (get_feature_stage_row sys f.id stage bolt)
      (get_stage_definition sys.db stage) sys

unfoldable pub accept : Env → String → String → ℕ → FeatureStage → System → System
unfolding update_feature_stage_row audit
accept env f stage bolt fs sys =
    sys
    ▷ update_feature_stage_row f stage bolt completed fs.revision_count fs.started_at (some env.now)
    ▷ audit f "GATE_ACCEPT_AS_IS" stage "" (text "")
    ▷ audit f "STAGE_COMPLETED" stage "" (text "")
    ▷ call (broadcast f "stage_completed" stage bolt)

-- AcceptStageAsIs behind the read of the row.
unfoldable pub accept_row :
    Env → Feature → String → ℕ → Option FeatureStage → System → System × Feature × Option Error
unfolding accept
accept_row env f stage bolt none sys = (sys, f, some (stage_not_found stage bolt))
accept_row env f stage bolt (some fs) sys =
    let accepted = accept env f.id stage bolt fs sys in
    let advanced =
      if is_per_bolt_stage stage then (accepted, f, none) else advance_stage env f stage accepted in
    if ltb fs.revision_count max_revisions
    then (sys, f, some (too_few_revisions max_revisions fs.revision_count))
    else advanced

unfoldable pub accept_stage_as_is :
    Env → Feature → String → ℕ → System → System × Feature × Option Error
accept_stage_as_is env f stage bolt sys =
    accept_row env f stage bolt (get_feature_stage_row sys f.id stage bolt) sys
