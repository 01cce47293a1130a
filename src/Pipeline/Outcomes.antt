-- ===== src/Pipeline/Outcomes.antt =====
-- internal/pipeline/state_machine.go: ProcessStageResult against the row that it leaves.
use devteam.Prelude.{Bool-cases, Option, String, arith, inl, inr, none, some, ℕ, ◌≡◌, ◌∙◌}
use devteam.Stage.Status.{Status, awaiting_approval, revising, completed}
use devteam.Feature.Types.{Feature}
use devteam.Db.Types.{FeatureStage}
use devteam.Db.Stages.{written, get_stage_definition}
use devteam.Pipeline.System.{System, Env, get_feature_stage_row, effective_mode}
use devteam.Pipeline.Review.{
  StageRunResult, StageOutcome, needs_review, auto_approved_stage, failed, complete, panicked,
  is_failure, gate_open, should_auto_approve, process_stage_result, log_output, RoleResult,
  after_failure, after_closed_gate, after_auto_approval, after_open_gate, settle,
}
use devteam.Pipeline.Rows.{get_row-update_self, untouched_rows}

-- The status that goes with an outcome.
abbrev pub status_for : StageOutcome → Status
status_for needs_review = awaiting_approval
status_for auto_approved_stage = completed
status_for failed = revising
status_for complete = completed
status_for panicked = revising

-- The row that goes with an outcome: a failure starts the row anew and leaves it without an end.
abbrev pub row_for : Env → StageOutcome → FeatureStage → FeatureStage
row_for env failed fs = written revising fs.revision_count (some env.now) none fs
row_for env panicked fs = written revising fs.revision_count (some env.now) none fs
row_for env o fs = written (status_for o) fs.revision_count fs.started_at (some env.now) fs

get_row-log_output :
    (f : Feature) (stage : String) (r : StageRunResult) (sys : System) (g s : String) (b : ℕ)
    → get_feature_stage_row (log_output f stage r sys) g s b ≡ get_feature_stage_row sys g s b
unfolding log_output get_feature_stage_row
get_row-log_output f stage r sys g s b = ground arith

module _ (env : Env) (f : Feature) (stage : String) (bolt : ℕ) (fs : FeatureStage) (sys : System)
    (at : get_feature_stage_row sys f.id stage bolt ≡ some fs) where
  row-failure :
      (rr : Option RoleResult)
      → let (after, o) = after_failure env f stage bolt fs rr sys in
        get_feature_stage_row after f.id stage bolt ≡ some (row_for env o fs)
  unfolding after_failure
  row-failure none = simp (untouched_rows, get_row-update_self, at)
  row-failure (some rr) = simp (untouched_rows, get_row-update_self, at)

  row-closed_gate :
      get_feature_stage_row (after_closed_gate env f stage bolt fs sys) f.id stage bolt
      ≡ some (row_for env auto_approved_stage fs)
  unfolding after_closed_gate
  row-closed_gate = simp (untouched_rows, get_row-update_self, at)

  row-auto_approval :
      (mode : String)
      → get_feature_stage_row (after_auto_approval env f stage bolt fs mode sys) f.id stage bolt
        ≡ some (row_for env auto_approved_stage fs)
  unfolding after_auto_approval
  row-auto_approval mode = simp (untouched_rows, get_row-update_self, at)

  row-open_gate :
      get_feature_stage_row (after_open_gate env f stage bolt fs sys) f.id stage bolt
      ≡ some (row_for env needs_review fs)
  unfolding after_open_gate
  row-open_gate = simp (untouched_rows, get_row-update_self, at)

module _ (env : Env) (f : Feature) (stage : String) (r : StageRunResult) (sys : System)
    (fs : FeatureStage) where
  abbrev row_at : System → Option FeatureStage
  row_at after = get_feature_stage_row after f.id stage r.bolt_number

  settle-row :
      row_at sys ≡ some fs
      → row_at (settle env f stage r (some fs) sys).0
        ≡ some (row_for env (settle env f stage r (some fs) sys).1 fs)
  unfolding settle
  settle-row e =
      let logged = log_output f stage r sys in
      let mode = effective_mode f.execution_mode in
      let at : row_at logged ≡ some fs = get_row-log_output f stage r sys f.id stage _ ∙ e in
      elim (Bool-cases (is_failure r.outcome_source)) [
        | inl bad ↦ rw bad (row-failure env f stage r.bolt_number fs logged at r.role_result)
        | inr good ↦ elim (Bool-cases (gate_open r.gate)) [
          | inr closed ↦ rw (good, closed) (row-closed_gate env f stage r.bolt_number fs logged at)
          | inl opened ↦
              elim (Bool-cases
                (should_auto_approve mode stage (get_stage_definition sys.db stage))) [
                  | inl auto ↦
                      rw (good, opened, auto)
                        (row-auto_approval env f stage r.bolt_number fs logged at mode)
                  | inr human ↦
                      rw (good, opened, human)
                        (row-open_gate env f stage r.bolt_number fs logged at)
                ]
        ]
      ]

-- For a run whose row exists, ProcessStageResult keeps the row's revision count and leaves the row
-- in the status that goes with the outcome that it returns: revising for a failure, completed for
-- an automatic approval, awaiting approval for a review.
pub process_stage_result-row :
    (env : Env) (f : Feature) (stage : String) (r : StageRunResult) (sys : System)
    (fs : FeatureStage)
    → get_feature_stage_row sys f.id stage r.bolt_number ≡ some fs
    → let (after, o) = process_stage_result env f stage (some r) sys in
      get_feature_stage_row after f.id stage r.bolt_number ≡ some (row_for env o fs)
unfolding process_stage_result
process_stage_result-row env f stage r sys fs e = rw e (settle-row env f stage r sys fs e)
