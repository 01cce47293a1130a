-- ===== src/Pipeline/Approved.antt =====
-- internal/pipeline/bolts.go: RunBolt in the automatic modes, on a stage whose agent failed.
use devteam.Prelude.{
  Bool-cases, List, String, [], arith, false, inl, inr, none, refl, some, suc, sym, true, ℕ, ◌≡◌,
  ◌∙◌, ◌∷◌, ◌++◌, ◌==◌, nat_eq, string_eq, text_eq,
}
use devteam.Stage.Status.{revising}
use devteam.Feature.Types.{Feature}
use devteam.Db.Types.{FeatureStage}
use devteam.Db.Stages.{is_per_bolt_stage}
use devteam.Pipeline.System.{System, Env, get_feature_stage_row, effective_mode}
use devteam.Pipeline.Review.{StageRunResult, agent_failed, gate_open}
use devteam.Pipeline.Decide.{is_auto}
use devteam.Pipeline.Verdict.{Approval, next, refused, approve_and_advance, is_recirculated}
use devteam.Pipeline.Approval.{IsApproval, approved_row, approve_and_advance-IsApproval}
use devteam.Pipeline.Close.{ran}
use devteam.Db.Events.{get_latest_outcome}
use devteam.Pipeline.Agent.{Visit}
use devteam.Pipeline.Checks.{review_stage, is_nonempty}
use devteam.Pipeline.Run.{bolt_for, run_stage}
use devteam.Pipeline.Left.{row_left, run_stage-row}
use devteam.Pipeline.Signals.{is_unsignalled}
use devteam.Pipeline.Judged.{IsUnheard}
use devteam.Pipeline.Unheard.{run_stage-IsUnheard}
use devteam.Pipeline.BoltRun.{Rest, after_run, after_approval, went_through}

-- The rest of a bolt behind its last stage.
abbrev pub no_more : Rest
no_more results sys f = (sys, f, went_through results)

approval-goes_on :
    (env : Env) (f : Feature) (stage : String) (b : ℕ) (fs : FeatureStage) (sys : System)
    (results : List StageRunResult) (a : System × Feature × Approval)
    → fs.status ≡ revising
    → is_recirculated sys f.id stage ≡ false
    → IsApproval env f stage b fs sys a
    → let (after, f', end) = after_approval results no_more a in
      (get_feature_stage_row after f.id stage b ≡ some (approved_row env fs))
      × (end ≡ went_through results)
approval-goes_on env f stage b fs sys results (after, f', next id) revised clear h = (h.2, refl)
approval-goes_on env f stage b fs sys results (after, f', refused e) revised clear h = elim h.0 [
  | inl shut ↦ absurd (ground (arith, revised))
  | inr back ↦ absurd (ground arith)
]

-- A result of RunStage whose agent failed says so, and has an open gate.
unheard-agent_failed :
    (f : Feature) (stage : String) (r : StageRunResult)
    → IsUnheard f stage (ran r)
    → r.outcome_source ≡ agent_failed
    → ((r.outcome.outcome == "failed") ≡ true) × (gate_open r.gate ≡ true)
unheard-agent_failed f stage r (rr, found, o, source, opened) e = elim (Bool-cases rr.success) [
  | inr bad ↦ (rw (o, bad) refl, opened ∙ rw e)
  | inl good ↦ absurd (elim (Bool-cases (is_nonempty r.smoke_failures)) [
    | inl smoke ↦ let g = rw (good, smoke) at (sym source ∙ e) in cc g
    | inr quiet ↦ let g = rw (good, quiet) at (sym source ∙ e) in cc g
  ])
]

-- The last stage of a bolt in an automatic mode, named unlike a phase, with a row and no review
-- stored before it, for a feature that has its worktree: if the agent fails, RunBolt approves the
-- stage all the same. The bolt has then gone through all its stages, and the row is completed.
pub after_run-approves :
    (env : Env) (visit : Visit) (b : ℕ) (stage : String) (results : List StageRunResult)
    (sys after : System) (f : Feature) (r : StageRunResult) (fs : FeatureStage)
    → is_per_bolt_stage stage ≡ true
    → f.current_bolt ≡ suc b
    → is_auto (effective_mode f.execution_mode) ≡ true
    → is_unsignalled stage ≡ true
    → is_unsignalled (review_stage stage) ≡ true
    → get_latest_outcome sys.db f.id (review_stage stage) ≡ none
    → get_feature_stage_row sys f.id stage (suc b) ≡ some fs
    → run_stage env visit f stage sys ≡ (after, f, ran r)
    → r.outcome_source ≡ agent_failed
    → is_recirculated after f.id stage ≡ false
    → let (left, f', end) =
        after_run env (suc b) stage no_more results (run_stage env visit f stage sys) in
      (get_feature_stage_row left f.id stage (suc b)
        ≡ some (approved_row env (row_left env (ran r) fs)))
      × (end ≡ went_through (results ++ r ∷ []))
unfolding after_run
after_run-approves env visit b stage results sys after f r fs of_bolt at_bolt auto u v unseen at run
      failed clear =
    let bolt : bolt_for f stage ≡ suc b = rw (of_bolt, at_bolt) in
    let heard : IsUnheard f stage (ran r) =
      rw run at (run_stage-IsUnheard env visit f stage sys u v unseen) in
    let (says, opened) = unheard-agent_failed f stage r heard failed in
    let row : get_feature_stage_row after f.id stage (suc b) ≡ some (row_left env (ran r) fs) =
      rw (run, bolt) at (run_stage-row env visit f stage sys fs (rw bolt at)) in
    let revised : (row_left env (ran r) fs).status ≡ revising = rw (failed, says) in
    rw (run, opened, auto)
      (approval-goes_on env f stage (suc b) (row_left env (ran r) fs) after (results ++ r ∷ [])
        (approve_and_advance env f stage (suc b) after) revised clear
        (approve_and_advance-IsApproval env f stage b after (row_left env (ran r) fs) of_bolt row))
