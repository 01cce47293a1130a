-- ===== src/Pipeline/Checks.antt =====
-- internal/pipeline/stage_runner.go: the outcome of a stage, its smoke check and its review.
use devteam.Prelude.{
  Bool, List, Option, String, [], concat, false, none, not, some, true, ℕ, ◌&&◌, ◌||◌, ◌∷◌, ◌==◌,
  if◌then◌else◌, nat_eq, string_eq, text_eq,
}
use devteam.Stage.Status.{phase_construction}
use devteam.Feature.Types.{Feature}
use devteam.Db.Types.{StageDefinition, OutcomeRow, reviewed}
use devteam.Db.Events.{get_latest_outcome}
use devteam.Pipeline.System.{System, broadcast, call, audit, ◌▷◌}
use devteam.Pipeline.Review.{
  RoleResult, ReviewerResult, OutcomeSource, agent_signal, default_pass, agent_failed,
}
use devteam.Pipeline.Agent.{Visit, Attempt, answered, broke, dispatch_streaming}

-- stageSmokeCheck
abbrev pub stage_smoke_check : Visit → StageDefinition → List String
stage_smoke_check visit def =
    if def.phase == phase_construction && (def.id == "3.5" || def.id == "3.6")
    then visit.unchanged_impl_files
    else []

abbrev pub is_nonempty : List String → Bool
is_nonempty [] = false
is_nonempty (x ∷ xs) = true

abbrev pub passed : OutcomeRow → Bool
passed o = o.outcome == "pass"

abbrev pub outcome_row : Feature → String → String → OutcomeRow
outcome_row f stage outcome = record {
  feature_id = f.id;
  phase = stage;
  outcome = outcome;
  target = "";
  notes = "";
  created_at = 0;
}

-- The outcome that the agent signalled, or that its end stands for.
unfoldable pub read_outcome :
    Feature → String → RoleResult → Option OutcomeRow → OutcomeRow × OutcomeSource
read_outcome f stage rr (some o) = (o, agent_signal)
read_outcome f stage rr none =
    if not rr.success
    then (outcome_row f stage "failed", agent_failed)
    else (outcome_row f stage "pass", default_pass)

-- The stage under which a reviewer is dispatched and looked up.
abbrev pub review_stage : String → String
review_stage id = concat id "-review"

abbrev pub verdict_of : String → Option OutcomeRow → ReviewerResult
verdict_of reviewer none = record {
  reviewer = reviewer;
  verdict = "READY";
  notes = "Reviewer did not signal — defaulting to READY";
  iterations = 1;
}
verdict_of reviewer (some o) = record {
  reviewer = reviewer;
  verdict = if o.outcome == "recirculate" then "NOT-READY" else "READY";
  notes = o.notes;
  iterations = 1;
}

-- The result of a review whose dispatch came to an end; `none` where it broke.
abbrev pub review_end : Attempt → ReviewerResult → Option ReviewerResult
review_end (answered reqs rr) result = some result
review_end (broke reqs err rr) result = none

-- dispatchReviewer; `none` where it returns an error, which is only logged.
unfoldable pub dispatch_reviewer :
    ℕ → Visit → Feature → StageDefinition → System → System × Option ReviewerResult
unfolding dispatch_streaming
dispatch_reviewer now visit f def sys =
    let after = dispatch_streaming now f.id (review_stage def.id) def.reviewer visit.review sys in
    let signalled = get_latest_outcome after.db f.id (review_stage def.id) in
    elim visit.reviewer_role_error [
      | some e ↦ (sys, none)
      | none ↦ (after, review_end visit.review (verdict_of def.reviewer signalled))
    ]

-- recordReviewerAudit and the event beside it.
unfoldable pub record_review : Feature → StageDefinition → Option ReviewerResult → System → System
unfolding audit
record_review f def none sys = sys
record_review f def (some r) sys =
    sys
    ▷ audit f.id "SUBAGENT_COMPLETED" def.id def.phase (reviewed r.reviewer r.verdict)
    ▷ call (broadcast f.id "gate_result" def.id 0)

abbrev pub is_not_ready : Option ReviewerResult → Bool
is_not_ready none = false
is_not_ready (some r) = r.verdict == "NOT-READY"
