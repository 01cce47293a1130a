-- ===== src/Pipeline/Close.antt =====
-- internal/pipeline/stage_runner.go: how RunStage marks a stage before and after its run.
use devteam.Prelude.{
  Bool, List, Option, String, false, join, ltb, none, some, true, ℕ, ◌+◌, ◌&&◌, ◌==◌, if◌then◌else◌,
  nat_eq, string_eq, text_eq,
}
use devteam.Gate.{Gate, new, reject}
use devteam.Stage.Status.{Status, in_progress, awaiting_approval, revising, phase_construction}
use devteam.Feature.Types.{Feature}
use devteam.Db.Types.{StageDefinition, FeatureStage, OutcomeRow, text}
use devteam.Pipeline.System.{
  System, Env, broadcast, add_note, set_session_running, set_session_awaiting_gate, call, audit,
  ◌▷◌, update_feature_stage_row, Error,
}
use devteam.Pipeline.Review.{
  RoleResult, ReviewerResult, StageRunResult, OutcomeSource, smoke_failed, reviewer_said_no,
}

-- What RunStage returns.
pub data StageRun : Type 0 where
  ran : StageRunResult → StageRun
  not_run : Error → StageRun

-- The bolt of the session, which is that of the feature in the whole construction phase.
abbrev pub session_bolt : Feature → StageDefinition → ℕ
session_bolt f def =
    if def.phase == phase_construction && ltb 0 f.current_bolt then f.current_bolt else 0

abbrev pub when : Bool → (System → System) → System → System
when b step sys = if b then step sys else sys

abbrev pub mark : Env → Feature → String → ℕ → Status → ℕ → System → System
mark env f stage bolt st n = update_feature_stage_row f.id stage bolt st n (some env.now) none

abbrev pub sent_back : OutcomeSource → Bool
sent_back smoke_failed = true
sent_back reviewer_said_no = true
sent_back _ = false

-- The row, and the definition of its stage.
module _ (env : Env) (f : Feature) (stage : String) (bolt : ℕ) (def : StageDefinition)
    (fs : FeatureStage) where
  unfoldable pub start_stage : System → System
  unfolding update_feature_stage_row audit
  start_stage sys =
      sys
      ▷ mark env f stage bolt in_progress fs.revision_count
      ▷ audit f.id "STAGE_START" stage def.phase (text "")
      ▷ call (broadcast f.id "stage_started" stage bolt)
      ▷ when env.has_sessions
          (call (set_session_running f.id def.phase (session_bolt f def) stage def.lead_agent))

  unfoldable pub send_back : List String → System → System
  unfolding update_feature_stage_row audit
  send_back failures sys =
      sys
      ▷ mark env f stage bolt revising (fs.revision_count + 1)
      ▷ audit f.id "STAGE_REVISING" stage def.phase (text (join "; " failures))
      ▷ call (broadcast f.id "stage_revising" stage bolt)

  unfoldable pub await_approval : System → System
  unfolding update_feature_stage_row audit
  await_approval sys =
      sys
      ▷ mark env f stage bolt awaiting_approval fs.revision_count
      ▷ audit f.id "STAGE_AWAITING_APPROVAL" stage def.phase (text "")
      ▷ call (broadcast f.id "stage_awaiting_approval" stage bolt)
      ▷ when env.has_sessions (call (set_session_awaiting_gate f.id def.phase bolt stage))

  unfoldable pub fail_stage : RoleResult → System → System
  unfolding update_feature_stage_row audit
  fail_stage rr sys =
      sys
      ▷ mark env f stage bolt revising fs.revision_count
      ▷ audit f.id "STAGE_FAILED" stage def.phase (text rr.error)
      ▷ call (broadcast f.id "error" stage bolt)

  -- The gate is open, also for an agent that said that it failed: its row is marked again.
  unfoldable pub open_gate : OutcomeRow → RoleResult → System → System
  unfolding await_approval fail_stage
  open_gate outcome rr sys = await_approval sys ▷ when (outcome.outcome == "failed") (fail_stage rr)

  -- A stage that is sent back has its gate rejected with what was found.
  unfoldable pub gate_for : List String → OutcomeSource → Option ReviewerResult → Gate
  unfolding new reject
  gate_for failures source rv =
      let opened : Gate = record (new f.id stage) { bolt_number = bolt } in
      let found : String = elim rv [
        | none ↦ join "\n" failures
        | some r ↦ if r.verdict == "NOT-READY" then r.notes else join "\n" failures
      ] in
      let noted : Gate = record opened { revision_count = fs.revision_count } in
      if sent_back source then (reject found noted).0 else opened

  unfoldable pub close_stage :
      RoleResult
      → OutcomeRow
      → List String
      → OutcomeSource
      → Option ReviewerResult
      → System
      → System × StageRun
  unfolding send_back open_gate gate_for
  close_stage rr outcome failures source rv sys =
      let settled = if sent_back source then send_back failures sys else open_gate outcome rr sys in
      let noted = call (add_note f.id stage def.lead_agent "summary" outcome.notes) settled in
      (
        noted,
        ran (record {
          stage_id = stage;
          phase = def.phase;
          stage_name = def.name;
          bolt_number = bolt;
          role_result = some rr;
          smoke_failures = failures;
          outcome = outcome;
          outcome_source = source;
          gate = some (gate_for failures source rv);
          reviewer_result = rv;
        }),
      )
