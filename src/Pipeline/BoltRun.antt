-- ===== src/Pipeline/BoltRun.antt =====
-- internal/pipeline/bolts.go: RunBolt. What the world does during the run of each stage is given by
-- the stage.
use devteam.Prelude.{
  Bool, List, Option, String, [], false, find, join, none, not, some, true, ℕ, ◌∷◌, ◌++◌, ◌==◌,
  if◌then◌else◌, nat_eq, string_eq, text_eq,
}
use devteam.Stage.Status.{status_eq, completed, phase_construction}
use devteam.Feature.Types.{Feature}
use devteam.Db.Types.{
  BoltRow, BoltStatus, FeatureStage, bolt_started, bolt_failed, bolt_halted, bolt_completed,
}
use devteam.Db.Stages.{in_scope, get_stage_definition, get_feature_stage_for_bolt, init_bolt_stages}
use devteam.Db.Bolts.{get_bolts, update_bolt_status}
use devteam.Pipeline.System.{
  System, Env, audit, ◌▷◌, save_feature_state_row, effective_mode, effective_scope, Error,
  getting_bolts, bolt_not_found, init_bolt_stages_failed,
}
use devteam.Pipeline.Review.{StageRunResult, gate_open}
use devteam.Pipeline.Decide.{is_auto}
use devteam.Pipeline.Verdict.{Approval, next, refused, approve_stage}
use devteam.Pipeline.Agent.{Visit}
use devteam.Pipeline.Close.{StageRun, ran, not_run, sent_back}
use devteam.Pipeline.Run.{run_stage}

-- Why a stage of the bolt failed: the error of its run, or what the checks found.
pub data Reason : Type 0 where
  run_error : Error → Reason
  found : String → Reason

-- The fields are those of the source but for the duration; `failed` has the stage and the reason.
pub record BoltResult : Type 0 where
  pub bolt_number : ℕ
  pub is_walking_skeleton : Bool
  pub stage_results : List StageRunResult
  pub failed : Option (String × Reason)
  pub paused_at_gate : Bool

-- How the loop over the stages ends, with the results so far.
pub data BoltEnd : Type 0 where
  broke_at halted_at : String → Reason → BoltEnd
  stopped_at_gate : List StageRunResult → Bool → BoltEnd
  went_through : List StageRunResult → BoltEnd

pub data BoltRun : Type 0 where
  bolt_ran : BoltResult → BoltRun
  bolt_error : Error → BoltRun

abbrev pub construction_stages : List String
construction_stages = "3.1" ∷ "3.2" ∷ "3.3" ∷ "3.4" ∷ "3.5" ∷ []

abbrev pub set_bolt : Feature → ℕ → BoltStatus → System → System
set_bolt f bolt st sys = record sys { db = (update_bolt_status sys.db f.id bolt st).0 }

abbrev is_finished : Option FeatureStage → Bool
is_finished none = false
is_finished (some fs) = fs.status == completed

-- What a rejected stage is said to have failed for.
abbrev pub reason_of : StageRunResult → Reason
reason_of r = elim r.reviewer_result [
  | none ↦ found (join "; " r.smoke_failures)
  | some rv ↦ found rv.notes
]

-- What follows the stages so far.
abbrev pub Rest : Type 0
Rest = List StageRunResult → System → Feature → System × Feature × BoltEnd

abbrev pub after_approval :
    List StageRunResult → Rest → System × Feature × Approval → System × Feature × BoltEnd
after_approval results rest (sys, f, next stage) = rest results sys f
after_approval results rest (sys, f, refused e) = (sys, f, stopped_at_gate results false)

-- What RunBolt makes of the run of a stage; `rest` are the stages behind.
unfoldable pub after_run :
    Env
    → ℕ
    → String
    → Rest
    → List StageRunResult
    → System × Feature × StageRun
    → System × Feature × BoltEnd
after_run env bolt stage rest results (sys, f, not_run e) = (sys, f, broke_at stage (run_error e))
after_run env bolt stage rest results (sys, f, ran r) =
    let results' = results ++ r ∷ [] in
    if gate_open r.gate
    then (if is_auto (effective_mode f.execution_mode)
        then after_approval results' rest (approve_stage env f stage bolt sys)
        else (sys, f, stopped_at_gate results' true))
    else if sent_back r.outcome_source
    then (sys, f, halted_at stage (reason_of r))
    else rest results' sys f

abbrev pub bolt_step : Env → (String → Visit) → ℕ → String → String → Rest → Rest
bolt_step env visits bolt scope stage rest results sys f =
    if is_finished (get_feature_stage_for_bolt sys.db f.id stage bolt)
    then rest results sys f
    else elim (get_stage_definition sys.db stage) [
      | none ↦ rest results sys f
      | some def ↦
          if not (in_scope scope def)
          then rest results sys f
          else after_run env bolt stage rest results (run_stage env (visits stage) f stage sys)
    ]

unfoldable pub run_bolt_stages : Env → (String → Visit) → ℕ → String → List String → Rest
unfolding run_stage after_run
run_bolt_stages env visits bolt scope [] results sys f = (sys, f, went_through results)
run_bolt_stages env visits bolt scope (s ∷ ss) results sys f =
    bolt_step env visits bolt scope s (run_bolt_stages env visits bolt scope ss) results sys f

-- The marks that RunBolt leaves on the bolt, and its result.
unfoldable pub end_bolt : BoltRow → System × Feature × BoltEnd → System × Feature × BoltRun
unfolding audit
end_bolt b (sys, f, end) =
    let n = b.bolt_number in
    let result : BoltResult = record {
      bolt_number = n;
      is_walking_skeleton = b.is_walking_skeleton;
      stage_results = [];
      failed = none;
      paused_at_gate = false;
    } in
    elim end [
      | broke_at stage reason ↦ (
        sys
            ▷ audit f.id "BOLT_FAILED" "" phase_construction (bolt_failed n stage)
            ▷ set_bolt f n BoltStatus.failed,
        f,
        bolt_ran (record result { failed = some (stage, reason) }),
      )
      | halted_at stage reason ↦ (
        audit f.id "HALT_AND_ASK" stage phase_construction (bolt_halted n stage) sys,
        f,
        bolt_ran (record result { failed = some (stage, reason) }),
      )
      | stopped_at_gate results paused ↦ (
        set_bolt f n BoltStatus.pending sys,
        f,
        bolt_ran (record result { stage_results = results; paused_at_gate = paused }),
      )
      | went_through results ↦ (
        sys
            ▷ set_bolt f n BoltStatus.completed
            ▷ audit f.id "BOLT_COMPLETED" "" phase_construction (bolt_completed n),
        f,
        bolt_ran (record result { stage_results = results }),
      )
    ]

-- RunBolt behind the reads of the bolts and the stages' rows.
unfoldable pub start_bolt : Feature → BoltRow → System → System
unfolding save_feature_state_row audit
start_bolt f b sys =
    sys
    ▷ save_feature_state_row f
    ▷ set_bolt f b.bolt_number BoltStatus.in_progress
    ▷ audit f.id "BOLT_STARTED" "" phase_construction
        (bolt_started b.bolt_number b.is_walking_skeleton)

unfoldable pub run_bolt_row :
    Env → (String → Visit) → Feature → BoltRow → System → System × Feature × BoltRun
unfolding run_bolt_stages end_bolt start_bolt
run_bolt_row env visits f b sys =
    let n = b.bolt_number in
    let scope = effective_scope f.scope in
    let (inited, ok) = init_bolt_stages sys.db f.id n scope in
    let f' = record f { current_bolt = n } in
    if not ok
    then (sys, f, bolt_error (init_bolt_stages_failed n))
    else end_bolt b (
        run_bolt_stages env visits n scope construction_stages []
          (start_bolt f' b (record sys { db = inited })) f')

unfoldable pub run_bolt : Env → (String → Visit) → Feature → ℕ → System → System × Feature × BoltRun
unfolding run_bolt_row
run_bolt env visits f n sys = elim (get_bolts sys.db f.id) [
  | none ↦ (sys, f, bolt_error getting_bolts)
  | some bolts ↦ elim (find (λ b. b.bolt_number == n) bolts) [
    | none ↦ (sys, f, bolt_error (bolt_not_found n))
    | some b ↦ run_bolt_row env visits f b sys
  ]
]
