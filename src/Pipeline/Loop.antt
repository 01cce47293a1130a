-- ===== src/Pipeline/Loop.antt =====
-- internal/pipeline/advance.go: AdvanceFeature. The loop goes on for as long as its turns bring it
-- on. What the world does in each turn is given, and the loop is followed for that many turns.
use devteam.Prelude.{Bool, List, Option, String, Text, [], none, some, ℕ, ◌∷◌, if◌then◌else◌}
use devteam.Feature.Types.{Feature, done}
use devteam.Db.Types.{text, branch_merged}
use devteam.Db.Stages.{get_feature_stages}
use devteam.Db.Features.{save_feature_state}
use devteam.Pipeline.System.{
  System, Env, broadcast, call, audit, ◌▷◌, get_feature, effective_mode, Error, feature_not_loaded,
  stages_not_loaded, wait_cancelled,
}
use devteam.Pipeline.Review.{
  StageOutcome, needs_review, auto_approved_stage, failed, complete, panicked, process_stage_result,
  should_auto_advance,
}
use devteam.Pipeline.Verdict.{Approval, next, refused, approve_stage}
use devteam.Pipeline.Decide.{
  NextAction, finish, wait, prepare_bolts, merge_to_main, needs_human, run_stage, auto_approve,
  run_bolt, decide_next_action,
}
use devteam.Pipeline.Prepare
use devteam.Pipeline.Agent.{Visit}
use devteam.Pipeline.Close.{StageRun, ran, not_run}
use devteam.Pipeline.Run
use devteam.Pipeline.BoltRun.{BoltRun, bolt_ran, bolt_error}
use devteam.Pipeline.BoltRun

-- What the world does in a turn. The branches, each with the name of its repository, are those that
-- MergeFeatureToMain merges and pushes.
pub record Turn : Type 0 where
  pub cancelled : Bool
  pub visit : Visit
  pub bolt_visits : String → Visit
  pub is_space : ℕ → Bool
  pub unit_of_work : Option Text
  pub dag : Option Text
  pub merged : List (String × String)

-- `crashed` is a nil dereference.
pub data TurnEnd : Type 0 where
  again crashed : TurnEnd
  ended : Option Error → TurnEnd

unfoldable pub mark_feature_done : String → System → System
unfolding audit
mark_feature_done id sys = elim (get_feature sys id) [
  | none ↦ sys
  | some f ↦
      let saved : System = record sys {
        db = (save_feature_state sys.db (record f { status = done })).0;
      } in
      saved
      ▷ audit id "FEATURE_DONE" "" "" (text "all stages complete")
      ▷ call (broadcast id "feature_done" "" 0)
]

-- MergeFeatureToMain, as the system sees it: it returns no error, whatever git answers.
unfoldable pub merge_feature_to_main : String → List (String × String) → System → System
unfolding audit
merge_feature_to_main id [] sys = sys
merge_feature_to_main id ((name, branch) ∷ more) sys = merge_feature_to_main id more (
    sys
    ▷ audit id "MERGED_TO_MAIN" "" "" (branch_merged name branch)
    ▷ call (broadcast id "merged_to_main" "" 0))

unfoldable pub merge_feature : Turn → String → System → System
unfolding merge_feature_to_main audit
merge_feature turn id sys =
    sys
    ▷ call (broadcast id "merging_to_main" "" 0)
    ▷ audit id "MERGE_ATTEMPTED" "" "" (text "construction complete")
    ▷ merge_feature_to_main id turn.merged
    ▷ audit id "MERGED_TO_MAIN" "" "" (text "merge succeeded")

abbrev pub after_approval : System × Feature × Approval → System × TurnEnd
after_approval (sys, f, next stage) = (sys, again)
after_approval (sys, f, refused e) = (sys, ended (some e))

abbrev pub after_preparing : System × Option Error → System × TurnEnd
after_preparing (sys, none) = (sys, again)
after_preparing (sys, some e) = (sys, ended (some e))

abbrev pub after_bolt : System × Feature × BoltRun → System × TurnEnd
after_bolt (sys, f, bolt_error e) = (sys, ended (some e))
after_bolt (sys, f, bolt_ran r) = elim r.failed [
  | some why ↦ (sys, ended none)
  | none ↦ (sys, if r.paused_at_gate then ended none else again)
]

abbrev pub after_result : String → String → Feature → System × StageOutcome → System × TurnEnd
after_result id stage f (sys, needs_review) = (sys, ended none)
after_result id stage f (sys, failed) = (sys, ended none)
after_result id stage f (sys, complete) = (mark_feature_done id sys, ended none)
after_result id stage f (sys, auto_approved_stage) =
    (sys, if should_auto_advance sys f stage then again else ended none)
after_result id stage f (sys, panicked) = (sys, crashed)

abbrev pub after_stage : Env → String → String → System × Feature × StageRun → System × TurnEnd
after_stage env id stage (sys, f, not_run e) = (sys, ended (some e))
after_stage env id stage (sys, f, ran r) =
    after_result id stage f (process_stage_result env f stage (some r) sys)

unfoldable pub perform : Env → Turn → String → Feature → System × NextAction → System × TurnEnd
unfolding mark_feature_done merge_feature process_stage_result should_auto_advance
perform env turn id f (sys, finish) = (mark_feature_done id sys, ended none)
perform env turn id f (sys, wait) = (sys, ended none)
perform env turn id f (sys, needs_human stage) = (sys, ended none)
perform env turn id f (sys, auto_approve stage bolt) =
    after_approval (approve_stage env f stage bolt sys)
perform env turn id f (sys, prepare_bolts) =
    after_preparing (Prepare.prepare_bolts env turn.is_space turn.unit_of_work turn.dag f sys)
perform env turn id f (sys, run_bolt n) = after_bolt (BoltRun.run_bolt env turn.bolt_visits f n sys)
perform env turn id f (sys, merge_to_main) = (merge_feature turn id sys, again)
perform env turn id f (sys, run_stage stage) =
    after_stage env id stage (Run.run_stage env turn.visit f stage sys)

-- One turn of the loop.
unfoldable pub take_turn : Env → Turn → String → String → System → System × TurnEnd
unfolding perform
take_turn env turn id mode sys =
    if turn.cancelled then (sys, ended (some wait_cancelled)) else elim (get_feature sys id) [
      | none ↦ (sys, ended (some (feature_not_loaded id)))
      | some f ↦ elim (get_feature_stages sys.db id) [
        | none ↦ (sys, ended (some (stages_not_loaded id)))
        | some stages ↦ perform env turn id f (decide_next_action env f stages mode sys)
      ]
    ]

abbrev pub then_on : System × TurnEnd → (System → System × TurnEnd) → System × TurnEnd
then_on (sys, again) on = on sys
then_on (sys, crashed) on = (sys, crashed)
then_on (sys, ended e) on = (sys, ended e)

-- `again` is the end of the turns that are followed.
unfoldable pub advance_loop : Env → List Turn → String → String → System → System × TurnEnd
unfolding take_turn
advance_loop env [] id mode sys = (sys, again)
advance_loop env (t ∷ ts) id mode sys =
    then_on (take_turn env t id mode sys) (advance_loop env ts id mode)

unfoldable pub advance_feature : Env → List Turn → String → System → System × TurnEnd
unfolding advance_loop
advance_feature env turns id sys = elim (get_feature sys id) [
  | none ↦ (sys, ended (some (feature_not_loaded id)))
  | some f ↦ advance_loop env turns id (effective_mode f.execution_mode) sys
]
