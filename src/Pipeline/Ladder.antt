-- ===== src/Pipeline/Ladder.antt =====
-- internal/pipeline/bolts.go: LadderPrompt, the wait for it, and RunConstructionStages.
-- The wait polls the database while others work on it, for as long as it takes. The prompts that come
-- in meanwhile are given, with whether the context is cancelled behind them; if it is not, the wait
-- goes on, which is the outcome `still_waiting`.
use devteam.Prelude.{
  Bool, List, Option, String, [], none, not, some, ◌&&◌, ◌∷◌, ◌==◌, if◌then◌else◌, nat_eq,
  string_eq, text_eq,
}
use devteam.Stage.Status.{phase_construction}
use devteam.Feature.Types.{Feature}
use devteam.Db.Types.{autonomy_set}
use devteam.Db.Stages.{in_scope, get_stage_definition}
use devteam.Pipeline.System.{
  System, Env, audit, ◌▷◌, save_feature_state_row, get_feature, effective_scope, Error,
  invalid_autonomy_mode, feature_not_loaded, wait_cancelled, still_waiting,
}
use devteam.Pipeline.Agent.{Visit}
use devteam.Pipeline.Close.{StageRun, ran, not_run}
use devteam.Pipeline.Run.{run_stage}

abbrev pub autonomy_gated : String
autonomy_gated = "gated"

abbrev pub autonomy_autonomous : String
autonomy_autonomous = "autonomous"

unfoldable pub ladder_prompt : Feature → String → System → System × Feature × Option Error
unfolding save_feature_state_row audit
ladder_prompt f mode sys =
    let f' = record f { autonomy_mode = mode } in
    if not (mode == autonomy_gated) && not (mode == autonomy_autonomous)
    then (sys, f, some (invalid_autonomy_mode mode))
    else (
      sys
          ▷ save_feature_state_row f'
          ▷ audit f.id "LADDER_PROMPT" "" phase_construction (autonomy_set mode),
      f',
      none,
    )

-- How a wait stands behind all that is given.
abbrev pub end_of_wait : Bool → Error
end_of_wait cancelled = if cancelled then wait_cancelled else still_waiting

-- waitForLadderMode, over the prompts that come in for the feature.
unfoldable pub wait_for_ladder_mode : String → Bool → List String → System → System × Option Error
unfolding ladder_prompt
wait_for_ladder_mode id cancelled [] sys = elim (get_feature sys id) [
  | none ↦ (sys, some (feature_not_loaded id))
  | some f ↦ (sys, if f.autonomy_mode == "" then some (end_of_wait cancelled) else none)
]
wait_for_ladder_mode id cancelled (mode ∷ modes) sys = elim (get_feature sys id) [
  | none ↦ (sys, some (feature_not_loaded id))
  | some f ↦
      let later = wait_for_ladder_mode id cancelled modes (ladder_prompt f mode sys).0 in
      if f.autonomy_mode == "" then later else (sys, none)
]

-- The stages 3.6 and 3.7, each by what is known of it.
abbrev pub construction_step :
    Env
    → (String → Visit)
    → String
    → (System → Feature → System × Feature × Option Error)
    → System
    → Feature
    → System × Feature × Option Error
construction_step env visits stage rest sys f = elim (get_stage_definition sys.db stage) [
  | none ↦ rest sys f
  | some def ↦
      if not (in_scope (effective_scope f.scope) def)
      then rest sys f
      else after (run_stage env (visits stage) f stage sys)
]
  where
    after : System × Feature × StageRun → System × Feature × Option Error
    after (sys, f, not_run e) = (sys, f, some e)
    after (sys, f, ran r) = rest sys f

-- RunConstructionStages; the results are not read by its caller.
unfoldable pub run_construction_stages :
    Env → (String → Visit) → List String → System → Feature → System × Feature × Option Error
unfolding run_stage
run_construction_stages env visits [] sys f = (sys, f, none)
run_construction_stages env visits (s ∷ ss) sys f =
    construction_step env visits s (run_construction_stages env visits ss) sys f
