-- ===== src/Api/Workers.antt =====
-- internal/api/stage_handlers.go: what the goroutines do, and how they end.
use devteam.Prelude.{
  Bool, List, Option, String, [], false, none, not, some, suc, true, zero, ℕ, ◌&&◌, ◌∷◌,
  if◌then◌else◌,
}
use devteam.Stage.Status.{in_progress}
use devteam.Feature.Types.{Feature}
use devteam.Db.Types.{FeatureStage}
use devteam.Db.Stages.{get_feature_stage, update_feature_stage}
use devteam.Db.Features.{save_feature_state}
use devteam.Pipeline.System.{System, Env, broadcast, send_continue, call, ◌▷◌}
use devteam.Pipeline.Agent.{Visit}
use devteam.Pipeline.BoltRun.{BoltRun, bolt_ran, bolt_error}
use devteam.Pipeline.BoltRun
use devteam.Pipeline.Loop.{Turn, TurnEnd, again, crashed, ended}
use devteam.Pipeline.Loop
use devteam.Api.Server.{Server, Worker, advance, bolt_task, resume_task, unmark_feature_active}

-- What the world does while a goroutine runs.
pub record Job : Type 0 where
  pub turns : List Turn
  pub bolt_visits : String → Visit

abbrev broken : TurnEnd → Bool
broken again = false
broken crashed = true
broken (ended none) = false
broken (ended (some e)) = true

-- An error and a panic that is recovered are told.
abbrev tell : (TurnEnd → Bool) → String → System × TurnEnd → System
tell is_told id (sys, end) = if is_told end then call (broadcast id "error" "" 0) sys else sys

unfoldable pub advance_feature : Env → Job → String → System → System
advance_feature env job id sys = tell broken id (Loop.advance_feature env job.turns id sys)

abbrev is_crash : TurnEnd → Bool
is_crash crashed = true
is_crash _ = false

abbrev is_none : {A : Type 0} → Option A → Bool
is_none none = true
is_none (some a) = false

-- Behind RunBolt the pipeline goes on; of its ends only a panic is told.
unfoldable pub after_bolt : Env → Job → String → System × Feature × BoltRun → System
after_bolt env job id (sys, f, bolt_error e) = call (broadcast id "error" "" 0) sys
after_bolt env job id (sys, f, bolt_ran r) =
    let told = call (broadcast id "processing_complete" "" r.bolt_number) sys in
    let on = tell is_crash id (Loop.advance_feature env job.turns id told) in
    if is_none r.failed && not r.paused_at_gate then on else told

-- The feature is the one that the handler loaded.
unfoldable pub work_on_bolt : Env → Job → String → Feature → ℕ → System → System
unfolding after_bolt
work_on_bolt env job id f n sys =
    let f' = record f { current_bolt = n } in
    let saved : System = record sys { db = (save_feature_state sys.db f').0 } in
    after_bolt env job id (BoltRun.run_bolt env job.bolt_visits f' n saved)

abbrev mark_resumed : Env → String → String → Option FeatureStage → System → System
mark_resumed env id stage none sys = sys
mark_resumed env id stage (some fs) sys = record sys {
  db = (update_feature_stage sys.db id stage in_progress fs.revision_count (some env.now) none).0;
}

unfoldable pub work : Env → Job → Worker → System → System
unfolding advance_feature work_on_bolt
work env job w sys = elim w.task [
  | advance ↦ advance_feature env job w.feature_id sys
  | bolt_task f n ↦ work_on_bolt env job w.feature_id f n sys
  | resume_task stage def bolt alive ↦
      let marked =
        mark_resumed env w.feature_id stage (get_feature_stage sys.db w.feature_id stage) sys in
      let woken =
        marked
        ▷ call (broadcast w.feature_id "stage_started" stage 0)
        ▷ call (send_continue w.feature_id def.phase bolt) in
      advance_feature env job w.feature_id (if alive then woken else sys)
]

abbrev pub nth : ℕ → List Worker → Option Worker
nth n [] = none
nth zero (w ∷ ws) = some w
nth (suc n) (w ∷ ws) = nth n ws

abbrev pub without : ℕ → List Worker → List Worker
without n [] = []
without zero (w ∷ ws) = ws
without (suc n) (w ∷ ws) = w ∷ without n ws

-- The deferred calls of the goroutine in the place `n`, if there is one, when its work is done.
unfoldable pub finish : Env → Job → ℕ → Server → Server
unfolding unmark_feature_active work
finish env job n s = elim (nth n s.workers) [
  | none ↦ s
  | some w ↦
      unmark_feature_active w.feature_id
        (record s { sys = work env job w s.sys; workers = without n s.workers })
]
