-- ===== src/Pipeline/AllBolts.antt =====
-- internal/pipeline/bolts.go: RunAllBolts. The gate of a batch is polled while others work on the
-- system: what they do meanwhile is given, and behind the last of it the context is cancelled.
use devteam.Prelude.{
  Bool, List, Option, String, [], false, length, none, not, some, true, ℕ, ◌&&◌, ◌||◌, ◌∷◌, ◌==◌,
  if◌then◌else◌, nat_eq, string_eq, text_eq,
}
use devteam.Stage.Status.{status_eq, completed, skipped, phase_construction}
use devteam.Feature.Types.{Feature}
use devteam.Db.Types.{FeatureStage, BoltRow, BoltStatus, bolt_status_eq, batch_gate}
use devteam.Db.Stages.{get_feature_stage_for_bolt}
use devteam.Db.Bolts.{get_bolts}
use devteam.Pipeline.System.{
  System, Env, broadcast, call, audit, ◌▷◌, get_feature, Error, getting_bolts, no_bolts,
  feature_not_loaded, ladder_not_resolved,
}
use devteam.Pipeline.Review.{StageRunResult, gate_open}
use devteam.Pipeline.Agent.{Visit}
use devteam.Pipeline.Ladder.{
  autonomy_gated, end_of_wait, wait_for_ladder_mode, run_construction_stages,
}
use devteam.Pipeline.BoltRun.{BoltRun, bolt_ran, bolt_error, run_bolt}
use devteam.Pipeline.Batches.{
  BoltOutcome, succeeded, failed, errored, BatchesEnd, all_run, halted, out_of_fuel, stopped_with,
  bolt_numbers, run_batches,
}

abbrev pub outcome_of : BoltRun → BoltOutcome
outcome_of (bolt_error e) = errored e
outcome_of (bolt_ran r) = elim r.failed [ none ↦ succeeded | some why ↦ failed ]

-- The gate of the last stage that the walking skeleton ran is open.
abbrev pub ends_at_open_gate : List StageRunResult → Bool
ends_at_open_gate [] = false
ends_at_open_gate (r ∷ []) = gate_open r.gate
ends_at_open_gate (r ∷ r' ∷ rs) = ends_at_open_gate (r' ∷ rs)

-- What the world does meanwhile.
pub record Site : Type 0 where
  pub bolt_visits : ℕ → String → Visit
  pub shared_visits : String → Visit
  pub prompts : List String
  pub decisions : List ℕ → List (System → System)
  pub cancelled : Bool

-- `spent` is no return of the source.
pub data AllBolts : Type 0 where
  returned : Option Error → AllBolts
  spent : AllBolts

-- The row of 3.5 is past its gate.
abbrev pub is_resolved : Option FeatureStage → Bool
is_resolved none = false
is_resolved (some fs) = fs.status == completed || fs.status == skipped

abbrev pub all_resolved : System → String → List ℕ → Bool
all_resolved sys f [] = true
all_resolved sys f (n ∷ ns) =
    is_resolved (get_feature_stage_for_bolt sys.db f "3.5" n) && all_resolved sys f ns

-- The polls of presentBatchGate, one before each thing that is done and one behind the last; then
-- the context is cancelled or the wait goes on.
unfoldable pub poll_batch_gate :
    String → Bool → List ℕ → List (System → System) → System → System × Option Error
poll_batch_gate f cancelled bolts [] sys =
    (sys, if all_resolved sys f bolts then none else some (end_of_wait cancelled))
poll_batch_gate f cancelled bolts (step ∷ steps) sys =
    let later = poll_batch_gate f cancelled bolts steps (step sys) in
    if all_resolved sys f bolts then (sys, none) else later

unfoldable pub present_batch_gate : Site → String → List ℕ → System → System × Option Error
unfolding poll_batch_gate audit
present_batch_gate site f bolts sys =
    poll_batch_gate f site.cancelled bolts (site.decisions bolts) (
      sys
      ▷ audit f "STAGE_AWAITING_APPROVAL" "3.5" phase_construction (batch_gate bolts)
      ▷ call (broadcast f "batch_gate_awaiting" "3.5" 0))

module _ (env : Env) (site : Site) where
  -- The run of a bolt and the gate of a batch, as the loop over the batches calls them.
  unfoldable pub run_one : BoltRow → System × Feature → (System × Feature) × BoltOutcome
  unfolding run_bolt
  run_one b (sys, f) =
      let (sys', f', run) = run_bolt env (site.bolt_visits b.bolt_number) f b.bolt_number sys in
      ((sys', f'), outcome_of run)

  unfoldable pub gate_of : List BoltRow → System × Feature → (System × Feature) × Option Error
  unfolding present_batch_gate
  gate_of batch (sys, f) =
      let (sys', e) = present_batch_gate site f.id (bolt_numbers batch) sys in
      if f.autonomy_mode == autonomy_gated then ((sys', f), e) else ((sys, f), none)

  unfoldable pub run_remaining :
      BoltRow → List BoltRow → System × Feature → (System × Feature) × BatchesEnd
  unfolding run_batches run_one gate_of
  run_remaining ws remaining s =
      run_batches run_one gate_of (length remaining) (ws.bolt_number ∷ []) remaining s

  unfoldable pub end_construction : (System × Feature) × BatchesEnd → System × Feature × AllBolts
  unfolding run_construction_stages
  end_construction ((sys, f), all_run) =
      let (sys', f', e) =
        run_construction_stages env site.shared_visits ("3.6" ∷ "3.7" ∷ []) sys f in
      (sys', f', returned e)
  end_construction ((sys, f), halted) = (sys, f, returned none)
  end_construction ((sys, f), stopped_with e) = (sys, f, returned (some e))
  end_construction ((sys, f), out_of_fuel) = (sys, f, spent)

  -- The mode is there, or is waited for and read again.
  unfoldable pub with_mode : BoltRow → List BoltRow → System → Feature → System × Feature × AllBolts
  unfolding run_remaining end_construction wait_for_ladder_mode
  with_mode ws remaining sys f =
      let (waited, e) = wait_for_ladder_mode f.id site.cancelled site.prompts sys in
      let mode : Option String = elim (get_feature waited f.id) [
        | none ↦ none
        | some g ↦ some g.autonomy_mode
      ] in
      if not (f.autonomy_mode == "")
      then end_construction (run_remaining ws remaining (sys, f))
      else elim e [
        | some err ↦ (waited, f, returned (some err))
        | none ↦ elim mode [
          | none ↦ (waited, f, returned (some (feature_not_loaded f.id)))
          | some m ↦
              let f' = record f { autonomy_mode = m } in
              if m == ""
              then (waited, f', returned (some (ladder_not_resolved f.id)))
              else end_construction (run_remaining ws remaining (waited, f'))
        ]
      ]

  -- The walking skeleton, if it is not completed yet.
  unfoldable pub after_skeleton :
      BoltRow → List BoltRow → System × Feature × BoltRun → System × Feature × AllBolts
  unfolding with_mode
  after_skeleton ws remaining (sys, f, bolt_error e) = (sys, f, returned (some e))
  after_skeleton ws remaining (sys, f, bolt_ran r) = elim r.failed [
    | some why ↦ (sys, f, returned none)
    | none ↦
        if ends_at_open_gate r.stage_results
        then (sys, f, returned none)
        else with_mode ws remaining sys f
  ]

  unfoldable pub run_prepared_bolts : List BoltRow → System → Feature → System × Feature × AllBolts
  unfolding after_skeleton with_mode run_bolt
  run_prepared_bolts [] sys f = (sys, f, returned (some no_bolts))
  run_prepared_bolts (ws ∷ remaining) sys f =
      if not (ws.status == BoltStatus.completed)
      then after_skeleton ws remaining
          (run_bolt env (site.bolt_visits ws.bolt_number) f ws.bolt_number sys)
      else with_mode ws remaining sys f

  unfoldable pub run_all_bolts : Feature → System → System × Feature × AllBolts
  unfolding run_prepared_bolts
  run_all_bolts f sys = elim (get_bolts sys.db f.id) [
    | none ↦ (sys, f, returned (some getting_bolts))
    | some bolts ↦ run_prepared_bolts bolts sys f
  ]
