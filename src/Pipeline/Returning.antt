-- ===== src/Pipeline/Returning.antt =====
-- internal/pipeline/bolts.go: the loop of RunAllBolts over the batches ends.
use devteam.Prelude.{
  Bool, Bool-cases, List, Option-cases, [], false, inl, inr, refl, true, ◌≡◌, ◌≢◌, ◌∷◌, ◌==◌,
  nat_eq, string_eq, text_eq,
}
use devteam.Feature.Types.{Feature}
use devteam.Db.Types.{BoltRow, BoltStatus, bolt_status_eq}
use devteam.Db.Bolts.{get_bolts}
use devteam.Pipeline.System.{System, Env, get_feature}
use devteam.Pipeline.Ladder.{wait_for_ladder_mode}
use devteam.Pipeline.BoltRun.{BoltRun, bolt_ran, bolt_error, run_bolt}
use devteam.Pipeline.Batches.{BatchesEnd, all_run, halted, out_of_fuel, stopped_with}
use devteam.Pipeline.Batched.{run_batches-ends}
use devteam.Pipeline.AllBolts.{
  Site, AllBolts, returned, spent, ends_at_open_gate, run_one, gate_of, run_remaining,
  end_construction, with_mode, after_skeleton, run_prepared_bolts, run_all_bolts,
}

abbrev returns : AllBolts → Bool
returns (returned e) = true
returns spent = false

module _ (env : Env) (site : Site) where
  end_construction-returns :
      (sys : System) (f : Feature) (end : BatchesEnd)
      → end ≢ out_of_fuel
      → returns (end_construction env site ((sys, f), end)).2 ≡ true
  unfolding end_construction
  end_construction-returns sys f all_run h = refl
  end_construction-returns sys f halted h = refl
  end_construction-returns sys f (stopped_with e) h = refl
  end_construction-returns sys f out_of_fuel h = absurd (h refl)

  run_remaining-returns :
      (ws : BoltRow) (remaining : List BoltRow) (s : System × Feature)
      → returns (end_construction env site (run_remaining env site ws remaining s)).2 ≡ true
  unfolding run_remaining
  run_remaining-returns ws remaining s =
      let r = run_remaining env site ws remaining s in
      end_construction-returns r.0.0 r.0.1 r.1
        (run_batches-ends (run_one env site) (gate_of env site) (ws.bolt_number ∷ []) remaining s)

  with_mode-returns :
      (ws : BoltRow) (remaining : List BoltRow) (sys : System) (f : Feature)
      → returns (with_mode env site ws remaining sys f).2 ≡ true
  unfolding with_mode
  with_mode-returns ws remaining sys f =
      let (waited, e) = wait_for_ladder_mode f.id site.cancelled site.prompts sys in
      elim (Bool-cases (f.autonomy_mode == "")) [
        | inr set ↦ rw set (run_remaining-returns ws remaining (sys, f))
        | inl unset ↦ elim (Option-cases e) [
          | inr (err, failed) ↦ rw (with_mode, unset, failed) refl
          | inl fine ↦ elim (Option-cases (get_feature waited f.id)) [
            | inl gone ↦ rw (with_mode, unset, fine, gone) refl
            | inr (g, there) ↦ elim (Bool-cases (g.autonomy_mode == "")) [
              | inl empty ↦ rw (with_mode, unset, fine, there, empty) refl
              | inr chosen ↦
                  rw (with_mode, unset, fine, there, chosen)
                    (run_remaining-returns ws remaining
                      (waited, record f { autonomy_mode = g.autonomy_mode }))
            ]
          ]
        ]
      ]

  after_skeleton-returns :
      (ws : BoltRow) (remaining : List BoltRow) (sys : System) (f : Feature) (run : BoltRun)
      → returns (after_skeleton env site ws remaining (sys, f, run)).2 ≡ true
  unfolding after_skeleton
  after_skeleton-returns ws remaining sys f (bolt_error e) = refl
  after_skeleton-returns ws remaining sys f (bolt_ran r) = elim (Option-cases r.failed) [
    | inr (why, failed) ↦ rw failed refl
    | inl fine ↦ elim (Bool-cases (ends_at_open_gate r.stage_results)) [
      | inl paused ↦ rw (after_skeleton, fine, paused) refl
      | inr on ↦ rw (after_skeleton, fine, on) (with_mode-returns ws remaining sys f)
    ]
  ]

  run_prepared_bolts-returns :
      (bolts : List BoltRow) (sys : System) (f : Feature)
      → returns (run_prepared_bolts env site bolts sys f).2 ≡ true
  unfolding run_prepared_bolts
  run_prepared_bolts-returns [] sys f = refl
  run_prepared_bolts-returns (ws ∷ remaining) sys f =
      let (sys', f', run) = run_bolt env (site.bolt_visits ws.bolt_number) f ws.bolt_number sys in
      elim (Bool-cases (ws.status == BoltStatus.completed)) [
        | inl e ↦ rw (run_prepared_bolts, e) (with_mode-returns ws remaining sys f)
        | inr e ↦ rw (run_prepared_bolts, e) (after_skeleton-returns ws remaining sys' f' run)
      ]

-- The loop of RunAllBolts over the batches takes at most as many turns as there are bolts behind the
-- walking skeleton, whatever the bolts, their dependencies and the agents come to: RunAllBolts returns,
-- with or without an error, or is still in a wait for a user's prompt or for the decisions of a batch
-- gate, which have no bound.
pub run_all_bolts-returns :
    (env : Env) (site : Site) (f : Feature) (sys : System)
    → (run_all_bolts env site f sys).2 ≢ spent
unfolding run_all_bolts
run_all_bolts-returns env site f sys e =
    let h : returns (run_all_bolts env site f sys).2 ≡ true =
      elim (Option-cases (get_bolts sys.db f.id)) [
        | inl absent ↦ rw (run_all_bolts, absent) refl
        | inr (bolts, there) ↦
            rw (run_all_bolts, there) (run_prepared_bolts-returns env site bolts sys f)
      ] in
    let g : returns spent ≡ true = rw e at h in cc
