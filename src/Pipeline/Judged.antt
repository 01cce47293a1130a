-- ===== src/Pipeline/Judged.antt =====
-- internal/pipeline/stage_runner.go: what RunStage makes of a stage when no outcome is stored
-- under it.
use devteam.Prelude.{
  Bool, Bool-cases, List, Option, Option-cases, String, [], ap, arith, false, inl, inr, keep, none,
  not, refl, some, true, ℕ, ◌≡◌, ◌∙◌, ◌∷◌, if◌then◌else◌,
}
use devteam.Gate.{is_open, new, reject}
use devteam.Feature.Types.{Feature}
use devteam.Db.Types.{Database, FeatureStage, StageDefinition, OutcomeRow}
use devteam.Db.Events.{of_phase, latest, get_latest_outcome, delete_outcomes_for_phase}
use devteam.Pipeline.System.{System, Env}
use devteam.Pipeline.Review.{
  gate_open, ReviewerResult, RoleResult, OutcomeSource, default_pass, smoke_failed, agent_failed,
}
use devteam.Pipeline.Agent.{
  Visit, Attempt, answered, broke, Dispatched, finished, quota_hit, stopped, given_up, max_retries,
  dispatch_attempts,
}
use devteam.Pipeline.Checks.{
  outcome_row, review_end, verdict_of, is_nonempty, review_stage, stage_smoke_check, read_outcome,
  dispatch_reviewer, is_not_ready,
}
use devteam.Pipeline.Close.{StageRun, ran, not_run, sent_back, gate_for, close_stage}
use devteam.Pipeline.Run.{
  wants_review, record_smoke, review_stage_run, judge, after_dispatch, run_prepared,
}
use devteam.Pipeline.Signals.{
  is_unsignalled, HasOutcomesOf, dispatch_streaming-HasOutcomesOf, dispatch_attempts-HasOutcomesOf,
}

abbrev pub unheard_outcome : Feature → String → RoleResult → OutcomeRow
unheard_outcome f stage rr = outcome_row f stage (if rr.success then "pass" else "failed")

abbrev pub unheard_source : RoleResult → List String → OutcomeSource
unheard_source rr failures =
    if rr.success
    then (if is_nonempty failures then smoke_failed else default_pass)
    else agent_failed

-- A result that no signal had a part in: it follows from how the agent's process ended, and from
-- the smoke check, and its gate is open exactly when the outcome's source does not send the stage
-- back.
abbrev pub IsUnheard : Feature → String → StageRun → Type 0
IsUnheard f stage (not_run e) = Unit
IsUnheard f stage (ran r) =
    (rr : RoleResult) × (r.role_result ≡ some rr)
    × (r.outcome ≡ unheard_outcome f stage rr)
    × (r.outcome_source ≡ unheard_source rr r.smoke_failures)
    × (gate_open r.gate ≡ not (sent_back r.outcome_source))

latest-none : (os : List OutcomeRow) → latest os ≡ none → os ≡ []
latest-none [] e = refl
latest-none (o ∷ os) e = elim (Option-cases (latest os)) [
  | inl h ↦ absurd (ground arith)
  | inr (p, h) ↦ absurd (ground arith)
]

keep-keep-nil :
    {A : Type 0} (p q : A → Bool) (xs : List A) → keep p xs ≡ [] → keep p (keep q xs) ≡ []
keep-keep-nil p q [] e = refl
keep-keep-nil p q (x ∷ xs) e = ground (arith, keep-keep-nil p q xs)

keep-keep-not : {A : Type 0} (p : A → Bool) (xs : List A) → keep p (keep (λ x. not (p x)) xs) ≡ []
keep-keep-not p [] = refl
keep-keep-not p (x ∷ xs) = ground (arith, keep-keep-not p xs)

-- A deletion leaves no outcome of its own key, and none where there was none.
delete-own :
    (db : Database) (f stage : String)
    → get_latest_outcome (delete_outcomes_for_phase db f stage).0 f stage ≡ none
unfolding delete_outcomes_for_phase get_latest_outcome
delete-own db f stage = elim (Bool-cases db.up) [
  | inr down ↦ rw down
  | inl up ↦ rw up (ap latest (keep-keep-not (of_phase f stage) db.outcomes))
]

delete-other :
    (db : Database) (f stage p : String)
    → get_latest_outcome db f p ≡ none
    → get_latest_outcome (delete_outcomes_for_phase db f stage).0 f p ≡ none
unfolding delete_outcomes_for_phase get_latest_outcome
delete-other db f stage p e = elim (Bool-cases db.up) [
  | inr down ↦ rw down
  | inl up ↦
      rw up (ap latest (keep-keep-nil (of_phase f p) _ db.outcomes (latest-none _ (ground arith))))
]

dispatch_reviewer-ready :
    (now : ℕ) (visit : Visit) (f : Feature) (def : StageDefinition) (sys : System)
    → is_unsignalled (review_stage def.id) ≡ true
    → get_latest_outcome sys.db f.id (review_stage def.id) ≡ none
    → is_not_ready (dispatch_reviewer now visit f def sys).1 ≡ false
unfolding dispatch_reviewer
dispatch_reviewer-ready now visit f def sys e none_there =
    let id = review_stage def.id in
    let h = dispatch_streaming-HasOutcomesOf now f.id id def.reviewer visit.review sys f.id id e in
    elim (Option-cases visit.reviewer_role_error) [
      | inr (err, broken) ↦ rw (dispatch_reviewer, broken)
      | inl fine ↦ rw (dispatch_reviewer, fine, h, none_there) (go visit.review)
    ]
  where
    go : (a : Attempt) → is_not_ready (review_end a (verdict_of def.reviewer none)) ≡ false
    go (answered reqs rr) = refl
    go (broke reqs err rr) = refl

module _ (env : Env) (visit : Visit) (f : Feature) (stage : String) (bolt : ℕ)
    (def : StageDefinition) (fs : FeatureStage)
    (unsignalled : is_unsignalled (review_stage def.id) ≡ true) where
  gate_for-open :
      (failures : List String) (source : OutcomeSource) (rv : Option ReviewerResult)
      → is_open (gate_for env f stage bolt def fs failures source rv) ≡ not (sent_back source)
  unfolding gate_for new reject is_open
  gate_for-open failures source rv = elim (Bool-cases (sent_back source)) [
    | inl e ↦ rw e
    | inr e ↦ rw e
  ]

  review_stage_run-IsUnheard :
      (rr : RoleResult) (failures : List String) (sys : System)
      → get_latest_outcome sys.db f.id (review_stage def.id) ≡ none
      → IsUnheard f stage
          (review_stage_run env visit f stage bolt def fs rr
            (unheard_outcome f stage rr)
            failures
            (unheard_source rr failures)
            sys).1
  unfolding review_stage_run close_stage
  review_stage_run-IsUnheard rr failures sys e =
      let ready = dispatch_reviewer-ready env.now visit f def sys unsignalled e in
      let outcome = unheard_outcome f stage rr in
      elim (Bool-cases (wants_review env visit f stage bolt def fs outcome failures)) [
        | inl asked ↦
            let rv = (dispatch_reviewer env.now visit f def sys).1 in
            rw (asked, ready)
              (rr, refl, refl, refl, gate_for-open failures (unheard_source rr failures) rv)
        | inr unasked ↦
            rw unasked
              (rr, refl, refl, refl, gate_for-open failures (unheard_source rr failures) none)
      ]

  abbrev failures_of : RoleResult → List String
  failures_of rr = if rr.success then stage_smoke_check visit def else []

  judge-success :
      (rr : RoleResult) (success : Bool) (sys : System)
      → let failures = if success then stage_smoke_check visit def else [] in
        judge env visit f stage bolt def fs rr
          (if not success
            then (outcome_row f stage "failed", agent_failed)
            else (outcome_row f stage "pass", default_pass))
          sys
        ≡ review_stage_run env visit f stage bolt def fs rr
            (outcome_row f stage (if success then "pass" else "failed"))
            failures
            (if success
              then (if is_nonempty failures then smoke_failed else default_pass)
              else agent_failed)
            (record_smoke env visit f stage bolt def fs failures sys)
  unfolding judge
  judge-success rr true sys = refl
  judge-success rr false sys = refl

  judge-unheard :
      (rr : RoleResult) (sys : System)
      → judge env visit f stage bolt def fs rr (read_outcome f stage rr none) sys
        ≡ review_stage_run env visit f stage bolt def fs rr
            (unheard_outcome f stage rr)
            (failures_of rr)
            (unheard_source rr (failures_of rr))
            (record_smoke env visit f stage bolt def fs (failures_of rr) sys)
  unfolding read_outcome
  judge-unheard rr sys = judge-success rr rr.success sys

  judge-IsUnheard :
      (rr : RoleResult) (sys : System)
      → get_latest_outcome sys.db f.id (review_stage def.id) ≡ none
      → IsUnheard f stage
          (judge env visit f stage bolt def fs rr (read_outcome f stage rr none) sys).1
  unfolding record_smoke
  judge-IsUnheard rr sys e =
      let smoked = record_smoke env visit f stage bolt def fs (failures_of rr) sys in
      let same : get_latest_outcome smoked.db f.id (review_stage def.id) ≡ none =
        elim (Bool-cases (is_nonempty (failures_of rr))) [ inl h ↦ rw h e | inr h ↦ rw h e ] in
      rw judge-unheard (review_stage_run-IsUnheard rr (failures_of rr) smoked same)

  judge-none :
      (rr : RoleResult) (o : Option OutcomeRow) (sys : System)
      → o ≡ none
      → get_latest_outcome sys.db f.id (review_stage def.id) ≡ none
      → IsUnheard f stage (judge env visit f stage bolt def fs rr (read_outcome f stage rr o) sys).1
  judge-none rr none sys unseen e = judge-IsUnheard rr sys e
  judge-none rr (some o) sys unseen e = absurd (cc unseen)

  after_dispatch-IsUnheard :
      (sys : System) (d : Dispatched)
      → get_latest_outcome sys.db f.id stage ≡ none
      → get_latest_outcome sys.db f.id (review_stage def.id) ≡ none
      → IsUnheard f stage (after_dispatch env visit f stage bolt def fs (sys, d)).1
  unfolding after_dispatch
  after_dispatch-IsUnheard sys (finished rr) own e = judge-none rr _ sys own e
  after_dispatch-IsUnheard sys stopped own e = tt
  after_dispatch-IsUnheard sys (quota_hit err) own e = tt
  after_dispatch-IsUnheard sys (given_up err) own e = tt

  pub run_prepared-IsUnheard :
      (role_error : Option String) (sys : System)
      → is_unsignalled stage ≡ true
      → get_latest_outcome sys.db f.id (review_stage def.id) ≡ none
      → IsUnheard f stage (run_prepared env visit f stage bolt def fs role_error sys).1
  unfolding run_prepared
  run_prepared-IsUnheard (some err) sys u e = tt
  run_prepared-IsUnheard none sys u e =
      let cleared : System = record sys { db = (delete_outcomes_for_phase sys.db f.id stage).0 } in
      let (after, end) =
        dispatch_attempts env.now visit f.id stage def.lead_agent max_retries 0 cleared in
      let kept : (p : String) → is_unsignalled p ≡ true → HasOutcomesOf f.id p cleared after =
        dispatch_attempts-HasOutcomesOf env.now visit f.id stage def.lead_agent max_retries 0
          cleared f.id in
      after_dispatch-IsUnheard after end (kept stage u ∙ delete-own sys.db f.id stage) (
        kept (review_stage def.id) unsignalled
        ∙ delete-other sys.db f.id stage (review_stage def.id) e)
