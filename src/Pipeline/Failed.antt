-- ===== src/Pipeline/Failed.antt =====
-- internal/pipeline/advance.go: rows of status "failed", which RunStage writes when a dispatch
-- fails, have no say in decideNextAction.
use mathlib.Core.Path.{fun_ext}
use devteam.Prelude.{
  Bool, Bool-cases, List, String, [], any-keep, ap, arith, false, find, find-keep, inl, inr, keep,
  not, refl, true, ℕ, ◌≡◌, ◌∷◌, ◌==◌, nat_eq, string_eq, text_eq,
}
use devteam.Stage.Status.{
  Status, status_eq, not_started, in_progress, awaiting_approval, revising, failed,
}
use devteam.Feature.Types.{Feature}
use devteam.Db.Types.{FeatureStage}
use devteam.Db.Events.{count_merges}
use devteam.Pipeline.System.{System, Env, effective_scope}
use devteam.Pipeline.Decide.{
  has_status, is_completed_stage, is_open_stage, is_open_bolt, linear, linear_step, merge_or_linear,
  bolts_or_later, decide_next_action, merge_step, bolts_step, first_step, bolts_of,
}

abbrev pub has_not_failed : FeatureStage → Bool
has_not_failed s = not (s.status == failed)

abbrev pub without_failed : List FeatureStage → List FeatureStage
without_failed = keep has_not_failed

completed_not_failed :
    (id : String) (s : FeatureStage) → is_completed_stage id s ≡ true → has_not_failed s ≡ true
completed_not_failed id s h = ground arith

status_not_failed :
    (st : Status)
    → (st == failed) ≡ false
    → (s : FeatureStage) → has_status st s ≡ true
    → has_not_failed s ≡ true
status_not_failed st h s e = ground arith

open_not_failed : (b : ℕ) (s : FeatureStage) → is_open_stage b s ≡ true → has_not_failed s ≡ true
open_not_failed b s h = ground arith

is_open_bolt-without_failed :
    (stages : List FeatureStage) → is_open_bolt (without_failed stages) ≡ is_open_bolt stages
is_open_bolt-without_failed stages = fun_ext λ b.
    rw
      (any-keep (is_open_stage b.bolt_number) has_not_failed stages (open_not_failed b.bolt_number))

linear-without_failed :
    (env : Env) (f scope : String) (stages : List FeatureStage) (sys : System)
    → linear env f scope (without_failed stages) sys ≡ linear env f scope stages sys
unfolding linear
linear-without_failed env f scope [] sys = refl
linear-without_failed env f scope (s ∷ ss) sys =
    let later : linear env f scope (without_failed ss) ≡ linear env f scope ss =
      fun_ext (linear-without_failed env f scope ss) in
    elim (Bool-cases (s.status == failed)) [
      | inl broken ↦
          let started : (s.status == not_started) ≡ false = ground (arith, broken) in
          rw (broken, started) (linear-without_failed env f scope ss sys)
      | inr sound ↦ rw sound (ap (λ rest. linear_step env f scope s rest sys) later)
    ]

merge_or_linear-without_failed :
    (env : Env) (f : Feature) (stages : List FeatureStage) (sys : System)
    → merge_or_linear env f (without_failed stages) sys ≡ merge_or_linear env f stages sys
unfolding merge_or_linear
merge_or_linear-without_failed env f stages sys =
    let done =
      any-keep (is_completed_stage "3.7") has_not_failed stages (completed_not_failed "3.7") in
    let onward = linear-without_failed env f.id (effective_scope f.scope) stages sys in
    λ i. merge_step (done i) (count_merges sys.db f.id) sys (onward i)

bolts_or_later-without_failed :
    (env : Env) (f : Feature) (stages : List FeatureStage) (sys : System)
    → bolts_or_later env f (without_failed stages) sys ≡ bolts_or_later env f stages sys
unfolding bolts_or_later
bolts_or_later-without_failed env f stages sys =
    let done =
      any-keep (is_completed_stage "2.8") has_not_failed stages (completed_not_failed "2.8") in
    let opens = is_open_bolt-without_failed stages in
    let later = merge_or_linear-without_failed env f stages sys in
    λ i. bolts_step (done i) (bolts_of sys f.id) (opens i) sys (later i)

first-without_failed :
    (st : Status)
    → (st == failed) ≡ false
    → (stages : List FeatureStage)
    → find (has_status st) (without_failed stages) ≡ find (has_status st) stages
first-without_failed st h stages =
    find-keep (has_status st) has_not_failed stages (status_not_failed st h)

-- Whatever decideNextAction does for a feature, it does the same with every failed row taken away.
pub decide_next_action-without_failed :
    (env : Env) (f : Feature) (stages : List FeatureStage) (mode : String) (sys : System)
    → decide_next_action env f (without_failed stages) mode sys
      ≡ decide_next_action env f stages mode sys
unfolding decide_next_action
decide_next_action-without_failed env f stages mode sys =
    let runs =
      any-keep (has_status in_progress) has_not_failed stages
        (status_not_failed in_progress refl) in
    let awaiting = first-without_failed awaiting_approval refl stages in
    let revised = first-without_failed revising refl stages in
    let later = bolts_or_later-without_failed env f stages sys in
    λ i. first_step (runs i) (awaiting i) (revised i) mode sys (later i)
