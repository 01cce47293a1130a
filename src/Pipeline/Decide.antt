-- ===== src/Pipeline/Decide.antt =====
-- internal/pipeline/advance.go: decideNextAction.
use devteam.Prelude.{
  Bool, List, Option, String, [], any, find, ltb, none, not, some, ℕ, ◌&&◌, ◌||◌, ◌∷◌, ◌==◌,
  if◌then◌else◌, nat_eq, string_eq, text_eq,
}
use devteam.Stage.Status.{
  Status, status_eq, not_started, in_progress, awaiting_approval, revising, completed,
}
use devteam.Feature.Types.{Feature}
use devteam.Db.Types.{FeatureStage, BoltRow, BoltStatus, bolt_status_eq}
use devteam.Db.Stages.{is_per_bolt_stage, get_stage_definition}
use devteam.Db.Bolts.{get_bolts}
use devteam.Db.Events.{count_merges}
use devteam.Pipeline.System.{System, Env, execution_guided, execution_autonomous, effective_scope}
use devteam.Pipeline.Advance.{should_skip_stage, mark_skipped}

-- The kinds of action, each with the fields that the caller reads. The reason is only logged.
pub data NextAction : Type 0 where
  finish wait prepare_bolts merge_to_main : NextAction
  needs_human run_stage : (stage_id : String) → NextAction
  auto_approve : (stage_id : String) (bolt_number : ℕ) → NextAction
  run_bolt : (bolt_number : ℕ) → NextAction

abbrev pub is_auto : String → Bool
is_auto mode = mode == execution_autonomous || mode == execution_guided

abbrev pub has_status : Status → FeatureStage → Bool
has_status st s = s.status == st

abbrev pub is_completed_stage : String → FeatureStage → Bool
is_completed_stage id s = s.stage_id == id && s.status == completed

abbrev on_awaiting : String → FeatureStage → NextAction
on_awaiting mode s =
    if is_auto mode then auto_approve s.stage_id s.bolt_number else needs_human s.stage_id

abbrev on_revising : String → FeatureStage → NextAction
on_revising mode s =
    if is_auto mode
    then (if is_per_bolt_stage s.stage_id && ltb 0 s.bolt_number
        then run_bolt s.bolt_number
        else run_stage s.stage_id)
    else wait

-- A not-started row of a bolt's own stages.
abbrev pub is_open_stage : ℕ → FeatureStage → Bool
is_open_stage bolt s =
    s.bolt_number == bolt && s.status == not_started && is_per_bolt_stage s.stage_id

abbrev pub is_open_bolt : List FeatureStage → BoltRow → Bool
is_open_bolt stages b =
    not (b.status == BoltStatus.completed) && any (is_open_stage b.bolt_number) stages

-- One turn of the loop of step 7; `rest` makes the turns behind it.
abbrev pub linear_step :
    Env
    → String
    → String
    → FeatureStage
    → (System → System × NextAction)
    → System
    → System × NextAction
linear_step env f scope s rest sys =
    if not (s.status == not_started)
    then rest sys
    else if is_per_bolt_stage s.stage_id
    then rest sys
    else elim (get_stage_definition sys.db s.stage_id) [
      | none ↦ (sys, run_stage s.stage_id)
      | some def ↦
          if should_skip_stage scope def
          then rest (mark_skipped env f scope s.stage_id def.phase sys)
          else (sys, run_stage s.stage_id)
    ]

-- Step 7: the first not-started linear stage in scope; those out of scope are skipped on the way.
unfoldable pub linear : Env → String → String → List FeatureStage → System → System × NextAction
linear env f scope [] sys = (sys, finish)
linear env f scope (s ∷ ss) sys = linear_step env f scope s (linear env f scope ss) sys

-- Step 6: `done` is a completed row of 3.7, `onward` is step 7.
abbrev pub merge_step : Bool → Option ℕ → System → System × NextAction → System × NextAction
merge_step done merges sys onward =
    if done
    then elim merges [ none ↦ onward | some n ↦ if n == 0 then (sys, merge_to_main) else onward ]
    else onward

unfoldable pub merge_or_linear : Env → Feature → List FeatureStage → System → System × NextAction
merge_or_linear env f stages sys =
    merge_step (any (is_completed_stage "3.7") stages) (count_merges sys.db f.id) sys
      (linear env f.id (effective_scope f.scope) stages sys)

-- `bolts, _ := p.database.GetBolts(f.ID)`: no bolts where the query fails.
unfoldable pub bolts_of : System → String → List BoltRow
bolts_of sys f = elim (get_bolts sys.db f) [ none ↦ [] | some bolts ↦ bolts ]

-- Steps 4 and 5: `done` is a completed row of 2.8, `later` are the steps behind.
abbrev pub bolts_step :
    Bool → List BoltRow → (BoltRow → Bool) → System → System × NextAction → System × NextAction
bolts_step done bolts is_open sys later =
    if done
    then elim bolts [
      | [] ↦ (sys, prepare_bolts)
      | b ∷ bs ↦ elim (find is_open (b ∷ bs)) [
        | none ↦ later
        | some open_bolt ↦ (sys, run_bolt open_bolt.bolt_number)
      ]
    ]
    else later

unfoldable pub bolts_or_later : Env → Feature → List FeatureStage → System → System × NextAction
bolts_or_later env f stages sys =
    bolts_step (any (is_completed_stage "2.8") stages) (bolts_of sys f.id) (is_open_bolt stages) sys
      (merge_or_linear env f stages sys)

-- Steps 1 to 3: a running row, the first that awaits approval and the first that is revised.
abbrev pub first_step :
    Bool
    → Option FeatureStage
    → Option FeatureStage
    → String
    → System
    → System × NextAction
    → System × NextAction
first_step running awaiting revised mode sys later =
    if running then (sys, wait) else elim awaiting [
      | some s ↦ (sys, on_awaiting mode s)
      | none ↦ elim revised [ some s ↦ (sys, on_revising mode s) | none ↦ later ]
    ]

unfoldable pub decide_next_action :
    Env → Feature → List FeatureStage → String → System → System × NextAction
decide_next_action env f stages mode sys =
    first_step (any (has_status in_progress) stages) (find (has_status awaiting_approval) stages)
      (find (has_status revising) stages) mode sys (bolts_or_later env f stages sys)
