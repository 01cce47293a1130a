-- ===== src/Examples/Bolts.antt =====
-- Preparing bolts, scopes without planning, and saving, on sample data.
use devteam.Prelude.{
  Bool, List, Text, [], ap, arith, codes, length, none, refl, some, true, ℕ, ◌≡◌, ◌≢◌, ◌||◌, ◌∷◌,
  ◌==◌, if◌then◌else◌, nat_eq, string_eq, text_eq,
}
use devteam.Stage.Status.{not_started, completed}
use devteam.Feature.Types.{Feature}
use devteam.Db.Types.{FeatureStage}
use devteam.Db.Features.{save_feature_state, load_feature_state}
use devteam.Db.Saved.{saved_over, row_at, load_feature_state-save}
use devteam.Pipeline.System.{Env, creating_bolt}
use devteam.Pipeline.Decide.{decide_next_action, bolts_of, prepare_bolts}
use devteam.Pipeline.Units.{extract_units, extract_bolt_dependencies}
use devteam.Pipeline.Prepare.{planned_units, or_single_unit}
use devteam.Pipeline.Prepare
use devteam.Pipeline.Prepared.{ArePlanned, prepare_bolts-ArePlanned}
use devteam.Pipeline.Partial.{LosesFirst, prepare_bolts-stays_partial}
use devteam.Pipeline.Unplanned.{lists_stage, decide_next_action-unplanned}
use devteam.Examples.Data.{login, row, board, start, clock}

abbrev is_blank : ℕ → Bool
is_blank c = c == b' ' || c == b'\n'

abbrev unit_of_work : Text
unit_of_work = codes "## Unit u1 Sessions\n\n### Unit u2 Forms\n"

abbrev dag : Text
dag = codes "# order\n- u2 depends on u1\n"

abbrev signup : Feature
signup = record login { id = "signup-2" }

prepare_bolts-ArePlanned_example :
    let units = planned_units is_blank (some unit_of_work) in
    let (after, err) =
      Prepare.prepare_bolts clock is_blank (some unit_of_work) (some dag) signup start in
    ArePlanned "signup-2" (length units) 1 units (bolts_of after "signup-2")
    × (err ≡ none)
    × (Prepare.prepare_bolts clock is_blank (some unit_of_work) (some dag) signup after
        ≡ (after, none))
prepare_bolts-ArePlanned_example =
    prepare_bolts-ArePlanned clock is_blank (some unit_of_work) (some dag) signup start refl
      (λ n. refl) refl

two_units : extract_units is_blank (some unit_of_work) ≡ codes "u1" ∷ codes "u2" ∷ []
unfolding extract_units
two_units = refl

abbrev lossy : Env
lossy = record clock { is_lost = λ n. n == 2 }

lossy-LosesFirst : LosesFirst lossy 2
lossy-LosesFirst = (λ m below. ground arith, refl)

prepare_bolts-stays_partial_example :
    let (after, err) =
      Prepare.prepare_bolts lossy is_blank (some unit_of_work) (some dag) signup start in
    ArePlanned "signup-2"
      (length (planned_units is_blank (some unit_of_work)))
      1
      (codes "u1" ∷ [])
      (bolts_of after "signup-2")
    × (err ≡ some (creating_bolt 2))
    × (Prepare.prepare_bolts clock is_blank (some unit_of_work) (some dag) signup after
        ≡ (after, none))
prepare_bolts-stays_partial_example =
    prepare_bolts-stays_partial lossy clock is_blank (some unit_of_work) (some dag)
      (some unit_of_work) (some dag) signup start (codes "u1") (codes "u2") [] []
      (ap or_single_unit two_units) lossy-LosesFirst refl refl

one_dependency :
    extract_bolt_dependencies is_blank (some dag) (codes "u1" ∷ codes "u2" ∷ []) ≡ (2, 1) ∷ []
unfolding extract_bolt_dependencies
one_dependency = refl

abbrev poc_rows : List FeatureStage
poc_rows = row "1.1" 0 completed 0 ∷ row "3.5" 1 not_started 0 ∷ []

abbrev poc_login : Feature
poc_login = record login { scope = "poc" }

decide_next_action-unplanned_example :
    (lists_stage "poc" "3.5" ≡ true)
    × ((decide_next_action clock poc_login poc_rows "guided" start).1 ≢ prepare_bolts)
decide_next_action-unplanned_example =
    decide_next_action-unplanned clock poc_login poc_rows "guided" start refl (refl, (refl, tt))

load_feature_state-save_example :
    load_feature_state (save_feature_state board login).0 "login-1" ≡ (
      if login.id == "login-1"
      then some (saved_over (row_at "login-1" board.features) login)
      else load_feature_state board "login-1")
load_feature_state-save_example = load_feature_state-save board login "login-1" refl
