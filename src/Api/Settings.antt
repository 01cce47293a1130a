-- ===== src/Api/Settings.antt =====
-- internal/api/stage_handlers.go: the handlers that change the settings of a feature.
use devteam.Prelude.{
  Bool, Option, String, concat, false, none, not, some, true, ◌&&◌, ◌||◌, ◌==◌, if◌then◌else◌,
  nat_eq, string_eq, text_eq,
}
use devteam.Stage.Scope.{is_valid_scope}
use devteam.Feature.Types.{Feature}
use devteam.Db.Types.{text, Database}
use devteam.Db.Features.{save_feature_state}
use devteam.Pipeline.System.{System, audit, get_feature}
use devteam.Pipeline.Ladder.{ladder_prompt}
use devteam.Api.Server.{
  Server, Response, answer, feature_not_found, with_sys, goes_on, advance_unless_active,
}
use devteam.Api.Gates.{reply}

-- SaveFeature and, if that succeeds, what is done then.
abbrev pub saved : Server → Database × Bool → (System → System) → String → Server × Response
saved s (db, false) then_do done =
    (with_sys (record (s.sys) { db = db }) s, answer 500 "save_failed")
saved s (db, true) then_do done =
    (with_sys (then_do (record (s.sys) { db = db })) s, answer 200 done)

unfoldable pub change_setting :
    String → (Feature → Feature) → (System → System) → String → Server → Server × Response
change_setting id set then_do done s = elim (get_feature s.sys id) [
  | none ↦ (s, feature_not_found)
  | some f ↦ saved s (save_feature_state s.sys.db (set f)) then_do done
]

unfoldable pub set_scope : String → Option String → Server → Server × Response
unfolding change_setting
set_scope id none s = (s, answer 400 "bad_request")
set_scope id (some scope) s =
    if not (is_valid_scope scope)
    then (s, answer 400 "invalid scope")
    else change_setting id (λ f. record f { scope = scope })
        (audit id "SCOPE_CHANGE" "" "" (text scope)) "scope_set" s

unfoldable pub set_depth : String → Option String → Server → Server × Response
unfolding change_setting
set_depth id none s = (s, answer 400 "bad_request")
set_depth id (some depth) s =
    change_setting id (λ f. record f { depth = depth }) (audit id "DEPTH_CHANGE" "" "" (text depth))
      "depth_set" s

unfoldable pub set_test_strategy : String → Option String → Server → Server × Response
unfolding change_setting
set_test_strategy id none s = (s, answer 400 "bad_request")
set_test_strategy id (some strategy) s =
    change_setting id (λ f. record f { test_strategy = strategy }) (λ sys. sys) "test_strategy_set"
      s

unfoldable pub set_ladder_mode : String → Option String → Server → Server × Response
set_ladder_mode id none s = (s, answer 400 "bad_request")
set_ladder_mode id (some mode) s = elim (get_feature s.sys id) [
  | none ↦ (s, feature_not_found)
  | some f ↦
      let (sys, f', e) = ladder_prompt f mode s.sys in
      reply 400 "ladder_failed" "ladder_set" s (sys, e)
]

abbrev pub is_mode : String → Bool
is_mode mode = mode == "human" || mode == "guided" || mode == "autonomous"

-- A mode that goes on starts the work, once the feature is saved.
abbrev pub then_advance : String → String → Server × Response → Server × Response
then_advance id mode (s, r) =
    let on = advance_unless_active id s in
    if r.status == 200 && goes_on mode then (on, r) else (s, r)

unfoldable pub set_execution_mode : String → Option String → Server → Server × Response
unfolding change_setting advance_unless_active
set_execution_mode id none s = (s, answer 400 "bad_request")
set_execution_mode id (some mode) s =
    if not (is_mode mode)
    then (s, answer 400 "mode must be human, guided, or autonomous")
    else then_advance id mode (
        change_setting id (λ f. record f { execution_mode = mode })
          (audit id "SCOPE_CHANGE" "" "" (text (concat "execution_mode=" mode))) "updated" s)
