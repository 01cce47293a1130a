-- ===== src/Api/Gates.antt =====
-- internal/api/stage_handlers.go: the handlers of the gates, the jumps and the bolts.
use devteam.Prelude.{
  Bool, Option, String, Text, [], codes, false, length, ltb, none, not, some, true, ℕ, ◌&&◌, ◌||◌,
  ◌∷◌, ◌==◌, if◌then◌else◌, nat_eq, string_eq, text_eq,
}
use devteam.Stage.Status.{status_eq, skipped, not_started}
use devteam.Feature.Types.{Feature}
use devteam.Db.Types.{text, Database}
use devteam.Db.Stages.{get_feature_stage, update_feature_stage}
use devteam.Pipeline.System.{System, Env, Error, audit, get_feature}
use devteam.Pipeline.Verdict.{Approval, next, refused}
use devteam.Pipeline.Verdict
use devteam.Pipeline.Jump
use devteam.Pipeline.Prepare
use devteam.Api.Server.{
  Server, Response, answer, feature_not_found, with_sys, resolve_bolt_number_for_stage, goes_on,
  advance_unless_active,
}

abbrev pub after_approval : String → Server → System × Feature × Approval → Server × Response
after_approval id s (sys, f, refused e) = (with_sys sys s, answer 400 "approve_failed")
after_approval id s (sys, f, next stage) =
    let s' = with_sys sys s in
    let on = advance_unless_active id s' in
    (if goes_on f.execution_mode then on else s', answer 200 "approved")

unfoldable pub approve_stage : Env → String → String → Server → Server × Response
unfolding advance_unless_active
approve_stage env id stage s = elim (get_feature s.sys id) [
  | none ↦ (s, feature_not_found)
  | some f ↦
      after_approval id s
        (Verdict.approve_stage env f stage (resolve_bolt_number_for_stage f stage) s.sys)
]

-- The answer by whether the operation of the pipeline failed.
abbrev pub reply : ℕ → String → String → Server → System × Option Error → Server × Response
reply status failure success s (sys, some e) = (with_sys sys s, answer status failure)
reply status failure success s (sys, none) = (with_sys sys s, answer 200 success)

unfoldable pub reject_stage : String → String → Option String → Server → Server × Response
reject_stage id stage body s = elim (get_feature s.sys id) [
  | none ↦ (s, feature_not_found)
  | some f ↦ elim body [
    | none ↦ (s, answer 400 "invalid JSON")
    | some notes ↦
        if notes == ""
        then (s, answer 400 "notes required")
        else reply 400 "reject_failed" "rejected" s
            (Verdict.reject_stage f stage (resolve_bolt_number_for_stage f stage) notes s.sys)
  ]
]

unfoldable pub accept_stage_as_is : Env → String → String → Server → Server × Response
accept_stage_as_is env id stage s = elim (get_feature s.sys id) [
  | none ↦ (s, feature_not_found)
  | some f ↦
      let (sys, f', e) =
        Verdict.accept_stage_as_is env f stage (resolve_bolt_number_for_stage f stage) s.sys in
      reply 400 "accept_failed" "accepted_as_is" s (sys, e)
]

-- The body has a stage and a phase.
unfoldable pub jump_to_stage : String → Option (String × String) → Server → Server × Response
jump_to_stage id body s = elim (get_feature s.sys id) [
  | none ↦ (s, feature_not_found)
  | some f ↦ elim body [
    | none ↦ (s, answer 400 "invalid JSON")
    | some (stage, phase) ↦
        if not (stage == "")
        then reply 400 "jump_failed" "jumped" s (Jump.jump_to_stage f stage s.sys)
        else if not (phase == "")
        then reply 400 "jump_failed" "jumped" s (Jump.jump_to_phase f phase s.sys)
        else (s, answer 400 "stage_id or phase required")
  ]
]

-- The id of a stage of ideation or inception, by its length and its first byte.
abbrev pub is_early : Text → Bool
is_early [] = false
is_early (c ∷ cs) = not (ltb (length (c ∷ cs)) 3) && (c == b'1' || c == b'2')

abbrev pub re_added : String → String → Server → Database × Bool → Server × Response
re_added id stage s (db, false) =
    (with_sys (record (s.sys) { db = db }) s, answer 500 "update_failed")
re_added id stage s (db, true) = (
  with_sys (audit id "STAGE_RE_ADDED" stage "" (text "") (record (s.sys) { db = db })) s,
  answer 200 "stage_re_added",
)

unfoldable pub add_skipped_stage : String → String → Server → Server × Response
add_skipped_stage id stage s =
    if not (is_early (codes stage))
    then (s, answer 400 "not an early stage")
    else elim (get_feature_stage s.sys.db id stage) [
      | none ↦ (s, answer 404 "not_found")
      | some fs ↦
          if not (fs.status == skipped)
          then (s, answer 400 "stage is not skipped")
          else re_added id stage s (update_feature_stage s.sys.db id stage not_started 0 none none)
    ]

-- The artifacts are read from the specification.
unfoldable pub prepare_bolts :
    Env → (ℕ → Bool) → Option Text → Option Text → String → Server → Server × Response
prepare_bolts env is_space unit_of_work dag id s = elim (get_feature s.sys id) [
  | none ↦ (s, feature_not_found)
  | some f ↦
      reply 500 "prepare_bolts_failed" "bolts_prepared" s
        (Prepare.prepare_bolts env is_space unit_of_work dag f s.sys)
]
