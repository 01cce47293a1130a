-- ===== src/Api/Raced.antt =====
-- internal/api/stage_handlers.go: two handlers that overlap start two goroutines on a feature.
use devteam.Prelude.{
  Bool, Option, String, ap, beq_refl, codes, elem, false, found-has, if-has, inl, inr, keep, ltb,
  none, not, refl, some, true, ℕ, ◌+◌, ◌≡◌, ◌∙◌, ◌⊎◌, ◌==◌, nat_eq, string_eq, text_eq,
}
use devteam.Stage.Ids.{is_valid_stage_id}
use devteam.Db.Stages.{get_stage_definition}
use devteam.Pipeline.System.{System, Env, get_feature}
use devteam.Api.Server.{
  Server, Response, answer, advance, Task, with_sys, is_feature_active, mark_feature_active,
  unmark_feature_active, spawn,
}
use devteam.Api.Running.{
  dispatch, run_stage_seen, resume_stage_seen, run_bolt_seen, run_construction_seen,
}
use devteam.Api.Workers.{Job, finish}
use devteam.Api.Exclusive.{holders, IsExclusive, elem-unmark}

-- The requests that check the mark before they start a goroutine.
pub data Start : Type 0 where
  start_stage : Option String → Start
  start_resume : String → Bool → Start
  start_bolt : Option ℕ → Start
  start_construction : Start

-- The request behind its check, which answered `seen`.
abbrev pub act : Bool → String → Start → Server → Server × Response
act seen id (start_stage body) s = run_stage_seen seen id body s
act seen id (start_resume stage alive) s = resume_stage_seen seen id stage alive s
act seen id (start_bolt number) s = run_bolt_seen seen id number s
act seen id start_construction s = run_construction_seen seen id s

-- The request is refused and changes nothing, or the feature has two goroutines, and loses its mark
-- when the new one ends.
abbrev pub Doubles : Env → Job → String → Server → Server × Response → Type 0
Doubles env job id s (s', r) =
    ((s' ≡ s) × (ltb r.status 400 ≡ false))
    ⊎ ((r.status ≡ 202)
        × (holders id s'.workers ≡ 2)
        × (is_feature_active s' id ≡ true)
        × (is_feature_active (finish env job 0 s') id ≡ false)
        × (holders id (finish env job 0 s').workers ≡ 1))

module _ (env : Env) (job : Job) (id : String) (s : Server) (busy : elem id s.active ≡ true)
    (one : holders id s.workers ≡ 1) where
  dispatch-Doubles :
      (task : Task) (sys : System) (text : String)
      → Doubles env job id s (dispatch id task (with_sys sys s), answer 202 text)
  unfolding dispatch mark_feature_active unmark_feature_active spawn finish is_feature_active
      holders
  dispatch-Doubles task sys text =
      let unmarked : elem id (keep (λ a. not (a == id)) s.active) ≡ false =
        elem-unmark id id s.active ∙ rw (beq_refl id) refl in
      inr (rw (busy, unmarked, beq_refl id) (refl, ap (λ n. 1 + n) one, busy, refl, one))

  found :
      {A : Type 0} (o : Option A) (p : Server × Response) (q : A → Server × Response)
      → Doubles env job id s p
      → ((a : A) → Doubles env job id s (q a))
      → let r : Server × Response = elim o [ none ↦ p | some a ↦ q a ] in Doubles env job id s r
  found = found-has (Doubles env job id s)

  act-Doubles : (start : Start) → Doubles env job id s (act false id start s)
  unfolding run_stage_seen resume_stage_seen run_bolt_seen run_construction_seen
  act-Doubles (start_stage body) = found (get_feature s.sys id) _ _ (inl (refl, refl)) λ f.
      found body _ _ (inl (refl, refl)) λ stage.
        if-has (Doubles env job id s) (stage == "") _ _ (inl (refl, refl)) (
          if-has (Doubles env job id s) (not (is_valid_stage_id (codes stage))) _ _
            (inl (refl, refl)) (dispatch-Doubles advance _ "dispatched"))
  act-Doubles (start_resume stage alive) = found (get_feature s.sys id) _ _ (inl (refl, refl)) λ f.
      found (get_stage_definition s.sys.db stage) _ _ (inl (refl, refl))
        λ def. dispatch-Doubles _ s.sys "resumed"
  act-Doubles (start_bolt number) = found (get_feature s.sys id) _ _ (inl (refl, refl)) λ f.
      found number _ _ (inl (refl, refl)) λ n.
        if-has (Doubles env job id s) (ltb n 1) _ _ (inl (refl, refl))
          (dispatch-Doubles _ s.sys "dispatched")
  act-Doubles start_construction = dispatch-Doubles advance s.sys "dispatched"

-- The check and the mark of a handler are apart. Let a request to run a stage, to resume one, to run
-- a bolt or the construction find the feature unmarked, and another mark it and start its goroutine
-- before the first goes on. Unless it is refused for another reason, without any change, it is
-- accepted, the feature then has two goroutines, and when the new one ends the feature is no longer
-- marked although the other goes on.
pub act-doubles :
    (env : Env) (job : Job) (id : String) (start : Start) (s : Server)
    → IsExclusive s
    → is_feature_active s id ≡ true
    → Doubles env job id s (act false id start s)
unfolding is_feature_active
act-doubles env job id start s h busy = act-Doubles env job id s busy (h id ∙ rw busy refl) start
