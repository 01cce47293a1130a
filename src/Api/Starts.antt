-- ===== src/Api/Starts.antt =====
-- internal/api/stage_handlers.go: which handlers start a goroutine, and when.
use devteam.Prelude.{
  Bool, Bool-cases, Option, Option-cases, String, Text, codes, elem, false, found-has, if-has, inl,
  inr, ltb, none, not, refl, some, true, ℕ, ◌≡◌, ◌⊎◌, ◌&&◌, ◌∷◌, ◌==◌, if◌then◌else◌, nat_eq,
  string_eq, text_eq,
}
use devteam.Feature.Types.{Feature}
use devteam.Db.Types.{Database}
use devteam.Db.Stages.{get_feature_stage, get_stage_definition}
use devteam.Db.Features.{save_feature_state}
use devteam.Stage.Status.{status_eq, skipped}
use devteam.Stage.Ids.{is_valid_stage_id}
use devteam.Stage.Scope.{is_valid_scope}
use devteam.Pipeline.System.{System, Env, Error, get_feature}
use devteam.Pipeline.Verdict.{Approval, next, refused}
use devteam.Pipeline.Verdict
use devteam.Api.Server.{
  Server, Response, Task, with_sys, is_feature_active, mark_feature_active, spawn,
  advance_unless_active, advance, resolve_bolt_number_for_stage, goes_on,
}
use devteam.Api.Running.{dispatch, run_stage, resume_stage, run_bolt, run_construction}
use devteam.Api.Gates.{
  after_approval, approve_stage, reply, reject_stage, accept_stage_as_is, jump_to_stage,
  add_skipped_stage, re_added, prepare_bolts, is_early,
}
use devteam.Api.Settings.{
  saved, change_setting, set_scope, set_depth, set_test_strategy, set_ladder_mode,
  set_execution_mode, is_mode, then_advance,
}
use devteam.Api.Requests.{
  Request, run_stage_request, force_rerun_request, resume_request, run_bolt_request,
  construction_request, approve_request, accept_request, reject_request, jump_request,
  add_skipped_request, prepare_request, scope_request, depth_request, test_strategy_request,
  ladder_request, execution_mode_request, handle, is_forced,
}

-- Either the marks and the goroutines stay, or a feature that is not marked is marked and gets one.
abbrev pub Starts : Server → Server → Type 0
Starts s s' =
    ((s'.active ≡ s.active) × (s'.workers ≡ s.workers))
    ⊎ ((id : String) × (task : Task) × (is_feature_active s id ≡ false)
        × (s'.active ≡ id ∷ s.active)
        × (s'.workers ≡ record { feature_id = id; task = task } ∷ s.workers))

stays : (s : Server) (sys : System) → Starts s (with_sys sys s)
stays s sys = inl (refl, refl)

dispatch-Starts :
    (id : String) (task : Task) (sys : System) (s : Server)
    → is_feature_active s id ≡ false
    → Starts s (dispatch id task (with_sys sys s))
unfolding dispatch is_feature_active mark_feature_active spawn
dispatch-Starts id task sys s free = inr (id, task, free, rw free refl, rw free refl)

advance_unless_active-Starts :
    (id : String) (sys : System) (s : Server) → Starts s (advance_unless_active id (with_sys sys s))
unfolding advance_unless_active is_feature_active mark_feature_active spawn
advance_unless_active-Starts id sys s = elim (Bool-cases (elem id s.active)) [
  | inl busy ↦ rw busy (inl (refl, refl))
  | inr free ↦ rw free (inr (id, advance, free, refl, refl))
]

reply-Starts :
    (status : ℕ) (failure success : String) (s : Server) (out : System × Option Error)
    → Starts s (reply status failure success s out).0
reply-Starts status failure success s (sys, none) = stays s sys
reply-Starts status failure success s (sys, some e) = stays s sys

if-Starts :
    (s : Server) (b : Bool) (p q : Server × Response)
    → Starts s p.0
    → Starts s q.0
    → Starts s (if b then p else q).0
if-Starts s = if-has (λ p. Starts s p.0)

found-Starts :
    {A : Type 0} (s : Server) (o : Option A) (p : Server × Response) (q : A → Server × Response)
    → Starts s p.0
    → ((a : A) → Starts s (q a).0)
    → let r : Server × Response = elim o [ none ↦ p | some a ↦ q a ] in Starts s r.0
found-Starts s = found-has (λ p. Starts s p.0)

unless_active-Starts :
    (s : Server) (id : String) (p q : Server × Response)
    → Starts s p.0
    → (is_feature_active s id ≡ false → Starts s q.0)
    → Starts s (if is_feature_active s id then p else q).0
unless_active-Starts s id p q h k = elim (Bool-cases (is_feature_active s id)) [
  | inl busy ↦ rw busy h
  | inr free ↦ rw free (k free)
]

run_stage-Starts :
    (id : String) (body : Option String) (s : Server) → Starts s (run_stage id body s).0
unfolding run_stage
run_stage-Starts id body s =
    let same = stays s s.sys in
    found-Starts s (get_feature s.sys id) _ _ same λ f. found-Starts s body _ _ same λ stage.
      if-Starts s (stage == "") _ _ same (
        if-Starts s (not (is_valid_stage_id (codes stage))) _ _ same
          (unless_active-Starts s id _ _ same (dispatch-Starts id advance _ s)))

resume_stage-Starts :
    (id stage : String) (alive : Bool) (s : Server) → Starts s (resume_stage id stage alive s).0
unfolding resume_stage
resume_stage-Starts id stage alive s =
    let same = stays s s.sys in
    found-Starts s (get_feature s.sys id) _ _ same λ f. unless_active-Starts s id _ _ same λ free.
      found-Starts s (get_stage_definition s.sys.db stage) _ _ same
        λ def. dispatch-Starts id _ s.sys s free

run_bolt-Starts : (id : String) (number : Option ℕ) (s : Server) → Starts s (run_bolt id number s).0
unfolding run_bolt
run_bolt-Starts id number s =
    let same = stays s s.sys in
    found-Starts s (get_feature s.sys id) _ _ same λ f. found-Starts s number _ _ same λ n.
      if-Starts s (ltb n 1) _ _ same
        (unless_active-Starts s id _ _ same (dispatch-Starts id _ s.sys s))

run_construction-Starts : (id : String) (s : Server) → Starts s (run_construction id s).0
unfolding run_construction
run_construction-Starts id s =
    unless_active-Starts s id _ _ (stays s s.sys) (dispatch-Starts id advance s.sys s)

after_approval-Starts :
    (id : String) (s : Server) (out : System × Feature × Approval)
    → Starts s (after_approval id s out).0
after_approval-Starts id s (sys, f, refused e) = stays s sys
after_approval-Starts id s (sys, f, next stage) = elim (Bool-cases (goes_on f.execution_mode)) [
  | inl on ↦ rw on (advance_unless_active-Starts id sys s)
  | inr off ↦ rw off (stays s sys)
]

jump_to_stage-Starts :
    (id : String) (body : Option (String × String)) (s : Server)
    → Starts s (jump_to_stage id body s).0
unfolding jump_to_stage
jump_to_stage-Starts id body s =
    let same = stays s s.sys in
    found-Starts s (get_feature s.sys id) _ _ same λ f.
      found-Starts s body _ _ same λ (stage, phase).
        if-Starts s (not (stage == "")) _ _ (reply-Starts 400 _ _ s _)
          (if-Starts s (not (phase == "")) _ _ (reply-Starts 400 _ _ s _) same)

re_added-Starts :
    (id stage : String) (s : Server) (out : Database × Bool) → Starts s (re_added id stage s out).0
re_added-Starts id stage s (db, true) = inl (refl, refl)
re_added-Starts id stage s (db, false) = inl (refl, refl)

saved-Starts :
    (s : Server) (out : Database × Bool) (then_do : System → System) (done : String)
    → Starts s (saved s out then_do done).0
saved-Starts s (db, true) then_do done = inl (refl, refl)
saved-Starts s (db, false) then_do done = inl (refl, refl)

-- A change of settings touches only the database.
change_setting-sys :
    (id : String) (set : Feature → Feature) (then_do : System → System) (done : String) (s : Server)
    → (sys : System) × ((change_setting id set then_do done s).0 ≡ with_sys sys s)
unfolding change_setting
change_setting-sys id set then_do done s = elim (Option-cases (get_feature s.sys id)) [
  | inl absent ↦ (s.sys, rw (change_setting, absent) refl)
  | inr (f, there) ↦ elim (Bool-cases (save_feature_state s.sys.db (set f)).1) [
    | inl e ↦ (
      then_do (record (s.sys) { db = (save_feature_state s.sys.db (set f)).0 }),
      rw (change_setting, there, e) refl,
    )
    | inr e ↦ (
      record (s.sys) { db = (save_feature_state s.sys.db (set f)).0 },
      rw (change_setting, there, e) refl,
    )
  ]
]

then_advance-Starts :
    (id mode : String) (s : Server) (out : Server × Response) (sys : System)
    → out.0 ≡ with_sys sys s
    → Starts s (then_advance id mode out).0
then_advance-Starts id mode s (t, r) sys e = elim (Bool-cases (r.status == 200 && goes_on mode)) [
  | inl on ↦ rw (on, e) (advance_unless_active-Starts id sys s)
  | inr off ↦ rw (off, e) (inl (refl, refl))
]

set_execution_mode-Starts :
    (id : String) (body : Option String) (s : Server) → Starts s (set_execution_mode id body s).0
unfolding set_execution_mode
set_execution_mode-Starts id none s = stays s s.sys
set_execution_mode-Starts id (some mode) s =
    let (sys, e) = change_setting-sys id (λ f. record f { execution_mode = mode }) _ "updated" s in
    if-Starts s (not (is_mode mode)) _ _ (stays s s.sys) (then_advance-Starts id mode s _ sys e)

module _ (env : Env) (id : String) (s : Server) where
  same : Starts s s
  same = inl (refl, refl)

  approve_stage-Starts : (stage : String) → Starts s (approve_stage env id stage s).0
  unfolding approve_stage
  approve_stage-Starts stage =
      let out : Feature → System × Feature × Approval =
        λ f. Verdict.approve_stage env f stage (resolve_bolt_number_for_stage f stage) s.sys in
      found-Starts s (get_feature s.sys id) _ (λ f. after_approval id s (out f)) same
        λ f. after_approval-Starts id s (out f)

  accept_stage_as_is-Starts : (stage : String) → Starts s (accept_stage_as_is env id stage s).0
  unfolding accept_stage_as_is
  accept_stage_as_is-Starts stage =
      found-Starts s (get_feature s.sys id) _ _ same λ f. reply-Starts 400 _ _ s _

  reject_stage-Starts :
      (stage : String) (body : Option String) → Starts s (reject_stage id stage body s).0
  unfolding reject_stage
  reject_stage-Starts stage body = found-Starts s (get_feature s.sys id) _ _ same λ f.
      found-Starts s body _ _ same
        λ notes. if-Starts s (notes == "") _ _ same (reply-Starts 400 _ _ s _)

  add_skipped_stage-Starts : (stage : String) → Starts s (add_skipped_stage id stage s).0
  unfolding add_skipped_stage
  add_skipped_stage-Starts stage = if-Starts s (not (is_early (codes stage))) _ _ same (
      found-Starts s (get_feature_stage s.sys.db id stage) _ _ same
        λ fs. if-Starts s (not (fs.status == skipped)) _ _ same (re_added-Starts id stage s _))

  prepare_bolts-Starts :
      (is_space : ℕ → Bool) (units dag : Option Text)
      → Starts s (prepare_bolts env is_space units dag id s).0
  unfolding prepare_bolts
  prepare_bolts-Starts is_space units dag =
      found-Starts s (get_feature s.sys id) _ _ same λ f. reply-Starts 500 _ _ s _

  change_setting-Starts :
      (set : Feature → Feature) (then_do : System → System) (done : String)
      → Starts s (change_setting id set then_do done s).0
  unfolding change_setting
  change_setting-Starts set then_do done =
      found-Starts s (get_feature s.sys id) _ _ same λ f. saved-Starts s _ _ _

  set_ladder_mode-Starts : (body : Option String) → Starts s (set_ladder_mode id body s).0
  unfolding set_ladder_mode
  set_ladder_mode-Starts none = same
  set_ladder_mode-Starts (some mode) =
      found-Starts s (get_feature s.sys id) _ _ same λ f. reply-Starts 400 _ _ s _

-- A handler other than that of a forced run starts a goroutine only for a feature that has none
-- marked.
pub handle-Starts :
    (env : Env) (r : Request) (s : Server) → is_forced r ≡ false → Starts s (handle env r s).0
unfolding handle set_scope set_depth set_test_strategy
handle-Starts env (run_stage_request id body) s h = run_stage-Starts id body s
handle-Starts env (force_rerun_request id stage) s h = absurd (cc h)
handle-Starts env (resume_request id stage alive) s h = resume_stage-Starts id stage alive s
handle-Starts env (run_bolt_request id number) s h = run_bolt-Starts id number s
handle-Starts env (construction_request id) s h = run_construction-Starts id s
handle-Starts env (approve_request id stage) s h = approve_stage-Starts env id s stage
handle-Starts env (accept_request id stage) s h = accept_stage_as_is-Starts env id s stage
handle-Starts env (reject_request id stage body) s h = reject_stage-Starts env id s stage body
handle-Starts env (jump_request id body) s h = jump_to_stage-Starts id body s
handle-Starts env (add_skipped_request id stage) s h = add_skipped_stage-Starts env id s stage
handle-Starts env (prepare_request id is_space units dag) s h =
    prepare_bolts-Starts env id s is_space units dag
handle-Starts env (scope_request id none) s h = same env id s
handle-Starts env (scope_request id (some scope)) s h =
    if-Starts s (not (is_valid_scope scope)) _ _ (same env id s)
      (change_setting-Starts env id s _ _ _)
handle-Starts env (depth_request id none) s h = same env id s
handle-Starts env (depth_request id (some depth)) s h = change_setting-Starts env id s _ _ _
handle-Starts env (test_strategy_request id none) s h = same env id s
handle-Starts env (test_strategy_request id (some strategy)) s h =
    change_setting-Starts env id s _ _ _
handle-Starts env (ladder_request id body) s h = set_ladder_mode-Starts env id s body
handle-Starts env (execution_mode_request id body) s h = set_execution_mode-Starts id body s
