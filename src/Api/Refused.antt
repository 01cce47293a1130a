-- ===== src/Api/Refused.antt =====
-- internal/api/stage_handlers.go: what a request that is refused leaves behind.
use devteam.Prelude.{
  Bool, Bool-cases, Option, String, ap, codes, false, found-has, if-has, inl, inr, ltb, nat_eq,
  none, not, refl, some, true, ℕ, ◌≡◌, ◌⊎◌, ◌&&◌, ◌==◌, string_eq, text_eq,
}
use devteam.Feature.Types.{Feature}
use devteam.Db.Types.{Database}
use devteam.Db.Stages.{get_feature_stage, update_feature_stage, get_stage_definition}
use devteam.Db.Features.{save_feature_state}
use devteam.Stage.Status.{status_eq, skipped, not_started}
use devteam.Stage.Ids.{is_valid_stage_id}
use devteam.Stage.Scope.{is_valid_scope}
use devteam.Pipeline.System.{System, Env, Error, get_feature}
use devteam.Api.Server.{
  Server, Response, is_feature_active, with_sys, resolve_bolt_number_for_stage, goes_on,
}
use devteam.Api.Running.{run_stage, force_rerun_stage, resume_stage, run_bolt, run_construction}
use devteam.Api.Gates.{reply, reject_stage, jump_to_stage, add_skipped_stage, re_added, is_early}
use devteam.Api.Settings.{
  saved, change_setting, set_scope, set_depth, set_test_strategy, set_ladder_mode,
  set_execution_mode, is_mode, then_advance,
}
use devteam.Api.Requests.{
  Request, run_stage_request, force_rerun_request, resume_request, run_bolt_request,
  construction_request, approve_request, accept_request, reject_request, jump_request,
  add_skipped_request, prepare_request, scope_request, depth_request, test_strategy_request,
  ladder_request, execution_mode_request, handle, fails_late,
}
use devteam.Api.Atomic.{
  IsAtomic, reject_stage-IsAtomic, jump_to_stage-IsAtomic, jump_to_phase-IsAtomic,
  ladder_prompt-IsAtomic,
}

-- The answer is a success, or the server is as it was.
abbrev pub Keeps : Server → Server × Response → Type 0
Keeps s p = (ltb p.1.status 400 ≡ true) ⊎ (p.0 ≡ s)

reply-Keeps :
    (status : ℕ) (failure success : String) (s : Server) (out : System × Option Error)
    → IsAtomic s.sys out
    → Keeps s (reply status failure success s out)
reply-Keeps status failure success s (sys, none) h = inl refl
reply-Keeps status failure success s (sys, some e) (inl fine) = absurd (cc fine)
reply-Keeps status failure success s (sys, some e) (inr same) = inr (ap (λ x. with_sys x s) same)

update_feature_stage-same :
    (db : Database) (f stage : String)
    → let out = update_feature_stage db f stage not_started 0 none none in
      (out.1 ≡ true) ⊎ (out.0 ≡ db)
unfolding update_feature_stage
update_feature_stage-same db f stage = elim (Bool-cases db.up) [
  | inl up ↦ inl (rw up refl)
  | inr down ↦ inr (rw down refl)
]

save_feature_state-same :
    (db : Database) (f : Feature)
    → let out = save_feature_state db f in (out.1 ≡ true) ⊎ (out.0 ≡ db)
unfolding save_feature_state
save_feature_state-same db f = elim (Bool-cases db.up) [
  | inl up ↦ inl (rw up refl)
  | inr down ↦ inr (rw down refl)
]

with_db : Server → Database → Server
with_db s db = with_sys (record (s.sys) { db = db }) s

re_added-Keeps :
    (id stage : String) (s : Server) (out : Database × Bool)
    → (out.1 ≡ true) ⊎ (out.0 ≡ s.sys.db)
    → Keeps s (re_added id stage s out)
unfolding with_db
re_added-Keeps id stage s (db, true) h = inl refl
re_added-Keeps id stage s (db, false) (inl e) = absurd (cc e)
re_added-Keeps id stage s (db, false) (inr e) = inr (ap (with_db s) e)

saved-Keeps :
    (s : Server) (out : Database × Bool) (then_do : System → System) (done : String)
    → (out.1 ≡ true) ⊎ (out.0 ≡ s.sys.db)
    → Keeps s (saved s out then_do done)
unfolding with_db
saved-Keeps s (db, true) then_do done h = inl refl
saved-Keeps s (db, false) then_do done (inl e) = absurd (cc e)
saved-Keeps s (db, false) then_do done (inr e) = inr (ap (with_db s) e)

module _ (env : Env) (id : String) (s : Server) where
  found :
      {A : Type 0} (o : Option A) (p : Server × Response) (q : A → Server × Response)
      → Keeps s p
      → ((a : A) → Keeps s (q a))
      → let r : Server × Response = elim o [ none ↦ p | some a ↦ q a ] in Keeps s r
  found = found-has (Keeps s)

  run_stage-Keeps : (body : Option String) → Keeps s (run_stage id body s)
  unfolding run_stage
  run_stage-Keeps body = found (get_feature s.sys id) _ _ (inr refl) λ f.
      found body _ _ (inr refl) λ stage. if-has (Keeps s) (stage == "") _ _ (inr refl) (
        if-has (Keeps s) (not (is_valid_stage_id (codes stage))) _ _ (inr refl)
          (if-has (Keeps s) (is_feature_active s id) _ _ (inr refl) (inl refl)))

  force_rerun_stage-Keeps : (stage : String) → Keeps s (force_rerun_stage env id stage s)
  unfolding force_rerun_stage
  force_rerun_stage-Keeps stage = found (get_feature s.sys id) _ _ (inr refl) λ f. inl refl

  resume_stage-Keeps : (stage : String) (alive : Bool) → Keeps s (resume_stage id stage alive s)
  unfolding resume_stage
  resume_stage-Keeps stage alive = found (get_feature s.sys id) _ _ (inr refl) λ f.
      if-has (Keeps s) (is_feature_active s id) _ _ (inr refl)
        (found (get_stage_definition s.sys.db stage) _ _ (inr refl) λ def. inl refl)

  run_bolt-Keeps : (number : Option ℕ) → Keeps s (run_bolt id number s)
  unfolding run_bolt
  run_bolt-Keeps number = found (get_feature s.sys id) _ _ (inr refl) λ f.
      found number _ _ (inr refl) λ n.
        if-has (Keeps s) (ltb n 1) _ _ (inr refl)
          (if-has (Keeps s) (is_feature_active s id) _ _ (inr refl) (inl refl))

  reject_stage-Keeps :
      (stage : String) (body : Option String) → Keeps s (reject_stage id stage body s)
  unfolding reject_stage
  reject_stage-Keeps stage body = found (get_feature s.sys id) _ _ (inr refl) λ f.
      found body _ _ (inr refl) λ notes. if-has (Keeps s) (notes == "") _ _ (inr refl) (
        reply-Keeps 400 _ _ s _
          (reject_stage-IsAtomic f stage (resolve_bolt_number_for_stage f stage) notes s.sys))

  jump_to_stage-Keeps : (body : Option (String × String)) → Keeps s (jump_to_stage id body s)
  unfolding jump_to_stage
  jump_to_stage-Keeps body = found (get_feature s.sys id) _ _ (inr refl) λ f.
      found body _ _ (inr refl) λ (stage, phase).
        if-has (Keeps s) (not (stage == "")) _ _
          (reply-Keeps 400 _ _ s _ (jump_to_stage-IsAtomic f stage s.sys))
          (if-has (Keeps s) (not (phase == "")) _ _
            (reply-Keeps 400 _ _ s _ (jump_to_phase-IsAtomic f phase s.sys)) (inr refl))

  add_skipped_stage-Keeps : (stage : String) → Keeps s (add_skipped_stage id stage s)
  unfolding add_skipped_stage
  add_skipped_stage-Keeps stage = if-has (Keeps s) (not (is_early (codes stage))) _ _ (inr refl) (
      found (get_feature_stage s.sys.db id stage) _ _ (inr refl) λ fs.
        if-has (Keeps s) (not (fs.status == skipped)) _ _ (inr refl)
          (re_added-Keeps id stage s _ (update_feature_stage-same s.sys.db id stage)))

  change_setting-Keeps :
      (set : Feature → Feature) (then_do : System → System) (done : String)
      → Keeps s (change_setting id set then_do done s)
  unfolding change_setting
  change_setting-Keeps set then_do done =
      found (get_feature s.sys id) _ _ (inr refl)
        λ f. saved-Keeps s _ then_do done (save_feature_state-same s.sys.db (set f))

  set_ladder_mode-Keeps : (body : Option String) → Keeps s (set_ladder_mode id body s)
  unfolding set_ladder_mode
  set_ladder_mode-Keeps none = inr refl
  set_ladder_mode-Keeps (some mode) =
      found (get_feature s.sys id) _ _ (inr refl)
        λ f. reply-Keeps 400 _ _ s _ (ladder_prompt-IsAtomic f mode s.sys)

  then_advance-Keeps :
      (mode : String) (out : Server × Response) → Keeps s out → Keeps s (then_advance id mode out)
  then_advance-Keeps mode (t, r) h = elim (Bool-cases (r.status == 200)) [
    | inr other ↦ rw other h
    | inl fine ↦
        let low : ltb r.status 400 ≡ true = rw ((nat_eq.beq_iff r.status 200).0 fine) refl in
        if-has (Keeps s) (r.status == 200 && goes_on mode) _ _ (inl low) h
  ]

-- A request that is refused, with any status from 400 on, changes nothing, neither in the database
-- nor in the calls and the marks; but for the approval of a gate, the acceptance as is and the
-- preparation of bolts, which may fail behind their first writes.
pub handle-Keeps :
    (env : Env) (r : Request) (s : Server) → fails_late r ≡ false → Keeps s (handle env r s)
unfolding handle set_scope set_depth set_test_strategy set_execution_mode run_construction
handle-Keeps env (run_stage_request id body) s h = run_stage-Keeps env id s body
handle-Keeps env (force_rerun_request id stage) s h = force_rerun_stage-Keeps env id s stage
handle-Keeps env (resume_request id stage alive) s h = resume_stage-Keeps env id s stage alive
handle-Keeps env (run_bolt_request id number) s h = run_bolt-Keeps env id s number
handle-Keeps env (construction_request id) s h =
    if-has (Keeps s) (is_feature_active s id) _ _ (inr refl) (inl refl)
handle-Keeps env (approve_request id stage) s h = absurd (cc h)
handle-Keeps env (accept_request id stage) s h = absurd (cc h)
handle-Keeps env (reject_request id stage body) s h = reject_stage-Keeps env id s stage body
handle-Keeps env (jump_request id body) s h = jump_to_stage-Keeps env id s body
handle-Keeps env (add_skipped_request id stage) s h = add_skipped_stage-Keeps env id s stage
handle-Keeps env (prepare_request id is_space units dag) s h = absurd (cc h)
handle-Keeps env (scope_request id none) s h = inr refl
handle-Keeps env (scope_request id (some scope)) s h =
    if-has (Keeps s) (not (is_valid_scope scope)) _ _ (inr refl)
      (change_setting-Keeps env id s _ _ _)
handle-Keeps env (depth_request id none) s h = inr refl
handle-Keeps env (depth_request id (some depth)) s h = change_setting-Keeps env id s _ _ _
handle-Keeps env (test_strategy_request id none) s h = inr refl
handle-Keeps env (test_strategy_request id (some strategy)) s h =
    change_setting-Keeps env id s _ _ _
handle-Keeps env (ladder_request id body) s h = set_ladder_mode-Keeps env id s body
handle-Keeps env (execution_mode_request id none) s h = inr refl
handle-Keeps env (execution_mode_request id (some mode)) s h =
    if-has (Keeps s) (not (is_mode mode)) _ _ (inr refl)
      (then_advance-Keeps env id s mode _ (change_setting-Keeps env id s _ _ _))
