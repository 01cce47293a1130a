-- ===== src/Api/Doubled.antt =====
-- internal/api/stage_handlers.go: what forceRerunStage does to a feature that is worked on.
use devteam.Prelude.{
  List, String, ap, beq_refl, elem, false, keep, not, refl, some, true, ◌+◌, ◌≡◌, ◌∙◌, ◌==◌, nat_eq,
  string_eq, text_eq,
}
use devteam.Feature.Types.{Feature}
use devteam.Pipeline.System.{System, Env, get_feature}
use devteam.Api.Server.{
  Server, answer, is_feature_active, mark_feature_active, unmark_feature_active, spawn, with_sys,
  advance,
}
use devteam.Api.Running.{dispatch, forced, force_rerun_stage}
use devteam.Api.Workers.{Job, finish}
use devteam.Api.Exclusive.{holders, IsExclusive, elem-unmark}

rerun : String → System → Server → Server
rerun id sys s = dispatch id advance (unmark_feature_active id (with_sys sys s))

force_rerun_stage-rerun :
    (env : Env) (id stage : String) (f : Feature) (s : Server)
    → get_feature s.sys id ≡ some f
    → force_rerun_stage env id stage s
      ≡ (rerun id (forced env id stage f s.sys) s, answer 202 "force_rerun")
unfolding force_rerun_stage rerun
force_rerun_stage-rerun env id stage f s there = rw (force_rerun_stage, there) refl

rerun-doubles :
    (env : Env) (job : Job) (id : String) (sys : System) (s : Server)
    → holders id s.workers ≡ 1
    → let s' = rerun id sys s in
      (holders id s'.workers ≡ 2)
      × (is_feature_active s' id ≡ true)
      × (is_feature_active (finish env job 0 s') id ≡ false)
      × (holders id (finish env job 0 s').workers ≡ 1)
unfolding rerun dispatch mark_feature_active unmark_feature_active spawn finish is_feature_active
    holders
rerun-doubles env job id sys s one =
    let unmarked : (keys : List String) → elem id (keep (λ a. not (a == id)) keys) ≡ false =
      λ keys. elem-unmark id id keys ∙ rw (beq_refl id) refl in
    rw (unmarked, beq_refl id) (ap (λ n. 1 + n) one, refl, unmarked _, one)

-- A forced run of a stage, of a feature that is there and is worked on, in a state in which every
-- marked feature has just one goroutine and no other has any: the request is accepted and the
-- feature then has two goroutines; when the new one ends, the feature is no longer marked although
-- the old one goes on.
pub force_rerun_stage-doubles :
    (env : Env) (job : Job) (id stage : String) (f : Feature) (s : Server)
    → IsExclusive s
    → get_feature s.sys id ≡ some f
    → is_feature_active s id ≡ true
    → let (s', r) = force_rerun_stage env id stage s in
      (r.status ≡ 202)
      × (holders id s'.workers ≡ 2)
      × (is_feature_active s' id ≡ true)
      × (is_feature_active (finish env job 0 s') id ≡ false)
      × (holders id (finish env job 0 s').workers ≡ 1)
force_rerun_stage-doubles env job id stage f s h there busy =
    let one : holders id s.workers ≡ 1 = h id ∙ rw busy refl in
    let (two, marked, unmarked, left) =
      rerun-doubles env job id (forced env id stage f s.sys) s one in
    rw (force_rerun_stage-rerun env id stage f s there) (refl, two, marked, unmarked, left)
