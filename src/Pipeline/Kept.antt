-- ===== src/Pipeline/Kept.antt =====
-- internal/pipeline/stage_runner.go and internal/api/agent_handlers.go: what leaves the rows of
-- feature_stages alone.
use devteam.Prelude.{
  Bool-cases, List, Option, Option-cases, String, [], arith, inl, inr, none, refl, some, ℕ, ◌≡◌,
  ◌∙◌, ◌||◌, ◌∷◌, ◌==◌, nat_eq, string_eq, text_eq,
}
use devteam.Feature.Types.{Feature}
use devteam.Db.Types.{StageDefinition, Database}
use devteam.Db.Stages.{get_feature_stage_for_bolt, get_feature_stage}
use devteam.Db.Events.{record_audit_event, save_outcome}
use devteam.Db.Features.{save_feature_state, update_feature_status}
use devteam.Pipeline.System.{
  broadcast, System, Call, call, audit, get_feature_stage_row, save_feature_state_row, get_feature,
}
use devteam.Pipeline.Review.{ReviewerResult}
use devteam.Pipeline.Agent.{
  Visit, Attempt, signals_of, post_signals, dispatch_streaming, dispatch_attempts,
}
use devteam.Pipeline.Checks.{review_stage, dispatch_reviewer, record_review}
use devteam.Pipeline.Run.{ensure_spec_worktree}
use devteam.Pipeline.Attempts.{dispatch_attempts-keeps}
use devteam.Api.Signal.{
  SignalRequest, ensure_feature, parse_outcome, store_signal, ask_human_proxy, record_signal,
  handle_signal,
}

-- The second system has the rows of the first.
abbrev pub HasRowsOf : System → System → Type 0
HasRowsOf a b = (b.db.up ≡ a.db.up) × (b.db.feature_stages ≡ a.db.feature_stages)

pub get_row-HasRowsOf :
    (a b : System) (f s : String) (n : ℕ)
    → HasRowsOf a b
    → get_feature_stage_row b f s n ≡ get_feature_stage_row a f s n
unfolding get_feature_stage_row get_feature_stage_for_bolt get_feature_stage
get_row-HasRowsOf a b f s n h = rw (h.0, h.1)

call-HasRowsOf : (c : Call) (sys : System) → HasRowsOf sys (call c sys)
call-HasRowsOf c sys = (refl, refl)

ensure_feature-rows :
    (now : ℕ) (id : String) (db : Database)
    → ((ensure_feature id db).up ≡ db.up)
      × ((ensure_feature id db).feature_stages ≡ db.feature_stages)
unfolding ensure_feature
ensure_feature-rows now id db = ground arith

save_outcome-rows :
    (db : Database) (now : ℕ) (f p o t n : String)
    → ((save_outcome db now f p o t n).0.up ≡ db.up)
      × ((save_outcome db now f p o t n).0.feature_stages ≡ db.feature_stages)
unfolding save_outcome
save_outcome-rows db now f p o t n = ground arith

store_signal-HasRowsOf :
    (now : ℕ) (id : String) (req : SignalRequest) (sys : System)
    → HasRowsOf sys (store_signal now id req sys)
unfolding store_signal
store_signal-HasRowsOf now id req sys =
    let h = ensure_feature-rows now id sys.db in
    let k =
      save_outcome-rows (ensure_feature id sys.db) now id _ (parse_outcome req).0
        (parse_outcome req).1 req.notes in
    (k.0 ∙ h.0, k.1 ∙ h.1)

ask_human_proxy-HasRowsOf :
    (id : String) (f : Option Feature) (sys : System) → HasRowsOf sys (ask_human_proxy id f sys)
unfolding ask_human_proxy
ask_human_proxy-HasRowsOf id none sys = (refl, refl)
ask_human_proxy-HasRowsOf id (some f) sys = ground arith

record_signal-HasRowsOf :
    (now : ℕ) (id : String) (req : SignalRequest) (sys : System)
    → HasRowsOf sys (record_signal now id req sys)
unfolding record_signal
record_signal-HasRowsOf now id req sys =
    let h = store_signal-HasRowsOf now id req sys in
    let told = call (broadcast id "outcome_signal" "" 0) (store_signal now id req sys) in
    let k = ask_human_proxy-HasRowsOf id (get_feature told id) told in
    elim (Bool-cases (req.outcome == "needs_feedback")) [
      | inl e ↦ rw e (k.0 ∙ h.0, k.1 ∙ h.1)
      | inr e ↦ rw e h
    ]

handle_signal-HasRowsOf :
    (now : ℕ) (id : String) (req : Option SignalRequest) (sys : System)
    → HasRowsOf sys (handle_signal now id req sys).0
unfolding handle_signal
handle_signal-HasRowsOf now id none sys = (refl, refl)
handle_signal-HasRowsOf now id (some req) sys =
    let h = record_signal-HasRowsOf now id req sys in
    elim (Bool-cases (id == "" || req.outcome == "")) [ inl e ↦ rw e (refl, refl) | inr e ↦ rw e h ]

post_signals-HasRowsOf :
    (now : ℕ) (f : String) (reqs : List SignalRequest) (sys : System)
    → HasRowsOf sys (post_signals now f reqs sys)
unfolding post_signals
post_signals-HasRowsOf now f [] sys = (refl, refl)
post_signals-HasRowsOf now f (req ∷ reqs) sys =
    let next = (handle_signal now f (some req) sys).0 in
    let h = handle_signal-HasRowsOf now f (some req) sys in
    let k = post_signals-HasRowsOf now f reqs next in (k.0 ∙ h.0, k.1 ∙ h.1)

pub dispatch_streaming-HasRowsOf :
    (now : ℕ) (f stage role : String) (a : Attempt) (sys : System)
    → HasRowsOf sys (dispatch_streaming now f stage role a sys)
unfolding dispatch_streaming
dispatch_streaming-HasRowsOf now f stage role a sys =
    post_signals-HasRowsOf now f (signals_of a) (call _ sys)

pub dispatch_attempts-HasRowsOf :
    (now : ℕ) (visit : Visit) (f stage role : String) (left attempt : ℕ) (sys : System)
    → HasRowsOf sys (dispatch_attempts now visit f stage role left attempt sys).0
dispatch_attempts-HasRowsOf now visit f stage role left attempt sys =
    dispatch_attempts-keeps (HasRowsOf sys) now visit f stage role
      (λ a s h. let k = dispatch_streaming-HasRowsOf now f stage role a s in (k.0 ∙ h.0, k.1 ∙ h.1))
      left attempt sys (refl, refl)

pub dispatch_reviewer-HasRowsOf :
    (now : ℕ) (visit : Visit) (f : Feature) (def : StageDefinition) (sys : System)
    → HasRowsOf sys (dispatch_reviewer now visit f def sys).0
unfolding dispatch_reviewer
dispatch_reviewer-HasRowsOf now visit f def sys =
    let h =
      dispatch_streaming-HasRowsOf now f.id (review_stage def.id) def.reviewer visit.review sys in
    elim (Option-cases visit.reviewer_role_error) [
      | inr (e, broken) ↦ rw broken (refl, refl)
      | inl fine ↦ rw fine h
    ]

pub record_review-HasRowsOf :
    (f : Feature) (def : StageDefinition) (rv : Option ReviewerResult) (sys : System)
    → HasRowsOf sys (record_review f def rv sys)
unfolding record_review audit record_audit_event
record_review-HasRowsOf f def none sys = (refl, refl)
record_review-HasRowsOf f def (some r) sys = ground arith

pub ensure_spec_worktree-HasRowsOf :
    (dir : Option String) (f : Feature) (sys : System)
    → HasRowsOf sys (ensure_spec_worktree dir f sys).0
unfolding ensure_spec_worktree save_feature_state_row save_feature_state update_feature_status
ensure_spec_worktree-HasRowsOf none f sys = (refl, refl)
ensure_spec_worktree-HasRowsOf (some dir) f sys = ground arith
