-- ===== src/Pipeline/Counted.antt =====
-- internal/pipeline/stage_runner.go: how many agents one dispatch of RunStage starts.
use devteam.Prelude.{
  Bool, Bool-cases, List, Option, Option-cases, String, [], arith, false, inl, inr, keep, length,
  none, refl, some, suc, true, zero, ℕ, ◌+◌, ◌≤◌, ◌≡◌, ◌∙◌, ◌||◌, ◌∷◌, ◌++◌, ◌==◌, if◌then◌else◌,
  nat_eq, string_eq, text_eq,
}
use devteam.Stage.Status.{Status}
use devteam.Feature.Types.{Feature}
use devteam.Db.Types.{StageDefinition}
use devteam.Pipeline.System.{
  System, Call, dispatch_agent, call, audit, update_feature_stage_row, broadcast, get_feature,
}
use devteam.Pipeline.Review.{ReviewerResult}
use devteam.Pipeline.Agent.{
  Visit, Attempt, signals_of, post_signals, dispatch_streaming, dispatch_attempts,
}
use devteam.Pipeline.Attempts.{after_attempt-keeps}
use devteam.Pipeline.Checks.{review_stage, dispatch_reviewer, record_review}
use devteam.Pipeline.Close.{when}
use devteam.Api.Signal.{SignalRequest, store_signal, ask_human_proxy, record_signal, handle_signal}

abbrev is_dispatch : Call → Bool
is_dispatch (dispatch_agent f stage role) = true
is_dispatch _ = false

-- The dispatches of agents among the calls.
unfoldable pub dispatches : List Call → ℕ
dispatches calls = length (keep is_dispatch calls)

pub dispatches-behind :
    (calls : List Call) (c : Call)
    → dispatches (calls ++ c ∷ []) ≡ dispatches calls + (if is_dispatch c then 1 else 0)
unfolding dispatches
dispatches-behind [] c = ground arith
dispatches-behind (d ∷ calls) c = ground (arith, dispatches-behind calls c)

pub add_none : (n : ℕ) → n + 0 ≡ n
add_none n = omega arith

pub calls-update :
    (f s : String) (b : ℕ) (st : Status) (n : ℕ) (sa ca : Option ℕ) (sys : System)
    → (update_feature_stage_row f s b st n sa ca sys).calls ≡ sys.calls
unfolding update_feature_stage_row
calls-update f s b st n sa ca sys = ground arith

pub ruleset counted = (dispatches-behind, calls-update, add_none)

pub dispatches-when :
    (b : Bool) (step : System → System) (sys : System)
    → dispatches (step sys).calls ≡ dispatches sys.calls
    → dispatches (when b step sys).calls ≡ dispatches sys.calls
dispatches-when true step sys e = e
dispatches-when false step sys e = refl

dispatches-ask_human_proxy :
    (id : String) (f : Option Feature) (sys : System)
    → dispatches (ask_human_proxy id f sys).calls ≡ dispatches sys.calls
unfolding ask_human_proxy
dispatches-ask_human_proxy id none sys = refl
dispatches-ask_human_proxy id (some f) sys =
    elim (Bool-cases (f.execution_mode == "autonomous" || f.execution_mode == "guided")) [
      | inl e ↦ rw e (simp counted)
      | inr e ↦ rw e
    ]

dispatches-handle_signal :
    (now : ℕ) (id : String) (req : SignalRequest) (sys : System)
    → dispatches (handle_signal now id (some req) sys).0.calls ≡ dispatches sys.calls
unfolding handle_signal record_signal store_signal
dispatches-handle_signal now id req sys =
    let told = call (broadcast id "outcome_signal" "" 0) (store_signal now id req sys) in
    let h : dispatches told.calls ≡ dispatches sys.calls = simp counted in
    elim (Bool-cases (id == "" || req.outcome == "")) [
      | inl bad ↦ rw bad
      | inr good ↦ elim (Bool-cases (req.outcome == "needs_feedback")) [
        | inl asks ↦ rw (good, asks) (dispatches-ask_human_proxy id (get_feature told id) told ∙ h)
        | inr other ↦ rw (good, other) h
      ]
    ]

dispatches-post_signals :
    (now : ℕ) (f : String) (reqs : List SignalRequest) (sys : System)
    → dispatches (post_signals now f reqs sys).calls ≡ dispatches sys.calls
unfolding post_signals
dispatches-post_signals now f [] sys = refl
dispatches-post_signals now f (req ∷ reqs) sys =
    dispatches-post_signals now f reqs (handle_signal now f (some req) sys).0
    ∙ dispatches-handle_signal now f req sys

dispatches-dispatch_streaming :
    (now : ℕ) (f stage role : String) (a : Attempt) (sys : System)
    → dispatches (dispatch_streaming now f stage role a sys).calls ≡ dispatches sys.calls + 1
unfolding dispatch_streaming
dispatches-dispatch_streaming now f stage role a sys =
    dispatches-post_signals now f (signals_of a) (call (dispatch_agent f stage role) sys)
    ∙ dispatches-behind sys.calls (dispatch_agent f stage role)

-- From `attempt` on, with `left` retries.
pub dispatches-dispatch_attempts :
    (now : ℕ) (visit : Visit) (f stage role : String) (left attempt : ℕ) (sys : System)
    → dispatches (dispatch_attempts now visit f stage role left attempt sys).0.calls
      ≤ dispatches sys.calls + suc left
unfolding dispatch_attempts
dispatches-dispatch_attempts now visit f stage role zero attempt sys =
    let bounded : System → Type 0 = λ s. dispatches s.calls ≤ dispatches sys.calls + 1 in
    let once = dispatches-dispatch_streaming now f stage role (visit.attempt attempt) sys in
    after_attempt-keeps bounded (visit.attempt attempt) _ _ (omega (arith, once))
      (λ err. omega (arith, once))
dispatches-dispatch_attempts now visit f stage role (suc left) attempt sys =
    let bounded : System → Type 0 =
      λ s. dispatches s.calls ≤ dispatches sys.calls + suc (suc left) in
    let once = dispatches-dispatch_streaming now f stage role (visit.attempt attempt) sys in
    let after = dispatch_streaming now f stage role (visit.attempt attempt) sys in
    let more = dispatches-dispatch_attempts now visit f stage role left (suc attempt) after in
    after_attempt-keeps bounded (visit.attempt attempt) after _ (omega (arith, once)) (λ err.
      elim (Bool-cases visit.cancelled) [
        | inl e ↦ rw e (omega (arith, once))
        | inr e ↦ rw e (omega (arith, once, more))
      ])

pub dispatches-dispatch_reviewer :
    (now : ℕ) (visit : Visit) (f : Feature) (def : StageDefinition) (sys : System)
    → dispatches (dispatch_reviewer now visit f def sys).0.calls ≤ dispatches sys.calls + 1
unfolding dispatch_reviewer
dispatches-dispatch_reviewer now visit f def sys =
    let once =
      dispatches-dispatch_streaming now f.id (review_stage def.id) def.reviewer visit.review sys in
    elim (Option-cases visit.reviewer_role_error) [
      | inr (e, broken) ↦ rw broken (omega arith)
      | inl fine ↦ rw fine (omega (arith, once))
    ]

pub dispatches-record_review :
    (f : Feature) (def : StageDefinition) (rv : Option ReviewerResult) (sys : System)
    → dispatches (record_review f def rv sys).calls ≡ dispatches sys.calls
unfolding record_review audit
dispatches-record_review f def none sys = refl
dispatches-record_review f def (some r) sys = simp counted
