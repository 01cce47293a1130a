-- ===== src/Pipeline/Signals.antt =====
-- internal/api/agent_handlers.go: the outcomes that a signal leaves alone. A signal is stored under
-- the phase of its feature.
use devteam.Prelude.{
  Bool, Bool-cases, List, Option, String, [], ap, arith, elem, false, inl, inr, keep, none, not,
  refl, some, true, ℕ, ◌≡◌, ◌∙◌, ◌||◌, ◌∷◌, ◌++◌, ◌==◌, nat_eq, string_eq, text_eq,
}
use devteam.Stage.Status.{all_phases}
use devteam.Feature.Types.{Feature}
use devteam.Feature.Phase.{IsPhasePair, current_phase-IsPhasePair}
use devteam.Db.Types.{Database}
use devteam.Db.Events.{of_phase, latest, save_outcome, get_latest_outcome}
use devteam.Pipeline.System.{System, broadcast, call, get_feature}
use devteam.Pipeline.Agent.{
  Visit, Attempt, signals_of, post_signals, dispatch_streaming, dispatch_attempts,
}
use devteam.Pipeline.Attempts.{dispatch_attempts-keeps}
use devteam.Api.Signal.{
  SignalRequest, ensure_feature, parse_outcome, phase_of, store_signal, ask_human_proxy,
  record_signal, handle_signal,
}

-- A text under which no signal is stored.
abbrev pub is_unsignalled : String → Bool
is_unsignalled p = not (elem p ("" ∷ all_phases))

-- One of the phases, by its tests.
phase-test :
    (phase old p : String)
    → IsPhasePair phase old
    → elem p all_phases ≡ false
    → (phase == p) ≡ false
phase-test phase old p (inl h) e = rw (h.0) (ground arith)
phase-test phase old p (inr (inl h)) e = rw (h.0) (ground arith)
phase-test phase old p (inr (inr (inl h))) e = rw (h.0) (ground arith)
phase-test phase old p (inr (inr (inr (inl h)))) e = rw (h.0) (ground arith)
phase-test phase old p (inr (inr (inr (inr h)))) e = rw (h.0) (ground arith)

phase_of-test :
    (f : Option Feature) (p : String) → is_unsignalled p ≡ true → (phase_of f == p) ≡ false
phase_of-test none p e = ground arith
phase_of-test (some f) p e = phase-test _ _ p (current_phase-IsPhasePair f) (ground arith)

keep-behind :
    {A : Type 0} (p : A → Bool) (xs : List A) (x : A)
    → p x ≡ false
    → keep p (xs ++ x ∷ []) ≡ keep p xs
keep-behind p [] x e = rw e
keep-behind p (y ∷ ys) x e = ground (arith, keep-behind p ys x e)

save_outcome-latest :
    (db : Database) (now : ℕ) (id phase o t n g p : String)
    → (phase == p) ≡ false
    → get_latest_outcome (save_outcome db now id phase o t n).0 g p ≡ get_latest_outcome db g p
unfolding save_outcome get_latest_outcome
save_outcome-latest db now id phase o t n g p e = elim (Bool-cases db.up) [
  | inr down ↦ rw down
  | inl up ↦ rw up (ap latest (keep-behind (of_phase g p) db.outcomes _ (ground arith)))
]

-- The outcomes of the key are those of the first system.
abbrev pub HasOutcomesOf : String → String → System → System → Type 0
HasOutcomesOf g p a b = get_latest_outcome b.db g p ≡ get_latest_outcome a.db g p

ensured_outcomes :
    (now : ℕ) (id : String) (db : Database) (g p : String)
    → get_latest_outcome (ensure_feature id db) g p ≡ get_latest_outcome db g p
unfolding ensure_feature get_latest_outcome
ensured_outcomes now id db g p = ground arith

store_signal-HasOutcomesOf :
    (now : ℕ) (id : String) (req : SignalRequest) (sys : System) (g p : String)
    → is_unsignalled p ≡ true
    → HasOutcomesOf g p sys (store_signal now id req sys)
unfolding store_signal
store_signal-HasOutcomesOf now id req sys g p e =
    let ensured : System = record sys { db = ensure_feature id sys.db } in
    let same : HasOutcomesOf g p sys ensured = ensured_outcomes now id sys.db g p in
    save_outcome-latest ensured.db now id (phase_of (get_feature ensured id)) (parse_outcome req).0
      (parse_outcome req).1 req.notes g p (phase_of-test (get_feature ensured id) p e)
    ∙ same

ask_human_proxy-HasOutcomesOf :
    (id : String) (f : Option Feature) (sys : System) (g p : String)
    → HasOutcomesOf g p sys (ask_human_proxy id f sys)
unfolding ask_human_proxy
ask_human_proxy-HasOutcomesOf id none sys g p = refl
ask_human_proxy-HasOutcomesOf id (some f) sys g p = ground arith

handle_signal-HasOutcomesOf :
    (now : ℕ) (id : String) (req : SignalRequest) (sys : System) (g p : String)
    → is_unsignalled p ≡ true
    → HasOutcomesOf g p sys (handle_signal now id (some req) sys).0
unfolding handle_signal record_signal
handle_signal-HasOutcomesOf now id req sys g p e =
    let told = call (broadcast id "outcome_signal" "" 0) (store_signal now id req sys) in
    let h = store_signal-HasOutcomesOf now id req sys g p e in
    let k = ask_human_proxy-HasOutcomesOf id (get_feature told id) told g p in
    elim (Bool-cases (id == "" || req.outcome == "")) [
      | inl bad ↦ rw bad
      | inr good ↦ elim (Bool-cases (req.outcome == "needs_feedback")) [
        | inl asks ↦ rw (good, asks) (k ∙ h)
        | inr other ↦ rw (good, other) h
      ]
    ]

post_signals-HasOutcomesOf :
    (now : ℕ) (f : String) (reqs : List SignalRequest) (sys : System) (g p : String)
    → is_unsignalled p ≡ true
    → HasOutcomesOf g p sys (post_signals now f reqs sys)
unfolding post_signals
post_signals-HasOutcomesOf now f [] sys g p e = refl
post_signals-HasOutcomesOf now f (req ∷ reqs) sys g p e =
    post_signals-HasOutcomesOf now f reqs (handle_signal now f (some req) sys).0 g p e
    ∙ handle_signal-HasOutcomesOf now f req sys g p e

-- An agent's dispatch leaves no outcome under a text that is no phase.
pub dispatch_streaming-HasOutcomesOf :
    (now : ℕ) (f stage role : String) (a : Attempt) (sys : System) (g p : String)
    → is_unsignalled p ≡ true
    → HasOutcomesOf g p sys (dispatch_streaming now f stage role a sys)
unfolding dispatch_streaming
dispatch_streaming-HasOutcomesOf now f stage role a sys g p e =
    post_signals-HasOutcomesOf now f (signals_of a) _ g p e

pub dispatch_attempts-HasOutcomesOf :
    (now : ℕ) (visit : Visit) (f stage role : String) (left attempt : ℕ) (sys : System)
    (g p : String)
    → is_unsignalled p ≡ true
    → HasOutcomesOf g p sys (dispatch_attempts now visit f stage role left attempt sys).0
dispatch_attempts-HasOutcomesOf now visit f stage role left attempt sys g p e =
    dispatch_attempts-keeps (HasOutcomesOf g p sys) now visit f stage role
      (λ a s h. dispatch_streaming-HasOutcomesOf now f stage role a s g p e ∙ h) left attempt sys
      refl
