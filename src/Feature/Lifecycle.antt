-- ===== src/Feature/Lifecycle.antt =====
-- internal/feature/feature.go and question.go: the changes of a feature's status.
use devteam.Prelude.{
  Bool, Bool-cases, Option, String, [], arith, false, inl, inr, none, not, some, true, ℕ, ◌≡◌, ◌⊎◌,
  ◌&&◌, ◌||◌, ◌==◌, if◌then◌else◌, nat_eq, string_eq, text_eq,
}
use devteam.Stage.Status.{phase_ideation, phase_inception}
use devteam.Feature.Types.{
  Feature, Status, IntakePath, feature_status_eq, draft, in_progress, done, cancelled,
  waiting_feedback,
}
use devteam.Feature.Phase.{current_phase}

pub data FeatureError : Type 0 where
  terminal : Status → FeatureError
  not_waiting : Status → FeatureError

-- NewFeature without its directory, which is the text "specs/<id>/".
unfoldable pub new_feature : ℕ → String → String → ℕ → IntakePath → String → Feature
new_feature now id title priority intake_path spec_dir = record {
  id = id;
  title = title;
  status = draft;
  priority = priority;
  intake_path = intake_path;
  spec_dir = spec_dir;
  worktree_dir = "";
  created_at = now;
  updated_at = now;
  dependencies = [];
  repos = [];
  prepared_repos = [];
  scope = "feature";
  depth = "standard";
  test_strategy = "standard";
  execution_mode = "";
  autonomy_mode = "";
  current_stage = "";
  current_bolt = 0;
}

unfoldable pub cancel : ℕ → Feature → Feature
cancel now f = record f { status = cancelled; updated_at = now }

unfoldable pub mark_done : ℕ → Feature → Feature
mark_done now f = record f { status = done; updated_at = now }

unfoldable pub is_terminal : Feature → Bool
is_terminal f = f.status == done || f.status == cancelled

unfoldable pub wait_for_human : ℕ → Feature → Feature × Option FeatureError
wait_for_human now f = (record f { status = waiting_feedback; updated_at = now }, none)

unfoldable pub wait_for_feedback : ℕ → Feature → Feature × Option FeatureError
wait_for_feedback now f =
    if f.status == done || f.status == cancelled
    then (f, some (terminal f.status))
    else (record f { status = waiting_feedback; updated_at = now }, none)

unfoldable pub resume_from_feedback : ℕ → Feature → Feature × Option FeatureError
resume_from_feedback now f =
    if not (f.status == waiting_feedback)
    then (f, some (not_waiting f.status))
    else (record f { status = in_progress; updated_at = now }, none)

unfoldable pub should_pause_for_human : Feature → ℕ → Bool
should_pause_for_human f timeout_minutes =
    if timeout_minutes == 0
    then false
    else (let phase = current_phase f in
        if not (phase == phase_ideation) && not (phase == phase_inception)
        then false
        else if not (f.status == in_progress)
        then false
        else true)

unfoldable pub can_transition_to_waiting_feedback : Feature → Bool
can_transition_to_waiting_feedback f =
    if not (f.status == in_progress)
    then false
    else (let phase = current_phase f in
        if not (phase == phase_ideation) && not (phase == phase_inception) then false else true)

-- A pause for a human is due exactly when the timeout is not 0 and the feature can wait for
-- feedback.
pub should_pause-can_transition :
    (f : Feature) (timeout : ℕ)
    → should_pause_for_human f timeout
      ≡ (not (timeout == 0) && can_transition_to_waiting_feedback f)
unfolding should_pause_for_human can_transition_to_waiting_feedback
should_pause-can_transition f timeout = ground arith

-- WaitForFeedback refuses exactly the terminal features and leaves them as they are; any other
-- feature waits afterwards, ResumeFromFeedback then succeeds, puts it in progress and restores it
-- but for the status and the time of the change.
pub wait-resume :
    (now later : ℕ) (f : Feature)
    → ((is_terminal f ≡ true) × (wait_for_feedback now f ≡ (f, some (terminal f.status))))
      ⊎ ((is_terminal f ≡ false)
          × ((wait_for_feedback now f).1 ≡ none)
          × ((wait_for_feedback now f).0.status ≡ waiting_feedback)
          × (resume_from_feedback later (wait_for_feedback now f).0
              ≡ (record f { status = in_progress; updated_at = later }, none)))
unfolding is_terminal wait_for_feedback resume_from_feedback
wait-resume now later f = elim (Bool-cases (f.status == done || f.status == cancelled)) [
  | inl t ↦ inl (t, rw t)
  | inr o ↦ inr (o, rw o, rw o, rw o)
]
