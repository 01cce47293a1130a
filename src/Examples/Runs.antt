-- ===== src/Examples/Runs.antt =====
-- Running stages on the sample board: the agent's first dispatch times out, and on the second the
-- agent signals that it has failed.
use devteam.Prelude.{[], codes, false, none, refl, some, suc, true, zero, ℕ, ◌+◌, ◌≤◌, ◌≡◌, ◌∷◌}
use devteam.Stage.Status.{not_started}
use devteam.Db.Stages.{get_feature_stage, is_per_bolt_stage}
use devteam.Db.Events.{get_latest_outcome}
use devteam.Pipeline.System.{get_feature_stage_row}
use devteam.Pipeline.Review.{RoleResult}
use devteam.Pipeline.Agent.{Attempt, Visit, answered, broke, is_quota_exhaustion}
use devteam.Pipeline.Checks.{review_stage}
use devteam.Pipeline.Run.{bolt_for, run_stage}
use devteam.Pipeline.Left.{row_left, run_stage-row}
use devteam.Pipeline.Unheard.{run_stage-IsUnheard}
use devteam.Pipeline.Judged.{IsUnheard}
use devteam.Pipeline.Counted.{dispatches}
use devteam.Pipeline.Dispatches.{dispatches-run_stage}
use devteam.Api.Signal.{SignalRequest}
use devteam.Examples.Data.{login, row, start, clock}

abbrev stuck_signal : SignalRequest
stuck_signal = record { outcome = "failed"; target = ""; notes = "blocked" }

abbrev fine : RoleResult
fine = record { output = "done"; error = ""; success = true }

abbrev attempts : ℕ → Attempt
attempts zero = broke [] "timeout" none
attempts (suc n) = answered (stuck_signal ∷ []) fine

abbrev busy_day : Visit
busy_day = record {
  worktree = some "/w";
  role_error = none;
  attempt = attempts;
  cancelled = false;
  unchanged_impl_files = [];
  reviewer_role_error = none;
  review = answered [] fine;
}

third_row-read :
    get_feature_stage_row start login.id "1.3" (bolt_for login "1.3")
    ≡ some (row "1.3" 0 not_started 0)
unfolding get_feature_stage_row get_feature_stage is_per_bolt_stage
third_row-read = refl

run_stage-row_example :
    let (after, f', run) = run_stage clock busy_day login "1.3" start in
    get_feature_stage_row after login.id "1.3" (bolt_for login "1.3")
    ≡ some (row_left clock run (row "1.3" 0 not_started 0))
run_stage-row_example =
    run_stage-row clock busy_day login "1.3" start (row "1.3" 0 not_started 0) third_row-read

no_review : get_latest_outcome start.db login.id (review_stage "1.3") ≡ none
unfolding get_latest_outcome
no_review = refl

run_stage-IsUnheard_example : IsUnheard login "1.3" (run_stage clock busy_day login "1.3" start).2
run_stage-IsUnheard_example =
    run_stage-IsUnheard clock busy_day login "1.3" start refl refl no_review

dispatches-run_stage_example :
    dispatches (run_stage clock busy_day login "1.3" start).0.calls ≤ dispatches start.calls + 3
dispatches-run_stage_example = dispatches-run_stage clock busy_day login "1.3" start

-- A test: a spent quota is noticed in any case of letters.
quota_noticed : is_quota_exhaustion (codes "HTTP 402: Insufficient Balance") ≡ true
unfolding is_quota_exhaustion
quota_noticed = refl
