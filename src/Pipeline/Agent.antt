-- ===== src/Pipeline/Agent.antt =====
-- internal/pipeline/stage_runner.go: the dispatch of an agent, with its one retry.
-- What the world does while a stage runs is given beforehand, in a record: which signals the agents
-- post, how each dispatch ends, and what the files and the role definitions answer.
use devteam.Prelude.{
  Bool, List, Option, String, Text, [], any, codes, contains, leb, none, not, some, suc, zero, ℕ,
  ◌+◌, ◌&&◌, ◌||◌, ◌∷◌, ◌++◌, ◌==◌, if◌then◌else◌, nat_eq, string_eq, text_eq,
}
use devteam.Pipeline.System.{System, dispatch_agent, call, ◌▷◌}
use devteam.Pipeline.Review.{RoleResult}
use devteam.Api.Signal.{SignalRequest, handle_signal}

-- A dispatch: the signals that the agent posts meanwhile, and the result or the error with the
-- output that came before it, if any.
pub data Attempt : Type 0 where
  answered : List SignalRequest → RoleResult → Attempt
  broke : List SignalRequest → String → Option RoleResult → Attempt

-- What the world does during one call of RunStage. `worktree` is the directory of a worktree that
-- is made for the specification; an error is the text of a failure.
pub record Visit : Type 0 where
  pub worktree : Option String
  pub role_error : Option String
  pub attempt : ℕ → Attempt
  pub cancelled : Bool
  pub unchanged_impl_files : List String
  pub reviewer_role_error : Option String
  pub review : Attempt

-- strings.ToLower, as far as it makes letters of ASCII: of the other capitals only these two are
-- lowered to such a letter.
abbrev pub lower : Text → Text
lower [] = []
lower (c ∷ s) =
    let low =
      if leb b'A' c && leb c b'Z'
      then c + 32
      else if c == 304
      then b'i'
      else if c == 8490
      then b'k'
      else c in
    low ∷ lower s

abbrev pub quota_markers : List Text
quota_markers =
    codes "429"
    ∷ codes "rate limit"
    ∷ codes "rate_limit"
    ∷ codes "quota"
    ∷ codes "insufficient"
    ∷ codes "balance"
    ∷ codes "payment"
    ∷ codes "credit"
    ∷ codes "billing"
    ∷ codes "too many requests"
    ∷ codes "exceeded your current quota"
    ∷ codes "plan limits"
    ∷ codes "usage limit"
    ∷ codes "spending limit"
    ∷ []

unfoldable pub is_quota_exhaustion : Text → Bool
is_quota_exhaustion s = any (contains (lower s)) quota_markers

-- The error with the output of the dispatch behind it.
abbrev pub combined_output : String → Option RoleResult → Text
combined_output err none = codes err
combined_output err (some rr) = codes err ++ (b' ' ∷ codes rr.output)

unfoldable pub is_blip : Text → Bool
is_blip s =
    contains s (codes "timeout")
    || contains s (codes "EOF")
    || contains s (codes "connection refused")
    || contains s (codes "temporarily unavailable")

unfoldable pub post_signals : ℕ → String → List SignalRequest → System → System
unfolding handle_signal
post_signals now f [] sys = sys
post_signals now f (req ∷ reqs) sys = post_signals now f reqs (handle_signal now f (some req) sys).0

abbrev pub signals_of : Attempt → List SignalRequest
signals_of (answered reqs rr) = reqs
signals_of (broke reqs err rr) = reqs

-- DispatchStreaming, as the pipeline's state sees it.
unfoldable pub dispatch_streaming : ℕ → String → String → String → Attempt → System → System
unfolding post_signals
dispatch_streaming now f stage role attempt sys =
    sys ▷ call (dispatch_agent f stage role) ▷ post_signals now f (signals_of attempt)

-- How the dispatch of the lead agent ends.
pub data Dispatched : Type 0 where
  finished : RoleResult → Dispatched
  quota_hit : String → Dispatched
  stopped : Dispatched
  given_up : String → Dispatched

abbrev pub max_retries : ℕ
max_retries = 1

-- What an attempt leads to; `retry` is what follows a blip.
abbrev pub after_attempt : Attempt → System → (String → System × Dispatched) → System × Dispatched
after_attempt (answered reqs rr) after retry = (after, finished rr)
after_attempt (broke reqs err rr) after retry =
    if is_quota_exhaustion (combined_output err rr)
    then (after, quota_hit err)
    else if not (is_blip (codes err))
    then (after, given_up err)
    else retry err

-- The loop over the attempts; `left` are the retries that are left.
unfoldable pub dispatch_attempts :
    ℕ → Visit → String → String → String → ℕ → ℕ → System → System × Dispatched
unfolding dispatch_streaming is_quota_exhaustion is_blip
dispatch_attempts now visit f stage role zero attempt sys =
    let after = dispatch_streaming now f stage role (visit.attempt attempt) sys in
    after_attempt (visit.attempt attempt) after (λ err. (after, given_up err))
dispatch_attempts now visit f stage role (suc left) attempt sys =
    let after = dispatch_streaming now f stage role (visit.attempt attempt) sys in
    let again = dispatch_attempts now visit f stage role left (suc attempt) after in
    after_attempt (visit.attempt attempt) after
      (λ err. if visit.cancelled then (after, stopped) else again)
