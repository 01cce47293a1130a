-- ===== src/Github/Mergeable.antt =====
-- internal/github/mergeable.go: the polling of GetMergeableState. What GitHub replies to each
-- attempt, the clock and the cancellation are inputs; times are in nanoseconds.
use devteam.Github.Credentials.{Cipher}
use devteam.Github.Tokens.{AuthError, Call, Client, get_token, second}
use devteam.Prelude.{
  Bool, List, Option, String, [], inl, inr, ltb, none, some, suc, zero, ℕ, ◌+◌, ◌*◌, ◌⊎◌, ◌||◌, ◌∷◌,
  ◌==◌, if◌then◌else◌, nat_eq, string_eq, text_eq,
}

pub data MergeableState : Type 0 where
  mergeable : MergeableState
  conflicting : MergeableState
  mergeable_unknown : MergeableState

pub data PollError : Type 0 where
  not_authorised : AuthError → PollError
  request_failed : String → PollError
  exhausted : ℕ → String → PollError
  cancelled_poll : PollError

pub data Reply : Type 0 where
  failed_reply : String → Reply
  state_reply : String → Reply

-- When the polling starts; and for each attempt: the reply, the time at which it is compared to the deadline, and whether the
-- context is done during the sleep.
pub record Weather : Type 0 where
  pub started : ℕ
  pub reply : ℕ → Reply
  pub clock : ℕ → ℕ
  pub cancelled : ℕ → Bool

-- What the method returns, with the requests it sent and the sleeps it began.
pub record Polled : Type 0 where
  pub state : MergeableState
  pub error : Option PollError
  pub requests : ℕ
  pub sleeps : List ℕ

abbrev pub backoff_cap : ℕ
backoff_cap = 5 * second

unfoldable pub verdict : String → Option MergeableState
verdict s =
    if s == "clean" || s == "has_hooks"
    then some mergeable
    else if s == "dirty" || s == "blocked"
    then some conflicting
    else if s == "behind"
    then some conflicting
    else none

abbrev pub ended : MergeableState → Option PollError → Polled
ended state error = record { state = state; error = error; requests = 0; sleeps = [] }

abbrev pub requested : Polled → Polled
requested p = record p { requests = p.requests + 1 }

abbrev pub slept : ℕ → Polled → Polled
slept d p = record p { sleeps = d ∷ p.sleeps }

unfoldable pub next_backoff : ℕ → ℕ
next_backoff backoff =
    if ltb backoff backoff_cap
    then (if ltb backoff_cap (backoff * 2) then backoff_cap else backoff * 2)
    else backoff

-- The state is not decisive: the deadline, then the sleep.
unfoldable pub wait_then : Weather → ℕ → ℕ → ℕ → String → Polled → Polled
wait_then w deadline attempt backoff s rest =
    if ltb deadline (w.clock attempt)
    then ended mergeable_unknown (some (exhausted (attempt + 1) s))
    else slept backoff
        (if w.cancelled attempt then ended mergeable_unknown (some cancelled_poll) else rest)

unfoldable pub after_verdict :
    Weather → ℕ → ℕ → ℕ → String → Option MergeableState → Polled → Polled
after_verdict w deadline attempt backoff s (some v) rest = ended v none
after_verdict w deadline attempt backoff s none rest = wait_then w deadline attempt backoff s rest

unfoldable pub after_reply : Weather → ℕ → ℕ → ℕ → Reply → (String → Polled) → Polled
after_reply w deadline attempt backoff (failed_reply err) rest =
    ended mergeable_unknown (some (request_failed err))
after_reply w deadline attempt backoff (state_reply s) rest =
    after_verdict w deadline attempt backoff s (verdict s) (rest s)

-- The loop; `left` is the number of attempts that are left.
unfoldable pub poll : Weather → ℕ → ℕ → ℕ → ℕ → ℕ → String → Polled
poll w max_retries deadline zero attempt backoff last_seen =
    ended mergeable_unknown (some (exhausted max_retries last_seen))
poll w max_retries deadline (suc left) attempt backoff last_seen = requested (
    after_reply w deadline attempt backoff (w.reply attempt)
      (poll w max_retries deadline left (suc attempt) (next_backoff backoff)))

-- With no token there is no polling.
unfoldable pub poll_with : Weather → ℕ → ℕ → AuthError ⊎ String → Polled
poll_with w max_retries max_duration (inl err) = ended mergeable_unknown (some (not_authorised err))
poll_with w max_retries max_duration (inr token) =
    poll w max_retries (w.started + max_duration) max_retries 0 second ""

unfoldable pub get_mergeable_state : Cipher → Call → Weather → ℕ → ℕ → Client → Client × Polled
get_mergeable_state cipher call w max_retries max_duration client =
    let (client', auth) = get_token cipher call client in
    (client', poll_with w max_retries max_duration auth)
