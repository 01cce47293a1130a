-- ===== src/Github/Verdicts.antt =====
-- internal/github/mergeable.go: what GetMergeableState returns, and how much it polls.
use mathlib.Core.Path.{subst}
use devteam.Prelude.{
  All, Bool-cases, Option, String, arith, inl, inr, length, ltb, none, refl, some, suc, sym, zero,
  ℕ, ◌+◌, ◌≤◌, ◌≡◌, ◌↔◌, ◌⊎◌,
}
use devteam.Github.Credentials.{Cipher}
use devteam.Github.Tokens.{AuthError, Call, Client, get_token, second}
use devteam.Github.Mergeable.{
  MergeableState, mergeable_unknown, Reply, failed_reply, state_reply, verdict, requested, Weather,
  Polled, get_mergeable_state, poll, poll_with, next_backoff, backoff_cap, after_reply,
  after_verdict, wait_then,
}
use devteam.Github.Polling.{Decides, Ends, poll-decided, decided-poll, poll-unknown}

poll_with_iff :
    (w : Weather) (max_retries max_duration : ℕ) (auth : AuthError ⊎ String)
    → let p = poll_with w max_retries max_duration auth in
      ((v : MergeableState)
        → Ends p v
          ↔ (token : String) × (auth ≡ inr token)
            × Decides w (w.started + max_duration) 0 max_retries v)
      × ((p.error ≡ none) ⊎ (p.state ≡ mergeable_unknown))
unfolding poll_with
poll_with_iff w n d (inl err) =
    ((λ v. ((λ (e, f). absurd (cc f)), (λ (token, e, rest). absurd (cc e)))), inr refl)
poll_with_iff w n d (inr token) =
    let same : 0 + n ≡ n = ground arith in
    (
      (λ v. (
        (λ h. (
          token,
          refl,
          subst (λ m. Decides w (w.started + d) 0 m v) same
              (poll-decided w n (w.started + d) v n 0 second "" h),
        )),
        (λ (t, e, h).
            decided-poll w n (w.started + d) v n 0 second ""
              (subst (λ m. Decides w (w.started + d) 0 m v) (sym same) h)),
      )),
      poll-unknown w n (w.started + d) n 0 second "",
    )

-- GetMergeableState returns a state without an error exactly if it has a token and the first
-- attempt that does not leave the loop going, of the attempts that are allowed, gets a decisive
-- state from GitHub, the one that is returned. In every other case it returns `unknown`.
pub get_mergeable_state_iff :
    (cipher : Cipher) (call : Call) (w : Weather) (max_retries max_duration : ℕ) (client : Client)
    → let p = (get_mergeable_state cipher call w max_retries max_duration client).1 in
      ((v : MergeableState)
        → Ends p v
          ↔ (token : String) × ((get_token cipher call client).1 ≡ inr token)
            × Decides w (w.started + max_duration) 0 max_retries v)
      × ((p.error ≡ none) ⊎ (p.state ≡ mergeable_unknown))
unfolding get_mergeable_state
get_mergeable_state_iff cipher call w max_retries max_duration client =
    poll_with_iff w max_retries max_duration (get_token cipher call client).1

-- A pause is between one second and five.
abbrev pub IsPause : ℕ → Type 0
IsPause d = (second ≤ d) × (d ≤ backoff_cap)

-- The bounds on what a polling of `left` attempts does.
abbrev pub IsBounded : ℕ → Polled → Type 0
IsBounded left p = (p.requests ≤ left) × (length p.sleeps ≤ p.requests) × All IsPause p.sleeps

next_backoff-IsPause : (d : ℕ) → IsPause d → IsPause (next_backoff d)
unfolding next_backoff
next_backoff-IsPause d (a, b) = (ground arith, ground arith)

wait_then-IsBounded :
    (w : Weather) (deadline attempt backoff : ℕ) (s : String) (left : ℕ) (rest : Polled)
    → IsPause backoff
    → IsBounded left rest
    → IsBounded (suc left) (requested (wait_then w deadline attempt backoff s rest))
unfolding wait_then
wait_then-IsBounded w deadline attempt backoff s left rest b (n, m, all) =
    elim (Bool-cases (ltb deadline (w.clock attempt))) [
      | inl late ↦ rw late (ground arith, ground arith, tt)
      | inr early ↦ elim (Bool-cases (w.cancelled attempt)) [
        | inl c ↦ rw (early, c) (ground arith, ground arith, (b, tt))
        | inr c ↦ rw (early, c) (omega (arith, n), omega (arith, m), (b, all))
      ]
    ]

after_verdict-IsBounded :
    (w : Weather) (deadline attempt backoff : ℕ) (s : String) (left : ℕ) (rest : Polled)
    → IsPause backoff
    → IsBounded left rest
    → (v : Option MergeableState)
    → IsBounded (suc left) (requested (after_verdict w deadline attempt backoff s v rest))
unfolding after_verdict
after_verdict-IsBounded w deadline attempt backoff s left rest b h none =
    wait_then-IsBounded w deadline attempt backoff s left rest b h
after_verdict-IsBounded w deadline attempt backoff s left rest b h (some v) =
    (ground arith, ground arith, tt)

after_reply-IsBounded :
    (w : Weather) (deadline attempt backoff left : ℕ) (rest : String → Polled)
    → IsPause backoff
    → ((s : String) → IsBounded left (rest s))
    → (r : Reply) → IsBounded (suc left) (requested (after_reply w deadline attempt backoff r rest))
unfolding after_reply
after_reply-IsBounded w deadline attempt backoff left rest b h (failed_reply err) =
    (ground arith, ground arith, tt)
after_reply-IsBounded w deadline attempt backoff left rest b h (state_reply s) =
    after_verdict-IsBounded w deadline attempt backoff s left (rest s) b (h s) (verdict s)

poll-IsBounded :
    (w : Weather) (max_retries deadline left attempt backoff : ℕ) (last_seen : String)
    → IsPause backoff
    → IsBounded left (poll w max_retries deadline left attempt backoff last_seen)
unfolding poll
poll-IsBounded w max_retries deadline zero attempt backoff last_seen b =
    (ground arith, ground arith, tt)
poll-IsBounded w max_retries deadline (suc left) attempt backoff last_seen b =
    after_reply-IsBounded w deadline attempt backoff left _ b
      (λ s.
        poll-IsBounded w max_retries deadline left (suc attempt) (next_backoff backoff) s
          (next_backoff-IsPause backoff b))
      (w.reply attempt)

-- GetMergeableState sends at most as many requests as attempts are allowed, sleeps at most once
-- after each of them, and each sleep is between one second and five.
pub get_mergeable_state-IsBounded :
    (cipher : Cipher) (call : Call) (w : Weather) (max_retries max_duration : ℕ) (client : Client)
    → IsBounded max_retries (get_mergeable_state cipher call w max_retries max_duration client).1
unfolding get_mergeable_state poll_with
get_mergeable_state-IsBounded cipher call w n d client = go (get_token cipher call client).1
  where
    go : (auth : AuthError ⊎ String) → IsBounded n (poll_with w n d auth)
    go (inl err) = (ground arith, ground arith, tt)
    go (inr token) = poll-IsBounded w n (w.started + d) n 0 second "" (ground arith, ground arith)
