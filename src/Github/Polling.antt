-- ===== src/Github/Polling.antt =====
-- internal/github/mergeable.go: what the polling of GetMergeableState ends with, and its bounds.
use devteam.Prelude.{
  Bool-cases, Option-cases, String, ap, arith, false, inl, inr, ltb, nat_eq, none, refl, some, suc,
  sym, zero, ℕ, ◌+◌, ◌≤◌, ◌<◌, ◌≡◌, ◌∙◌, ◌⊎◌, ◌==◌, string_eq, text_eq,
}
use devteam.Github.Mergeable.{
  MergeableState, mergeable_unknown, Reply, failed_reply, state_reply, Weather, Polled, PollError,
  verdict, next_backoff, wait_then, after_verdict, after_reply, poll, ended, slept, request_failed,
  exhausted, cancelled_poll,
}

-- Attempt `j` leaves the loop going: GitHub's state is not decisive, the deadline has not passed
-- and the context is not done.
abbrev GoesOn : Weather → ℕ → ℕ → Type 0
GoesOn w deadline j =
    (s : String) × (w.reply j ≡ state_reply s)
    × (verdict s ≡ none)
    × (ltb deadline (w.clock j) ≡ false)
    × (w.cancelled j ≡ false)

-- Of the attempts from `first` to before `last`, the first that does not leave the loop going has
-- the verdict `v`.
abbrev pub Decides : Weather → ℕ → ℕ → ℕ → MergeableState → Type 0
Decides w deadline first last v =
    (k : ℕ) × (first ≤ k)
    × (k < last)
    × ((j : ℕ) → first ≤ j → j < k → GoesOn w deadline j)
    × (s : String) × (w.reply k ≡ state_reply s)
    × (verdict s ≡ some v)

abbrev pub Ends : Polled → MergeableState → Type 0
Ends p v = (p.state ≡ v) × (p.error ≡ none)

module _ (w : Weather) (deadline attempt backoff : ℕ) (rest : String → Polled) where
  abbrev attempted : Polled
  attempted = after_reply w deadline attempt backoff (w.reply attempt) rest

  -- The loop goes on, or GitHub's state is decisive, or the loop ends with an error.
  abbrev Attempted : Type 0
  Attempted =
      (GoesOn w deadline attempt × (s : String) × (attempted ≡ slept backoff (rest s)))
      ⊎ (((s : String) × (u : MergeableState) × (w.reply attempt ≡ state_reply s)
            × (verdict s ≡ some u)
            × (attempted ≡ ended u none))
          ⊎ ((attempted.state ≡ mergeable_unknown) × (e : PollError) × (attempted.error ≡ some e)))

  attempt_cases : Attempted
  unfolding after_reply after_verdict wait_then
  attempt_cases = go (w.reply attempt) refl
    where
      go : (r : Reply) → w.reply attempt ≡ r → Attempted
      go (failed_reply err) e = inr (inr (rw e refl, request_failed err, rw e refl))
      go (state_reply s) e = elim (Option-cases (verdict s)) [
        | inr (u, h) ↦ inr (inl (s, u, e, h, rw (e, h) refl))
        | inl h ↦ elim (Bool-cases (ltb deadline (w.clock attempt))) [
          | inl late ↦
              inr (inr (rw (e, h, late) refl, exhausted (attempt + 1) s, rw (e, h, late) refl))
          | inr early ↦ elim (Bool-cases (w.cancelled attempt)) [
            | inl c ↦ inr (inr (rw (e, h, early, c) refl, cancelled_poll, rw (e, h, early, c) refl))
            | inr c ↦ inl ((s, e, h, early, c), s, rw (e, h, early, c) refl)
          ]
        ]
      ]

  attempt-goes : GoesOn w deadline attempt → (s : String) × (attempted ≡ slept backoff (rest s))
  unfolding after_reply after_verdict wait_then
  attempt-goes (s, e, h, early, c) = (s, rw (e, h, early, c) refl)

  attempt-settles :
      (s : String) (u : MergeableState)
      → w.reply attempt ≡ state_reply s
      → verdict s ≡ some u
      → attempted ≡ ended u none
  unfolding after_reply after_verdict
  attempt-settles s u e h = rw (e, h) refl

module _ (w : Weather) (max_retries deadline : ℕ) (v : MergeableState) where
  Decides-now :
      (left attempt : ℕ) (s : String)
      → w.reply attempt ≡ state_reply s
      → verdict s ≡ some v
      → Decides w deadline attempt (attempt + suc left) v
  Decides-now left attempt s r e =
      (attempt, ground arith, ground arith, (λ j a b. absurd (omega (arith, a, b))), s, r, e)

  Decides-later :
      (left attempt : ℕ)
      → GoesOn w deadline attempt
      → Decides w deadline (suc attempt) (suc attempt + left) v
      → Decides w deadline attempt (attempt + suc left) v
  Decides-later left attempt on (k, a, b, before, s, r, e) =
      (k, omega (arith, a), omega (arith, b), earlier, s, r, e)
    where
      earlier : (j : ℕ) → attempt ≤ j → j < k → GoesOn w deadline j
      earlier j c d = elim (Bool-cases (j == attempt)) [
        | inl same ↦ rw ((nat_eq.beq_iff j attempt).0 same) on
        | inr other ↦ before j (ground arith) d
      ]

  pub poll-decided :
      (left attempt backoff : ℕ) (last_seen : String)
      → Ends (poll w max_retries deadline left attempt backoff last_seen) v
      → Decides w deadline attempt (attempt + left) v
  unfolding poll
  poll-decided zero attempt backoff last_seen (e, f) = absurd (cc f)
  poll-decided (suc left) attempt backoff last_seen (e, f) =
      let rest = poll w max_retries deadline left (suc attempt) (next_backoff backoff) in
      elim (attempt_cases w deadline attempt backoff rest) [
        | inl (on, s, h) ↦ Decides-later left attempt on (
            poll-decided left (suc attempt) (next_backoff backoff) s
              (sym (ap (λ p. p.state) h) ∙ e, sym (ap (λ p. p.error) h) ∙ f))
        | inr (inl (s, u, r, h, at)) ↦
            Decides-now left attempt s r (h ∙ ap some (sym (ap (λ p. p.state) at) ∙ e))
        | inr (inr (h, err, g)) ↦ absurd (cc (f, g))
      ]

  pub decided-poll :
      (left attempt backoff : ℕ) (last_seen : String)
      → Decides w deadline attempt (attempt + left) v
      → Ends (poll w max_retries deadline left attempt backoff last_seen) v
  unfolding poll
  decided-poll zero attempt backoff last_seen (k, a, b, before, s, r, h) =
      absurd (omega (arith, a, b))
  decided-poll (suc left) attempt backoff last_seen (k, a, b, before, s, r, h) =
      let rest = poll w max_retries deadline left (suc attempt) (next_backoff backoff) in
      elim (Bool-cases (k == attempt)) [
        | inl same ↦
            let here = (nat_eq.beq_iff k attempt).0 same in
            let at = attempt-settles w deadline attempt backoff rest s v (rw (sym here) r) h in
            (ap (λ p. p.state) at, ap (λ p. p.error) at)
        | inr other ↦
            let later : suc attempt ≤ k = ground arith in
            let (t, at) =
              attempt-goes w deadline attempt backoff rest (before attempt (ground arith) later) in
            let (e, f) =
              decided-poll left (suc attempt) (next_backoff backoff) t
                (k, later, omega (arith, b), (λ j c d. before j (omega (arith, c)) d), s, r, h) in
            (ap (λ p. p.state) at ∙ e, ap (λ p. p.error) at ∙ f)
      ]

pub poll-unknown :
    (w : Weather) (max_retries deadline left attempt backoff : ℕ) (last_seen : String)
    → let p = poll w max_retries deadline left attempt backoff last_seen in
      (p.error ≡ none) ⊎ (p.state ≡ mergeable_unknown)
unfolding poll
poll-unknown w max_retries deadline zero attempt backoff last_seen = inr refl
poll-unknown w max_retries deadline (suc left) attempt backoff last_seen =
    let rest = poll w max_retries deadline left (suc attempt) (next_backoff backoff) in
    elim (attempt_cases w deadline attempt backoff rest) [
      | inl (on, s, at) ↦
          rw at (poll-unknown w max_retries deadline left (suc attempt) (next_backoff backoff) s)
      | inr (inl (s, u, r, h, at)) ↦ inl (ap (λ p. p.error) at)
      | inr (inr (h, err, e)) ↦ inr h
    ]
