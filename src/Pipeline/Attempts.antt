-- ===== src/Pipeline/Attempts.antt =====
-- internal/pipeline/stage_runner.go: what every attempt of a dispatch keeps, the dispatch keeps.
use devteam.Prelude.{Bool-cases, String, codes, inl, inr, suc, zero, ℕ}
use devteam.Pipeline.System.{System}
use devteam.Pipeline.Agent.{
  Visit, Attempt, Dispatched, dispatch_streaming, dispatch_attempts, answered, broke,
  is_quota_exhaustion, is_blip, combined_output, after_attempt,
}

module _ {ℓ} (P : System → Type ℓ) where
  pub after_attempt-keeps :
      (a : Attempt) (after : System) (retry : String → System × Dispatched)
      → P after
      → ((err : String) → P (retry err).0)
      → P (after_attempt a after retry).0
  after_attempt-keeps (answered reqs rr) after retry h k = h
  after_attempt-keeps (broke reqs err rr) after retry h k =
      elim (Bool-cases (is_quota_exhaustion (combined_output err rr))) [
        | inl e ↦ rw e h
        | inr e ↦ elim (Bool-cases (is_blip (codes err))) [
          | inl blip ↦ rw (e, blip) (k err)
          | inr other ↦ rw (e, other) h
        ]
      ]

  pub dispatch_attempts-keeps :
      (now : ℕ) (visit : Visit) (f stage role : String)
      → ((a : Attempt) (sys : System) → P sys → P (dispatch_streaming now f stage role a sys))
      → (left attempt : ℕ) (sys : System) → P sys
      → P (dispatch_attempts now visit f stage role left attempt sys).0
  unfolding dispatch_attempts
  dispatch_attempts-keeps now visit f stage role step zero attempt sys h =
      let k = step (visit.attempt attempt) sys h in
      after_attempt-keeps (visit.attempt attempt) _ _ k (λ err. k)
  dispatch_attempts-keeps now visit f stage role step (suc left) attempt sys h =
      let k = step (visit.attempt attempt) sys h in
      let after = dispatch_streaming now f stage role (visit.attempt attempt) sys in
      let again = dispatch_attempts-keeps now visit f stage role step left (suc attempt) after k in
      after_attempt-keeps (visit.attempt attempt) after _ k
        (λ err. elim (Bool-cases visit.cancelled) [ inl e ↦ rw e k | inr e ↦ rw e again ])
