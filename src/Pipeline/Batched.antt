-- ===== src/Pipeline/Batched.antt =====
-- internal/pipeline/bolts.go: the batches of RunAllBolts come to an end.
use devteam.Prelude.{
  All, Bool, Bool-cases, List, List-cases, Option, [], arith, beq_refl, elem, false, inl, inr, keep,
  length, none, not, refl, some, suc, true, zero, ℕ, ◌+◌, ◌≤◌, ◌≡◌, ◌≢◌, ◌&&◌, ◌∷◌, nat_eq,
  string_eq, text_eq,
}
use devteam.Db.Types.{BoltRow}
use devteam.Pipeline.System.{Error}
use devteam.Pipeline.Batches.{
  BoltOutcome, succeeded, failed, errored, BatchesEnd, halted, out_of_fuel, bolt_numbers, is_ready,
  ready_batch, filter_bolts, run_together, alone, together, gate_end, gated, run_batch, then_more,
  run_batches,
}

-- What passes one of two tests that exclude each other.
length-keep_apart :
    (p q : BoltRow → Bool) (bolts : List BoltRow)
    → All (λ b. (p b && q b) ≡ false) bolts
    → length (keep p bolts) + length (keep q bolts) ≤ length bolts
length-keep_apart p q [] h = omega arith
length-keep_apart p q (b ∷ bs) h = ground (arith, h.0, length-keep_apart p q bs h.1)

-- No bolt is both in the batch and among those that are left.
batch_apart :
    (p : BoltRow → Bool) (bolts : List BoltRow) (numbers : List ℕ)
    → ((d : ℕ) → elem d (bolt_numbers (keep p bolts)) ≡ true → elem d numbers ≡ true)
    → All (λ b. (p b && not (elem b.bolt_number numbers)) ≡ false) bolts
batch_apart p [] numbers h = tt
batch_apart p (b ∷ bs) numbers h = elim (Bool-cases (p b)) [
  | inl e ↦
      let hit : elem b.bolt_number numbers ≡ true =
        h b.bolt_number (ground (arith, beq_refl b.bolt_number)) in
      (rw (e, hit), batch_apart p bs numbers (λ d m. h d (ground arith)))
  | inr e ↦ (rw e, batch_apart p bs numbers (λ d m. h d (ground arith)))
]

pub length-filter_bolts :
    (completed : List ℕ) (bolts : List BoltRow)
    → let batch = ready_batch completed bolts in
      length batch + length (filter_bolts bolts batch) ≤ length bolts
unfolding filter_bolts
length-filter_bolts completed bolts =
    length-keep_apart (is_ready completed) _ bolts
      (batch_apart (is_ready completed) bolts _ (λ d m. m))

abbrev ran_out : BatchesEnd → Bool
ran_out out_of_fuel = true
ran_out _ = false

abbrev gives_out : Option BatchesEnd → Bool
gives_out none = false
gives_out (some end) = ran_out end

module _ {ℓ} {S : Type ℓ} (run : BoltRow → S → S × BoltOutcome)
    (gate : List BoltRow → S → S × Option Error) where
  gate_end-ran_out : (r : S × Option Error) → gives_out (gate_end run gate r).1 ≡ false
  gate_end-ran_out (s, none) = refl
  gate_end-ran_out (s, some e) = refl

  gated-ran_out :
      (batch : List BoltRow) (r : S × Option BatchesEnd)
      → gives_out r.1 ≡ false
      → gives_out (gated run gate batch r).1 ≡ false
  gated-ran_out batch (s, some end) h = h
  gated-ran_out batch (s, none) h = gate_end-ran_out (gate batch s)

  alone-ran_out : (r : S × BoltOutcome) → gives_out (alone run gate r).1 ≡ false
  alone-ran_out (s, succeeded) = refl
  alone-ran_out (s, failed) = refl
  alone-ran_out (s, errored e) = refl

  together-ran_out : (r : S × Bool) → gives_out (together run gate r).1 ≡ false
  together-ran_out (s, true) = refl
  together-ran_out (s, false) = refl

  run_batch-ran_out :
      (batch : List BoltRow) (s : S) → gives_out (run_batch run gate batch s).1 ≡ false
  unfolding run_batch
  run_batch-ran_out [] s = refl
  run_batch-ran_out (b ∷ []) s = gated-ran_out (b ∷ []) _ (alone-ran_out (run b s))
  run_batch-ran_out (b ∷ c ∷ bs) s =
      gated-ran_out (b ∷ c ∷ bs) _ (together-ran_out (run_together run gate (b ∷ c ∷ bs) s))

  -- With no bolt ready the loop is left.
  run_batch-nil : (s : S) → run_batch run gate [] s ≡ (s, some halted)
  unfolding run_batch
  run_batch-nil s = refl

  then_more-ran_out :
      (r : S × Option BatchesEnd) (more : S → S × BatchesEnd)
      → gives_out r.1 ≡ false
      → ((r.1 ≡ none) → (s : S) → ran_out (more s).1 ≡ false)
      → ran_out (then_more run gate r more).1 ≡ false
  then_more-ran_out (s, some end) more h k = h
  then_more-ran_out (s, none) more h k = k refl s

  ends :
      (fuel : ℕ) (completed : List ℕ) (remaining : List BoltRow) (s : S)
      → length remaining ≤ fuel
      → ran_out (run_batches run gate fuel completed remaining s).1 ≡ false
  unfolding run_batches
  ends zero completed [] s h = refl
  ends zero completed (b ∷ bs) s h = absurd (omega arith)
  ends (suc fuel) completed [] s h = refl
  ends (suc fuel) completed (b ∷ bs) s h =
      let batch = ready_batch completed (b ∷ bs) in
      let fewer = length-filter_bolts completed (b ∷ bs) in
      then_more-ran_out (run_batch run gate batch s) _ (run_batch-ran_out batch s) (λ goes s'.
        elim (List-cases batch) [
          | inl e ↦ absurd (go_nil batch e s goes)
          | inr (c, cs, e) ↦
              ends fuel _ (filter_bolts (b ∷ bs) batch) s'
                (let one : 1 ≤ length batch = rw e (omega arith) in omega (arith, fewer, one, h))
        ])
    where
      go_nil :
          (batch : List BoltRow) → batch ≡ [] → (s : S) → (run_batch run gate batch s).1 ≡ none → ⊥
      go_nil batch e s goes =
          let g : (run_batch run gate [] s).1 ≡ none = rw e at goes in cc (run_batch-nil s)

-- The loop over the batches ends by itself within as many turns as there are bolts, whatever the
-- runs and the gates come to, and whatever the dependencies are, cyclic ones too.
pub run_batches-ends :
    {S : Type 0} (run : BoltRow → S → S × BoltOutcome) (gate : List BoltRow → S → S × Option Error)
    (completed : List ℕ) (remaining : List BoltRow) (s : S)
    → (run_batches run gate (length remaining) completed remaining s).1 ≢ out_of_fuel
run_batches-ends run gate completed remaining s e =
    let h = ends run gate (length remaining) completed remaining s (omega arith) in
    let g : ran_out out_of_fuel ≡ false = rw e at h in cc
