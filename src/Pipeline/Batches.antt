-- ===== src/Pipeline/Batches.antt =====
-- internal/pipeline/bolts.go: the loop of RunAllBolts over the batches of bolts whose dependencies
-- are completed, over any state and any run of one bolt.
use devteam.Prelude.{
  Bool, List, Option, [], any, elem, false, keep, map, none, not, some, suc, true, zero, ℕ, ◌&&◌,
  ◌∷◌, ◌++◌, nat_eq, string_eq, text_eq,
}
use devteam.Db.Types.{BoltRow}
use devteam.Pipeline.System.{Error}

-- What the loop reads of the run of one bolt.
pub data BoltOutcome : Type 0 where
  succeeded failed : BoltOutcome
  errored : Error → BoltOutcome

-- How the loop ends. `halted` is the return without an error, at a failure or with no bolt ready.
pub data BatchesEnd : Type 0 where
  all_run halted out_of_fuel : BatchesEnd
  stopped_with : Error → BatchesEnd

abbrev pub bolt_numbers : List BoltRow → List ℕ
bolt_numbers bolts = map (λ b. b.bolt_number) bolts

-- Every dependency is completed.
abbrev pub is_ready : List ℕ → BoltRow → Bool
is_ready completed b = not (any (λ d. not (elem d completed)) b.depends_on)

abbrev pub ready_batch : List ℕ → List BoltRow → List BoltRow
ready_batch completed remaining = keep (is_ready completed) remaining

unfoldable pub filter_bolts : List BoltRow → List BoltRow → List BoltRow
filter_bolts bolts remove = keep (λ b. not (elem b.bolt_number (bolt_numbers remove))) bolts

abbrev pub is_success : BoltOutcome → Bool
is_success succeeded = true
is_success _ = false

module _ {ℓ} {S : Type ℓ} (run : BoltRow → S → S × BoltOutcome)
    (gate : List BoltRow → S → S × Option Error) where
  -- The bolts of a batch, which run at the same time, one after the other: each is run, whatever
  -- the others come to. The flag says that all succeeded.
  unfoldable pub run_together : List BoltRow → S → S × Bool
  run_together [] s = (s, true)
  run_together (b ∷ bs) s =
      let (s', outcome) = run b s in
      let (s'', rest) = run_together bs s' in (s'', is_success outcome && rest)

  abbrev pub alone : S × BoltOutcome → S × Option BatchesEnd
  alone (s, succeeded) = (s, none)
  alone (s, failed) = (s, some halted)
  alone (s, errored e) = (s, some (stopped_with e))

  abbrev pub together : S × Bool → S × Option BatchesEnd
  together (s, true) = (s, none)
  together (s, false) = (s, some halted)

  abbrev pub gate_end : S × Option Error → S × Option BatchesEnd
  gate_end (s, none) = (s, none)
  gate_end (s, some e) = (s, some (stopped_with e))

  abbrev pub gated : List BoltRow → S × Option BatchesEnd → S × Option BatchesEnd
  gated batch (s, some end) = (s, some end)
  gated batch (s, none) = gate_end (gate batch s)

  -- One turn: the batch is run and its gate is presented. An end is given where the loop is left.
  unfoldable pub run_batch : List BoltRow → S → S × Option BatchesEnd
  unfolding run_together
  run_batch [] s = (s, some halted)
  run_batch (b ∷ []) s = gated (b ∷ []) (alone (run b s))
  run_batch (b ∷ c ∷ bs) s = gated (b ∷ c ∷ bs) (together (run_together (b ∷ c ∷ bs) s))

  abbrev pub then_more : S × Option BatchesEnd → (S → S × BatchesEnd) → S × BatchesEnd
  then_more (s, some end) more = (s, end)
  then_more (s, none) more = more s

  unfoldable pub run_batches : ℕ → List ℕ → List BoltRow → S → S × BatchesEnd
  unfolding run_batch filter_bolts
  run_batches fuel completed [] s = (s, all_run)
  run_batches zero completed (b ∷ bs) s = (s, out_of_fuel)
  run_batches (suc fuel) completed (b ∷ bs) s =
      let batch = ready_batch completed (b ∷ bs) in
      then_more (run_batch batch s)
        (run_batches fuel (bolt_numbers batch ++ completed) (filter_bolts (b ∷ bs) batch))
