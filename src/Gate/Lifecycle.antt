-- ===== src/Gate/Lifecycle.antt =====
-- internal/gate/gate.go: what holds of a gate over every sequence of its operations.
use devteam.Prelude.{
  All, List, Option, String, [], arith, none, refl, ℕ, ◌+◌, ◌≤◌, ◌<◌, ◌≡◌, ◌≢◌, ◌↔◌, ◌⊎◌, ◌∷◌,
}
use devteam.Gate.{
  Gate, GateError, opened, approved, accept_as_is, max_revisions, approve, reject, accept, reset,
  new,
}

-- One call of an exported method.
pub data Op : Type 0 where
  do_approve : (now : ℕ) → Op
  do_reject : (notes : String) → Op
  do_accept : (now : ℕ) → Op
  do_reset : Op

abbrev pub apply : Op → Gate → Gate × Option GateError
apply (do_approve now) g = approve now g
apply (do_reject notes) g = reject notes g
apply (do_accept now) g = accept now g
apply do_reset g = (reset g, none)

abbrev pub run : Gate → List Op → Gate
run g [] = g
run g (op ∷ ops) = run (apply op g).0 ops

-- 1 for a rejection that was taken.
abbrev pub counts : Op → Option GateError → ℕ
counts (do_reject notes) none = 1
counts _ _ = 0

abbrev pub rejections : Gate → List Op → ℕ
rejections g [] = 0
rejections g (op ∷ ops) = counts op (apply op g).1 + rejections (apply op g).0 ops

-- When a call is refused, said of the gate before it.
abbrev pub Refuses : Op → Gate → Type 0
Refuses (do_approve now) g = g.state ≢ opened
Refuses (do_reject notes) g = g.state ≢ opened
Refuses (do_accept now) g = (g.state ≢ opened) ⊎ (g.revision_count < max_revisions)
Refuses do_reset g = ⊥

pub record IsValid (g : Gate) : Type 0 where
  pub third_strike : (g.state ≢ accept_as_is) ⊎ (max_revisions ≤ g.revision_count)
  pub decided_time : (g.decided_at ≢ none) ↔ ((g.state ≡ approved) ⊎ (g.state ≡ accept_as_is))

apply-IsValid : (op : Op) (g : Gate) → IsValid g → IsValid (apply op g).0
unfolding approve reject accept reset
apply-IsValid (do_approve now) g v = ground arith
apply-IsValid (do_reject notes) g v = ground arith
apply-IsValid (do_accept now) g v = ground arith
apply-IsValid do_reset g v = ground arith

new-IsValid : (f s : String) → IsValid (new f s)
unfolding new
new-IsValid f s = ground arith

run-IsValid : (g : Gate) (ops : List Op) → IsValid g → IsValid (run g ops)
run-IsValid g [] v = v
run-IsValid g (op ∷ ops) v = run-IsValid (apply op g).0 ops (apply-IsValid op g v)

-- After any sequence of calls on a new gate: a gate accepted as is has at least three revisions,
-- and the decision time is set exactly when the gate is approved or accepted as is.
pub new-run-IsValid : (f s : String) (ops : List Op) → IsValid (run (new f s) ops)
new-run-IsValid f s ops = run-IsValid (new f s) ops (new-IsValid f s)

apply-revision_count :
    (op : Op) (g : Gate)
    → (apply op g).0.revision_count ≡ g.revision_count + counts op (apply op g).1
unfolding approve reject accept reset
apply-revision_count (do_approve now) g = ground arith
apply-revision_count (do_reject notes) g = ground arith
apply-revision_count (do_accept now) g = ground arith
apply-revision_count do_reset g = ground arith

apply_decided :
    (op : Op) (g : Gate)
    → (g.state ≡ approved) ⊎ (g.state ≡ accept_as_is)
    → op ≢ do_reset
    → (apply op g).0 ≡ g
unfolding approve reject accept
apply_decided (do_approve now) g d n = ground arith
apply_decided (do_reject notes) g d n = ground arith
apply_decided (do_accept now) g d n = ground arith
apply_decided do_reset g d n = absurd (n refl)

run-revision_count :
    (g : Gate) (ops : List Op) → (run g ops).revision_count ≡ g.revision_count + rejections g ops
run-revision_count g [] = omega arith
run-revision_count g (op ∷ ops) =
    ground (arith, run-revision_count (apply op g).0 ops, apply-revision_count op g)

-- On a new gate the revision count is the number of rejections that were accepted, whatever else
-- was called between them.
pub new-run-revision_count :
    (f s : String) (ops : List Op) → (run (new f s) ops).revision_count ≡ rejections (new f s) ops
unfolding new
new-run-revision_count f s ops = omega (arith, run-revision_count (new f s) ops)

-- A call that returns an error leaves the gate as it was, and the calls other than `Reset` fail
-- exactly when the gate is not open or, for `AcceptAsIs`, has fewer than three revisions.
pub apply_errors :
    (op : Op) (g : Gate)
    → (((apply op g).1 ≡ none) ⊎ ((apply op g).0 ≡ g)) × ((apply op g).1 ≢ none ↔ Refuses op g)
unfolding approve reject accept
apply_errors (do_approve now) g = ground arith
apply_errors (do_reject notes) g = ground arith
apply_errors (do_accept now) g = ground arith
apply_errors do_reset g = ground arith

-- Once approved or accepted as is, a gate stays as it is under any calls without `Reset`.
pub decided_absorbs :
    (g : Gate) (ops : List Op)
    → (g.state ≡ approved) ⊎ (g.state ≡ accept_as_is)
    → All (λ op. op ≢ do_reset) ops
    → run g ops ≡ g
decided_absorbs g [] d n = refl
decided_absorbs g (op ∷ ops) d (n, ns) = rw (apply_decided op g d n) (decided_absorbs g ops d ns)
