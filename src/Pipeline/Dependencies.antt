-- ===== src/Pipeline/Dependencies.antt =====
-- internal/pipeline/bolts.go: the dependencies of bolts are other bolts.
use devteam.Prelude.{
  All, All-append, Bool, Bool-cases, List, Option, Option-cases, Text, [], arith, inl, inr, length,
  none, some, suc, ℕ, ◌+◌, ◌≤◌, ◌<◌, ◌≡◌, ◌≢◌, ◌∷◌, ◌==◌, nat_eq, string_eq, text_eq,
}
use devteam.Stage.Ids.{split}
use devteam.Pipeline.Units.{
  extract_bolt_dependencies, unit_to_bolt, edge_bolts, edge_of_line, edges_of_lines,
}
use devteam.Pipeline.Prepare.{deps_of, or_single_unit}

-- A bolt that bolt `n` of `total` may depend on.
abbrev pub IsOtherBolt : ℕ → ℕ → ℕ → Type 0
IsOtherBolt total n d = (1 ≤ d) × (d ≤ total) × (d ≢ n)

abbrev pub IsEdge : ℕ → ℕ × ℕ → Type 0
IsEdge total (a, b) = (1 ≤ b) × (b ≤ total) × (b ≢ a)

unit_to_bolt_le :
    (i : ℕ) (us : List Text) (u : Text) (n : ℕ)
    → unit_to_bolt i us u ≡ some n
    → (i ≤ n) × (n < i + length us)
unit_to_bolt_le i [] u n e = absurd (ground (arith, e))
unit_to_bolt_le i (x ∷ xs) u n e = elim (Option-cases (unit_to_bolt (suc i) xs u)) [
  | inr (k, later) ↦
      let bound = unit_to_bolt_le (suc i) xs u k later in ground (arith, e, later, bound.0, bound.1)
  | inl never ↦ ground (arith, e, never)
]

pub deps_of-IsOtherBolt :
    (total n : ℕ) (es : List (ℕ × ℕ))
    → All (IsEdge total) es
    → All (IsOtherBolt total n) (deps_of n es)
deps_of-IsOtherBolt total n [] h = tt
deps_of-IsOtherBolt total n ((a, b) ∷ es) (h, hs) =
    let rest = deps_of-IsOtherBolt total n es hs in
    elim (Bool-cases (a == n)) [
      | inl here ↦ rw here ((h.0, h.1, ground (arith, here, h.2)), rest)
      | inr other ↦ rw other rest
    ]

edge_bolts-IsEdge :
    (units : List Text) (e : Option (Text × Text))
    → All (IsEdge (length units)) (edge_bolts units e)
edge_bolts-IsEdge units none = tt
edge_bolts-IsEdge units (some (a, b)) = elim (Option-cases (unit_to_bolt 1 units a)) [
  | inl no_a ↦ rw no_a tt
  | inr (n, at_a) ↦ elim (Option-cases (unit_to_bolt 1 units b)) [
    | inl no_b ↦ rw (at_a, no_b) tt
    | inr (m, at_b) ↦
        let bound = unit_to_bolt_le 1 units b m at_b in
        elim (Bool-cases (n == m)) [
          | inl same ↦ rw (at_a, at_b, same) tt
          | inr differ ↦
              rw (at_a, at_b, differ)
                ((bound.0, omega (arith, bound.1), ground (arith, differ)), tt)
        ]
  ]
]

edges-IsEdge :
    (is_space : ℕ → Bool) (units lines : List Text)
    → All (IsEdge (length units)) (edges_of_lines is_space units lines)
edges-IsEdge is_space units [] = tt
edges-IsEdge is_space units (l ∷ ls) =
    All-append (IsEdge (length units)) (edge_bolts units (edge_of_line is_space l)) _
      (edge_bolts-IsEdge units (edge_of_line is_space l)) (edges-IsEdge is_space units ls)

pub dependencies-IsEdge :
    (is_space : ℕ → Bool) (dag : Option Text) (units : List Text)
    → All (IsEdge (length units)) (extract_bolt_dependencies is_space dag units)
unfolding extract_bolt_dependencies
dependencies-IsEdge is_space none units = tt
dependencies-IsEdge is_space (some content) units =
    edges-IsEdge is_space units (split b'\n' content)

pub IsEdge-le : (n m : ℕ) → n ≤ m → (es : List (ℕ × ℕ)) → All (IsEdge n) es → All (IsEdge m) es
IsEdge-le n m le [] h = tt
IsEdge-le n m le (e ∷ es) (h, hs) = ((h.0, omega (arith, le, h.1), h.2), IsEdge-le n m le es hs)

pub length-or_single_unit-le : (us : List Text) → length us ≤ length (or_single_unit us)
length-or_single_unit-le [] = omega arith
length-or_single_unit-le (u ∷ us) = omega arith
