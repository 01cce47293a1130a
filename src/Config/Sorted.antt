-- ===== src/Config/Sorted.antt =====
-- internal/config/merge.go: what dedupAndSort keeps, and in which order.
use mathlib.Core.List.{reverse_aux}
use devteam.Prelude.{
  All, Bool, Bool-cases, List, String, [], ap, arith, beq_refl, elem, false, find, find-keep, inl,
  inr, keep, length, refl, string_eq, sym, true, ◌≤◌, ◌≡◌, ◌∙◌, ◌∷◌, ◌==◌, if◌then◌else◌, nat_eq,
  text_eq,
}
use devteam.Db.Order.{insert-IsSorted, IsSorted}
use devteam.Config.Types.{ProviderConfig}
use devteam.Config.Names.{name_gt, name_gt_irrefl, name_le, name_le_total, name_le_trans}
use devteam.Config.Merge.{named, dedup, sink, sort_loop, dedup_and_sort}

-- The first element alone.
abbrev pub first : List ProviderConfig → List ProviderConfig
first [] = []
first (p ∷ ps) = p ∷ []

find-first :
    (n : String) (ps : List ProviderConfig)
    → find (named n) (first (keep (named n) ps)) ≡ find (named n) ps
find-first n [] = refl
find-first n (p ∷ ps) = elim (Bool-cases (named n p)) [
  | inl h ↦ rw (h, h) refl
  | inr h ↦ rw h (find-first n ps)
]

pub length-first : (ps : List ProviderConfig) → length (first ps) ≤ 1
length-first [] = omega arith
length-first (p ∷ ps) = omega arith

keep-dedup :
    (n : String) (seen : List String) (ps : List ProviderConfig)
    → keep (named n) (dedup seen ps) ≡ (if elem n seen then [] else first (keep (named n) ps))
unfolding dedup
keep-dedup n seen [] = elim (Bool-cases (elem n seen)) [ inl h ↦ rw h refl | inr h ↦ rw h refl ]
keep-dedup n seen (p ∷ ps) = elim (Bool-cases (p.name == n)) [
  | inl same ↦
      let e : p.name ≡ n = (string_eq.beq_iff p.name n).0 same in
      elim (Bool-cases (elem n seen)) [
        | inl h ↦ rw (e, h, keep-dedup n seen ps, h) refl
        | inr h ↦ rw (e, h, beq_refl n, keep-dedup n (n ∷ seen) ps, beq_refl n) refl
      ]
  | inr other ↦ elim (Bool-cases (elem p.name seen)) [
    | inl h ↦ rw (h, other) (keep-dedup n seen ps)
    | inr h ↦ rw (h, other) (rw other at (keep-dedup n (p.name ∷ seen) ps))
  ]
]

-- Providers of one name do not change places.
keep-sink :
    (n : String) (p : ProviderConfig) (rev : List ProviderConfig)
    → keep (named n) (sink p rev) ≡ keep (named n) (p ∷ rev)
unfolding sink
keep-sink n p [] = refl
keep-sink n p (q ∷ rev) = elim (Bool-cases (name_gt q.name p.name)) [
  | inr h ↦ rw h refl
  | inl h ↦ elim (Bool-cases (p.name == n)) [
    | inr other ↦ rw (h, other, keep-sink n p rev, other) refl
    | inl same ↦ elim (Bool-cases (q.name == n)) [
      | inr other ↦ rw (h, other, keep-sink n p rev) refl
      | inl both ↦
          let e : p.name ≡ q.name =
            (string_eq.beq_iff p.name n).0 same ∙ sym ((string_eq.beq_iff q.name n).0 both) in
          let never : name_gt q.name p.name ≡ false = rw e (name_gt_irrefl q.name) in
          absurd (cc (h, never))
    ]
  ]
]

keep-reverse_aux :
    (p : ProviderConfig → Bool) (rev ps : List ProviderConfig)
    → keep p (reverse_aux rev ps) ≡ reverse_aux (keep p rev) (keep p ps)
keep-reverse_aux p [] ps = refl
keep-reverse_aux p (x ∷ rev) ps = elim (Bool-cases (p x)) [
  | inl h ↦ rw (keep-reverse_aux p rev (x ∷ ps), h) refl
  | inr h ↦ rw (keep-reverse_aux p rev (x ∷ ps), h) refl
]

keep-sort_loop :
    (n : String) (rev ps : List ProviderConfig)
    → keep (named n) (sort_loop rev ps) ≡ reverse_aux (keep (named n) rev) (keep (named n) ps)
unfolding sort_loop
keep-sort_loop n rev [] = keep-reverse_aux (named n) rev []
keep-sort_loop n rev (p ∷ ps) = elim (Bool-cases (p.name == n)) [
  | inl h ↦ rw (keep-sort_loop n (sink p rev) ps, keep-sink n p rev, h) refl
  | inr h ↦ rw (keep-sort_loop n (sink p rev) ps, keep-sink n p rev, h) refl
]

pub keep-dedup_and_sort :
    (n : String) (ps : List ProviderConfig)
    → keep (named n) (dedup_and_sort ps) ≡ first (keep (named n) ps)
unfolding dedup_and_sort
keep-dedup_and_sort n ps = keep-sort_loop n [] (dedup [] ps) ∙ keep-dedup n [] ps

pub find-dedup_and_sort :
    (n : String) (ps : List ProviderConfig) → find (named n) (dedup_and_sort ps) ≡ find (named n) ps
find-dedup_and_sort n ps =
    sym (find-keep (named n) (named n) (dedup_and_sort ps) (λ p h. h))
    ∙ ap (find (named n)) (keep-dedup_and_sort n ps)
    ∙ find-first n ps

-- Sorted by name, with the greatest name first and with the least.
abbrev Falling : List ProviderConfig → Type 0
Falling = IsSorted (λ p q. name_le q.name p.name)

abbrev pub Rising : List ProviderConfig → Type 0
Rising = IsSorted (λ p q. name_le p.name q.name)

Falling-sink : (p : ProviderConfig) (rev : List ProviderConfig) → Falling rev → Falling (sink p rev)
unfolding sink
Falling-sink p rev h =
    insert-IsSorted (λ p q. name_le q.name p.name) (λ p q. name_le_total q.name p.name)
      (λ p q r h k. name_le_trans r.name q.name p.name k h) p rev h

abbrev Below : List ProviderConfig → List ProviderConfig → Type 0
Below rev ps = All (λ q. All (λ p. name_le q.name p.name ≡ true) ps) rev

Below-cons :
    (p : ProviderConfig) (rev ps : List ProviderConfig)
    → All (λ q. name_le q.name p.name ≡ true) rev
    → Below rev ps
    → Below rev (p ∷ ps)
Below-cons p [] ps h k = tt
Below-cons p (q ∷ rev) ps h k = ((h.0, k.0), Below-cons p rev ps h.1 k.1)

Rising-reverse_aux :
    (rev ps : List ProviderConfig)
    → Falling rev
    → Rising ps
    → Below rev ps
    → Rising (reverse_aux rev ps)
Rising-reverse_aux [] ps h k b = k
Rising-reverse_aux (p ∷ rev) ps h k b =
    Rising-reverse_aux rev (p ∷ ps) h.1 (b.0, k) (Below-cons p rev ps h.0 b.1)

Below-nil : (rev : List ProviderConfig) → Below rev []
Below-nil [] = tt
Below-nil (p ∷ rev) = (tt, Below-nil rev)

pub Rising-sort_loop : (rev ps : List ProviderConfig) → Falling rev → Rising (sort_loop rev ps)
unfolding sort_loop
Rising-sort_loop rev [] h = Rising-reverse_aux rev [] h tt (Below-nil rev)
Rising-sort_loop rev (p ∷ ps) h = Rising-sort_loop (sink p rev) ps (Falling-sink p rev h)
