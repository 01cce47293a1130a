-- ===== src/Db/Order.antt =====
-- ORDER BY: a stable sort by a numeric key, and by two keys.
use devteam.Prelude.{
  All, Bool, Bool-cases, List, [], false, inl, inr, true, ◌≡◌, ◌⊎◌, ◌∷◌, if◌then◌else◌,
}
use mathlib.Core.List.{Perm}
use mathlib.Core.List.Perm

module _ {A : Type 0} (le : A → A → Bool) where
  abbrev pub insert : A → List A → List A
  insert x [] = x ∷ []
  insert x (y ∷ ys) = if le x y then x ∷ y ∷ ys else y ∷ insert x ys

  unfoldable pub order_by : List A → List A
  order_by [] = []
  order_by (x ∷ xs) = insert x (order_by xs)

  -- Every element is at most each later one.
  abbrev pub IsSorted : List A → Type 0
  IsSorted [] = Unit
  IsSorted (x ∷ xs) = All (λ y. le x y ≡ true) xs × IsSorted xs

  insert-perm : (x : A) (ys : List A) → Perm (insert x ys) (x ∷ ys)
  insert-perm x [] = Perm.refl (x ∷ [])
  insert-perm x (y ∷ ys) = elim (Bool-cases (le x y)) [
    | inl first ↦ rw first (Perm.refl (x ∷ y ∷ ys))
    | inr later ↦ rw later (Perm.trans (Perm.cons y (insert-perm x ys)) (Perm.swap x y ys))
  ]

  pub order_by-perm : (xs : List A) → Perm (order_by xs) xs
  unfolding order_by
  order_by-perm [] = Perm.refl []
  order_by-perm (x ∷ xs) = Perm.trans (insert-perm x (order_by xs)) (Perm.cons x (order_by-perm xs))

  All-insert : (P : A → Type 0) (x : A) (ys : List A) → P x → All P ys → All P (insert x ys)
  All-insert P x [] h hs = (h, tt)
  All-insert P x (y ∷ ys) h hs = elim (Bool-cases (le x y)) [
    | inl first ↦ rw first (h, hs)
    | inr later ↦ rw later (hs.0, All-insert P x ys h hs.1)
  ]

  All-le_trans :
      ((a b c : A) → le a b ≡ true → le b c ≡ true → le a c ≡ true)
      → (x y : A) (ys : List A) → le x y ≡ true
      → All (λ z. le y z ≡ true) ys
      → All (λ z. le x z ≡ true) ys
  All-le_trans trans x y [] h hs = tt
  All-le_trans trans x y (z ∷ zs) h hs = (trans x y z h hs.0, All-le_trans trans x y zs h hs.1)

  pub insert-IsSorted :
      ((a b : A) → (le a b ≡ true) ⊎ (le b a ≡ true))
      → ((a b c : A) → le a b ≡ true → le b c ≡ true → le a c ≡ true)
      → (x : A) (ys : List A) → IsSorted ys
      → IsSorted (insert x ys)
  insert-IsSorted total trans x [] s = (tt, tt)
  insert-IsSorted total trans x (y ∷ ys) s = elim (Bool-cases (le x y)) [
    | inl first ↦ rw first ((first, All-le_trans trans x y ys first s.0), s)
    | inr later ↦
        let below : le y x ≡ true = elim (total x y) [
          | inl e ↦ absurd (not_true later e)
          | inr e ↦ e
        ] in
        rw later
          (All-insert (λ z. le y z ≡ true) x ys below s.0, insert-IsSorted total trans x ys s.1)
  ]
    where
      not_true : {b : Bool} → b ≡ false → b ≡ true → ⊥
      not_true p q = cc (p, q)

  pub order_by-IsSorted :
      ((a b : A) → (le a b ≡ true) ⊎ (le b a ≡ true))
      → ((a b c : A) → le a b ≡ true → le b c ≡ true → le a c ≡ true)
      → (xs : List A) → IsSorted (order_by xs)
  unfolding order_by
  order_by-IsSorted total trans [] = tt
  order_by-IsSorted total trans (x ∷ xs) =
      insert-IsSorted total trans x (order_by xs) (order_by-IsSorted total trans xs)

  -- Sorting keeps what holds of every element, and brings nothing in.
  pub All-order_by : (P : A → Type 0) (xs : List A) → All P xs → All P (order_by xs)
  unfolding order_by
  All-order_by P [] h = tt
  All-order_by P (x ∷ xs) h = All-insert P x (order_by xs) h.0 (All-order_by P xs h.1)

  All-inserted : (P : A → Type 0) (x : A) (ys : List A) → All P (insert x ys) → P x × All P ys
  All-inserted P x [] h = h
  All-inserted P x (y ∷ ys) h = elim (Bool-cases (le x y)) [
    | inl first ↦ rw first at h
    | inr later ↦
        let (hy, rest) : P y × All P (insert x ys) = rw later at h in
        let (hx, hys) = All-inserted P x ys rest in (hx, (hy, hys))
  ]

  pub order_by-All : (P : A → Type 0) (xs : List A) → All P (order_by xs) → All P xs
  unfolding order_by
  order_by-All P [] h = tt
  order_by-All P (x ∷ xs) h =
      let (hx, rest) = All-inserted P x (order_by xs) h in (hx, order_by-All P xs rest)
