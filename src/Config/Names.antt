-- ===== src/Config/Names.antt =====
-- The `>` of Go on names. It compares bytes, and the bytes of two texts in UTF-8 stand in the order
-- of their code points.
use devteam.Prelude.{
  Bool, String, Text, [], ap, arith, beq_refl, codes, false, inl, inr, ltb, not, refl, true, ◌≡◌,
  ◌⊎◌, ◌∷◌, ◌==◌, if◌then◌else◌, nat_eq, string_eq, text_eq,
}

abbrev text_gt : Text → Text → Bool
text_gt [] t = false
text_gt (c ∷ s) [] = true
text_gt (c ∷ s) (d ∷ t) = if c == d then text_gt s t else ltb d c

text_gt_total : (s t : Text) → (text_gt s t ≡ false) ⊎ (text_gt t s ≡ false)
text_gt_total [] t = inl refl
text_gt_total (c ∷ s) [] = inr refl
text_gt_total (c ∷ s) (d ∷ t) = elim (text_gt_total s t) [
  | inl h ↦ ground (arith, h)
  | inr h ↦ ground (arith, h)
]

text_gt_trans : (s t u : Text) → text_gt s t ≡ false → text_gt t u ≡ false → text_gt s u ≡ false
text_gt_trans [] t u h k = refl
text_gt_trans (c ∷ s) [] u h k = cc
text_gt_trans (c ∷ s) (d ∷ t) [] h k = cc
text_gt_trans (c ∷ s) (d ∷ t) (e ∷ u) h k = ground (arith, text_gt_trans s t u)

text_gt_irrefl : (s : Text) → text_gt s s ≡ false
text_gt_irrefl [] = refl
text_gt_irrefl (c ∷ s) = rw (beq_refl c) (text_gt_irrefl s)

unfoldable pub name_gt : String → String → Bool
name_gt a b = text_gt (codes a) (codes b)

abbrev pub name_le : String → String → Bool
name_le a b = not (name_gt a b)

pub name_le_total : (a b : String) → (name_le a b ≡ true) ⊎ (name_le b a ≡ true)
unfolding name_gt
name_le_total a b = elim (text_gt_total (codes a) (codes b)) [
  | inl h ↦ inl (ap not h)
  | inr h ↦ inr (ap not h)
]

not_gt : {b : Bool} → not b ≡ true → b ≡ false
not_gt {b = true} h = cc
not_gt {b = false} h = refl

pub name_le_trans : (a b c : String) → name_le a b ≡ true → name_le b c ≡ true → name_le a c ≡ true
unfolding name_gt
name_le_trans a b c h k = ap not (text_gt_trans (codes a) (codes b) (codes c) (not_gt h) (not_gt k))

pub name_gt_irrefl : (a : String) → name_gt a a ≡ false
unfolding name_gt
name_gt_irrefl a = text_gt_irrefl (codes a)
