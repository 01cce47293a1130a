-- ===== src/Prelude/Texts.antt =====
-- Texts as lists of code points, for code that walks them.
use Prim.Native.Char.{code}
use Prim.Native.String.{String, ◌++◌ as append}
use Prim.Native.Nat.{ℕ}
use mathlib.Core.Path.{◌≡◌, refl, ap}
use mathlib.Core.Logic.{◌↔◌, inl, inr}
use mathlib.Core.Bool.{Bool, true, false, ◌&&◌, ◌||◌}
use mathlib.Core.Option.{Option, none, some}
use mathlib.Core.List.{List, [], ◌∷◌, ◌++◌}
use native.Mathlib.Omega.{arith}
use devteam.Prelude.Tests.{◌==◌, Eq, nat_eq, Bool-cases, if◌then◌else◌}

abbrev pub Text : Type 0
Text = List ℕ

abbrev pub codes : String → Text
codes String.[] = []
codes (String.◌∷◌ c s) = code c ∷ codes s

-- The `+` of texts.
abbrev pub concat : String → String → String
concat = append

-- strings.Join
abbrev pub join : String → List String → String
join sep [] = ""
join sep (s ∷ []) = s
join sep (s ∷ t ∷ ss) = concat s (concat sep (join sep (t ∷ ss)))

-- strings.CutPrefix: what stands behind the prefix.
abbrev pub cut_prefix : Text → String → Option String
cut_prefix [] s = some s
cut_prefix (k ∷ ks) String.[] = none
cut_prefix (k ∷ ks) (String.◌∷◌ c s) = if code c == k then cut_prefix ks s else none

-- strings.HasPrefix
abbrev pub has_prefix : Text → Text → Bool
has_prefix s [] = true
has_prefix [] (k ∷ ks) = false
has_prefix (c ∷ s) (k ∷ ks) = c == k && has_prefix s ks

-- strings.Contains
abbrev pub contains : Text → Text → Bool
contains [] k = has_prefix [] k
contains (c ∷ s) k = has_prefix (c ∷ s) k || contains s k

has_prefix_sound : (s k : Text) → has_prefix s k ≡ true → (post : Text) × (s ≡ k ++ post)
has_prefix_sound s [] h = (s, refl)
has_prefix_sound [] (k ∷ ks) h = absurd (ground arith)
has_prefix_sound (c ∷ s) (k ∷ ks) h =
    let (post, e) = has_prefix_sound s ks (ground arith) in
    let same : c ≡ k = ground arith in (post, ground (arith, e, same))

has_prefix-append : (k post : Text) → has_prefix (k ++ post) k ≡ true
has_prefix-append [] post = refl
has_prefix-append (c ∷ k) post = ground (arith, has_prefix-append k post)

contains_sound :
    (s k : Text) → contains s k ≡ true → (pre : Text) × (post : Text) × (s ≡ pre ++ (k ++ post))
contains_sound [] k h = let (post, e) = has_prefix_sound [] k h in ([], post, e)
contains_sound (c ∷ s) k h = elim (Bool-cases (has_prefix (c ∷ s) k)) [
  | inl here ↦ let (post, e) = has_prefix_sound (c ∷ s) k here in ([], post, e)
  | inr there ↦
      let (pre, post, e) = contains_sound s k (ground arith) in (c ∷ pre, post, ap (λ t. c ∷ t) e)
]

contains-append : (pre k post : Text) → contains (pre ++ (k ++ post)) k ≡ true
contains-append [] [] [] = refl
contains-append [] [] (c ∷ post) = refl
contains-append [] (c ∷ k) post = ground (arith, has_prefix-append (c ∷ k) post)
contains-append (c ∷ pre) k post = ground (arith, contains-append pre k post)

-- `contains` finds exactly the texts that stand in the other with something before and after.
pub contains_iff :
    (s k : Text) → (contains s k ≡ true) ↔ ((pre : Text) × (post : Text) × (s ≡ pre ++ (k ++ post)))
contains_iff s k = (contains_sound s k, (λ (pre, post, e). rw e (contains-append pre k post)))

abbrev same_text : Text → Text → Bool
same_text [] [] = true
same_text (c ∷ s) (d ∷ t) = c == d && same_text s t
same_text _ _ = false

pub same_text_iff : (s t : Text) → (same_text s t ≡ true) ↔ (s ≡ t)
same_text_iff s t = (sound s t, complete s t)
  where
    sound : (s t : Text) → same_text s t ≡ true → s ≡ t
    sound [] [] h = refl
    sound [] (d ∷ t) h = cc
    sound (c ∷ s) [] h = cc
    sound (c ∷ s) (d ∷ t) h = let rest = sound s t (ground arith) in ground (arith, rest)

    complete : (s t : Text) → s ≡ t → same_text s t ≡ true
    complete [] [] e = refl
    complete [] (d ∷ t) e = cc
    complete (c ∷ s) [] e = cc
    complete (c ∷ s) (d ∷ t) e = let rest = complete s t (cc) in ground (arith, rest)

instance abbrev pub text_eq : Eq Text
text_eq = record { beq = same_text; beq_iff = same_text_iff }
