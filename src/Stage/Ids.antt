-- ===== src/Stage/Ids.antt =====
-- internal/stage/stage.go: IsValidStageID, over the bytes of a text.
use devteam.Prelude.{
  Bool, Bool-cases, List, [], ap, arith, false, inl, inr, leb, length, length-append, ltb, not,
  refl, sym, true, ℕ, ◌<◌, ◌≡◌, ◌∙◌, ◌↔◌, ◌&&◌, ◌∷◌, ◌++◌, ◌==◌, if◌then◌else◌, nat_eq, string_eq,
}

abbrev pub Bytes : Type 0
Bytes = List ℕ

-- The piece under the cursor grows at its front once the rest is split.
abbrev extend : ℕ → List Bytes → List Bytes
extend c [] = (c ∷ []) ∷ []
extend c (p ∷ ps) = (c ∷ p) ∷ ps

-- strings.Split at one byte.
abbrev pub split : ℕ → Bytes → List Bytes
split sep [] = [] ∷ []
split sep (c ∷ cs) = if c == sep then [] ∷ split sep cs else extend c (split sep cs)

abbrev is_digit : ℕ → Bool
is_digit c = leb b'0' c && leb c b'9'

abbrev all_digits : Bytes → Bool
all_digits [] = true
all_digits (c ∷ cs) = is_digit c && all_digits cs

abbrev non_empty : Bytes → Bool
non_empty [] = false
non_empty (c ∷ cs) = true

-- The loop over the parts.
abbrev parts_ok : List Bytes → Bool
parts_ok [] = true
parts_ok (p ∷ ps) = non_empty p && all_digits p && parts_ok ps

unfoldable pub is_valid_stage_id : Bytes → Bool
is_valid_stage_id id =
    let parts = split b'.' id in
    if ltb (length id) 3 then false else if not (length parts == 2) then false else parts_ok parts

-- One digit or more.
pub record IsNumber (s : Bytes) : Type 0 where
  pub some_digit : 0 < length s
  pub digits : all_digits s ≡ true

split_digits :
    (p : Bytes) → all_digits p ≡ true → (q : Bytes) → split b'.' (p ++ b'.' ∷ q) ≡ p ∷ split b'.' q
split_digits [] h q = refl
split_digits (c ∷ p) h q = ground (arith, split_digits p (ground arith) q)

split_digits_end : (p : Bytes) → all_digits p ≡ true → split b'.' p ≡ p ∷ []
split_digits_end [] h = refl
split_digits_end (c ∷ p) h = ground (arith, split_digits_end p (ground arith))

-- strings.Join with the dot.
abbrev join : List Bytes → Bytes
join [] = []
join (p ∷ []) = p
join (p ∷ q ∷ ps) = p ++ b'.' ∷ join (q ∷ ps)

join-extend : (c : ℕ) (ps : List Bytes) → join (extend c ps) ≡ c ∷ join ps
join-extend c [] = refl
join-extend c (p ∷ []) = refl
join-extend c (p ∷ q ∷ ps) = refl

split-cons : (s : Bytes) → (p : Bytes) × (ps : List Bytes) × (split b'.' s ≡ p ∷ ps)
split-cons [] = ([], [], refl)
split-cons (c ∷ s) = elim (Bool-cases (c == b'.')) [
  | inl dot ↦ ([], split b'.' s, rw dot)
  | inr other ↦ let (p, ps, e) = split-cons s in (c ∷ p, ps, rw (other, e))
]

join-split : (s : Bytes) → join (split b'.' s) ≡ s
join-split [] = refl
join-split (c ∷ s) = elim (Bool-cases (c == b'.')) [
  | inl dot ↦ let (p, ps, e) = split-cons s in rw (dot, e) (ground (arith, join-split s, e))
  | inr other ↦ rw other (join-extend c (split b'.' s) ∙ ap (λ t. c ∷ t) (join-split s))
]

IsNumber-of_part : (p : Bytes) → non_empty p ≡ true → all_digits p ≡ true → IsNumber p
IsNumber-of_part [] n d = absurd (ground arith)
IsNumber-of_part (c ∷ p) n d = record { some_digit = omega arith; digits = d }

parts_ok_of : (p : Bytes) → IsNumber p → (non_empty p && all_digits p) ≡ true
parts_ok_of [] n = absurd (omega (arith, n.some_digit))
parts_ok_of (c ∷ p) n = n.digits

parts_of_valid :
    (ps : List Bytes)
    → length ps ≡ 2
    → parts_ok ps ≡ true
    → (a : Bytes) × (b : Bytes) × (ps ≡ a ∷ b ∷ []) × IsNumber a × IsNumber b
parts_of_valid (a ∷ b ∷ []) l ok = (
  a,
  b,
  refl,
  IsNumber-of_part a (ground arith) (ground arith),
  IsNumber-of_part b (ground arith) (ground arith),
)
parts_of_valid [] l ok = absurd (omega arith)
parts_of_valid (a ∷ []) l ok = absurd (omega arith)
parts_of_valid (a ∷ b ∷ c ∷ ps) l ok = absurd (omega arith)

valid_tests :
    (s : Bytes)
    → is_valid_stage_id s ≡ true
    → (length (split b'.' s) ≡ 2) × (parts_ok (split b'.' s) ≡ true)
unfolding is_valid_stage_id
valid_tests s ok = ground arith

valid_of_numbers :
    (a b : Bytes) → IsNumber a → IsNumber b → is_valid_stage_id (a ++ b'.' ∷ b) ≡ true
unfolding is_valid_stage_id
valid_of_numbers a b na nb =
    rw (split_digits a na.digits b, split_digits_end b nb.digits)
      (ground (arith, length-append a (b'.' ∷ b), parts_ok_of a na, parts_ok_of b nb))

-- A text is a valid stage id exactly when it is two numbers of one digit or more with one dot
-- between them.
pub is_valid_stage_id_iff :
    (s : Bytes)
    → (is_valid_stage_id s ≡ true)
      ↔ ((a : Bytes) × (b : Bytes) × (s ≡ a ++ b'.' ∷ b) × IsNumber a × IsNumber b)
is_valid_stage_id_iff s = (
  (λ ok.
      let (two, each) = valid_tests s ok in
      let (a, b, e, na, nb) = parts_of_valid (split b'.' s) two each in
      (a, b, sym (join-split s) ∙ ap join e, na, nb)),
  (λ (a, b, e, na, nb). rw e (valid_of_numbers a b na nb)),
)
