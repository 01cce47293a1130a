-- ===== src/Chat/Cut.antt =====
-- internal/chat/parser.go: extractBlocks ends, and loses nothing.
use mathlib.Core.List.{append_assoc}
use mathlib.Core.Option.{some-injective}
use devteam.Prelude.{
  Bool-cases, Option, Option-cases, Text, [], ap, arith, beq_refl, contains, contains_iff, false,
  inl, inr, length, length-append, nat_eq, none, refl, some, sym, ℕ, ◌≤◌, ◌<◌, ◌≡◌, ◌∙◌, ◌∷◌, ◌++◌,
  ◌==◌, string_eq, text_eq,
}
use devteam.Chat.Blocks.{strip, before, split_at}

strip_sound : (k s post : Text) → strip k s ≡ some post → s ≡ k ++ post
strip_sound [] s post e = some-injective _ _ e
strip_sound (k ∷ ks) [] post e = absurd (cc e)
strip_sound (k ∷ ks) (c ∷ s) post e = elim (Bool-cases (c == k)) [
  | inl h ↦ rw (← (nat_eq.beq_iff c k).0 h) (ap (λ t. c ∷ t) (strip_sound ks s post (rw h at e)))
  | inr h ↦ absurd (cc (rw h at e))
]

before_sound :
    (c : ℕ) (o : Option (Text × Text)) (pre post : Text)
    → before c o ≡ some (pre, post)
    → (rest : Text) × (pre ≡ c ∷ rest) × (o ≡ some (rest, post))
before_sound c none pre post e = absurd (cc e)
before_sound c (some (rest, behind)) pre post e =
    let same = some-injective _ _ e in
    (rest, sym (ap (λ p. p.0) same), ap (λ b. some (rest, b)) (ap (λ p. p.1) same))

pub split_at_sound :
    (key s pre post : Text) → split_at key s ≡ some (pre, post) → s ≡ pre ++ (key ++ post)
unfolding split_at
split_at_sound key [] pre post e = elim (Option-cases (strip key [])) [
  | inl h ↦ absurd (cc (rw h at e))
  | inr (t, h) ↦
      let same = some-injective _ _ (rw (split_at, h) at e) in
      rw (← ap (λ p. p.0) same, ← ap (λ p. p.1) same) (strip_sound key [] t h)
]
split_at_sound key (c ∷ s) pre post e = elim (Option-cases (strip key (c ∷ s))) [
  | inr (t, h) ↦
      let same = some-injective _ _ (rw (split_at, h) at e) in
      rw (← ap (λ p. p.0) same, ← ap (λ p. p.1) same) (strip_sound key (c ∷ s) t h)
  | inl h ↦
      let (rest, p, o) = before_sound c (split_at key s) pre post (rw (split_at, h) at e) in
      rw p (ap (λ t. c ∷ t) (split_at_sound key s rest post o))
]

strip-append : (k post : Text) → strip k (k ++ post) ≡ some post
strip-append [] post = refl
strip-append (c ∷ k) post = rw (beq_refl c) (strip-append k post)

split_at-strip : (key s post : Text) → strip key s ≡ some post → split_at key s ≡ some ([], post)
unfolding split_at
split_at-strip key [] post e = rw e refl
split_at-strip key (c ∷ s) post e = rw (split_at, e) refl

-- What stands in a text is found, there or before.
split_at-append :
    (key a b : Text)
    → (pre : Text) × (post : Text) × (split_at key (a ++ (key ++ b)) ≡ some (pre, post))
      × (length pre ≤ length a)
unfolding split_at
split_at-append key [] b =
    ([], b, split_at-strip key (key ++ b) b (strip-append key b), ground arith)
split_at-append key (c ∷ a) b =
    let s = a ++ (key ++ b) in
    elim (Option-cases (strip key (c ∷ s))) [
      | inr (post, h) ↦ ([], post, rw (split_at, h) refl, ground arith)
      | inl h ↦
          let (pre, post, e, le) = split_at-append key a b in
          (c ∷ pre, post, rw (split_at, h, e) refl, omega (arith, le))
    ]

pub split_at-none : (key s : Text) → split_at key s ≡ none → contains s key ≡ false
split_at-none key s e = elim (Bool-cases (contains s key)) [
  | inr h ↦ h
  | inl h ↦
      let (a, b, same) = (contains_iff s key).0 h in
      let (pre, post, found, le) = split_at-append key a b in absurd (cc (e, same, found))
]

pub split_at-before :
    (key s pre post : Text)
    → 0 < length key
    → split_at key s ≡ some (pre, post)
    → contains pre key ≡ false
split_at-before key s pre post some_key e = elim (Bool-cases (contains pre key)) [
  | inr h ↦ h
  | inl h ↦
      let (a, b, same) = (contains_iff pre key).0 h in
      let (pre', post', found, le) = split_at-append key a (b ++ (key ++ post)) in
      let whole : s ≡ a ++ (key ++ (b ++ (key ++ post))) =
        split_at_sound key s pre post e
        ∙ rw same (
            append_assoc a (key ++ b) (key ++ post)
            ∙ ap (λ t. a ++ t) (append_assoc key b (key ++ post))) in
      let equal = some-injective _ _ (sym e ∙ ap (split_at key) whole ∙ found) in
      absurd (
        omega (
          arith,
          le,
          ap (λ p. length p.0) equal,
          ap length same,
          length-append a (key ++ b),
          length-append key b,
          some_key,
        ))
]
