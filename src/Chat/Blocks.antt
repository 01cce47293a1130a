-- ===== src/Chat/Blocks.antt =====
-- internal/chat/parser.go: extractBlocks. Texts are lists of characters, of which those of the tags
-- are ASCII.
use mathlib.Core.Option
use devteam.Prelude.{
  List, Option, Text, [], length, none, some, suc, zero, ℕ, ◌∷◌, ◌++◌, ◌==◌, if◌then◌else◌, nat_eq,
  string_eq, text_eq,
}

-- What stands behind a prefix, if the text has it.
abbrev pub strip : Text → Text → Option Text
strip [] s = some s
strip (k ∷ ks) [] = none
strip (k ∷ ks) (c ∷ s) = if c == k then strip ks s else none

abbrev pub before : ℕ → Option (Text × Text) → Option (Text × Text)
before c none = none
before c (some (pre, post)) = some (c ∷ pre, post)

-- strings.Index with the slices before and behind what is found first.
unfoldable pub split_at : Text → Text → Option (Text × Text)
split_at key [] = Option.map (λ post. ([], post)) (strip key [])
split_at key (c ∷ s) = elim (strip key (c ∷ s)) [
  | some post ↦ some ([], post)
  | none ↦ before c (split_at key s)
]

module _ {T : Type 0} (open_tag close_tag : Text) (parser : Text → Option T) where
  -- The block is removed if its body parses, and stays as it was if not.
  abbrev pub add_block : Text → Text → Option T → Text × List T → Text × List T
  add_block pre body (some t) (out, ts) = (pre ++ out, t ∷ ts)
  add_block pre body none (out, ts) = (pre ++ (open_tag ++ (body ++ (close_tag ++ out))), ts)

  -- The loop, for at most `fuel` turns.
  unfoldable pub extract_loop : ℕ → Text → Option (Text × List T)
  extract_loop zero rest = none
  extract_loop (suc fuel) rest = elim (split_at open_tag rest) [
    | none ↦ some (rest, [])
    | some (pre, after) ↦ elim (split_at close_tag after) [
      | none ↦ some (pre ++ (open_tag ++ after), [])
      | some (body, more) ↦ Option.map (add_block pre body (parser body)) (extract_loop fuel more)
    ]
  ]

  -- Every turn but the last leaves a shorter rest.
  unfoldable pub extract_blocks : Text → Option (Text × List T)
  extract_blocks text = extract_loop (suc (length text)) text
