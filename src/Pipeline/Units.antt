-- ===== src/Pipeline/Units.antt =====
-- internal/pipeline/bolts.go: reading the units of work and their dependencies from artifacts.
-- `is_space` stands for Go's unicode.IsSpace, which strings.TrimSpace calls.
use mathlib.Core.Option
use devteam.Prelude.{
  Bool, List, Option, Text, [], codes, contains, drop, false, has_prefix, length, none, some, suc,
  true, ℕ, ◌||◌, ◌∷◌, ◌++◌, ◌==◌, if◌then◌else◌, nat_eq, string_eq, text_eq,
}
use devteam.Stage.Ids.{split}

-- The text behind the first `n` characters.
module _ (is_space : ℕ → Bool) where
  trim_left : Text → Text
  trim_left [] = []
  trim_left (c ∷ s) = if is_space c then trim_left s else c ∷ s

  abbrev keep_unless_blank : ℕ → Text → Text
  keep_unless_blank c [] = if is_space c then [] else c ∷ []
  keep_unless_blank c (d ∷ s) = c ∷ d ∷ s

  trim_right : Text → Text
  trim_right [] = []
  trim_right (c ∷ s) = keep_unless_blank c (trim_right s)

  unfoldable pub trim_space : Text → Text
  unfolding trim_left trim_right
  trim_space s = trim_right (trim_left s)

-- Of strings.SplitN(line, " ", 4) only the third piece is read, the third of a split without end.
abbrev third : List Text → List Text
third (a ∷ b ∷ c ∷ _) = c ∷ []
third _ = []

-- The unit that a trimmed line names, if it is a heading of one.
abbrev unit_of_line : Text → List Text
unit_of_line line =
    if has_prefix line (codes "## Unit ") || has_prefix line (codes "### Unit ")
    then third (split b' ' line)
    else []

abbrev units_of_lines : (ℕ → Bool) → List Text → List Text
units_of_lines is_space [] = []
units_of_lines is_space (line ∷ ls) =
    unit_of_line (trim_space is_space line) ++ units_of_lines is_space ls

-- extractUnitsFromArtifacts, of the content of the artifact unit-of-work.
unfoldable pub extract_units : (ℕ → Bool) → Option Text → List Text
unfolding trim_space
extract_units is_space none = []
extract_units is_space (some content) = units_of_lines is_space (split b'\n' content)

-- The number of the last unit of that name, the first having number `i`.
abbrev pub unit_to_bolt : ℕ → List Text → Text → Option ℕ
unit_to_bolt i [] u = none
unit_to_bolt i (x ∷ xs) u = elim (unit_to_bolt (suc i) xs u) [
  | some n ↦ some n
  | none ↦ if x == u then some i else none
]

-- strings.SplitN(s, sep, 2) where the separator is there.
abbrev cut : Text → Text → Option (Text × Text)
cut sep [] = none
cut sep (c ∷ s) =
    if has_prefix (c ∷ s) sep
    then some ([], drop (length sep) (c ∷ s))
    else Option.map (λ (a, b). (c ∷ a, b)) (cut sep s)

abbrev trim_dash : Text → Text
trim_dash [] = []
trim_dash (c ∷ s) = if c == b'-' then s else c ∷ s

abbrev is_empty : Text → Bool
is_empty [] = true
is_empty (c ∷ s) = false

-- The dependent and the dependency that a line names.
unfoldable pub edge_of_line : (ℕ → Bool) → Text → Option (Text × Text)
unfolding trim_space
edge_of_line is_space raw =
    let line = trim_space is_space raw in
    let item = trim_space is_space (trim_dash line) in
    let trimmed : Text × Text → Text × Text =
      λ (a, b). (trim_space is_space a, trim_space is_space b) in
    if is_empty line || has_prefix line (codes "#")
    then none
    else if contains item (codes " depends on ")
    then Option.map trimmed (cut (codes " depends on ") item)
    else if contains item (codes " -> ")
    then Option.map trimmed (cut (codes " -> ") item)
    else none

-- What a line adds to the map of dependencies.
abbrev pub bolts_of_edge : Option ℕ → Option ℕ → List (ℕ × ℕ)
bolts_of_edge (some a) (some b) = if a == b then [] else (a, b) ∷ []
bolts_of_edge _ _ = []

abbrev pub edge_bolts : List Text → Option (Text × Text) → List (ℕ × ℕ)
edge_bolts units none = []
edge_bolts units (some (dependent, dependency)) =
    bolts_of_edge (unit_to_bolt 1 units dependent) (unit_to_bolt 1 units dependency)

abbrev pub edges_of_lines : (ℕ → Bool) → List Text → List Text → List (ℕ × ℕ)
edges_of_lines is_space units [] = []
edges_of_lines is_space units (line ∷ ls) =
    edge_bolts units (edge_of_line is_space line) ++ edges_of_lines is_space units ls

-- extractBoltDependencies: the map of dependencies as its pairs, in the order in which they are
-- appended.
unfoldable pub extract_bolt_dependencies : (ℕ → Bool) → Option Text → List Text → List (ℕ × ℕ)
unfolding edge_of_line
extract_bolt_dependencies is_space none units = []
extract_bolt_dependencies is_space (some content) units =
    edges_of_lines is_space units (split b'\n' content)
