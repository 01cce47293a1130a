-- ===== src/Chat/Parser.antt =====
-- internal/chat/parser.go: ParseStream. `is_space` stands for Go's unicode.IsSpace, which
-- strings.TrimSpace calls.
use mathlib.Core.Option
use devteam.Prelude.{
  Bool, List, Option, Text, [], codes, false, map, none, some, true, ℕ, ◌∷◌, ◌++◌, ◌==◌,
  if◌then◌else◌, nat_eq, string_eq, text_eq,
}
use devteam.Stage.Ids.{split}
use devteam.Pipeline.Units.{trim_space}
use devteam.Chat.Blocks.{strip, split_at, extract_blocks}

pub record ToolCall : Type 0 where
  pub verb : Text
  pub args : Text

pub record Citation : Type 0 where
  pub file : Text
  pub section : Text
  pub lines : Text

pub record ParseResult : Type 0 where
  pub text : Text
  pub tool_calls : List ToolCall
  pub citations : List Citation

abbrev is_empty : Text → Bool
is_empty [] = true
is_empty (c ∷ s) = false

-- strings.Join with a space.
abbrev spaced : List Text → Text
spaced [] = []
spaced (s ∷ []) = s
spaced (s ∷ t ∷ ss) = s ++ (b' ' ∷ spaced (t ∷ ss))

abbrev pub flat : List (List Citation) → List Citation
flat [] = []
flat (cs ∷ css) = cs ++ flat css

module _ (is_space : ℕ → Bool) where
  abbrev lines_of : Text → List Text
  lines_of body = map (trim_space is_space) (split b'\n' (trim_space is_space body))

  -- The verb and the arguments that the trimmed lines give; a later verb wins.
  abbrev read_verb : Text → List Text → Text
  read_verb verb [] = verb
  read_verb verb (line ∷ ls) = elim (strip (codes "verb:") line) [
    | some v ↦ read_verb (trim_space is_space v) ls
    | none ↦ read_verb verb ls
  ]

  abbrev read_args : List Text → List Text
  read_args [] = []
  read_args (line ∷ ls) = elim (strip (codes "verb:") line) [
    | some v ↦ read_args ls
    | none ↦ elim (strip (codes "args:") line) [
      | some a ↦ trim_space is_space a ∷ read_args ls
      | none ↦ read_args ls
    ]
  ]

  unfoldable pub parse_tool_call_body : Text → Option ToolCall
  parse_tool_call_body body =
      let verb = read_verb [] (lines_of body) in
      if is_empty verb
      then none
      else some (record { verb = verb; args = spaced (read_args (lines_of body)) })

  abbrev set_field : Citation → Text → Text → Citation
  set_field c key value =
      if key == codes "file"
      then record c { file = value }
      else if key == codes "section"
      then record c { section = value }
      else if key == codes "lines"
      then record c { lines = value }
      else c

  -- A line that goes on with an entry, if it has a colon.
  abbrev with_field : Citation → Text → Citation
  with_field c line = elim (split_at (codes ":") line) [
    | none ↦ c
    | some (key, value) ↦ set_field c (trim_space is_space key) (trim_space is_space value)
  ]

  abbrev new_entry : Text → Citation
  new_entry item =
      let rest = trim_space is_space item in
      record {
        file = elim (strip (codes "file:") rest) [
          | some file ↦ trim_space is_space file
          | none ↦ rest
        ];
        section = [];
        lines = [];
      }

  abbrev finished : Option Citation → List Citation
  finished none = []
  finished (some c) = c ∷ []

  -- The loop over the trimmed lines, with the entry that is being read.
  abbrev read_citations : Option Citation → List Text → List Citation
  read_citations cur [] = finished cur
  read_citations cur (line ∷ ls) =
      if is_empty line then read_citations cur ls else elim (strip (codes "- ") line) [
        | some item ↦ finished cur ++ read_citations (some (new_entry item)) ls
        | none ↦ read_citations (Option.map (λ c. with_field c line) cur) ls
      ]

  abbrev some_entries : List Citation → Option (List Citation)
  some_entries [] = none
  some_entries (c ∷ cs) = some (c ∷ cs)

  unfoldable pub parse_citations_body : Text → Option (List Citation)
  parse_citations_body body = some_entries (read_citations none (lines_of body))

  abbrev pub extract_tool_calls : Text → Option (Text × List ToolCall)
  extract_tool_calls =
      extract_blocks (codes "<tool-call>") (codes "</tool-call>") parse_tool_call_body

  abbrev pub extract_citations : Text → Option (Text × List (List Citation))
  extract_citations =
      extract_blocks (codes "<citations>") (codes "</citations>") parse_citations_body

  abbrev with_citations : List ToolCall → Text × List (List Citation) → ParseResult
  with_citations calls (text, entries) = record {
    text = text;
    tool_calls = calls;
    citations = flat entries;
  }

  -- The citations are looked for in what the extraction of the calls leaves.
  unfoldable pub parse_stream : Text → Option ParseResult
  parse_stream stream = elim (extract_tool_calls stream) [
    | none ↦ none
    | some (text, calls) ↦ Option.map (with_citations calls) (extract_citations text)
  ]
