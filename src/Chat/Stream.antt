-- ===== src/Chat/Stream.antt =====
-- internal/chat/parser.go: what ParseStream makes of a stream.
use devteam.Prelude.{Bool, List, Text, arith, codes, refl, some, ℕ, ◌≡◌}
use devteam.Chat.Parser.{
  Citation, ParseResult, parse_tool_call_body, parse_citations_body, flat, parse_stream,
}
use devteam.Chat.Kept.{IsCut, extract_blocks-IsCut, shown, results}

-- ParseStream ends with a result for every stream. There is a text between the two extractions: the
-- stream is cut, at its opening tags from the left and the first closing tag behind each, into pieces
-- of which the calls are those of the blocks that parse and this text is
-- all the rest, and this text is cut likewise into the citations and the text of the result.
pub parse_stream-IsCut :
    (is_space : ℕ → Bool) (stream : Text)
    → (r : ParseResult) × (between : Text) × (entries : List (List Citation)) × (parse_stream
          is_space stream
        ≡ some r)
      × IsCut
          (codes "<tool-call>")
          (codes "</tool-call>")
          (parse_tool_call_body is_space)
          stream
          (some (between, r.tool_calls))
      × IsCut
          (codes "<citations>")
          (codes "</citations>")
          (parse_citations_body is_space)
          between
          (some (r.text, entries))
      × (r.citations ≡ flat entries)
unfolding parse_stream
parse_stream-IsCut is_space stream =
    let (ps, w, all, out) =
      extract_blocks-IsCut (codes "<tool-call>") (codes "</tool-call>")
        (parse_tool_call_body is_space) stream (ground arith) (ground arith) in
    let calls =
      results (codes "<tool-call>") (codes "</tool-call>") (parse_tool_call_body is_space) ps in
    let between =
      shown (codes "<tool-call>") (codes "</tool-call>") (parse_tool_call_body is_space) ps in
    let (qs, v, each, end) =
      extract_blocks-IsCut (codes "<citations>") (codes "</citations>")
        (parse_citations_body is_space) between (ground arith) (ground arith) in
    let text =
      shown (codes "<citations>") (codes "</citations>") (parse_citations_body is_space) qs in
    let entries =
      results (codes "<citations>") (codes "</citations>") (parse_citations_body is_space) qs in
    let r : ParseResult = record { text = text; tool_calls = calls; citations = flat entries } in
    (
      r,
      between,
      entries,
      rw (parse_stream, out, end) refl,
      (ps, w, all, refl),
      (qs, v, each, refl),
      refl,
    )
