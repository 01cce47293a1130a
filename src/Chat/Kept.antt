-- ===== src/Chat/Kept.antt =====
-- internal/chat/parser.go: extractBlocks ends, and passes on all that it does not parse.
use mathlib.Core.List.{append_assoc, append-nil}
use mathlib.Core.Option
use devteam.Prelude.{
  List, Option, Option-cases, Text, [], ap, arith, contains, false, inl, inr, length, length-append,
  none, refl, some, suc, sym, zero, ℕ, ◌+◌, ◌≤◌, ◌<◌, ◌≡◌, ◌∙◌, ◌∷◌, ◌++◌,
}
use devteam.Chat.Blocks.{split_at, add_block, extract_loop, extract_blocks}
use devteam.Chat.Cut.{split_at_sound, split_at-none, split_at-before}

-- How a text is cut: text without an opening tag, a block that is taken out, a block whose body does
-- not parse, and an opening tag that is never closed with what stands behind.
pub data Piece (T : Type 0) : Type 0 where
  plain unclosed malformed : Text → Piece T
  taken : Text → T → Piece T

module _ {T : Type 0} (open_tag close_tag : Text) (parser : Text → Option T) where
  abbrev tagged : Text → Text
  tagged body = open_tag ++ (body ++ close_tag)

  abbrev text_of : Piece T → Text
  text_of (plain s) = s
  text_of (unclosed s) = open_tag ++ s
  text_of (malformed body) = tagged body
  text_of (taken body t) = tagged body

  -- The text, put together from its pieces.
  abbrev pub whole : List (Piece T) → Text
  whole [] = []
  whole (p ∷ ps) = text_of p ++ whole ps

  -- What is left without the blocks that are taken out.
  abbrev pub shown : List (Piece T) → Text
  shown [] = []
  shown (taken body t ∷ ps) = shown ps
  shown (plain s ∷ ps) = s ++ shown ps
  shown (unclosed s ∷ ps) = (open_tag ++ s) ++ shown ps
  shown (malformed body ∷ ps) = tagged body ++ shown ps

  abbrev pub results : List (Piece T) → List T
  results [] = []
  results (taken body t ∷ ps) = t ∷ results ps
  results (plain s ∷ ps) = results ps
  results (unclosed s ∷ ps) = results ps
  results (malformed body ∷ ps) = results ps

  -- Text without an opening tag and blocks take turns, from a text on; a tag that is never closed
  -- comes last, or a text does. So the text has one cut at most, as its opening tags are found from
  -- the left and each is closed by the first closing tag behind it.
  abbrev pub Alternates : List (Piece T) → Type 0
  Alternates (plain s ∷ []) = contains s open_tag ≡ false
  Alternates (plain s ∷ unclosed t ∷ []) =
      (contains s open_tag ≡ false) × (contains t close_tag ≡ false)
  Alternates (plain s ∷ malformed body ∷ ps) =
      (contains s open_tag ≡ false)
      × ((contains body close_tag ≡ false) × (parser body ≡ none))
      × Alternates ps
  Alternates (plain s ∷ taken body t ∷ ps) =
      (contains s open_tag ≡ false)
      × ((contains body close_tag ≡ false) × (parser body ≡ some t))
      × Alternates ps
  Alternates _ = ⊥

  -- A cut of the text of which the output and the results are made.
  abbrev pub IsCut : Text → Option (Text × List T) → Type 0
  IsCut text out =
      (ps : List (Piece T)) × (whole ps ≡ text)
      × Alternates ps
      × (out ≡ some (shown ps, results ps))

  tagged-append : (body s : Text) → tagged body ++ s ≡ open_tag ++ (body ++ (close_tag ++ s))
  tagged-append body s =
      append_assoc open_tag (body ++ close_tag) s
      ∙ ap (λ t. open_tag ++ t) (append_assoc body close_tag s)

  loop-step :
      (fuel : ℕ) (rest pre after body more : Text)
      → 0 < length open_tag
      → 0 < length close_tag
      → split_at open_tag rest ≡ some (pre, after)
      → split_at close_tag after ≡ some (body, more)
      → IsCut more (extract_loop open_tag close_tag parser fuel more)
      → IsCut rest (
          Option.map
            (add_block open_tag close_tag parser pre body (parser body))
            (extract_loop open_tag close_tag parser fuel more))
  loop-step fuel rest pre after body more o c e f (ps, w, all, out) =
      let source : pre ++ (tagged body ++ whole ps) ≡ rest =
        ap (λ t. pre ++ t)
          (tagged-append body (whole ps)
            ∙ ap (λ t. open_tag ++ (body ++ (close_tag ++ t))) w
            ∙ ap (λ t. open_tag ++ t) (sym (split_at_sound close_tag after body more f)))
        ∙ sym (split_at_sound open_tag rest pre after e) in
      let free = split_at-before open_tag rest pre after o e in
      let closed = split_at-before close_tag after body more c f in
      elim (Option-cases (parser body)) [
        | inr (t, p) ↦
            (plain pre ∷ taken body t ∷ ps, source, (free, (closed, p), all), rw (out, p) refl)
        | inl p ↦ (
          plain pre ∷ malformed body ∷ ps,
          source,
          (free, (closed, p), all),
          rw (out, p) (ap (λ t. some (pre ++ t, results ps)) (sym (tagged-append body (shown ps)))),
        )
      ]

  shorter :
      (key s pre post : Text)
      → split_at key s ≡ some (pre, post)
      → length key + length post ≤ length s
  shorter key s pre post e = omega (
    arith,
    ap length (split_at_sound key s pre post e),
    length-append pre (key ++ post),
    length-append key post,
  )

  loop-IsCut :
      (fuel : ℕ) (rest : Text)
      → 0 < length open_tag
      → 0 < length close_tag
      → length rest < fuel
      → IsCut rest (extract_loop open_tag close_tag parser fuel rest)
  unfolding extract_loop
  loop-IsCut zero rest o c h = absurd (omega (arith, h))
  loop-IsCut (suc fuel) rest o c h = elim (Option-cases (split_at open_tag rest)) [
    | inl e ↦ (
      plain rest ∷ [],
      append-nil rest,
      split_at-none open_tag rest e,
      rw (extract_loop, e) (ap (λ t. some (t, [])) (sym (append-nil rest))),
    )
    | inr ((pre, after), e) ↦ elim (Option-cases (split_at close_tag after)) [
      | inl f ↦ (
        plain pre ∷ unclosed after ∷ [],
        ap (λ t. pre ++ t) (append-nil (open_tag ++ after))
            ∙ sym (split_at_sound open_tag rest pre after e),
        (split_at-before open_tag rest pre after o e, split_at-none close_tag after f),
        rw (extract_loop, e, f)
            (ap (λ t. some (pre ++ t, [])) (sym (append-nil (open_tag ++ after)))),
      )
      | inr ((body, more), f) ↦
          rw (extract_loop, e, f)
            (loop-step fuel rest pre after body more o c e f (
              loop-IsCut fuel more o c (
                omega (
                  arith,
                  h,
                  o,
                  shorter open_tag rest pre after e,
                  shorter close_tag after body more f,
                ))))
    ]
  ]

  -- extractBlocks ends with a result for every text, if its tags are not empty. The text can be cut
  -- into text without an opening tag and blocks, by turns, each block from an opening tag to the
  -- first closing tag behind it, and what follows a last opening tag that is never closed; the
  -- results are those of the blocks that parse, in order, and the output is the text without these
  -- blocks and with all the rest as it was.
  pub extract_blocks-IsCut :
      (text : Text)
      → 0 < length open_tag
      → 0 < length close_tag
      → IsCut text (extract_blocks open_tag close_tag parser text)
  unfolding extract_blocks
  extract_blocks-IsCut text o c = loop-IsCut (suc (length text)) text o c (omega arith)
