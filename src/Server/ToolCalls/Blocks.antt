-- ===== src/Server/ToolCalls/Blocks.antt =====
-- The loop over the blocks of tool calls, against a description of what is cut out of the text.
use questwend.Prelude.{
  ℕ, zero, suc, ◌+◌, ◌-◌, ◌≤◌, ◌<◌, ◌≡◌, refl, sym, ap, ◌∙◌, List, [], ◌∷◌, ◌++◌, append_assoc,
  Bytes, codes, Bool, true, false, Option, none, some, length, length-append, length-drop,
  length-take, take, drop, take-append-drop, cut_at, begins_with, begins_with-split, find, substr,
  arith, Option-cases, inl, inr,
}
use mathlib.Core.Path.{subst}
use questwend.Prelude.Dict.{Dict}
use questwend.Prelude.Indexing.{drop-drop}
use questwend.Chat.Trim.{drop_end}
use questwend.Server.Reasoning.{is_blank}
use questwend.Server.Router.Find.{IsAbsentBelow, find-some, find-from}
use questwend.Server.Stream.Clip.{take-length_append}
use questwend.Server.ToolCalls.{
  Json, ParsedToolCall, block_loop, parse_blocks, scan_start, read_function,
}
use questwend.Server.ToolCalls.CallList.{parse_tool_calls, parse_tool_calls_lfm2, read_calls}

append-is_nil : (xs ys : List ParsedToolCall) → xs ++ ys ≡ [] → (xs ≡ []) × (ys ≡ [])
append-is_nil [] ys h = (refl, h)
append-is_nil (x ∷ xs) ys h = absurd (ground arith)

module _ (open_mark close_mark : Bytes) (read : Bytes → Option (List ParsedToolCall)) where
  -- What stays of a block: all of it if no call is read from it.
  unfoldable pub kept : Bytes → List ParsedToolCall → Bytes
  kept block [] = block ++ close_mark
  kept block (call ∷ calls) = []

  -- The first block of a text: from the first opening marker to the first closing one behind it.
  pub record IsBlock (text plain inside later : Bytes) : Type 0 where
    pub parts : text ≡ plain ++ (inside ++ (close_mark ++ later))
    pub first : IsAbsentBelow open_mark text (length plain)
    pub opened : begins_with open_mark (drop (length plain) text) ≡ true
    pub closed : IsAbsentBelow close_mark (drop (length plain) text) (length inside)

  -- A text, what is left of it and its calls, where each block is read. The text behind the last block
  -- stays.
  pub data IsCut : Bytes → Bytes → List ParsedToolCall → Type 0 where
    no_opening : {text : Bytes} → find text open_mark 0 ≡ none → IsCut text text []
    no_closing :
        {text : Bytes} (a : ℕ)
        → find text open_mark 0 ≡ some a
        → find text close_mark a ≡ none
        → IsCut text text []
    block :
        {text : Bytes} (plain inside later : Bytes) {out : Bytes} {got calls : List ParsedToolCall}
        → IsBlock text plain inside later
        → read inside ≡ some got
        → IsCut later out calls
        → IsCut text (plain ++ (kept inside got ++ out)) (got ++ calls)

  -- Reading one of the blocks, and none before it, throws.
  pub data IsThrown : Bytes → Type 0 where
    here :
        {text : Bytes} (plain inside later : Bytes)
        → IsBlock text plain inside later
        → read inside ≡ none
        → IsThrown text
    behind :
        {text : Bytes} (plain inside later : Bytes) {got : List ParsedToolCall}
        → IsBlock text plain inside later
        → read inside ≡ some got
        → IsThrown later
        → IsThrown text

  -- The outcome of the loop.
  unfoldable pub IsOutcome : Bytes → Option (Bytes × List ParsedToolCall) → Type 0
  IsOutcome text none = IsThrown text
  IsOutcome text (some r) = IsCut text r.0 r.1

  -- If no call is read, the whole text stays.
  pub IsCut-none :
      {text out : Bytes} {calls : List ParsedToolCall}
      → IsCut text out calls
      → calls ≡ []
      → out ≡ text
  unfolding kept
  IsCut-none (no_opening e) h = refl
  IsCut-none (no_closing a e k) h = refl
  IsCut-none (block plain inside later {out} {got} {calls} it e rest) h =
      let (none_read, none_later) = append-is_nil got calls h in
      rw none_read (
        ap (λ t. plain ++ t)
          (append_assoc inside close_mark out
            ∙ ap (λ t. inside ++ (close_mark ++ t)) (IsCut-none rest none_later))
        ∙ sym it.parts)

  -- What a round takes for the block from place `a` to place `b`.
  kept_in_text : Bytes → ℕ → ℕ → List ParsedToolCall → Bytes
  kept_in_text text a b [] = substr text a (b + length close_mark - a)
  kept_in_text text a b (call ∷ calls) = []

  kept_in_text_same :
      (text : Bytes) (a b : ℕ) (got : List ParsedToolCall)
      → a ≤ b
      → b ≤ length text
      → drop a text ≡ substr text a (b - a) ++ (close_mark ++ drop (b + length close_mark) text)
      → kept_in_text text a b got ≡ kept (substr text a (b - a)) got
  unfolding kept kept_in_text
  kept_in_text_same text a b (call ∷ calls) le bound parts = refl
  kept_in_text_same text a b [] le bound parts =
      let inside = substr text a (b - a) in
      let later = drop (b + length close_mark) text in
      let size : b + length close_mark - a ≡ length (inside ++ close_mark) = omega (
        arith,
        length-append inside close_mark,
        length-take (b - a) (drop a text),
        length-drop a text,
      ) in
      rw size (
        ap (take (length (inside ++ close_mark)))
          (parts ∙ sym (append_assoc inside close_mark later))
        ∙ take-length_append (inside ++ close_mark) later)

  -- A round with a block, by what reading it and the rest of the loop give.
  joined :
      Bytes
      → ℕ
      → ℕ
      → Option (List ParsedToolCall)
      → Option (Bytes × List ParsedToolCall)
      → Option (Bytes × List ParsedToolCall)
  joined text a b got rest = elim got [
    | none ↦ none
    | some calls ↦ elim rest [
      | none ↦ none
      | some r ↦ some (take a text ++ (kept_in_text text a b calls ++ r.0), calls ++ r.1)
    ]
  ]

  block_loop-round :
      (rounds : ℕ) (text : Bytes) (a b : ℕ)
      → find text open_mark 0 ≡ some a
      → find text close_mark a ≡ some b
      → block_loop open_mark close_mark read (suc rounds) text
        ≡ joined text a b
            (read (substr text a (b - a)))
            (block_loop open_mark close_mark read rounds (drop (b + length close_mark) text))
  unfolding block_loop kept_in_text joined
  block_loop-round rounds text a b e k = rw (e, block_loop) (rw k refl)

  joined-IsOutcome :
      (text inside later : Bytes) (a b : ℕ) (got : Option (List ParsedToolCall))
      (rest : Option (Bytes × List ParsedToolCall))
      → IsBlock text (take a text) inside later
      → read inside ≡ got
      → ((calls : List ParsedToolCall) → kept_in_text text a b calls ≡ kept inside calls)
      → IsOutcome later rest
      → IsOutcome text (joined text a b got rest)
  unfolding joined IsOutcome
  joined-IsOutcome text inside later a b none rest it e same h =
      here (take a text) inside later it e
  joined-IsOutcome text inside later a b (some got) none it e same h =
      behind (take a text) inside later it e h
  joined-IsOutcome text inside later a b (some got) (some rest) it e same h =
      rw (same got) (block (take a text) inside later it e h)

  -- With more rounds than the text has bytes, the loop cuts the text, or reading a block throws.
  pub block_loop-IsOutcome :
      (rounds : ℕ) (text : Bytes)
      → 0 < length close_mark
      → length text < rounds
      → IsOutcome text (block_loop open_mark close_mark read rounds text)
  unfolding block_loop IsOutcome
  block_loop-IsOutcome zero text some_mark enough = absurd (omega arith)
  block_loop-IsOutcome (suc rounds) text some_mark enough =
      elim (Option-cases (find text open_mark 0)) [
        | inl none_open ↦ rw (none_open, block_loop) (no_opening none_open)
        | inr (a, opening) ↦ elim (Option-cases (find text close_mark a)) [
          | inl none_close ↦
              rw (opening, block_loop) (rw none_close (no_closing a opening none_close))
          | inr (b, closing) ↦
              let inside = substr text a (b - a) in
              let later = drop (b + length close_mark) text in
              let (opened, first) = find-some open_mark text a opening in
              let (p, at, found, closed) = find-from close_mark text a b closing in
              let here =
                subst (λ s. begins_with close_mark s ≡ true) (drop-drop p a b text (omega arith))
                  found in
              let cut = begins_with-split close_mark (drop b text) here in
              let behind = drop-drop (length close_mark) b (b + length close_mark) text refl in
              let parts : drop a text ≡ inside ++ (close_mark ++ later) =
                sym (cut_at a b text (omega arith))
                ∙ ap (λ s. inside ++ s) (sym cut ∙ ap (λ s. close_mark ++ s) behind) in
              let room : b + length close_mark ≤ length text = omega (
                arith,
                ap length cut,
                length-append close_mark (drop (length close_mark) (drop b text)),
                length-drop b text,
              ) in
              let front : length (take a text) ≡ a = omega (arith, length-take a text, room) in
              let size : length inside ≡ p =
                omega (arith, length-take (b - a) (drop a text), length-drop a text, room) in
              let rest =
                block_loop-IsOutcome rounds later some_mark
                  (omega (arith, room, length-drop (b + length close_mark) text)) in
              rw (block_loop-round rounds text a b opening closing) (
                joined-IsOutcome text inside later a b (read inside) _
                  (record {
                    parts = sym (take-append-drop a text) ∙ ap (λ s. take a text ++ s) parts;
                    first = subst (IsAbsentBelow open_mark text) (sym front) first;
                    opened =
                        subst (λ n. begins_with open_mark (drop n text) ≡ true) (sym front) opened;
                    closed = rw front (rw size closed);
                  })
                  refl
                  (λ calls.
                    kept_in_text_same text a b calls (omega arith) (omega (arith, room)) parts)
                  rest)
        ]
      ]

  -- The outcome of `parse_blocks`.
  unfoldable pub IsParsed : Bytes → Option (Bytes × List ParsedToolCall) → Type 0
  IsParsed text none = IsThrown (drop (scan_start text) text)
  IsParsed text (some r) =
      (out : Bytes) × IsCut (drop (scan_start text) text) out r.1
      × (r.0 ≡ drop_end is_blank (take (scan_start text) text ++ out))

  -- `parse_blocks` keeps the text up to the last `</think>` and cuts the blocks of calls out of the rest,
  -- each from its first opening marker to the first closing one, where a block that no call is read from
  -- stays; then the blank end is dropped. The calls are those of the blocks in order. It throws only
  -- where reading one of these blocks throws.
  pub parse_blocks-IsCut :
      (text : Bytes)
      → 0 < length close_mark
      → IsParsed text (parse_blocks open_mark close_mark read text)
  unfolding parse_blocks IsParsed IsOutcome
  parse_blocks-IsCut text some_mark =
      let start = scan_start text in
      let enough : length (drop start text) < length text + 1 =
        omega (arith, length-drop start text) in
      parsed (block_loop open_mark close_mark read (length text + 1) (drop start text))
        (block_loop-IsOutcome (length text + 1) (drop start text) some_mark enough)
    where
      parsed :
          (r : Option (Bytes × List ParsedToolCall))
          → IsOutcome (drop (scan_start text) text) r
          → IsParsed text (elim r [
            | none ↦ none
            | some r ↦ some (drop_end is_blank (take (scan_start text) text ++ r.0), r.1)
          ])
      parsed none h = h
      parsed (some r) h = (r.0, h, refl)

  pub parse_blocks-keeps :
      (text out : Bytes)
      → 0 < length close_mark
      → parse_blocks open_mark close_mark read text ≡ some (out, [])
      → out ≡ drop_end is_blank text
  unfolding IsParsed
  parse_blocks-keeps text out some_mark e =
      let (left, cut, result) = subst (IsParsed text) e (parse_blocks-IsCut text some_mark) in
      let start = scan_start text in
      let whole = IsCut-none cut refl in
      result
      ∙ ap (drop_end is_blank) (ap (λ s. take start text ++ s) whole ∙ take-append-drop start text)

-- If `parse_tool_calls` returns without a call, in either format, then the text that it returns is the
-- whole reply less the blank end: malformed and unfinished blocks are kept.
pub parse_tool_calls-keeps :
    (json : Json) (lfm2 : Bool) (kinds : Dict Bytes ℕ) (text out : Bytes)
    → parse_tool_calls json lfm2 kinds text ≡ some (out, [])
    → out ≡ drop_end is_blank text
unfolding parse_tool_calls parse_tool_calls_lfm2
parse_tool_calls-keeps json true kinds text out none_read =
    parse_blocks-keeps (codes "<|tool_call_start|>") (codes "<|tool_call_end|>")
      (λ block. read_calls json (drop 19 block)) text out (omega arith) none_read
parse_tool_calls-keeps json false kinds text out none_read =
    parse_blocks-keeps (codes "<tool_call>") (codes "</tool_call>") (read_function json kinds) text
      out (omega arith) none_read
