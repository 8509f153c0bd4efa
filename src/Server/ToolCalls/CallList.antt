-- ===== src/Server/ToolCalls/CallList.antt =====
-- server/main.cpp, `PyReader::calls` and the two functions that read the tool calls of a reply.
use questwend.Prelude.{
  ℕ, zero, suc, ◌+◌, ◌*◌, List, [], ◌∷◌, ◌++◌, Bytes, codes, Bool, true, false, Option, none, some,
  ◌==◌, if◌then◌else◌, length, drop,
}
use questwend.Prelude.Dict.{Dict}
use questwend.Server.ToolCalls.{Json, ParsedToolCall, parse_blocks, read_function}
use questwend.Server.ToolCalls.Reader.{ws, eat, ident, value}

module _ (json : Json) where
  open json use {J, empty_object, set_key, dump}

  -- A bound on the depth of `value` and the elements that it reads: each takes a character or more.
  abbrev depth : Bytes → ℕ
  depth s = 2 * length s + 2

  -- The loop over the arguments of a call, and the `eat(')')` behind it.
  unfoldable pub argument_loop : ℕ → Bytes → J → Option J × Bytes
  argument_loop zero s args = (none, s)
  argument_loop (suc fuel) s args =
      let (key, left) = ident s in
      let (equals, left_key) = eat 0x3D left in
      let (argument, left_value) = value json (depth left_key) left_key in
      let (more, left_more) = eat 0x2C left_value in
      let (closed, left_end) = eat 0x29 left_more in
      elim key [
        | none ↦ (none, left)
        | some k ↦ elim equals [
          | false ↦ (none, left_key)
          | true ↦ elim argument [
            | none ↦ (none, left_value)
            | some v ↦ elim more [
              | true ↦ argument_loop fuel left_more (set_key args k v)
              | false ↦ (if closed then some (set_key args k v) else none, left_end)
            ]
          ]
        ]
      ]

  -- The arguments behind the `(` of a call.
  unfoldable pub arguments_of : ℕ → Bytes → Option J × Bytes
  arguments_of fuel s =
      let (closed, left) = eat 0x29 s in
      elim closed [
        | true ↦ (some empty_object, left)
        | false ↦ argument_loop fuel left empty_object
      ]

  -- The loop over the calls, with those read so far, and the `eat(']')` behind it: the result, the
  -- text that is left and the calls, which the caller sees also where the result is false. `none` is an
  -- exception of `dump`.
  unfoldable pub call_loop :
      ℕ → Bytes → List ParsedToolCall → Option (Bool × Bytes × List ParsedToolCall)
  call_loop zero s got = some (false, s, got)
  call_loop (suc fuel) s got =
      let (word, left) = ident s in
      let (opened, left_name) = eat 0x28 left in
      let (arguments, left_args) = arguments_of fuel left_name in
      let (more, left_more) = eat 0x2C left_args in
      let (closed, left_end) = eat 0x5D left_more in
      elim word [
        | none ↦ some (false, left, got)
        | some name ↦ elim opened [
          | false ↦ some (false, left_name, got)
          | true ↦ elim arguments [
            | none ↦ some (false, left_args, got)
            | some args ↦ elim (dump args) [
              | none ↦ none
              | some text ↦
                  let got1 = got ++ record { name = name; arguments = text } ∷ [] in
                  elim more [
                    | true ↦ call_loop fuel left_more got1
                    | false ↦ some (closed, left_end, got1)
                  ]
            ]
          ]
        ]
      ]

  unfoldable pub calls : Bytes → Option (Bool × Bytes × List ParsedToolCall)
  calls s =
      let (opened, left) = eat 0x5B s in
      let (closed, left_end) = eat 0x5D left in
      elim opened [
        | false ↦ some (false, left, [])
        | true ↦ elim closed [
          | true ↦ some (true, left_end, [])
          | false ↦ call_loop (length s + 1) left_end []
        ]
      ]

  -- The calls of a block of lfm2: those read, if the reader came to the end of the block.
  unfoldable pub read_calls : Bytes → Option (List ParsedToolCall)
  read_calls block = elim (calls block) [
    | none ↦ none
    | some r ↦
        let (ok, left, got) = r in
        let rest = if ok then ws left else left in some (if length rest == 0 then got else [])
  ]

  abbrev lfm2_open : Bytes
  lfm2_open = codes "<|tool_call_start|>"

  unfoldable pub parse_tool_calls_lfm2 : Bytes → Option (Bytes × List ParsedToolCall)
  parse_tool_calls_lfm2 text =
      parse_blocks lfm2_open (codes "<|tool_call_end|>")
        (λ block. read_calls (drop (length lfm2_open) block)) text

  unfoldable pub parse_tool_calls :
      Bool → Dict Bytes ℕ → Bytes → Option (Bytes × List ParsedToolCall)
  parse_tool_calls lfm2 kinds text =
      if lfm2
      then parse_tool_calls_lfm2 text
      else parse_blocks (codes "<tool_call>") (codes "</tool_call>") (read_function json kinds) text
