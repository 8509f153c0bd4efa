-- ===== src/Server/ToolCalls.antt =====
-- server/main.cpp, `parse_tool_calls` and `parse_tool_calls_lfm2`: the blocks of tool calls in a reply.
-- The JSON values and their operations are nlohmann's, a parameter.
pub mod Reader
pub mod CallList
pub mod Blocks
mod Tests
use questwend.Prelude.{
  ℕ, zero, suc, ◌+◌, ◌-◌, ◌*◌, List, [], ◌∷◌, ◌++◌, Bytes, codes, Bool, true, false, Option, none,
  some, ltb, ◌==◌, if◌then◌else◌, length, take, drop, begins_with, find, substr,
}
use questwend.Prelude.Dict.{Dict, lookup, bytes_key}
use questwend.Chat.Trim.{drop_end, rfind}
use questwend.Server.Reasoning.{is_blank}

-- What the code calls of `nlohmann::json`. `none` is an exception: of `parse` on a text that is not JSON,
-- of `dump` on a string that is not UTF-8.
pub record Json : Type 1 where
  pub J : Type 0
  pub of_string : Bytes → J
  pub of_bool : Bool → J
  pub null : J
  pub empty_array : J
  pub push_back : J → J → J
  pub empty_object : J
  pub set_key : J → Bytes → J → J
  pub get_string : J → Bytes
  pub is_string : J → Bool
  pub is_number : J → Bool
  pub parse : Bytes → Option J
  pub dump : J → Option Bytes

pub record ParsedToolCall : Type 0 where
  pub name : Bytes
  pub arguments : Bytes

-- The loop of both functions over the text from `pos` on: `read` is given a block with its opening
-- marker and without its closing one. The rounds are bounded. `none` is an exception of `read`, which
-- leaves the functions.
unfoldable pub block_loop :
    (open_mark close_mark : Bytes)
    → (Bytes → Option (List ParsedToolCall))
    → ℕ
    → Bytes
    → Option (Bytes × List ParsedToolCall)
block_loop open_mark close_mark read zero text = some (text, [])
block_loop open_mark close_mark read (suc rounds) text = elim (find text open_mark 0) [
  | none ↦ some (text, [])
  | some a ↦ elim (find text close_mark a) [
    | none ↦ some (text, [])
    | some b ↦ elim (read (substr text a (b - a))) [
      | none ↦ none
      | some got ↦
          let kept : Bytes = elim got [
            | [] ↦ substr text a (b + length close_mark - a)
            | _ ∷ _ ↦ []
          ] in
          elim (block_loop open_mark close_mark read rounds (drop (b + length close_mark) text)) [
            | none ↦ none
            | some rest ↦ some (take a text ++ (kept ++ rest.0), got ++ rest.1)
          ]
    ]
  ]
]

-- `scan`: the blocks are looked for behind the last `</think>`.
unfoldable pub scan_start : Bytes → ℕ
scan_start text = elim (rfind text (codes "</think>")) [ none ↦ 0 | some p ↦ p + 8 ]

unfoldable pub parse_blocks :
    (open_mark close_mark : Bytes)
    → (Bytes → Option (List ParsedToolCall))
    → Bytes
    → Option (Bytes × List ParsedToolCall)
parse_blocks open_mark close_mark read text =
    let start = scan_start text in
    elim (block_loop open_mark close_mark read (length text + 1) (drop start text)) [
      | none ↦ none
      | some r ↦ some (drop_end is_blank (take start text ++ r.0), r.1)
    ]

module _ (json : Json) where
  open json use {J, of_string, empty_object, set_key, is_string, parse, dump}

  -- `val` without the newlines around it.
  unfoldable pub unwrap : Bytes → Bytes
  unwrap val =
      let front : Bytes = elim val [ [] ↦ [] | c ∷ rest ↦ if c == 0x0A then rest else c ∷ rest ] in
      let size = length front in
      if begins_with (0x0A ∷ []) (drop (size - 1) front) then take (size - 1) front else front

  -- `jv`
  unfoldable pub argument_value : Option ℕ → Bytes → J
  argument_value kind val =
      let parsed : J = elim (parse val) [
        | none ↦ of_string val
        | some v ↦ if is_string v then of_string val else v
      ] in
      elim kind [ none ↦ parsed | some k ↦ if k == 1 then of_string val else parsed ]

  -- The loop over the parameters from `pp` on. Where the value's end stands before its start,
  -- `pc - pe - 1` wraps and `substr` takes the rest of the block.
  unfoldable pub parameter_loop : Dict Bytes ℕ → Bytes → Bytes → ℕ → ℕ → J → J
  parameter_loop kinds name block zero pp args = args
  parameter_loop kinds name block (suc rounds) pp args =
      elim (find block (codes "<parameter=") pp) [
        | none ↦ args
        | some ps ↦ elim (find block (codes ">") ps) [
          | none ↦ args
          | some pe ↦ elim (find block (codes "</parameter>") ps) [
            | none ↦ args
            | some pc ↦
                let key = substr block (ps + 11) (pe - ps - 11) in
                let size = if ltb pc pe then length block else pc - pe - 1 in
                let val = unwrap (substr block (pe + 1) size) in
                let kind = lookup (name ++ (0x1F ∷ key)) kinds in
                parameter_loop kinds name block rounds (pc + 12)
                  (set_key args key (argument_value kind val))
          ]
        ]
      ]

  -- One `<tool_call>` block; no call if it is malformed, `none` where `dump` throws.
  unfoldable pub read_function : Dict Bytes ℕ → Bytes → Option (List ParsedToolCall)
  read_function kinds block = elim (find block (codes "<function=") 0) [
    | none ↦ some []
    | some fn ↦ elim (find block (codes ">") fn) [
      | none ↦ some []
      | some fe ↦
          let name = substr block (fn + 10) (fe - fn - 10) in
          elim (dump (parameter_loop kinds name block (length block) fe empty_object)) [
            | none ↦ none
            | some arguments ↦ some (record { name = name; arguments = arguments } ∷ [])
          ]
    ]
  ]
