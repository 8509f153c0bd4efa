-- ===== src/Server/ToolCalls/Tests.antt =====
-- Tool calls in a reply, with texts for JSON values.
use questwend.Prelude.{
  ◌≡◌, refl, List, [], ◌∷◌, ◌++◌, Bytes, codes, true, false, Option, some, arith, find,
}
use questwend.Chat.Trim
use questwend.Chat.Trim.{drop_end}
use questwend.Server.Reasoning.{is_blank}
use questwend.Server.ToolCalls
use questwend.Server.ToolCalls.{Json, ParsedToolCall, parse_blocks, scan_start}
use questwend.Server.ToolCalls.Reader
use questwend.Server.ToolCalls.CallList
use questwend.Server.ToolCalls.CallList.{parse_tool_calls, read_calls}
use questwend.Server.ToolCalls.Blocks.{IsParsed, parse_blocks-IsCut, parse_tool_calls-keeps}

abbrev texts : Json
texts = record {
  J = Bytes;
  of_string = λ s. s;
  of_bool = λ b. elim b [ true ↦ codes "true" | false ↦ codes "false" ];
  null = codes "null";
  empty_array = [];
  push_back = λ v e. v ++ (e ++ codes ",");
  empty_object = [];
  set_key = λ v k e. v ++ (k ++ (codes ":" ++ e));
  get_string = λ v. v;
  is_string = λ v. false;
  is_number = λ v. true;
  parse = λ s. some s;
  dump = λ v. some v;
}

abbrev two_calls : Bytes
two_calls = codes "[f(a='x'), g()]"

read_two :
    read_calls texts two_calls
    ≡ some (
        record { name = codes "f"; arguments = codes "a:x" }
        ∷ record { name = codes "g"; arguments = [] }
        ∷ [])
unfolding read_calls CallList.calls Reader.eat Reader.ws Trim.drop_while Trim.is_ws
    CallList.call_loop Reader.ident Reader.ident_span CallList.arguments_of CallList.argument_loop
    Reader.value Reader.str Reader.str_body Reader.prepend
read_two = refl

-- The list is not closed, and `calls` returns false, but its call is taken.
read_unclosed :
    read_calls texts (codes "[f()") ≡ some (record { name = codes "f"; arguments = [] } ∷ [])
unfolding read_calls CallList.calls Reader.eat Reader.ws Trim.drop_while Trim.is_ws
    CallList.call_loop Reader.ident Reader.ident_span CallList.arguments_of
read_unclosed = refl

abbrev reply : Bytes
reply = codes "so</think>Hi <tool_call>f</tool_call> \n"

abbrev one_call : Bytes → Option (List ParsedToolCall)
one_call block = some (record { name = block; arguments = [] } ∷ [])

parse_blocks-IsCut_example :
    IsParsed
      (codes "<tool_call>")
      (codes "</tool_call>")
      one_call
      reply
      (parse_blocks (codes "<tool_call>") (codes "</tool_call>") one_call reply)
parse_blocks-IsCut_example =
    parse_blocks-IsCut (codes "<tool_call>") (codes "</tool_call>") one_call reply (omega arith)

abbrev trimmed : Bytes
trimmed = codes "so</think>Hi <tool_call>f</tool_call>"

parse_tool_calls-keeps_example : trimmed ≡ drop_end is_blank reply
unfolding parse_tool_calls parse_blocks ToolCalls.block_loop find scan_start Trim.rfind
    ToolCalls.read_function drop_end Trim.drop_while Trim.end_without
parse_tool_calls-keeps_example = parse_tool_calls-keeps texts false [] reply trimmed refl
