-- ===== src/Server/Router/Tests.antt =====
-- A reply with reasoning, content and a tool call, in pieces that cut the markers.
use questwend.Prelude.{◌≢◌, refl, List, [], ◌∷◌, flatten, Bytes, codes, true, false, arith}
use questwend.Server.Router.{content, tool, Router, emit_all}
use questwend.Server.Router.Pieces.{IsEmitted, emit_all-IsEmitted}

-- The state for a model that opens `<think>` itself.
abbrev fresh : Router
fresh = record {
  phase = content;
  skip_lead = false;
  await_think = true;
  skip_lead_r = false;
  hold = [];
  pend_r = [];
  utf8_pend = [];
}

abbrev tool_open : Bytes
tool_open = codes "<tool_call>"

abbrev pieces : List Bytes
pieces =
    codes "\n<th"
    ∷ codes "ink>so\n</th"
    ∷ codes "ink>\n\nHi <"
    ∷ codes "b> <tool"
    ∷ codes "_call>f"
    ∷ []

starts_in_content : content ≢ tool
starts_in_content e = ground arith

emit_all-IsEmitted_example :
    IsEmitted tool_open true content (flatten pieces) (emit_all tool_open fresh pieces)
emit_all-IsEmitted_example =
    emit_all-IsEmitted tool_open fresh pieces refl refl refl starts_in_content (omega arith)
