-- ===== src/Chat/Lfm2.antt =====
-- core/chat.cpp: `build_lfm2_prompt`.
use questwend.Prelude.{
  ℕ, ◌+◌, List, [], ◌∷◌, ◌++◌, Bytes, Bool, true, false, ◌&&◌, ◌||◌, Option, none, some, ltb,
  length, drop, codes, if◌then◌else◌,
}
use questwend.Prelude.Int.{ℤ}
use questwend.Tokenizer.Access.{token_to_id}
use questwend.Tokenizer.Bpe.{Tokenizer}
use questwend.Chat.{
  ToolCall, ChatPrompt, ChatMessage, ChatPromptOptions, ChatError, Result, ok, err, is_empty,
}
use questwend.Chat.Emit.{◌▹◌, empty_prompt, emit_tok, emit_text, emit_bos, flat_text, has_image}
use questwend.Chat.Qwen.Turns.{Marks, marks_of, has_role}
use questwend.Chat.Qwen.Header.{system_of, msg_begin}
use questwend.Chat.Trim.{trim_ws, rfind}

-- The ids of `<|tool_call_start|>` and `<|tool_call_end|>`.
pub record CallMarks : Type 0 where
  pub call_open : ℤ
  pub call_close : ℤ

unfoldable pub call_marks : Tokenizer → CallMarks
call_marks t = record {
  call_open = token_to_id t (codes "<|tool_call_start|>");
  call_close = token_to_id t (codes "<|tool_call_end|>");
}

-- The tools from the one at `k` on; `first` is `k == 0`.
unfoldable pub tool_list : Bool → List Bytes → Bytes
tool_list first [] = []
tool_list first (s ∷ ss) = (if first then [] else codes ", ") ++ (s ++ tool_list false ss)

-- `system`, with the list of tools after it.
unfoldable pub system_text : Option ChatMessage → List Bytes → Bytes
system_text sys tools =
    let own : Bytes = elim sys [ none ↦ [] | some m ↦ flat_text m ] in
    if is_empty tools
    then own
    else (if is_empty own then [] else own ++ codes "\n")
      ++ (codes "List of tools: [" ++ (tool_list true tools ++ codes "]"))

unfoldable pub emit_system_text : Tokenizer → Marks → Bytes → ChatPrompt → ChatPrompt
emit_system_text t k [] p = p
emit_system_text t k (c ∷ s) p =
    p
    ▹ emit_tok k.im_start
    ▹ emit_text t (codes "system\n" ++ (c ∷ s))
    ▹ emit_tok k.im_end
    ▹ emit_text t (codes "\n")

-- The loop over the messages from `i` on; `last_user` is the last place found so far, `none` for -1.
unfoldable pub last_user : List ChatMessage → ℕ → Option ℕ → Option ℕ
last_user [] i found = found
last_user (m ∷ ms) i found =
    last_user ms (i + 1) (if has_role m (codes "user") then some i else found)

-- `i > last_user`
abbrev pub after_user : Option ℕ → ℕ → Bool
after_user none i = true
after_user (some j) i = ltb j i

-- A value without a literal is quoted.
unfoldable pub literal_of : List Bytes → Bytes → Bytes
literal_of [] value = codes "'" ++ (value ++ codes "'")
literal_of (l ∷ ls) value = l

abbrev rest_of : List Bytes → List Bytes
rest_of [] = []
rest_of (l ∷ ls) = ls

unfoldable pub argument_list : Bool → List (Bytes × Bytes) → List Bytes → Bytes
argument_list first [] literals = []
argument_list first ((k, v) ∷ args) literals =
    (if first then [] else codes ", ")
    ++ (k ++ (codes "=" ++ (literal_of literals v ++ argument_list false args (rest_of literals))))

unfoldable pub call_list : Bool → List ToolCall → Bytes
call_list first [] = []
call_list first (c ∷ cs) =
    (if first then [] else codes ", ")
    ++ (c.name
        ++ (codes "("
            ++ (argument_list true c.arguments c.arg_literals
                ++ (codes ")" ++ call_list false cs))))

unfoldable pub emit_lfm2_calls : Tokenizer → CallMarks → List ToolCall → ChatPrompt → ChatPrompt
emit_lfm2_calls t k [] p = p
emit_lfm2_calls t k (c ∷ cs) p =
    p
    ▹ emit_tok k.call_open
    ▹ emit_text t (codes "[" ++ (call_list true (c ∷ cs) ++ codes "]"))
    ▹ emit_tok k.call_close

-- `content`, without the reasoning of an older turn.
unfoldable pub lfm2_content : Bool → ChatMessage → Bytes
lfm2_content recent m =
    let content = flat_text m in
    if recent then content else elim (rfind content (codes "</think>")) [
      | none ↦ content
      | some e ↦ trim_ws (drop (e + 8) content)
    ]

unfoldable pub emit_lfm2_assistant :
    Tokenizer → Marks → CallMarks → Bool → ChatMessage → ChatPrompt → ChatPrompt
emit_lfm2_assistant t k c recent m p =
    let thought =
      if m.has_reasoning && recent
      then p ▹ emit_tok k.think_open ▹ emit_text t m.reasoning_content ▹ emit_tok k.think_close
      else p in
    thought ▹ emit_text t (lfm2_content recent m) ▹ emit_lfm2_calls t c m.tool_calls

unfoldable pub emit_lfm2_turn :
    Tokenizer → Marks → CallMarks → Bool → ChatMessage → ChatPrompt → ChatPrompt
emit_lfm2_turn t k c recent m p =
    p
    ▹ emit_tok k.im_start
    ▹ emit_text t (m.role ++ codes "\n")
    ▹ (λ q.
        if has_role m (codes "assistant")
        then emit_lfm2_assistant t k c recent m q
        else emit_text t (flat_text m) q)
    ▹ emit_tok k.im_end
    ▹ emit_text t (codes "\n")

unfoldable pub lfm2_loop :
    Tokenizer → Marks → CallMarks → Bool → Option ℕ → ℕ → List ChatMessage → ChatPrompt → ChatPrompt
lfm2_loop t k c preserve user i [] p = p
lfm2_loop t k c preserve user i (m ∷ ms) p =
    lfm2_loop t k c preserve user (i + 1) ms
      (emit_lfm2_turn t k c (preserve || after_user user i) m p)

unfoldable pub any_has_image : List ChatMessage → Bool
any_has_image [] = false
any_has_image (m ∷ ms) = has_image m || any_has_image ms

unfoldable pub lfm2_turns : Tokenizer → Marks → List ChatMessage → ChatPromptOptions → ChatPrompt
lfm2_turns t k messages o =
    let sys = system_of messages in
    let b = msg_begin sys in
    let ms = drop b messages in
    emit_bos t empty_prompt
    ▹ emit_system_text t k (system_text sys o.tools_json)
    ▹ lfm2_loop t k (call_marks t) o.preserve_thinking (last_user ms b none) b ms

unfoldable pub build_lfm2_prompt :
    Tokenizer → List ChatMessage → ChatPromptOptions → Result ChatPrompt
build_lfm2_prompt t messages o =
    let k = marks_of t in
    let p = lfm2_turns t k messages o in
    if any_has_image messages
    then err ChatError.lfm2_image
    else ok (
        if o.add_generation_prompt
        then record p { gen_prompt_begin = some (length p.ids) }
          ▹ emit_tok k.im_start
          ▹ emit_text t (codes "assistant\n")
        else p)
