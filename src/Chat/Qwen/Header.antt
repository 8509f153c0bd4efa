-- ===== src/Chat/Qwen/Header.antt =====
-- core/chat.cpp: `build_qwen_prompt`, the system header, the generation prompt, and the whole.
use questwend.Prelude.{
  ℕ, List, [], ◌∷◌, ◌++◌, Bytes, Bool, true, false, ◌&&◌, ◌||◌, not, Option, none, some, length,
  drop, codes, if◌then◌else◌,
}
use questwend.Tokenizer.Bpe.{Tokenizer}
use questwend.Chat.{ChatPrompt, ChatMessage, ChatPromptOptions, ChatError, Result, ok, err, ◌>>=◌}
use questwend.Chat.Content.{vision_ids}
use questwend.Chat.Emit.{
  is_neg, ◌▹◌, empty_prompt, emit_tok, emit_text, emit_bos, flat_text, has_image,
}
use questwend.Chat.Trim.{trim_ws}
use questwend.Chat.Qwen.Turns.{Marks, marks_of, has_role, last_query_index, turn_options, turn_loop}

-- `TOOL_INSTRUCTIONS`
unfoldable pub tool_instructions : Bytes
tool_instructions =
    codes
      "\n\nIf you choose to call a function ONLY reply in the following format with NO suffix:\n\n"
    ++ (codes
          "<tool_call>\n<function=example_function_name>\n<parameter=example_parameter_1>\nvalue_1\n"
        ++ (codes
              "</parameter>\n<parameter=example_parameter_2>\nThis is the value for the second parameter\n"
            ++ (codes "that can span\nmultiple lines\n</parameter>\n</function>\n</tool_call>\n\n"
                ++ (codes "<IMPORTANT>\nReminder:\n"
                    ++ (codes
                          "- Function calls MUST follow the specified format: an inner <function=...></function> block "
                        ++ (codes "must be nested within <tool_call></tool_call> XML tags\n"
                            ++ (codes "- Required parameters MUST be specified\n"
                                ++ (codes
                                      "- You may provide optional reasoning for your function call in natural language BEFORE the "
                                    ++ (codes "function call, but NOT after\n"
                                        ++ (codes
                                              "- If there is no function call available, answer the question like normal with your current "
                                            ++ codes
                                                "knowledge and do not tell the user about function calls\n</IMPORTANT>"))))))))))

unfoldable pub emit_tools : Tokenizer → List Bytes → ChatPrompt → ChatPrompt
emit_tools t [] p = p
emit_tools t (s ∷ ss) p = p ▹ emit_text t (codes "\n" ++ s) ▹ emit_tools t ss

-- `if (!c.empty()) emit_text("\n\n" + c);`
unfoldable pub emit_extra : Tokenizer → Bytes → ChatPrompt → ChatPrompt
emit_extra t [] p = p
emit_extra t (c ∷ s) p = emit_text t (codes "\n\n" ++ (c ∷ s)) p

-- The first message, if it is a system message.
unfoldable pub system_of : List ChatMessage → Option ChatMessage
system_of [] = none
system_of (m ∷ ms) = if has_role m (codes "system") then some m else none

unfoldable pub emit_tools_header :
    Tokenizer → Marks → List Bytes → Option ChatMessage → ChatPrompt → ChatPrompt
emit_tools_header t k tools sys p =
    p
    ▹ emit_tok k.im_start
    ▹ emit_text t (codes "system\n")
    ▹ emit_text t (codes "# Tools\n\nYou have access to the following functions:\n\n<tools>")
    ▹ emit_tools t tools
    ▹ emit_text t (codes "\n</tools>")
    ▹ emit_text t tool_instructions
    ▹ (λ q. elim sys [ none ↦ q | some m ↦ emit_extra t (trim_ws (flat_text m)) q ])
    ▹ emit_tok k.im_end
    ▹ emit_text t (codes "\n")

unfoldable pub emit_system : Tokenizer → Marks → ChatMessage → ChatPrompt → ChatPrompt
emit_system t k m p =
    p
    ▹ emit_tok k.im_start
    ▹ emit_text t (codes "system\n" ++ trim_ws (flat_text m))
    ▹ emit_tok k.im_end
    ▹ emit_text t (codes "\n")

unfoldable pub emit_header :
    Tokenizer → Marks → List Bytes → Option ChatMessage → ChatPrompt → ChatPrompt
emit_header t k [] none p = p
emit_header t k [] (some m) p = emit_system t k m p
emit_header t k (s ∷ ss) sys p = emit_tools_header t k (s ∷ ss) sys p

-- `if (has_system && has_image(messages[0])) throw …`
unfoldable pub check_system : Option ChatMessage → Result (Unit {0})
check_system none = ok tt
check_system (some m) = if has_image m then err ChatError.system_image else ok tt

-- `msg_begin`
unfoldable pub msg_begin : Option ChatMessage → ℕ
msg_begin none = 0
msg_begin (some m) = 1

-- `if (think_open >= 0) { … }`: the open or the empty `<think>` block.
unfoldable pub emit_think : Tokenizer → Marks → Bool → Bool → ChatPrompt → ChatPrompt
emit_think t k true empty_block p = p
emit_think t k false true p =
    p
    ▹ emit_tok k.think_open
    ▹ emit_text t (codes "\n\n")
    ▹ emit_tok k.think_close
    ▹ emit_text t (codes "\n\n")
emit_think t k false false p = p ▹ emit_tok k.think_open ▹ emit_text t (codes "\n")

-- The generation prompt, `<|im_start|>assistant` and the block.
unfoldable pub emit_generation : Tokenizer → Marks → Bool → ChatPrompt → ChatPrompt
emit_generation t k reasoning p =
    record p { gen_prompt_begin = some (length p.ids) }
    ▹ emit_tok k.im_start
    ▹ emit_text t (codes "assistant\n")
    ▹ emit_think t k (is_neg k.think_open) (not reasoning && not (is_neg k.think_close))

unfoldable pub emit_turns :
    Tokenizer → Marks → List ChatMessage → ChatPromptOptions → ChatPrompt → Result (ChatPrompt × ℕ)
emit_turns t k messages o p =
    let sys = system_of messages in
    check_system sys >>= λ _.
    turn_loop t k (vision_ids t) (turn_options o) (last_query_index messages) (msg_begin sys) false
      (drop (msg_begin sys) messages) (emit_header t k o.tools_json sys p, 0)

unfoldable pub emit_chatml :
    Tokenizer → Marks → List ChatMessage → ChatPromptOptions → ChatPrompt → Result ChatPrompt
emit_chatml t k messages o p = emit_turns t k messages o p >>= λ r.
    ok (if o.add_generation_prompt then emit_generation t k o.reasoning r.0 else r.0)

-- The loop of the fallback for a model without ChatML tokens.
unfoldable pub plain_loop : Tokenizer → List ChatMessage → ChatPrompt → Result ChatPrompt
plain_loop t [] p = ok p
plain_loop t (m ∷ ms) p =
    let rest =
      plain_loop t ms (emit_text t (m.role ++ (codes ": " ++ (flat_text m ++ codes "\n"))) p) in
    if has_image m then err ChatError.no_chatml_image else rest

unfoldable pub emit_plain :
    Tokenizer → List ChatMessage → ChatPromptOptions → ChatPrompt → Result ChatPrompt
emit_plain t messages o p = plain_loop t messages p >>= λ q. ok (
    if o.add_generation_prompt
    then emit_text t (codes "assistant: ") (record q { gen_prompt_begin = some (length q.ids) })
    else q)

-- `build_qwen_prompt` past the test for lfm2
unfoldable pub build_chatml : Tokenizer → List ChatMessage → ChatPromptOptions → Result ChatPrompt
build_chatml t messages o =
    let k = marks_of t in
    let p = emit_bos t empty_prompt in
    if is_neg k.im_start || is_neg k.im_end
    then emit_plain t messages o p
    else emit_chatml t k messages o p
