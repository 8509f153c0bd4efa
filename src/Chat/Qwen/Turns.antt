-- ===== src/Chat/Qwen/Turns.antt =====
-- core/chat.cpp: `build_qwen_prompt`, the main loop over the messages.
use questwend.Prelude.{
  ℕ, zero, suc, ◌+◌, ◌-◌, List, [], ◌∷◌, ◌++◌, Bytes, Bool, true, false, ◌&&◌, ◌||◌, not, Option,
  none, some, ltb, length, take, drop, get_elem?, codes, bytes_eq, begins_with, find, if◌then◌else◌,
}
use questwend.Prelude.Int.{ℤ}
use questwend.Tokenizer.Access.{token_to_id}
use questwend.Tokenizer.Bpe.{Tokenizer}
use questwend.Chat.{
  ToolCall, ChatPrompt, ChatMessage, ChatPromptOptions, ChatError, Result, ok, err, ◌>>=◌, is_empty,
}
use questwend.Chat.Content.{VisionIds, span_count, emit_content}
use questwend.Chat.Emit.{is_neg, ◌▹◌, emit_tok, emit_text, flat_text, has_image}
use questwend.Chat.Trim.{trim_ws, ends_with, drop_while, drop_end, is_newline, rfind}

-- The ids of the markers, `im_start` to `think_close`.
pub record Marks : Type 0 where
  pub im_start : ℤ
  pub im_end : ℤ
  pub think_open : ℤ
  pub think_close : ℤ

unfoldable pub marks_of : Tokenizer → Marks
marks_of t = record {
  im_start = token_to_id t (codes "<|im_start|>");
  im_end = token_to_id t (codes "<|im_end|>");
  think_open = token_to_id t (codes "<think>");
  think_close = token_to_id t (codes "</think>");
}

abbrev pub has_role : ChatMessage → Bytes → Bool
has_role m name = bytes_eq m.role name

-- A user message that is not a tool's response.
unfoldable pub is_query : ChatMessage → Bool
is_query m =
    let c = trim_ws (flat_text m) in
    has_role m (codes "user")
    && not (begins_with (codes "<tool_response>") c && ends_with c (codes "</tool_response>"))

-- The loop's body at message `i`; `later` is what the rounds after it find.
unfoldable pub query_step : Option ChatMessage → ℕ → ℕ → ℕ
query_step none i later = later
query_step (some m) i later = if is_query m then i else later

-- `for (i = …; i >= 0; --i)` over the messages below `i`; `last_query_index` is `otherwise` if the
-- loop does not break.
unfoldable pub query_loop : List ChatMessage → ℕ → ℕ → ℕ
unfolding query_step
query_loop messages otherwise zero = otherwise
query_loop messages otherwise (suc i) =
    query_step (get_elem? messages i) i (query_loop messages otherwise i)

-- With no message the code's start value is -1; the index is not read then.
unfoldable pub last_query_index : List ChatMessage → ℕ
last_query_index messages = query_loop messages (length messages - 1) (length messages)

-- The reasoning in `content` before its first `</think>`, at `close`, and what is left of `content`.
unfoldable pub split_think : Bytes → ℕ → Bytes × Bytes
split_think content close =
    let head = drop_end is_newline (take close content) in
    let inner : Bytes = elim (rfind head (codes "<think>")) [
      | none ↦ head
      | some o ↦ drop (o + 7) head
    ] in
    let rest : Bytes = elim (rfind content (codes "</think>")) [
      | none ↦ content
      | some e ↦ drop (e + 8) content
    ] in
    (drop_while is_newline inner, drop_while is_newline rest)

-- `reasoning` and `content` of an assistant's message.
unfoldable pub assistant_parts : ChatMessage → Bytes × Bytes
assistant_parts m =
    let content = trim_ws (flat_text m) in
    let (reasoning, rest) : Bytes × Bytes =
      if m.has_reasoning
      then (m.reasoning_content, content)
      else elim (find content (codes "</think>") 0) [
        | none ↦ ([], content)
        | some close ↦ split_think content close
      ] in
    (trim_ws reasoning, rest)

unfoldable pub emit_arguments : Tokenizer → List (Bytes × Bytes) → ChatPrompt → ChatPrompt
emit_arguments t [] p = p
emit_arguments t ((k, v) ∷ args) p =
    p
    ▹ emit_text t (codes "<parameter=" ++ (k ++ (codes ">\n" ++ (v ++ codes "\n</parameter>\n"))))
    ▹ emit_arguments t args

-- What stands before the name of a call.
unfoldable pub call_lead : Bool → Bool → Bytes
call_lead first no_content =
    if first
    then if no_content then codes "<tool_call>\n<function=" else codes "\n\n<tool_call>\n<function="
    else codes "\n<tool_call>\n<function="

unfoldable pub emit_calls : Tokenizer → Bool → Bool → List ToolCall → ChatPrompt → ChatPrompt
emit_calls t first no_content [] p = p
emit_calls t first no_content (c ∷ cs) p =
    p
    ▹ emit_text t (call_lead first no_content ++ (c.name ++ codes ">\n"))
    ▹ emit_arguments t c.arguments
    ▹ emit_text t (codes "</function>\n</tool_call>")
    ▹ emit_calls t false no_content cs

-- `keep_think`; `recent` is `i > last_query_index`.
unfoldable pub keep_think : Marks → Bool → Bool → Bytes → Bool
keep_think k preserve recent reasoning =
    (recent || (preserve && not (is_empty reasoning)))
    && (not (is_neg k.think_open) && not (is_neg k.think_close))

unfoldable pub emit_body : Tokenizer → Marks → Bool → Bytes → Bytes → ChatPrompt → ChatPrompt
emit_body t k kept reasoning content p =
    if kept
    then p
      ▹ emit_text t (codes "assistant\n")
      ▹ emit_tok k.think_open
      ▹ emit_text t (codes "\n" ++ (reasoning ++ codes "\n"))
      ▹ emit_tok k.think_close
      ▹ emit_text t (codes "\n\n" ++ content)
    else emit_text t (codes "assistant\n" ++ content) p

unfoldable pub emit_assistant :
    Tokenizer → Marks → Bool → Bool → ChatMessage → ChatPrompt → ChatPrompt
emit_assistant t k preserve recent m p =
    let (reasoning, content) = assistant_parts m in
    p
    ▹ emit_tok k.im_start
    ▹ emit_body t k (keep_think k preserve recent reasoning) reasoning content
    ▹ emit_calls t true (is_empty content) m.tool_calls
    ▹ emit_tok k.im_end
    ▹ emit_text t (codes "\n")

unfoldable pub emit_tool : Tokenizer → Marks → Bool → Bool → ChatMessage → ChatPrompt → ChatPrompt
emit_tool t k prev_tool next_tool m p =
    let opened = if prev_tool then p else p ▹ emit_tok k.im_start ▹ emit_text t (codes "user") in
    let body =
      codes "\n<tool_response>\n" ++ (trim_ws (flat_text m) ++ codes "\n</tool_response>") in
    let told = emit_text t body opened in
    if next_tool then told else told ▹ emit_tok k.im_end ▹ emit_text t (codes "\n")

unfoldable pub emit_user :
    Tokenizer
    → Marks
    → VisionIds
    → Bool
    → ℕ
    → ChatMessage
    → ChatPrompt × ℕ
    → Result (ChatPrompt × ℕ)
emit_user t k v add_vision_id count m (p, counter) =
    emit_content t v add_vision_id count false m
      (p ▹ emit_tok k.im_start ▹ emit_text t (codes "user\n"), counter)
    >>= λ r. ok (r.0 ▹ emit_tok k.im_end ▹ emit_text t (codes "\n"), r.1)

-- What the loop's body does with a message, by its role.
pub data Turn : Type 0 where
  system user assistant tool : Turn
  other : Bytes → Turn

unfoldable pub turn_of : ChatMessage → Turn
turn_of m =
    if has_role m (codes "system")
    then Turn.system
    else if has_role m (codes "user")
    then Turn.user
    else if has_role m (codes "assistant")
    then Turn.assistant
    else if has_role m (codes "tool")
    then Turn.tool
    else Turn.other m.role

-- The options that the loop reads.
pub record TurnOptions : Type 0 where
  pub preserve : Bool
  pub add_id : Bool
  pub pads : ℕ

unfoldable pub turn_options : ChatPromptOptions → TurnOptions
turn_options o = record {
  preserve = o.preserve_thinking;
  add_id = o.add_vision_id;
  pads = span_count o.n_image_tokens;
}

unfoldable pub message_turn :
    Tokenizer
    → Marks
    → VisionIds
    → TurnOptions
    → Bool
    → Bool
    → Bool
    → ChatMessage
    → Turn
    → ChatPrompt × ℕ
    → Result (ChatPrompt × ℕ)
message_turn t k v o recent prev_tool next_tool m Turn.system s = err ChatError.late_system
message_turn t k v o recent prev_tool next_tool m Turn.user s = emit_user t k v o.add_id o.pads m s
message_turn t k v o recent prev_tool next_tool m Turn.assistant (p, counter) =
    if has_image m
    then err ChatError.assistant_image
    else ok (emit_assistant t k o.preserve recent m p, counter)
message_turn t k v o recent prev_tool next_tool m Turn.tool (p, counter) =
    ok (emit_tool t k prev_tool next_tool m p, counter)
message_turn t k v o recent prev_tool next_tool m (Turn.other role) s =
    err (ChatError.unexpected_role role)

-- Is the first of the messages a tool's?
unfoldable pub head_is_tool : List ChatMessage → Bool
head_is_tool [] = false
head_is_tool (m ∷ ms) = has_role m (codes "tool")

-- `for (i = …; i < messages.size(); ++i)` over the messages from `i` on. `prev_tool` is false at
-- `msg_begin`, as the code's `i > msg_begin` says.
unfoldable pub turn_loop :
    Tokenizer
    → Marks
    → VisionIds
    → TurnOptions
    → ℕ
    → ℕ
    → Bool
    → List ChatMessage
    → ChatPrompt × ℕ
    → Result (ChatPrompt × ℕ)
turn_loop t k v o last_query i prev_tool [] s = ok s
turn_loop t k v o last_query i prev_tool (m ∷ ms) s =
    message_turn t k v o (ltb last_query i) prev_tool (head_is_tool ms) m (turn_of m) s
    >>= turn_loop t k v o last_query (i + 1) (has_role m (codes "tool")) ms
