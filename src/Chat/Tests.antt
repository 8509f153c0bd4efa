-- ===== src/Chat/Tests.antt =====
-- A short conversation with an image, on a small vocabulary.
use questwend.Prelude.{
  ◌≡◌, refl, List, [], ◌∷◌, ◌++◌, true, false, some, arith, codes, map, All, bytes_eq, begins_with,
}
use questwend.Prelude.Int.{pos, negsuc}
use questwend.Prelude.Dict.{bytes_key, lookup}
use questwend.Tokenizer.Bpe.{Tokenizer}
use questwend.Tokenizer.ByteMap.{build_byte_unicode}
use questwend.Tokenizer.Pretokenize.{Pre}
use questwend.Tokenizer.Access.{token_to_id}
use questwend.Chat.{ContentPart, ChatMessage, ChatPrompt, ChatPromptOptions, ChatError}
use questwend.Chat.Build
use questwend.Chat.Build.{build_qwen_prompt}
use questwend.Chat.Content.{vision_ids, no_vision}
use questwend.Chat.Emit
use questwend.Chat.Emit.{empty_prompt}
use questwend.Chat.Growth.Generation.{IsContinued, with_generation, build_qwen_prompt-IsContinued}
use questwend.Chat.Growth.Spans.{SpanIn}
use questwend.Chat.Growth.Spans.Turns.{IfOk, user_images}
use questwend.Chat.Growth.Spans.Whole.{emit_chatml-spans}
use questwend.Chat.Growth.Turns.{HasQuery}
use questwend.Chat.Growth.Turns.Stable.{IsLonger, build_qwen_prompt-IsLonger}
use questwend.Chat.Qwen.Header
use questwend.Chat.Qwen.Header.{emit_chatml}
use questwend.Chat.Qwen.Turns.{marks_of, is_query}
use questwend.Chat.Refusal.{refusal}
use questwend.Chat.Trim

abbrev tiny : Tokenizer
tiny = record {
  token_ids =
      (codes "<|im_start|>", 0)
      ∷ (codes "<|im_end|>", 1)
      ∷ (codes "<|vision_start|>", 2)
      ∷ (codes "<|vision_end|>", 3)
      ∷ (codes "<|image_pad|>", 4)
      ∷ (codes "<think>", 5)
      ∷ (codes "</think>", 6)
      ∷ [];
  id_to_token = [];
  merge_rank = [];
  bos = negsuc 0;
  eos = pos 1;
  add_bos = false;
  template_bos = false;
  byte_maps = build_byte_unicode;
  pre = Pre.qwen;
  ignore_merges = false;
  special = [];
  special_first = [];
}

abbrev question : ChatMessage
question = record {
  role = codes "user";
  content = [];
  parts = ContentPart.text (codes "what is ") ∷ ContentPart.image (pos 7) ∷ [];
  reasoning_content = [];
  has_reasoning = false;
  tool_calls = [];
}

abbrev answer : ChatMessage
answer = record {
  role = codes "assistant";
  content = codes "a cat";
  parts = [];
  reasoning_content = [];
  has_reasoning = false;
  tool_calls = [];
}

abbrev talk : List ChatMessage
talk = question ∷ answer ∷ question ∷ []

abbrev defaults : ChatPromptOptions
defaults = record {
  add_generation_prompt = true;
  reasoning = true;
  preserve_thinking = false;
  add_vision_id = true;
  n_image_tokens = pos 3;
  tools_json = [];
}

talk-HasQuery : HasQuery talk
unfolding is_query Trim.trim_ws Trim.ends_with Emit.flat_text Emit.text_parts begins_with bytes_eq
talk-HasQuery = (0, question, omega arith, refl, refl)

build_qwen_prompt-IsContinued_example :
    IsContinued
      (build_qwen_prompt tiny talk (with_generation false true defaults))
      (build_qwen_prompt tiny talk (with_generation true false defaults))
build_qwen_prompt-IsContinued_example = build_qwen_prompt-IsContinued tiny talk defaults true false

build_qwen_prompt-IsLonger_example :
    IsLonger
      (build_qwen_prompt tiny talk (with_generation false true defaults))
      (build_qwen_prompt tiny (talk ++ answer ∷ []) (with_generation false true defaults))
unfolding Emit.has_image
build_qwen_prompt-IsLonger_example =
    build_qwen_prompt-IsLonger answer refl refl tiny talk defaults true true talk-HasQuery

emit_chatml-spans_example :
    IfOk
      (λ (q : ChatPrompt).
        All (SpanIn (vision_ids tiny) q.ids) q.image_spans
        × (map (λ s. s.image_index) q.image_spans ≡ user_images talk))
      (emit_chatml tiny (marks_of tiny) talk defaults empty_prompt)
emit_chatml-spans_example = emit_chatml-spans tiny (marks_of tiny) talk defaults empty_prompt refl

late_system_refused :
    refusal tiny (talk ++ record question { role = codes "system" } ∷ [])
    ≡ some ChatError.late_system
unfolding Build.chat_format token_to_id lookup bytes_eq marks_of vision_ids no_vision Emit.has_image
    Header.system_of Header.msg_begin
late_system_refused = refl
