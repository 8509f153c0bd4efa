-- ===== src/Chat/Build.antt =====
-- core/chat.cpp and core/chat.h: `chat_format`, `build_qwen_prompt`, `build_chatml_tokens`.
use questwend.Prelude.{List, [], Bytes, Bool, true, false, ◌&&◌, not, codes, if◌then◌else◌}
use questwend.Prelude.Int.{ℤ, pos}
use questwend.Tokenizer.Access.{token_to_id}
use questwend.Tokenizer.Bpe.{Tokenizer}
use questwend.Chat.{ChatPrompt, ChatMessage, ChatPromptOptions, Result, ok, ◌>>=◌}
use questwend.Chat.Emit.{is_neg}
use questwend.Chat.Lfm2.{build_lfm2_prompt}
use questwend.Chat.Qwen.Header.{build_chatml}

-- `struct ChatFormat`
pub record ChatFormat : Type 0 where
  pub lfm2 : Bool
  pub tool_open : Bytes
  pub tool_close : Bytes

unfoldable pub chat_format : Tokenizer → ChatFormat
chat_format t =
    if not (is_neg (token_to_id t (codes "<|tool_call_start|>")))
      && not (is_neg (token_to_id t (codes "<|im_start|>")))
    then record {
      lfm2 = true;
      tool_open = codes "<|tool_call_start|>";
      tool_close = codes "<|tool_call_end|>";
    }
    else record { lfm2 = false; tool_open = codes "<tool_call>"; tool_close = codes "</tool_call>" }

unfoldable pub build_qwen_prompt :
    Tokenizer → List ChatMessage → ChatPromptOptions → Result ChatPrompt
build_qwen_prompt t messages o =
    if (chat_format t).lfm2 then build_lfm2_prompt t messages o else build_chatml t messages o

-- The options that `build_chatml_tokens` sets, the others as they start.
abbrev pub plain_options : Bool → Bool → ChatPromptOptions
plain_options add_generation_prompt reasoning = record {
  add_generation_prompt = add_generation_prompt;
  reasoning = reasoning;
  preserve_thinking = false;
  add_vision_id = false;
  n_image_tokens = pos 1;
  tools_json = [];
}

unfoldable pub build_chatml_tokens : Tokenizer → List ChatMessage → Bool → Bool → Result (List ℤ)
build_chatml_tokens t messages add_generation_prompt reasoning =
    build_qwen_prompt t messages (plain_options add_generation_prompt reasoning) >>= λ p. ok p.ids
