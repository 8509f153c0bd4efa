-- ===== src/Chat/Refusal.antt =====
-- Which conversations are refused, and with which error.
use questwend.Prelude.{
  ◌≡◌, List, [], ◌∷◌, Bool, ◌&&◌, ◌||◌, Option, none, some, if◌then◌else◌, drop, codes,
}
use questwend.Tokenizer.Bpe.{Tokenizer}
use questwend.Chat.{ChatMessage, Result, ok, err, ChatError}
use questwend.Chat.Build.{chat_format}
use questwend.Chat.Content.{VisionIds, vision_ids, no_vision}
use questwend.Chat.Emit.{is_neg, has_image}
use questwend.Chat.Lfm2.{any_has_image}
use questwend.Chat.Qwen.Header.{system_of, msg_begin}
use questwend.Chat.Qwen.Turns.{marks_of, has_role}

-- The first of two errors.
infixr 30 ◌<|>◌
abbrev pub ◌<|>◌ : Option ChatError → Option ChatError → Option ChatError
none <|> e = e
some e <|> e' = some e

-- What is wrong with a message that is not the leading system message.
abbrev pub message_refusal : VisionIds → ChatMessage → Option ChatError
message_refusal v m =
    if has_role m (codes "system")
    then some ChatError.late_system
    else if has_role m (codes "user")
    then if has_image m && no_vision v then some ChatError.no_vision_tokens else none
    else if has_role m (codes "assistant")
    then if has_image m then some ChatError.assistant_image else none
    else if has_role m (codes "tool")
    then none
    else some (ChatError.unexpected_role m.role)

abbrev pub first_refusal : VisionIds → List ChatMessage → Option ChatError
first_refusal v [] = none
first_refusal v (m ∷ ms) = message_refusal v m <|> first_refusal v ms

abbrev pub system_refusal : Option ChatMessage → Option ChatError
system_refusal none = none
system_refusal (some m) = if has_image m then some ChatError.system_image else none

-- What is wrong with a conversation, by the model's template.
abbrev pub refusal : Tokenizer → List ChatMessage → Option ChatError
refusal t ms =
    if (chat_format t).lfm2
    then if any_has_image ms then some ChatError.lfm2_image else none
    else if is_neg (marks_of t).im_start || is_neg (marks_of t).im_end
    then if any_has_image ms then some ChatError.no_chatml_image else none
    else system_refusal (system_of ms)
      <|> first_refusal (vision_ids t) (drop (msg_begin (system_of ms)) ms)

-- The outcome is the error, or a value if there is none.
abbrev pub Reports {ℓ} : {A : Type ℓ} → Option ChatError → Result A → Type 0
Reports none (ok a) = Unit
Reports (some e) (err e') = e' ≡ e
Reports none (err e) = ⊥
Reports (some e) (ok a) = ⊥

abbrev no_tokens : VisionIds → Bool → Option ChatError
no_tokens v images = if images && no_vision v then some ChatError.no_vision_tokens else none
