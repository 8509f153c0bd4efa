-- ===== src/Chat/Emit.antt =====
-- core/chat.cpp: the lambdas `emit_text` and `emit_tok`, and the text of a message.
use questwend.Prelude.{
  List, [], ◌∷◌, ◌++◌, Bytes, Bool, true, false, ◌&&◌, not, none, map, if◌then◌else◌,
}
use questwend.Prelude.Int.{ℤ, pos, negsuc}
use questwend.Tokenizer.Access.{chat_wants_bos}
use questwend.Tokenizer.Bpe.{Tokenizer}
use questwend.Tokenizer.Encode.{encode}
use questwend.Chat.{ContentPart, text, image, ChatMessage, ChatPrompt}

-- `id < 0`
abbrev pub is_neg : ℤ → Bool
is_neg (pos n) = false
is_neg (negsuc n) = true

-- The code applies one emission after the other to `out`; `p ▹ f` is `f` applied to `p`.
infixl 3 ◌▹◌
abbrev pub ◌▹◌ {ℓ κ} : {A : Type ℓ} {B : Type κ} → A → (A → B) → B
p ▹ f = f p

abbrev pub empty_prompt : ChatPrompt
empty_prompt = record { ids = []; image_spans = []; gen_prompt_begin = none }

unfoldable pub emit_tok : ℤ → ChatPrompt → ChatPrompt
emit_tok id p = record p { ids = p.ids ++ id ∷ [] }

-- The ids of a text; special tokens are not recognised in it.
unfoldable pub text_ids : Tokenizer → Bytes → List ℤ
text_ids t [] = []
text_ids t (c ∷ s) = map pos (encode t (c ∷ s) false false)

unfoldable pub emit_text : Tokenizer → Bytes → ChatPrompt → ChatPrompt
emit_text t s p = record p { ids = p.ids ++ text_ids t s }

-- `if (tok.chat_wants_bos() && tok.bos() >= 0) emit_tok(tok.bos());`
unfoldable pub emit_bos : Tokenizer → ChatPrompt → ChatPrompt
emit_bos t p = if chat_wants_bos t && not (is_neg t.bos) then emit_tok t.bos p else p

unfoldable pub text_parts : List ContentPart → Bytes
text_parts [] = []
text_parts (text s ∷ ps) = s ++ text_parts ps
text_parts (image k ∷ ps) = text_parts ps

unfoldable pub flat_parts : List ContentPart → Bytes → Bytes
unfolding text_parts
flat_parts [] content = content
flat_parts (p ∷ ps) content = text_parts (p ∷ ps)

unfoldable pub flat_text : ChatMessage → Bytes
unfolding flat_parts
flat_text m = flat_parts m.parts m.content

unfoldable pub any_image : List ContentPart → Bool
any_image [] = false
any_image (text s ∷ ps) = any_image ps
any_image (image k ∷ ps) = true

unfoldable pub has_image : ChatMessage → Bool
unfolding any_image
has_image m = any_image m.parts
