-- ===== src/Chat/Growth.antt =====
-- Every emission of a prompt's construction only adds to the end.
pub mod Generation
pub mod Spans
pub mod Turns
use questwend.Prelude.{
  ℕ, zero, suc, ◌+◌, ◌≡◌, refl, sym, ap, ◌∙◌, List, [], ◌∷◌, ◌++◌, append_assoc, append-nil, Bytes,
  Bool, true, false, Option, none, some, ◌&&◌, not, if◌then◌else◌, length, arith, codes, Bool-cases,
  inl, inr,
}
use questwend.Prelude.Int.{ℤ}
use questwend.Tokenizer.Bpe.{Tokenizer}
use questwend.Chat.{ToolCall, ChatMessage, ChatPrompt, ImageSpan, Result, ok, err, ◌>>=◌, is_empty}
use questwend.Chat.Content.{
  VisionIds, Seg, words, picture, emit_pads, emit_image, emit_segs, message_segs, trim_front,
  trim_back, emit_content,
}
use questwend.Chat.Emit.{emit_tok, emit_text, text_ids, flat_text}
use questwend.Chat.Qwen.Turns.{
  Marks, emit_arguments, emit_calls, emit_body, emit_assistant, emit_tool, keep_think,
  assistant_parts, call_lead,
}
use questwend.Chat.Trim.{trim_ws}

-- `q` is `p` with more ids after, and as many images.
pub record Grows (p q : ChatPrompt) : Type 0 where
  pub more : List ℤ
  pub longer : q.ids ≡ p.ids ++ more
  pub same_spans : q.image_spans ≡ p.image_spans
  pub same_begin : q.gen_prompt_begin ≡ p.gen_prompt_begin

pub Grows-refl : (p : ChatPrompt) → Grows p p
Grows-refl p = record {
  more = [];
  longer = rw append-nil refl;
  same_spans = refl;
  same_begin = refl;
}

infixl 3 ◌▸◌
pub ◌▸◌ : {p q r : ChatPrompt} → Grows p q → Grows q r → Grows p r
◌▸◌ {p} {q} {r} a b = record {
  more = a.more ++ b.more;
  longer = rw b.longer (rw a.longer (append_assoc p.ids a.more b.more));
  same_spans = b.same_spans ∙ a.same_spans;
  same_begin = b.same_begin ∙ a.same_begin;
}

pub Grows-emit_tok : (id : ℤ) (p : ChatPrompt) → Grows p (emit_tok id p)
unfolding emit_tok
Grows-emit_tok id p = record { more = id ∷ []; longer = refl; same_spans = refl; same_begin = refl }

pub Grows-emit_text : (t : Tokenizer) (s : Bytes) (p : ChatPrompt) → Grows p (emit_text t s p)
unfolding emit_text
Grows-emit_text t s p = record {
  more = text_ids t s;
  longer = refl;
  same_spans = refl;
  same_begin = refl;
}

pub Grows-emit_arguments :
    (t : Tokenizer) (args : List (Bytes × Bytes)) (p : ChatPrompt)
    → Grows p (emit_arguments t args p)
unfolding emit_arguments
Grows-emit_arguments t [] p = Grows-refl p
Grows-emit_arguments t ((k, v) ∷ args) p = Grows-emit_text t _ p ▸ Grows-emit_arguments t args _

pub Grows-emit_calls :
    (t : Tokenizer) (first no_content : Bool) (cs : List ToolCall) (p : ChatPrompt)
    → Grows p (emit_calls t first no_content cs p)
unfolding emit_calls
Grows-emit_calls t first no_content [] p = Grows-refl p
Grows-emit_calls t first no_content (c ∷ cs) p =
    Grows-emit_text t _ p
    ▸ Grows-emit_arguments t c.arguments _
    ▸ Grows-emit_text t _ _
    ▸ Grows-emit_calls t false no_content cs _

pub Grows-emit_body :
    (t : Tokenizer) (k : Marks) (kept : Bool) (reasoning content : Bytes) (p : ChatPrompt)
    → Grows p (emit_body t k kept reasoning content p)
unfolding emit_body
Grows-emit_body t k true reasoning content p =
    Grows-emit_text t _ p
    ▸ Grows-emit_tok k.think_open _
    ▸ Grows-emit_text t _ _
    ▸ Grows-emit_tok k.think_close _
    ▸ Grows-emit_text t _ _
Grows-emit_body t k false reasoning content p = Grows-emit_text t _ p

pub Grows-emit_assistant :
    (t : Tokenizer) (k : Marks) (preserve recent : Bool) (m : ChatMessage) (p : ChatPrompt)
    → Grows p (emit_assistant t k preserve recent m p)
unfolding emit_assistant
Grows-emit_assistant t k preserve recent m p =
    Grows-emit_tok k.im_start p
    ▸ Grows-emit_body t k _ _ _ _
    ▸ Grows-emit_calls t true _ m.tool_calls _
    ▸ Grows-emit_tok k.im_end _
    ▸ Grows-emit_text t _ _

pub Grows-emit_tool :
    (t : Tokenizer) (k : Marks) (prev_tool next_tool : Bool) (m : ChatMessage) (p : ChatPrompt)
    → Grows p (emit_tool t k prev_tool next_tool m p)
unfolding emit_tool
Grows-emit_tool t k true true m p = Grows-emit_text t _ p
Grows-emit_tool t k true false m p =
    Grows-emit_text t _ p ▸ Grows-emit_tok k.im_end _ ▸ Grows-emit_text t _ _
Grows-emit_tool t k false true m p =
    Grows-emit_tok k.im_start p ▸ Grows-emit_text t _ _ ▸ Grows-emit_text t _ _
Grows-emit_tool t k false false m p =
    Grows-emit_tok k.im_start p
    ▸ Grows-emit_text t _ _
    ▸ Grows-emit_text t _ _
    ▸ Grows-emit_tok k.im_end _
    ▸ Grows-emit_text t _ _
