-- ===== src/Chat/Growth/Generation.antt =====
-- The generation prompt comes after the prompt without one, and starts at `gen_prompt_begin`.
use questwend.Prelude.{
  ℕ, ◌≡◌, refl, ap, List, [], ◌∷◌, ◌++◌, Bool, true, false, ◌||◌, some, length, take, Bool-cases,
  inl, inr, codes,
}
use questwend.Tokenizer.Bpe.{Tokenizer}
use questwend.Chat.{ChatMessage, ChatPrompt, ChatPromptOptions, Result, ok, err, ◌>>=◌}
use questwend.Chat.Build.{chat_format, build_qwen_prompt}
use questwend.Chat.Emit.{is_neg, emit_text}
use questwend.Chat.Growth.{Grows, Grows-refl, ◌▸◌, Grows-emit_tok, Grows-emit_text}
use questwend.Chat.Lfm2.{any_has_image, lfm2_turns, build_lfm2_prompt}
use questwend.Chat.Qwen.Header.{
  emit_think, emit_generation, emit_turns, emit_chatml, emit_plain, plain_loop, build_chatml,
}
use questwend.Chat.Qwen.Turns.{Marks, marks_of, turn_options}

-- The options with other choices for the generation prompt.
abbrev pub with_generation : Bool → Bool → ChatPromptOptions → ChatPromptOptions
with_generation add reasoning o = record o { add_generation_prompt = add; reasoning = reasoning }

take-append_self {ℓ} : {A : Type ℓ} (xs ys : List A) → take (length xs) (xs ++ ys) ≡ xs
take-append_self [] ys = refl
take-append_self (x ∷ xs) ys = ap (◌∷◌ x) (take-append_self xs ys)

-- `q` has the ids and the images of `p`, and the generation prompt from `gen_prompt_begin` on.
pub record Continues (p q : ChatPrompt) : Type 0 where
  pub begins : q.gen_prompt_begin ≡ some (length p.ids)
  pub same_ids : take (length p.ids) q.ids ≡ p.ids
  pub same_images : q.image_spans ≡ p.image_spans

-- The two outcomes are the same error, or the second continues the first.
abbrev pub IsContinued : Result ChatPrompt → Result ChatPrompt → Type 0
IsContinued (ok p) (ok q) = Continues p q
IsContinued (err e) (err e') = e ≡ e'
IsContinued (ok p) (err e) = ⊥
IsContinued (err e) (ok q) = ⊥

Continues-of-Grows :
    (p q : ChatPrompt)
    → Grows (record p { gen_prompt_begin = some (length p.ids) }) q
    → Continues p q
Continues-of-Grows p q g = record {
  begins = g.same_begin;
  same_ids = rw g.longer (take-append_self p.ids g.more);
  same_images = g.same_spans;
}

pub Grows-emit_think :
    (t : Tokenizer) (k : Marks) (closed empty_block : Bool) (p : ChatPrompt)
    → Grows p (emit_think t k closed empty_block p)
unfolding emit_think
Grows-emit_think t k true b p = Grows-refl p
Grows-emit_think t k false true p =
    Grows-emit_tok k.think_open p
    ▸ Grows-emit_text t _ _
    ▸ Grows-emit_tok k.think_close _
    ▸ Grows-emit_text t _ _
Grows-emit_think t k false false p = Grows-emit_tok k.think_open p ▸ Grows-emit_text t _ _

emit_generation-Continues :
    (t : Tokenizer) (k : Marks) (reasoning : Bool) (p : ChatPrompt)
    → Continues p (emit_generation t k reasoning p)
unfolding emit_generation
emit_generation-Continues t k reasoning p = Continues-of-Grows p _ (
    Grows-emit_tok k.im_start (record p { gen_prompt_begin = some (length p.ids) })
    ▸ Grows-emit_text t _ _
    ▸ Grows-emit_think t k _ _ _)

emit_chatml-IsContinued :
    (t : Tokenizer) (k : Marks) (ms : List ChatMessage) (o : ChatPromptOptions) (r r' : Bool)
    (p : ChatPrompt)
    → IsContinued
        (emit_chatml t k ms (with_generation false r o) p)
        (emit_chatml t k ms (with_generation true r' o) p)
unfolding emit_chatml emit_turns turn_options
emit_chatml-IsContinued t k ms o r r' p = go (emit_turns t k ms o p)
  where
    go :
        (result : Result (ChatPrompt × ℕ))
        → IsContinued (result >>= λ s. ok s.0) (result >>= λ s. ok (emit_generation t k r' s.0))
    go (ok s) = emit_generation-Continues t k r' s.0
    go (err e) = refl

emit_plain-IsContinued :
    (t : Tokenizer) (ms : List ChatMessage) (o : ChatPromptOptions) (r r' : Bool) (p : ChatPrompt)
    → IsContinued
        (emit_plain t ms (with_generation false r o) p)
        (emit_plain t ms (with_generation true r' o) p)
unfolding emit_plain
emit_plain-IsContinued t ms o r r' p = go (plain_loop t ms p)
  where
    go :
        (result : Result ChatPrompt)
        → IsContinued (result >>= λ q. ok q) (
            result >>= λ q. ok (
              emit_text t
                (codes "assistant: ")
                (record q { gen_prompt_begin = some (length q.ids) })))
    go (ok q) = Continues-of-Grows q _ (Grows-emit_text t _ _)
    go (err e) = refl

build_lfm2-IsContinued :
    (t : Tokenizer) (ms : List ChatMessage) (o : ChatPromptOptions) (r r' : Bool)
    → IsContinued
        (build_lfm2_prompt t ms (with_generation false r o))
        (build_lfm2_prompt t ms (with_generation true r' o))
unfolding build_lfm2_prompt lfm2_turns
build_lfm2-IsContinued t ms o r r' = elim (Bool-cases (any_has_image ms)) [
  | inl bad ↦ rw bad refl
  | inr fine ↦ rw fine (
      Continues-of-Grows (lfm2_turns t (marks_of t) ms o) _
        (Grows-emit_tok (marks_of t).im_start _ ▸ Grows-emit_text t _ _))
]

-- Asking for the generation prompt, with reasoning or without, changes neither whether the messages
-- are refused, and with which error, nor the ids and the image spans before it; `gen_prompt_begin` is
-- the place where it starts. So two requests with the same messages share these ids.
pub build_qwen_prompt-IsContinued :
    (t : Tokenizer) (messages : List ChatMessage) (o : ChatPromptOptions) (r r' : Bool)
    → IsContinued
        (build_qwen_prompt t messages (with_generation false r o))
        (build_qwen_prompt t messages (with_generation true r' o))
unfolding build_qwen_prompt build_chatml
build_qwen_prompt-IsContinued t messages o r r' = elim (Bool-cases (chat_format t).lfm2) [
  | inl lfm2 ↦ rw lfm2 (build_lfm2-IsContinued t messages o r r')
  | inr qwen ↦
      let k = marks_of t in
      elim (Bool-cases (is_neg k.im_start || is_neg k.im_end)) [
        | inl plain ↦ rw (qwen, plain) (emit_plain-IsContinued t messages o r r' _)
        | inr chatml ↦ rw (qwen, chatml) (emit_chatml-IsContinued t k messages o r r' _)
      ]
]
