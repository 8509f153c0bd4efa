-- ===== src/Chat/Growth/Turns/Stable.antt =====
-- The prompt of a longer conversation.
use questwend.Prelude.{
  ℕ, ◌+◌, ◌≡◌, refl, ap, ◌∙◌, List, [], ◌∷◌, ◌++◌, Bytes, Bool, true, false, ◌&&◌, ◌||◌, Option,
  none, some, if◌then◌else◌, drop, Bool-cases, inl, inr, arith, codes, bytes_eq, ltb,
}
use questwend.Tokenizer.Bpe.{Tokenizer}
use questwend.Chat.{ChatMessage, ChatPrompt, ChatPromptOptions, Result, ok, err, ◌>>=◌}
use questwend.Chat.Build.{chat_format, build_qwen_prompt}
use questwend.Chat.Content.{VisionIds, vision_ids}
use questwend.Chat.Emit.{is_neg, has_image}
use questwend.Chat.Growth.{
  Grows, Grows-refl, ◌▸◌, Grows-emit_tok, Grows-emit_text, Grows-emit_assistant,
}
use questwend.Chat.Growth.Generation.{with_generation}
use questwend.Chat.Growth.Turns.{HasQuery, last_query_index-snoc, last_turn, turn_loop-snoc}
use questwend.Chat.Lfm2.{
  CallMarks, call_marks, any_has_image, last_user, lfm2_loop, emit_lfm2_turn, emit_lfm2_assistant,
  emit_lfm2_calls, lfm2_turns, build_lfm2_prompt, lfm2_content,
}
use questwend.Chat.Qwen.Header.{
  system_of, msg_begin, check_system, emit_header, plain_loop, emit_plain, emit_turns, emit_chatml,
  build_chatml,
}
use questwend.Chat.Qwen.Turns.{
  Marks, marks_of, has_role, is_query, last_query_index, Turn, turn_of, TurnOptions, turn_options,
  message_turn, turn_loop,
}

-- The two outcomes are the same error, or the second is the first and more.
abbrev pub IsLonger : Result ChatPrompt → Result ChatPrompt → Type 0
IsLonger (ok p) (ok q) = Grows p q
IsLonger (err e) (err e') = e ≡ e'
IsLonger (ok p) (err e) = ⊥
IsLonger (err e) (ok q) = ⊥

module _ (m : ChatMessage) (from_assistant : m.role ≡ codes "assistant")
    (no_image : has_image m ≡ false) where
  no_role : (name : Bytes) → bytes_eq (codes "assistant") name ≡ false → has_role m name ≡ false
  no_role name h = ap (λ r. bytes_eq r name) from_assistant ∙ h

  assistant_role : has_role m (codes "assistant") ≡ true
  unfolding bytes_eq
  assistant_role = ap (λ r. bytes_eq r (codes "assistant")) from_assistant

  not_system : has_role m (codes "system") ≡ false
  unfolding bytes_eq
  not_system = no_role (codes "system") refl

  not_user : has_role m (codes "user") ≡ false
  unfolding bytes_eq
  not_user = no_role (codes "user") refl

  not_tool : has_role m (codes "tool") ≡ false
  unfolding bytes_eq
  not_tool = no_role (codes "tool") refl

  not_query : is_query m ≡ false
  unfolding is_query
  not_query = rw not_user refl

  turn_of-assistant : turn_of m ≡ Turn.assistant
  unfolding turn_of
  turn_of-assistant = rw (not_system, not_user, assistant_role) refl

  -- The turn is emitted, and the prompt grows.
  last_turn-Grows :
      (t : Tokenizer) (k : Marks) (v : VisionIds) (o : TurnOptions) (q i : ℕ) (prev : Bool)
      (ms : List ChatMessage) (s : ChatPrompt × ℕ)
      → (p : ChatPrompt) × (last_turn t k v o q i prev ms m s ≡ ok (p, s.1)) × Grows s.0 p
  unfolding last_turn message_turn
  last_turn-Grows t k v o q i prev [] s = (
    _,
    rw (turn_of-assistant, message_turn, no_image) refl,
    Grows-emit_assistant t k o.preserve (ltb q i) m s.0,
  )
  last_turn-Grows t k v o q i prev (x ∷ ms) s =
      last_turn-Grows t k v o q (i + 1) (has_role x (codes "tool")) ms s

  system_of-snoc :
      (x : ChatMessage) (ms : List ChatMessage)
      → system_of ((x ∷ ms) ++ m ∷ []) ≡ system_of (x ∷ ms)
  unfolding system_of
  system_of-snoc x ms = refl

  drop_begin :
      (sys : Option ChatMessage) (x : ChatMessage) (ms : List ChatMessage)
      → drop (msg_begin sys) ((x ∷ ms) ++ m ∷ []) ≡ drop (msg_begin sys) (x ∷ ms) ++ m ∷ []
  unfolding msg_begin
  drop_begin none x ms = refl
  drop_begin (some y) x ms = refl

  emit_chatml-IsLonger :
      (t : Tokenizer) (k : Marks) (ms : List ChatMessage) (o : ChatPromptOptions) (r r' : Bool)
      (p : ChatPrompt)
      → HasQuery ms
      → IsLonger
          (emit_chatml t k ms (with_generation false r o) p)
          (emit_chatml t k (ms ++ m ∷ []) (with_generation false r' o) p)
  unfolding emit_chatml emit_turns turn_options
  emit_chatml-IsLonger t k [] o r r' p (i, q, low, here, found) = absurd (omega arith)
  emit_chatml-IsLonger t k (x ∷ ms) o r r' p asked =
      rw
        (
          system_of-snoc x ms,
          drop_begin (system_of (x ∷ ms)) x ms,
          last_query_index-snoc (x ∷ ms) m asked not_query,
        )
        (checked (check_system sys))
    where
      sys : Option ChatMessage
      sys = system_of (x ∷ ms)

      rest : List ChatMessage
      rest = drop (msg_begin sys) (x ∷ ms)

      query : ℕ
      query = last_query_index (x ∷ ms)

      loop : List ChatMessage → ChatPrompt × ℕ → Result (ChatPrompt × ℕ)
      loop = turn_loop t k (vision_ids t) (turn_options o) query (msg_begin sys) false

      last : ChatPrompt × ℕ → Result (ChatPrompt × ℕ)
      last = last_turn t k (vision_ids t) (turn_options o) query (msg_begin sys) false rest m

      start : ChatPrompt × ℕ
      start = (emit_header t k o.tools_json sys p, 0)

      looped :
          (result : Result (ChatPrompt × ℕ))
          → IsLonger (result >>= λ s. ok s.0) ((result >>= last) >>= λ s. ok s.0)
      looped (ok s) =
          let (q, e, g) =
            last_turn-Grows t k (vision_ids t) (turn_options o) query (msg_begin sys) false rest
              s in
          rw e g
      looped (err e) = refl

      checked :
          (c : Result (Unit {0}))
          → IsLonger
              ((c >>= λ _. loop rest start) >>= λ s. ok s.0)
              ((c >>= λ _. loop (rest ++ m ∷ []) start) >>= λ s. ok s.0)
      checked (ok u) =
          rw
            (turn_loop-snoc t k (vision_ids t) (turn_options o) query (msg_begin sys) false rest m
              start not_tool)
            (looped (loop rest start))
      checked (err e) = refl

  plain_loop-IsLonger :
      (t : Tokenizer) (ms : List ChatMessage) (p : ChatPrompt)
      → IsLonger (plain_loop t ms p) (plain_loop t (ms ++ m ∷ []) p)
  unfolding plain_loop
  plain_loop-IsLonger t [] p = rw no_image (Grows-emit_text t _ p)
  plain_loop-IsLonger t (x ∷ ms) p = elim (Bool-cases (has_image x)) [
    | inl bad ↦ rw bad refl
    | inr fine ↦ rw fine (plain_loop-IsLonger t ms _)
  ]

  emit_plain-IsLonger :
      (t : Tokenizer) (ms : List ChatMessage) (o : ChatPromptOptions) (r r' : Bool) (p : ChatPrompt)
      → IsLonger
          (emit_plain t ms (with_generation false r o) p)
          (emit_plain t (ms ++ m ∷ []) (with_generation false r' o) p)
  unfolding emit_plain
  emit_plain-IsLonger t ms o r r' p =
      go (plain_loop t ms p) (plain_loop t (ms ++ m ∷ []) p) (plain_loop-IsLonger t ms p)
    where
      go : (a b : Result ChatPrompt) → IsLonger a b → IsLonger (a >>= λ q. ok q) (b >>= λ q. ok q)
      go (ok a) (ok b) h = h
      go (err a) (err b) h = h
      go (ok a) (err b) h = h
      go (err a) (ok b) h = h

  any_has_image-snoc : (ms : List ChatMessage) → any_has_image (ms ++ m ∷ []) ≡ any_has_image ms
  unfolding any_has_image
  any_has_image-snoc [] = rw no_image refl
  any_has_image-snoc (x ∷ ms) = ap (λ b. has_image x || b) (any_has_image-snoc ms)

  last_user-snoc :
      (ms : List ChatMessage) (i : ℕ) (found : Option ℕ)
      → last_user (ms ++ m ∷ []) i found ≡ last_user ms i found
  unfolding last_user
  last_user-snoc [] i found = rw not_user refl
  last_user-snoc (x ∷ ms) i found =
      last_user-snoc ms (i + 1) (if has_role x (codes "user") then some i else found)

  Grows-emit_lfm2_calls :
      (t : Tokenizer) (c : CallMarks) (p : ChatPrompt)
      → Grows p (emit_lfm2_calls t c m.tool_calls p)
  unfolding emit_lfm2_calls
  Grows-emit_lfm2_calls t c p = elim m.tool_calls as (λ cs. Grows p (emit_lfm2_calls t c cs p)) [
    | [] ↦ Grows-refl p
    | call ∷ cs ↦
        Grows-emit_tok c.call_open p ▸ Grows-emit_text t _ _ ▸ Grows-emit_tok c.call_close _
  ]

  Grows-emit_lfm2_assistant :
      (t : Tokenizer) (k : Marks) (c : CallMarks) (recent : Bool) (p : ChatPrompt)
      → Grows p (emit_lfm2_assistant t k c recent m p)
  unfolding emit_lfm2_assistant
  Grows-emit_lfm2_assistant t k c recent p = elim (Bool-cases (m.has_reasoning && recent)) [
    | inl kept ↦ rw kept (
        Grows-emit_tok k.think_open p
        ▸ Grows-emit_text t m.reasoning_content _
        ▸ Grows-emit_tok k.think_close _
        ▸ Grows-emit_text t (lfm2_content recent m) _
        ▸ Grows-emit_lfm2_calls t c _)
    | inr dropped ↦
        rw dropped (Grows-emit_text t (lfm2_content recent m) p ▸ Grows-emit_lfm2_calls t c _)
  ]

  Grows-emit_lfm2_turn :
      (t : Tokenizer) (k : Marks) (c : CallMarks) (recent : Bool) (p : ChatPrompt)
      → Grows p (emit_lfm2_turn t k c recent m p)
  unfolding emit_lfm2_turn
  Grows-emit_lfm2_turn t k c recent p = rw assistant_role (
      Grows-emit_tok k.im_start p
      ▸ Grows-emit_text t _ _
      ▸ Grows-emit_lfm2_assistant t k c recent _
      ▸ Grows-emit_tok k.im_end _
      ▸ Grows-emit_text t _ _)

  lfm2_loop-snoc :
      (t : Tokenizer) (k : Marks) (c : CallMarks) (preserve : Bool) (user : Option ℕ) (i : ℕ)
      (ms : List ChatMessage) (p : ChatPrompt)
      → Grows
          (lfm2_loop t k c preserve user i ms p)
          (lfm2_loop t k c preserve user i (ms ++ m ∷ []) p)
  unfolding lfm2_loop
  lfm2_loop-snoc t k c preserve user i [] p = Grows-emit_lfm2_turn t k c _ p
  lfm2_loop-snoc t k c preserve user i (x ∷ ms) p = lfm2_loop-snoc t k c preserve user (i + 1) ms _

  build_lfm2-IsLonger :
      (t : Tokenizer) (ms : List ChatMessage) (o : ChatPromptOptions) (r r' : Bool)
      → HasQuery ms
      → IsLonger
          (build_lfm2_prompt t ms (with_generation false r o))
          (build_lfm2_prompt t (ms ++ m ∷ []) (with_generation false r' o))
  unfolding build_lfm2_prompt lfm2_turns
  build_lfm2-IsLonger t [] o r r' (i, q, low, here, found) = absurd (omega arith)
  build_lfm2-IsLonger t (x ∷ ms) o r r' asked =
      let sys = system_of (x ∷ ms) in
      elim (Bool-cases (any_has_image (x ∷ ms))) [
        | inl bad ↦ rw (any_has_image-snoc (x ∷ ms), bad) refl
        | inr fine ↦
            rw
              (
                any_has_image-snoc (x ∷ ms),
                fine,
                system_of-snoc x ms,
                drop_begin sys x ms,
                last_user-snoc (drop (msg_begin sys) (x ∷ ms)) (msg_begin sys) none,
              )
              (lfm2_loop-snoc t (marks_of t) (call_marks t) o.preserve_thinking _ (msg_begin sys)
                (drop (msg_begin sys) (x ∷ ms)) _)
      ]

  -- A turn of the assistant without an image, whatever its text, reasoning and calls, is added to the
  -- messages: if one of them is a query of the user, the new prompt is the old one and more, or both are
  -- refused with the same error. Neither prompt is asked for the generation prompt.
  pub build_qwen_prompt-IsLonger :
      (t : Tokenizer) (messages : List ChatMessage) (o : ChatPromptOptions) (r r' : Bool)
      → HasQuery messages
      → IsLonger
          (build_qwen_prompt t messages (with_generation false r o))
          (build_qwen_prompt t (messages ++ m ∷ []) (with_generation false r' o))
  unfolding build_qwen_prompt build_chatml
  build_qwen_prompt-IsLonger t messages o r r' asked = elim (Bool-cases (chat_format t).lfm2) [
    | inl lfm2 ↦ rw lfm2 (build_lfm2-IsLonger t messages o r r' asked)
    | inr qwen ↦
        let k = marks_of t in
        elim (Bool-cases (is_neg k.im_start || is_neg k.im_end)) [
          | inl plain ↦ rw (qwen, plain) (emit_plain-IsLonger t messages o r r' _)
          | inr chatml ↦ rw (qwen, chatml) (emit_chatml-IsLonger t k messages o r r' _ asked)
        ]
  ]
