-- ===== src/Chat/Growth/Spans/Whole.antt =====
-- The images of a whole prompt.
use questwend.Prelude.{
  ℕ, ◌+◌, ◌≡◌, refl, sym, ap, ◌∙◌, List, [], ◌∷◌, ◌++◌, append-nil, map, Bytes, Bool, true, false,
  Option, none, some, if◌then◌else◌, length, drop, codes, ltb, Bool-cases, inl, inr, All, bytes_eq,
  eq_of_bytes_eq,
}
use mathlib.Core.Path.{subst}
use questwend.Prelude.Int.{ℤ}
use questwend.Tokenizer.Bpe.{Tokenizer}
use questwend.Chat.{ChatMessage, ChatPrompt, ChatPromptOptions, ImageSpan, Result, ok, err}
use questwend.Chat.Content.{VisionIds, vision_ids}
use questwend.Chat.Emit.{has_image, flat_text}
use questwend.Chat.Growth.{
  Grows, Grows-refl, ◌▸◌, Grows-emit_tok, Grows-emit_text, Grows-emit_assistant, Grows-emit_tool,
}
use questwend.Chat.Growth.Generation.{Grows-emit_think}
use questwend.Chat.Growth.Spans.{
  SpanIn, Placed, Placed-none, Placed-of-Grows, Placed-trans, part_images,
}
use questwend.Chat.Growth.Spans.Turns.{IfOk, IfOk-bind, emit_user-Placed, user_images}
use questwend.Chat.Qwen.Header.{
  system_of, msg_begin, check_system, emit_tools, emit_extra, emit_tools_header, emit_system,
  emit_header, emit_generation, emit_turns, emit_chatml,
}
use questwend.Chat.Qwen.Turns.{
  Marks, has_role, last_query_index, turn_of, TurnOptions, turn_options, message_turn, head_is_tool,
  turn_loop,
}
use questwend.Chat.Trim.{trim_ws}

module _ (t : Tokenizer) (k : Marks) (v : VisionIds) where
  -- One turn places the images of a user's message, and no others.
  message_turn-Placed :
      (o : TurnOptions) (recent prev next : Bool) (m : ChatMessage) (s : ChatPrompt × ℕ)
      → IfOk
          (λ (r : ChatPrompt × ℕ).
            Placed v s.0 r.0 (if has_role m (codes "user") then part_images m.parts else []))
          (message_turn t k v o recent prev next m (turn_of m) s)
  unfolding message_turn turn_of
  message_turn-Placed o recent prev next m s = elim (Bool-cases (has_role m (codes "system"))) [
    | inl system ↦ rw (turn_of, system) tt
    | inr other ↦ elim (Bool-cases (has_role m (codes "user"))) [
      | inl user ↦ rw (turn_of, other, user) (emit_user-Placed t k v o.add_id o.pads m s.0 s.1)
      | inr other' ↦ elim (Bool-cases (has_role m (codes "assistant"))) [
        | inl assistant ↦ elim (Bool-cases (has_image m)) [
          | inl bad ↦ rw (turn_of, other, other', assistant, message_turn, bad) tt
          | inr fine ↦
              rw (turn_of, other, other', assistant, message_turn, fine)
                (Placed-of-Grows v s.0 _ (Grows-emit_assistant t k o.preserve recent m s.0))
        ]
        | inr other'' ↦ elim (Bool-cases (has_role m (codes "tool"))) [
          | inl tool ↦
              rw (turn_of, other, other', other'', tool)
                (Placed-of-Grows v s.0 _ (Grows-emit_tool t k prev next m s.0))
          | inr none_of_them ↦ rw (turn_of, other, other', other'', none_of_them) tt
        ]
      ]
    ]
  ]

  turn_loop-Placed :
      (o : TurnOptions) (q i : ℕ) (prev : Bool) (ms : List ChatMessage) (s : ChatPrompt × ℕ)
      → IfOk
          (λ (r : ChatPrompt × ℕ). Placed v s.0 r.0 (user_images ms))
          (turn_loop t k v o q i prev ms s)
  unfolding turn_loop
  turn_loop-Placed o q i prev [] s = Placed-none v s.0 s.0 [] (sym (append-nil _)) refl
  turn_loop-Placed o q i prev (m ∷ ms) s =
      let turn = message_turn t k v o (ltb q i) prev (head_is_tool ms) m (turn_of m) s in
      let own : List ℤ = if has_role m (codes "user") then part_images m.parts else [] in
      IfOk-bind _ _ turn _ (message_turn-Placed o (ltb q i) prev (head_is_tool ms) m s) (λ a h.
        let rest = turn_loop t k v o q (i + 1) (has_role m (codes "tool")) ms a in
        IfOk_map rest a own h (turn_loop-Placed o q (i + 1) (has_role m (codes "tool")) ms a))
    where
      IfOk_map :
          (r : Result (ChatPrompt × ℕ)) (a : ChatPrompt × ℕ) (own : List ℤ)
          → Placed v s.0 a.0 own
          → IfOk (λ (b : ChatPrompt × ℕ). Placed v a.0 b.0 (user_images ms)) r
          → IfOk (λ (b : ChatPrompt × ℕ). Placed v s.0 b.0 (own ++ user_images ms)) r
      IfOk_map (ok b) a own h h' = Placed-trans v s.0 a.0 b.0 own (user_images ms) h h'
      IfOk_map (err e) a own h h' = tt

Grows-emit_tools : (t : Tokenizer) (ss : List Bytes) (p : ChatPrompt) → Grows p (emit_tools t ss p)
unfolding emit_tools
Grows-emit_tools t [] p = Grows-refl p
Grows-emit_tools t (s ∷ ss) p = Grows-emit_text t _ p ▸ Grows-emit_tools t ss _

Grows-emit_extra : (t : Tokenizer) (s : Bytes) (p : ChatPrompt) → Grows p (emit_extra t s p)
unfolding emit_extra
Grows-emit_extra t [] p = Grows-refl p
Grows-emit_extra t (c ∷ s) p = Grows-emit_text t _ p

Grows-emit_header :
    (t : Tokenizer) (k : Marks) (tools : List Bytes) (sys : Option ChatMessage) (p : ChatPrompt)
    → Grows p (emit_header t k tools sys p)
unfolding emit_header emit_system emit_tools_header
Grows-emit_header t k [] none p = Grows-refl p
Grows-emit_header t k [] (some m) p =
    Grows-emit_tok k.im_start p
    ▸ Grows-emit_text t _ _
    ▸ Grows-emit_tok k.im_end _
    ▸ Grows-emit_text t _ _
Grows-emit_header t k (s ∷ ss) sys p =
    Grows-emit_tok k.im_start p
    ▸ Grows-emit_text t _ _
    ▸ Grows-emit_text t _ _
    ▸ Grows-emit_tools t (s ∷ ss) _
    ▸ Grows-emit_text t _ _
    ▸ Grows-emit_text t _ _
    ▸ extra sys _
    ▸ Grows-emit_tok k.im_end _
    ▸ Grows-emit_text t _ _
  where
    extra :
        (sys : Option ChatMessage) (q : ChatPrompt)
        → Grows q (elim sys [ none ↦ q | some m ↦ emit_extra t (trim_ws (flat_text m)) q ])
    extra none q = Grows-refl q
    extra (some m) q = Grows-emit_extra t _ q

emit_generation-Placed :
    (t : Tokenizer) (k : Marks) (v : VisionIds) (reasoning : Bool) (p : ChatPrompt)
    → Placed v p (emit_generation t k reasoning p) []
unfolding emit_generation
emit_generation-Placed t k v reasoning p =
    let marked = record p { gen_prompt_begin = some (length p.ids) } in
    let g : Grows marked (emit_generation t k reasoning p) =
      Grows-emit_tok k.im_start marked ▸ Grows-emit_text t _ _ ▸ Grows-emit_think t k _ _ _ in
    Placed-none v p _ g.more g.longer g.same_spans

-- A system message has no part in the user's images.
user_images-drop :
    (ms : List ChatMessage) → user_images (drop (msg_begin (system_of ms)) ms) ≡ user_images ms
unfolding system_of msg_begin
user_images-drop [] = refl
user_images-drop (m ∷ ms) = elim (Bool-cases (has_role m (codes "system"))) [
  | inl system ↦
      let not_user : has_role m (codes "user") ≡ false =
        ap (λ r. bytes_eq r (codes "user")) (eq_of_bytes_eq m.role (codes "system") system)
        ∙ unfold bytes_eq in refl in
      rw (system, not_user) refl
  | inr other ↦ rw other refl
]

emit_turns-Placed :
    (t : Tokenizer) (k : Marks) (ms : List ChatMessage) (o : ChatPromptOptions) (p : ChatPrompt)
    → IfOk
        (λ (r : ChatPrompt × ℕ). Placed (vision_ids t) p r.0 (user_images ms))
        (emit_turns t k ms o p)
unfolding emit_turns
emit_turns-Placed t k ms o p =
    let sys = system_of ms in
    let v = vision_ids t in
    let header = emit_header t k o.tools_json sys p in
    IfOk-bind (λ _. Unit {0}) _ (check_system sys) _ (trivial (check_system sys))
      (λ _ _. rw (← user_images-drop ms) (
        after header (drop (msg_begin sys) ms)
          (Placed-of-Grows v p header (Grows-emit_header t k o.tools_json sys p)) _
          (turn_loop-Placed t k v (turn_options o) (last_query_index ms) (msg_begin sys) false
            (drop (msg_begin sys) ms) (header, 0))))
  where
    trivial : (c : Result (Unit {0})) → IfOk (λ _. Unit {0}) c
    trivial (ok u) = tt
    trivial (err e) = tt

    after :
        (h : ChatPrompt) (rest : List ChatMessage)
        → Placed (vision_ids t) p h []
        → (r : Result (ChatPrompt × ℕ))
        → IfOk (λ (b : ChatPrompt × ℕ). Placed (vision_ids t) h b.0 (user_images rest)) r
        → IfOk (λ (b : ChatPrompt × ℕ). Placed (vision_ids t) p b.0 (user_images rest)) r
    after h rest g (ok b) h' = Placed-trans (vision_ids t) p h b.0 [] (user_images rest) g h'
    after h rest g (err e) h' = tt

-- The spans of a prompt in the ChatML template: each is a run of image tokens in the ids, between the
-- start and the end token, and they belong to the images of the user's messages, all of them and in
-- order. The prompt starts without spans, as the code's does.
pub emit_chatml-spans :
    (t : Tokenizer) (k : Marks) (messages : List ChatMessage) (o : ChatPromptOptions)
    (p : ChatPrompt)
    → p.image_spans ≡ []
    → IfOk
        (λ (q : ChatPrompt).
          All (SpanIn (vision_ids t) q.ids) q.image_spans
          × (map (λ s. s.image_index) q.image_spans ≡ user_images messages))
        (emit_chatml t k messages o p)
unfolding emit_chatml
emit_chatml-spans t k messages o p fresh =
    IfOk-bind _ _ (emit_turns t k messages o p) _ (emit_turns-Placed t k messages o p)
      (λ r h. go (o.add_generation_prompt) r h)
  where
    v : VisionIds
    v = vision_ids t

    spans_of :
        (q : ChatPrompt)
        → Placed v p q (user_images messages)
        → All (SpanIn v q.ids) q.image_spans
          × (map (λ s. s.image_index) q.image_spans ≡ user_images messages)
    spans_of q h = (
      h.laid (subst (λ (ss : List ImageSpan). All (SpanIn v p.ids) ss) (sym fresh) tt),
      h.indexes
          ∙ ap (λ (ss : List ImageSpan). map (λ s. s.image_index) ss ++ user_images messages) fresh,
    )

    go :
        (b : Bool) (r : ChatPrompt × ℕ)
        → Placed v p r.0 (user_images messages)
        → All
            (SpanIn v (if b then emit_generation t k o.reasoning r.0 else r.0).ids)
            (if b then emit_generation t k o.reasoning r.0 else r.0).image_spans
          × (map
                (λ s. s.image_index)
                (if b then emit_generation t k o.reasoning r.0 else r.0).image_spans
              ≡ user_images messages)
    go true r h = spans_of (emit_generation t k o.reasoning r.0) (
        subst (Placed v p _) (append-nil (user_images messages)) (
          Placed-trans v p r.0 _ (user_images messages) [] h
            (emit_generation-Placed t k v o.reasoning r.0)))
    go false r h = spans_of r.0 h
