-- ===== src/Chat/Growth/Spans/Turns.antt =====
-- The images of a prompt, through the loop over the messages and the whole construction.
use questwend.Prelude.{
  ℕ, ◌+◌, ◌≡◌, refl, ap, ◌∙◌, List, [], ◌∷◌, ◌++◌, append-nil, Bytes, Bool, true, false,
  if◌then◌else◌, codes, Bool-cases, inl, inr,
}
use mathlib.Core.Path.{subst}
use questwend.Prelude.Int.{ℤ}
use questwend.Tokenizer.Bpe.{Tokenizer}
use questwend.Chat.{ContentPart, ChatMessage, ChatPrompt, Result, ok, err, ◌>>=◌}
use questwend.Chat.Content.{
  VisionIds, no_vision, Seg, image_segs, segs_of, message_segs, trim_front, trim_back, emit_segs,
  emit_content,
}
use questwend.Chat.Emit.{emit_tok, emit_text}
use questwend.Chat.Growth.{◌▸◌, Grows-emit_tok, Grows-emit_text}
use questwend.Chat.Growth.Spans.{
  Placed, Placed-of-Grows, Placed-trans, seg_images, part_images, emit_segs-Placed,
  seg_images-trim_front, seg_images-trim_back,
}
use questwend.Chat.Qwen.Turns.{Marks, has_role, emit_user}

-- What holds of the value, if there is one.
abbrev pub IfOk {ℓ κ} : {A : Type ℓ} → (A → Type κ) → Result A → Type κ
IfOk P (ok a) = P a
IfOk P (err e) = Unit

pub IfOk-bind {ℓ κ μ ν} :
    {A : Type ℓ} {B : Type κ} (P : A → Type μ) (Q : B → Type ν) (r : Result A) (f : A → Result B)
    → IfOk P r
    → ((a : A) → P a → IfOk Q (f a))
    → IfOk Q (r >>= f)
IfOk-bind P Q (ok a) f h k = k a h
IfOk-bind P Q (err e) f h k = tt

image_segs-append :
    (add : Bool) (n : ℕ) (k : ℤ) (segs : List Seg)
    → seg_images (image_segs add n k ++ segs) ≡ k ∷ seg_images segs
unfolding image_segs
image_segs-append true n k segs = refl
image_segs-append false n k segs = refl

segs_of-images :
    (v : VisionIds) (sys add : Bool) (ps : List ContentPart) (n : ℕ)
    → IfOk (λ (r : List Seg × ℕ). seg_images r.0 ≡ part_images ps) (segs_of v sys add ps n)
unfolding segs_of
segs_of-images v sys add [] n = refl
segs_of-images v sys add (ContentPart.text s ∷ ps) n =
    IfOk-bind _ _ (segs_of v sys add ps n) _ (segs_of-images v sys add ps n) (λ r h. h)
segs_of-images v true add (ContentPart.image k ∷ ps) n = tt
segs_of-images v false add (ContentPart.image k ∷ ps) n = elim (Bool-cases (no_vision v)) [
  | inl none_there ↦ rw none_there tt
  | inr there ↦ rw there (
      IfOk-bind _ _ (segs_of v false add ps (n + 1)) _ (segs_of-images v false add ps (n + 1))
        (λ r h. image_segs-append add (n + 1) k r.0 ∙ ap (◌∷◌ k) h))
]

message_segs-images :
    (v : VisionIds) (sys add : Bool) (content : Bytes) (ps : List ContentPart) (n : ℕ)
    → IfOk
        (λ (r : List Seg × ℕ). seg_images r.0 ≡ part_images ps)
        (message_segs v sys add content ps n)
unfolding message_segs
message_segs-images v sys add content [] n = refl
message_segs-images v sys add content (p ∷ ps) n = segs_of-images v sys add (p ∷ ps) n

emit_content-Placed :
    (t : Tokenizer) (v : VisionIds) (add : Bool) (count : ℕ) (sys : Bool) (m : ChatMessage)
    (p : ChatPrompt) (n : ℕ)
    → IfOk
        (λ (r : ChatPrompt × ℕ). Placed v p r.0 (part_images m.parts))
        (emit_content t v add count sys m (p, n))
unfolding emit_content
emit_content-Placed t v add count sys m p n =
    IfOk-bind _ _ (message_segs v sys add m.content m.parts n) _
      (message_segs-images v sys add m.content m.parts n)
      (λ r h.
        subst (Placed v p (emit_segs t v count (trim_back (trim_front r.0)) p))
          (seg_images-trim_back (trim_front r.0) ∙ seg_images-trim_front r.0 ∙ h)
          (emit_segs-Placed t v count (trim_back (trim_front r.0)) p))

pub emit_user-Placed :
    (t : Tokenizer) (k : Marks) (v : VisionIds) (add : Bool) (count : ℕ) (m : ChatMessage)
    (p : ChatPrompt) (n : ℕ)
    → IfOk
        (λ (r : ChatPrompt × ℕ). Placed v p r.0 (part_images m.parts))
        (emit_user t k v add count m (p, n))
unfolding emit_user
emit_user-Placed t k v add count m p n =
    let opened = emit_text t (codes "user\n") (emit_tok k.im_start p) in
    let before = Placed-of-Grows v p opened (Grows-emit_tok k.im_start p ▸ Grows-emit_text t _ _) in
    IfOk-bind _ _ (emit_content t v add count false m (opened, n)) _
      (emit_content-Placed t v add count false m opened n)
      (λ r h.
        let after =
          Placed-of-Grows v r.0 _
            (Grows-emit_tok k.im_end r.0 ▸ Grows-emit_text t (codes "\n") _) in
        subst (Placed v p _) (append-nil (part_images m.parts)) (
          Placed-trans v p r.0 _ (part_images m.parts) []
            (Placed-trans v p opened r.0 [] (part_images m.parts) before h) after))

-- The images of the user's messages, in order.
abbrev pub user_images : List ChatMessage → List ℤ
user_images [] = []
user_images (m ∷ ms) =
    (if has_role m (codes "user") then part_images m.parts else []) ++ user_images ms
