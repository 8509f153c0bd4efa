-- ===== src/Chat/Content.antt =====
-- core/chat.cpp: the lambda `emit_content` of `build_qwen_prompt`, the text and the images of a
-- message.
use questwend.Prelude.{
  ℕ, zero, suc, ◌+◌, List, [], ◌∷◌, ◌++◌, Bytes, Bool, ◌||◌, length, codes, if◌then◌else◌,
}
use questwend.Prelude.Int.{ℤ, pos, negsuc}
use questwend.Tokenizer.Access.{token_to_id}
use questwend.Tokenizer.Bpe.{Tokenizer}
use questwend.Chat.{
  ContentPart, ImageSpan, ChatPrompt, ChatMessage, ChatError, Result, ok, err, ◌>>=◌,
}
use questwend.Chat.Emit.{is_neg, emit_tok, emit_text}
use questwend.Chat.Trim.{ltrim_ws, rtrim_ws, to_string}

-- The ids around and inside the run of an image.
pub record VisionIds : Type 0 where
  pub vis_start : ℤ
  pub vis_end : ℤ
  pub image_pad : ℤ

unfoldable pub vision_ids : Tokenizer → VisionIds
vision_ids t =
    if is_neg (token_to_id t (codes "<|image_pad|>"))
    then record {
      vis_start = token_to_id t (codes "<im_start>");
      vis_end = token_to_id t (codes "<im_end>");
      image_pad = token_to_id t (codes "<im_patch>");
    }
    else record {
      vis_start = token_to_id t (codes "<|vision_start|>");
      vis_end = token_to_id t (codes "<|vision_end|>");
      image_pad = token_to_id t (codes "<|image_pad|>");
    }

-- `vis_start < 0 || image_pad < 0 || vis_end < 0`
unfoldable pub no_vision : VisionIds → Bool
no_vision v = is_neg v.vis_start || is_neg v.image_pad || is_neg v.vis_end

-- `struct Seg`
pub data Seg : Type 0 where
  words : Bytes → Seg
  picture : ℤ → Seg

-- What one part adds to `segs`; `counter` is `image_counter` after the part.
unfoldable pub image_segs : Bool → ℕ → ℤ → List Seg
image_segs add_vision_id counter k =
    if add_vision_id
    then words (codes "Picture " ++ (to_string counter ++ codes ": ")) ∷ picture k ∷ []
    else picture k ∷ []

-- The loop over the parts: the segments and the new `image_counter`.
unfoldable pub segs_of : VisionIds → Bool → Bool → List ContentPart → ℕ → Result (List Seg × ℕ)
segs_of v is_system add_vision_id [] counter = ok ([], counter)
segs_of v is_system add_vision_id (ContentPart.text s ∷ ps) counter =
    segs_of v is_system add_vision_id ps counter >>= λ r. ok (words s ∷ r.0, r.1)
segs_of v is_system add_vision_id (ContentPart.image k ∷ ps) counter =
    let rest = segs_of v is_system add_vision_id ps (counter + 1) in
    if is_system
    then err ChatError.system_image
    else if no_vision v
    then err ChatError.no_vision_tokens
    else rest >>= λ r. ok (image_segs add_vision_id (counter + 1) k ++ r.0, r.1)

-- `segs`, before the trims
unfoldable pub message_segs :
    VisionIds → Bool → Bool → Bytes → List ContentPart → ℕ → Result (List Seg × ℕ)
message_segs v is_system add_vision_id content [] counter = ok (words content ∷ [], counter)
message_segs v is_system add_vision_id content (p ∷ ps) counter =
    segs_of v is_system add_vision_id (p ∷ ps) counter

-- `if (… segs.front().is_text) segs.front().s = ltrim_ws(…)`
unfoldable pub trim_front : List Seg → List Seg
trim_front [] = []
trim_front (words s ∷ segs) = words (ltrim_ws s) ∷ segs
trim_front (picture k ∷ segs) = picture k ∷ segs

unfoldable pub trim_back : List Seg → List Seg
trim_back [] = []
trim_back (words s ∷ []) = words (rtrim_ws s) ∷ []
trim_back (picture k ∷ []) = picture k ∷ []
trim_back (g ∷ h ∷ segs) = g ∷ trim_back (h ∷ segs)

-- `n_image_tokens > 0 ? n_image_tokens : 1`
unfoldable pub span_count : ℤ → ℕ
span_count (pos zero) = 1
span_count (pos (suc n)) = suc n
span_count (negsuc n) = 1

-- `for (r = 0; r < span.count; ++r) emit_tok(image_pad);`
unfoldable pub emit_pads : ℤ → ℕ → ChatPrompt → ChatPrompt
emit_pads pad zero p = p
emit_pads pad (suc n) p = emit_pads pad n (emit_tok pad p)

unfoldable pub emit_image : VisionIds → ℕ → ℤ → ChatPrompt → ChatPrompt
emit_image v count k p =
    let opened = emit_tok v.vis_start p in
    let span : ImageSpan = record { first = length opened.ids; count = count; image_index = k } in
    let filled = emit_pads v.image_pad count opened in
    emit_tok v.vis_end (record filled { image_spans = filled.image_spans ++ span ∷ [] })

unfoldable pub emit_segs : Tokenizer → VisionIds → ℕ → List Seg → ChatPrompt → ChatPrompt
emit_segs t v count [] p = p
emit_segs t v count (words s ∷ segs) p = emit_segs t v count segs (emit_text t s p)
emit_segs t v count (picture k ∷ segs) p = emit_segs t v count segs (emit_image v count k p)

-- `emit_content(m, is_system)`: the prompt and the new `image_counter`.
unfoldable pub emit_content :
    Tokenizer → VisionIds → Bool → ℕ → Bool → ChatMessage → ChatPrompt × ℕ → Result (ChatPrompt × ℕ)
emit_content t v add_vision_id count is_system m (p, counter) =
    message_segs v is_system add_vision_id m.content m.parts counter >>= λ r.
    ok (emit_segs t v count (trim_back (trim_front r.0)) p, r.1)
