-- ===== src/Chat/Growth/Spans.antt =====
-- Where the images of a conversation stand in its tokens.
pub mod Turns
pub mod Whole
use questwend.Prelude.{
  ℕ, zero, suc, ◌+◌, ◌≡◌, refl, sym, ap, ◌∙◌, List, [], ◌∷◌, ◌++◌, append_assoc, append-nil, map,
  Bytes, Bool, true, false, Option, none, some, if◌then◌else◌, length, length-append, replicate,
  All, All-append, arith, Bool-cases, inl, inr,
}
use mathlib.Core.Path.{subst}
use questwend.Prelude.Int.{ℤ}
use questwend.Tokenizer.Bpe.{Tokenizer}
use questwend.Chat.{
  ContentPart, ChatMessage, ChatPrompt, ImageSpan, Result, ok, err, ◌>>=◌, ChatError,
}
use questwend.Chat.Content.{
  VisionIds, no_vision, Seg, words, picture, image_segs, segs_of, message_segs, trim_front,
  trim_back, emit_pads, emit_image, emit_segs, emit_content,
}
use questwend.Chat.Emit.{emit_tok, emit_text}
use questwend.Chat.Growth.{Grows, Grows-emit_text}

-- The span's run of image tokens is there, between the start and the end token.
abbrev pub SpanIn : VisionIds → List ℤ → ImageSpan → Type 0
SpanIn v ids s =
    (before : List ℤ) × (after : List ℤ) × (ids
      ≡ before ++ v.vis_start ∷ (replicate s.count v.image_pad ++ v.vis_end ∷ after))
    × (s.first ≡ length before + 1)

abbrev pub Laid : VisionIds → ChatPrompt → Type 0
Laid v p = All (SpanIn v p.ids) p.image_spans

-- `q` comes from `p` by emissions that place the images `ks`.
pub record Placed (v : VisionIds) (p q : ChatPrompt) (ks : List ℤ) : Type 0 where
  pub more : List ℤ
  pub longer : q.ids ≡ p.ids ++ more
  pub laid : Laid v p → Laid v q
  pub indexes :
      map (λ s. s.image_index) q.image_spans ≡ map (λ s. s.image_index) p.image_spans ++ ks

SpanIn-append :
    (v : VisionIds) (ids more : List ℤ) (s : ImageSpan) → SpanIn v ids s → SpanIn v (ids ++ more) s
SpanIn-append v ids more s (before, after, e, f) = (
  before,
  after ++ more,
  ap (λ (xs : List ℤ). xs ++ more) e
      ∙ append_assoc before _ more
      ∙ ap (λ (xs : List ℤ). before ++ v.vis_start ∷ xs)
          (append_assoc (replicate s.count v.image_pad) (v.vis_end ∷ after) more),
  f,
)

All-SpanIn-append :
    (v : VisionIds) (ids more : List ℤ) (ss : List ImageSpan)
    → All (SpanIn v ids) ss
    → All (SpanIn v (ids ++ more)) ss
All-SpanIn-append v ids more [] h = tt
All-SpanIn-append v ids more (s ∷ ss) (h, hs) =
    (SpanIn-append v ids more s h, All-SpanIn-append v ids more ss hs)

-- An emission that adds no image.
pub Placed-none :
    (v : VisionIds) (p q : ChatPrompt) (more : List ℤ)
    → q.ids ≡ p.ids ++ more
    → q.image_spans ≡ p.image_spans
    → Placed v p q []
Placed-none v p q more longer same = record {
  more = more;
  longer = longer;
  laid = λ h.
      subst (λ (ss : List ImageSpan). All (SpanIn v q.ids) ss) (sym same)
        (subst (λ (ids : List ℤ). All (SpanIn v ids) p.image_spans) (sym longer)
          (All-SpanIn-append v p.ids more p.image_spans h));
  indexes = ap (map (λ s. s.image_index)) same ∙ sym (append-nil _);
}

pub Placed-of-Grows : (v : VisionIds) (p q : ChatPrompt) → Grows p q → Placed v p q []
Placed-of-Grows v p q g = Placed-none v p q g.more g.longer g.same_spans

pub Placed-trans :
    (v : VisionIds) (p q r : ChatPrompt) (ks ls : List ℤ)
    → Placed v p q ks
    → Placed v q r ls
    → Placed v p r (ks ++ ls)
Placed-trans v p q r ks ls a b = record {
  more = a.more ++ b.more;
  longer =
      b.longer ∙ ap (λ (xs : List ℤ). xs ++ b.more) a.longer ∙ append_assoc p.ids a.more b.more;
  laid = λ h. b.laid (a.laid h);
  indexes =
      b.indexes
      ∙ ap (λ (xs : List ℤ). xs ++ ls) a.indexes
      ∙ append_assoc (map (λ s. s.image_index) p.image_spans) ks ls;
}

emit_pads_lem :
    (pad : ℤ) (n : ℕ) (p : ChatPrompt)
    → emit_pads pad n p ≡ record p { ids = p.ids ++ replicate n pad }
unfolding emit_pads emit_tok
emit_pads_lem pad zero p = rw append-nil refl
emit_pads_lem pad (suc n) p =
    emit_pads_lem pad n (emit_tok pad p)
    ∙ ap (λ (xs : List ℤ). record p { ids = xs }) (append_assoc p.ids (pad ∷ []) (replicate n pad))

map-snoc_index :
    (ss : List ImageSpan) (s : ImageSpan)
    → map (λ s. s.image_index) (ss ++ s ∷ []) ≡ map (λ s. s.image_index) ss ++ s.image_index ∷ []
map-snoc_index [] s = refl
map-snoc_index (x ∷ ss) s = ap (◌∷◌ x.image_index) (map-snoc_index ss s)

emit_image-Placed :
    (v : VisionIds) (count : ℕ) (k : ℤ) (p : ChatPrompt)
    → Placed v p (emit_image v count k p) (k ∷ [])
unfolding emit_image emit_tok
emit_image-Placed v count k p =
    let run = replicate count v.image_pad in
    let whole : (p.ids ++ v.vis_start ∷ []) ++ run ++ v.vis_end ∷ []
        ≡ p.ids ++ v.vis_start ∷ (run ++ v.vis_end ∷ []) =
      append_assoc (p.ids ++ v.vis_start ∷ []) run (v.vis_end ∷ [])
      ∙ append_assoc p.ids (v.vis_start ∷ []) (run ++ v.vis_end ∷ []) in
    rw (emit_pads_lem v.image_pad count (emit_tok v.vis_start p)) (record {
      more = v.vis_start ∷ (run ++ v.vis_end ∷ []);
      longer = whole;
      laid = λ h.
          All-append (SpanIn v _) p.image_spans _
            (subst (λ (ids : List ℤ). All (SpanIn v ids) p.image_spans) (sym whole)
              (All-SpanIn-append v p.ids _ p.image_spans h))
            ((p.ids, [], whole, length-append p.ids (v.vis_start ∷ [])), tt);
      indexes = map-snoc_index p.image_spans _;
    })

-- The images of segments, and of parts.
abbrev pub seg_images : List Seg → List ℤ
seg_images [] = []
seg_images (words s ∷ segs) = seg_images segs
seg_images (picture k ∷ segs) = k ∷ seg_images segs

abbrev pub part_images : List ContentPart → List ℤ
part_images [] = []
part_images (ContentPart.text s ∷ ps) = part_images ps
part_images (ContentPart.image k ∷ ps) = k ∷ part_images ps

pub emit_segs-Placed :
    (t : Tokenizer) (v : VisionIds) (count : ℕ) (segs : List Seg) (p : ChatPrompt)
    → Placed v p (emit_segs t v count segs p) (seg_images segs)
unfolding emit_segs
emit_segs-Placed t v count [] p = Placed-none v p p [] (sym (append-nil _)) refl
emit_segs-Placed t v count (words s ∷ segs) p =
    Placed-trans v p (emit_text t s p) _ [] (seg_images segs)
      (Placed-of-Grows v p _ (Grows-emit_text t s p)) (emit_segs-Placed t v count segs _)
emit_segs-Placed t v count (picture k ∷ segs) p =
    Placed-trans v p (emit_image v count k p) _ (k ∷ []) (seg_images segs)
      (emit_image-Placed v count k p) (emit_segs-Placed t v count segs _)

pub seg_images-trim_front : (segs : List Seg) → seg_images (trim_front segs) ≡ seg_images segs
unfolding trim_front
seg_images-trim_front [] = refl
seg_images-trim_front (words s ∷ segs) = refl
seg_images-trim_front (picture k ∷ segs) = refl

pub seg_images-trim_back : (segs : List Seg) → seg_images (trim_back segs) ≡ seg_images segs
unfolding trim_back
seg_images-trim_back [] = refl
seg_images-trim_back (words s ∷ []) = refl
seg_images-trim_back (picture k ∷ []) = refl
seg_images-trim_back (words s ∷ h ∷ segs) = seg_images-trim_back (h ∷ segs)
seg_images-trim_back (picture k ∷ h ∷ segs) = ap (◌∷◌ k) (seg_images-trim_back (h ∷ segs))
