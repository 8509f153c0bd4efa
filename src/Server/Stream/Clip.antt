-- ===== src/Server/Stream/Clip.antt =====
-- `utf8_clip`: what is emitted is text of whole characters.
use questwend.Prelude.{
  ℕ, zero, suc, ◌+◌, ◌-◌, ◌≤◌, ◌<◌, ◌≡◌, refl, sym, ap, ◌∙◌, inl, inr, List, [], ◌∷◌, ◌++◌, flatten,
  append_assoc, append-nil, Bytes, Bool, true, false, ◌&&◌, ltb, ◌==◌, if◌then◌else◌, length,
  length-append, take, drop, get_or, All, bit_and, arith, Bool-cases,
}
use mathlib.Core.Path.{subst}
use questwend.Prelude.Indexing.{get_or-append_right}
use questwend.Prelude.Table.{passes, test_of_passes}
use questwend.Server.Stream.{need, clip_keep, utf8_clip}

-- The length of the sequence that a lead byte starts.
unfoldable pub sequence_length : ℕ → ℕ
sequence_length c = if ltb c 0xE0 then 2 else if ltb c 0xF0 then 3 else if ltb c 0xF8 then 4 else 2

abbrev IsContinuation : ℕ → Type 0
IsContinuation c = (0x80 ≤ c) × (c < 0xC0)

-- The first bytes of a sequence: a lead byte and continuation bytes.
pub record IsBegun (s : Bytes) : Type 0 where
  pub lead : ℕ
  pub rest : Bytes
  pub split : s ≡ lead ∷ rest
  pub is_lead : (0xC0 ≤ lead) × (lead < 256)
  pub continued : All IsContinuation rest
  pub room : length s ≤ sequence_length lead

-- A character: one byte of ASCII, or a whole sequence.
pub data IsCharacter : Bytes → Type 0 where
  ascii : (c : ℕ) → c < 0x80 → IsCharacter (c ∷ [])
  sequence : {s : Bytes} → (b : IsBegun s) → length s ≡ sequence_length b.lead → IsCharacter s

-- The tests of bits, for all bytes.
abbrev tests_agree : ℕ → Bool
tests_agree c =
    (if ltb c 0x80 then bit_and c 0x80 == 0 else if bit_and c 0x80 == 0 then false else true)
    && ((if ltb c 0xC0
          then (if bit_and c 0xC0 == 0xC0 then false else true)
          else bit_and c 0xC0 == 0xC0)
        && (if ltb c 0xC0 then true else need c == sequence_length c))

byte_tests : (c : ℕ) → c < 256 → tests_agree c ≡ true
unfolding need sequence_length passes
byte_tests c h = test_of_passes tests_agree {k = c} 256 h refl

clip_keep-ascii :
    (rounds i : ℕ) (text : Bytes)
    → i < length text
    → get_or text (length text - 1 - i) 0 < 0x80
    → clip_keep (suc rounds) i text ≡ length text
unfolding clip_keep
clip_keep-ascii rounds i text lt low =
    ground (arith, byte_tests (get_or text (length text - 1 - i) 0))

clip_keep-continuation :
    (rounds i : ℕ) (text : Bytes)
    → i < length text
    → IsContinuation (get_or text (length text - 1 - i) 0)
    → clip_keep (suc rounds) i text ≡ clip_keep rounds (i + 1) text
unfolding clip_keep
clip_keep-continuation rounds i text lt (ge, low) =
    ground (arith, byte_tests (get_or text (length text - 1 - i) 0))

clip_keep-lead :
    (rounds i : ℕ) (text : Bytes)
    → i < length text
    → 0xC0 ≤ get_or text (length text - 1 - i) 0
    → get_or text (length text - 1 - i) 0 < 256
    → clip_keep (suc rounds) i text ≡ (
        if ltb (i + 1) (sequence_length (get_or text (length text - 1 - i) 0))
        then length text - 1 - i
        else length text)
unfolding clip_keep
clip_keep-lead rounds i text lt ge low =
    ground (arith, byte_tests (get_or text (length text - 1 - i) 0))

All-get_or : (P : ℕ → Type 0) (xs : Bytes) (i : ℕ) → i < length xs → All P xs → P (get_or xs i 0)
All-get_or P [] i lt all = absurd (omega arith)
All-get_or P (x ∷ xs) zero lt (px, all) = px
All-get_or P (x ∷ xs) (suc i) lt (px, all) = All-get_or P xs i (omega arith) all

-- The loop goes back over the continuation bytes, as far as the lead byte.
clip_keep-begun :
    (front rest : Bytes) (lead rounds i : ℕ)
    → All IsContinuation rest
    → 0xC0 ≤ lead
    → lead < 256
    → length rest < i + rounds
    → i ≤ length rest
    → clip_keep rounds i (front ++ lead ∷ rest) ≡ (
        if ltb (length rest + 1) (sequence_length lead)
        then length front
        else length (front ++ lead ∷ rest))
clip_keep-begun front rest lead zero i all low high enough le = absurd (omega arith)
clip_keep-begun front rest lead (suc rounds) i all low high enough le =
    let text = front ++ lead ∷ rest in
    let size = length-append front (lead ∷ rest) in
    let at =
      get_or-append_right front (lead ∷ rest) (length rest - i) (length text - 1 - i) 0
        (omega (arith, size)) in
    elim (Bool-cases (i == length rest)) [
      | inl last ↦
          let e : i ≡ length rest = ground arith in
          let none : length rest - i ≡ 0 = omega arith in
          let here : get_or text (length text - 1 - i) 0 ≡ lead = at ∙ rw none refl in
          let place : length text - 1 - i ≡ length front = omega (arith, size) in
          clip_keep-lead rounds i text (omega (arith, size)) (rw here low) (rw here high)
          ∙ rw here (rw place (rw e refl))
      | inr more ↦
          let lt : i < length rest = ground arith in
          let one : length rest - i ≡ suc (length rest - 1 - i) = omega arith in
          let here : get_or text (length text - 1 - i) 0 ≡ get_or rest (length rest - 1 - i) 0 =
            at ∙ rw one refl in
          clip_keep-continuation rounds i text (omega (arith, size)) (
            subst IsContinuation (sym here)
              (All-get_or IsContinuation rest (length rest - 1 - i) (omega arith) all))
          ∙ clip_keep-begun front rest lead rounds (i + 1) all low high (omega arith) (omega arith)
    ]

-- What a text may end in: nothing, or the first bytes of a sequence that is not whole.
pub data IsPart : Bytes → Type 0 where
  nothing : IsPart []
  some_part : {s : Bytes} → (b : IsBegun s) → length s < sequence_length b.lead → IsPart s

sequence_length_le : (c : ℕ) → sequence_length c ≤ 4
unfolding sequence_length
sequence_length_le c = ground arith

clip_keep-split :
    (front s rest : Bytes) (lead : ℕ)
    → s ≡ lead ∷ rest
    → All IsContinuation rest
    → 0xC0 ≤ lead
    → lead < 256
    → length s ≤ 4
    → clip_keep 4 0 (front ++ s)
      ≡ (if ltb (length s) (sequence_length lead) then length front else length (front ++ s))
clip_keep-split front s rest lead split all low high short =
    let size : length s ≡ suc (length rest) = ap length split in
    let next : length rest + 1 ≡ suc (length rest) = omega arith in
    rw split (
      clip_keep-begun front rest lead 4 0 all low high (omega (arith, size)) (omega arith)
      ∙ rw next refl)

clip_keep-IsBegun :
    (front s : Bytes) (b : IsBegun s)
    → clip_keep 4 0 (front ++ s)
      ≡ (if ltb (length s) (sequence_length b.lead) then length front else length (front ++ s))
clip_keep-IsBegun front s b =
    clip_keep-split front s b.rest b.lead b.split b.continued b.is_lead.0 b.is_lead.1
      (omega (arith, b.room, sequence_length_le b.lead))

clip_keep-character :
    (front s : Bytes) → IsCharacter s → clip_keep 4 0 (front ++ s) ≡ length (front ++ s)
clip_keep-character front s (ascii c low) =
    let size = length-append front (c ∷ []) in
    let text = front ++ c ∷ [] in
    let at = get_or-append_right front (c ∷ []) 0 (length text - 1 - 0) 0 (omega (arith, size)) in
    clip_keep-ascii 3 0 text (omega (arith, size)) (rw at low)
clip_keep-character front s (sequence b whole) =
    let over : ltb (length s) (sequence_length b.lead) ≡ false = ground (arith, whole) in
    clip_keep-IsBegun front s b ∙ rw over refl

clip_keep-characters :
    (front c : Bytes) (chars : List Bytes)
    → All IsCharacter (c ∷ chars)
    → clip_keep 4 0 (front ++ flatten (c ∷ chars)) ≡ length (front ++ flatten (c ∷ chars))
unfolding flatten
clip_keep-characters front c [] (hc, all) = rw (append-nil c) (clip_keep-character front c hc)
clip_keep-characters front c (d ∷ chars) (hc, all) =
    rw (← append_assoc front c (flatten (d ∷ chars)))
      (clip_keep-characters (front ++ c) d chars all)

clip_keep-whole :
    (chars : List Bytes) (part : Bytes)
    → All IsCharacter chars
    → IsPart part
    → clip_keep 4 0 (flatten chars ++ part) ≡ length (flatten chars)
unfolding clip_keep flatten
clip_keep-whole [] part all nothing = refl
clip_keep-whole (c ∷ chars) part all nothing =
    rw (append-nil (flatten (c ∷ chars))) (clip_keep-characters [] c chars all)
clip_keep-whole chars part all (some_part b short) =
    let under : ltb (length part) (sequence_length b.lead) ≡ true = ground arith in
    clip_keep-IsBegun (flatten chars) part b ∙ rw under refl

pub take-length_append : (xs ys : Bytes) → take (length xs) (xs ++ ys) ≡ xs
take-length_append [] ys = refl
take-length_append (x ∷ xs) ys = ap (λ s. x ∷ s) (take-length_append xs ys)

drop-length_append : (xs ys : Bytes) → drop (length xs) (xs ++ ys) ≡ ys
drop-length_append [] ys = refl
drop-length_append (x ∷ xs) ys = drop-length_append xs ys

-- If what was held back and the new piece are whole characters of UTF-8 and then nothing or the
-- first bytes of one that is not whole, `utf8_clip` returns the characters and holds back the rest.
pub utf8_clip-whole :
    (pend piece : Bytes) (chars : List Bytes) (part : Bytes)
    → All IsCharacter chars
    → IsPart part
    → pend ++ piece ≡ flatten chars ++ part
    → utf8_clip pend piece ≡ (flatten chars, part)
unfolding utf8_clip
utf8_clip-whole pend piece chars part all held e = rw e (
    rw (clip_keep-whole chars part all held) (
      rw (take-length_append (flatten chars) part)
        (rw (drop-length_append (flatten chars) part) refl)))
