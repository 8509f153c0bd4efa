-- ===== src/Server/Stream/Tests.antt =====
-- The end of a marker and of a character that later text completes.
use questwend.Prelude.{◌-◌, ◌≤◌, ◌≡◌, refl, [], ◌∷◌, flatten, codes, begins_with, bytes_eq, arith}
use questwend.Chat.Trim.{end_without, is_ws}
use questwend.Server.Stream
use questwend.Server.Stream.{marker_holdback, utf8_clip}
use questwend.Server.Stream.Holdback.{marker_holdback-safe}
use questwend.Server.Stream.Clip
use questwend.Server.Stream.Clip.{
  IsBegun, IsCharacter, ascii, sequence, IsPart, some_part, utf8_clip-whole,
}

marker_holdback-safe_example : 6 - marker_holdback (codes "ok \n</") (codes "</think>") ≤ 4
unfolding begins_with
marker_holdback-safe_example =
    marker_holdback-safe (codes "ok \n</") (codes "think> so") (codes "</think>") 4 refl refl

held : marker_holdback (codes "ok \n</") (codes "</think>") ≡ 4
unfolding marker_holdback Stream.partial_marker end_without bytes_eq is_ws
held = refl

-- The first two bytes of a character of three, and all of one of two.
abbrev begun : IsBegun (0xE3 ∷ 0x81 ∷ [])
unfolding Clip.sequence_length
begun = record {
  lead = 0xE3;
  rest = 0x81 ∷ [];
  split = refl;
  is_lead = (omega arith, omega arith);
  continued = ((omega arith, omega arith), tt);
  room = omega arith;
}

abbrev whole : IsBegun (0xC3 ∷ 0xA9 ∷ [])
unfolding Clip.sequence_length
whole = record {
  lead = 0xC3;
  rest = 0xA9 ∷ [];
  split = refl;
  is_lead = (omega arith, omega arith);
  continued = ((omega arith, omega arith), tt);
  room = omega arith;
}

utf8_clip-whole_example :
    utf8_clip (0xC3 ∷ []) (0xA9 ∷ 0x41 ∷ 0xE3 ∷ 0x81 ∷ [])
    ≡ (0xC3 ∷ 0xA9 ∷ 0x41 ∷ [], 0xE3 ∷ 0x81 ∷ [])
unfolding flatten Clip.sequence_length begun whole
utf8_clip-whole_example =
    utf8_clip-whole (0xC3 ∷ []) (0xA9 ∷ 0x41 ∷ 0xE3 ∷ 0x81 ∷ [])
      ((0xC3 ∷ 0xA9 ∷ []) ∷ (0x41 ∷ []) ∷ []) (0xE3 ∷ 0x81 ∷ [])
      (sequence whole refl, (ascii 0x41 (omega arith), tt)) (some_part begun (omega arith)) refl
