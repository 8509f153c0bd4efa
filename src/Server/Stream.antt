-- ===== src/Server/Stream.antt =====
-- server/main.cpp: what a stream holds back of the generated text, `marker_holdback` and `utf8_clip`.
pub mod Holdback
pub mod Clip
mod Tests
use questwend.Prelude.{
  ℕ, zero, suc, ◌+◌, ◌-◌, List, [], ◌∷◌, ◌++◌, Bytes, Bool, true, false, ltb, ◌==◌, if◌then◌else◌,
  min, length, take, drop, get_or, bytes_eq, bit_and,
}
use questwend.Chat.Trim.{is_ws, end_without}

-- `for (size_t n = maxk; n > 0; --n)`, from `n` down.
unfoldable pub partial_marker : Bytes → Bytes → ℕ → ℕ
partial_marker s marker zero = zero
partial_marker s marker (suc n) =
    let rest = partial_marker s marker n in
    if bytes_eq (drop (length s - suc n) s) (take (suc n) marker) then suc n else rest

-- The markers are not empty, so `mlen - 1` does not wrap.
unfoldable pub marker_holdback : Bytes → Bytes → ℕ
marker_holdback s marker =
    let k = partial_marker s marker (min (length s) (length marker - 1)) in
    length s - end_without is_ws s (length s - k)

-- How many bytes the lead byte announces.
unfoldable pub need : ℕ → ℕ
need c = if bit_and c 0xF8 == 0xF0 then 4 else if bit_and c 0xF0 == 0xE0 then 3 else 2

-- The loop from `i` on, `rounds` times at most: the number of bytes to emit.
unfoldable pub clip_keep : ℕ → ℕ → Bytes → ℕ
clip_keep zero i piece = length piece
clip_keep (suc rounds) i piece =
    let c = get_or piece (length piece - 1 - i) 0 in
    let rest = clip_keep rounds (i + 1) piece in
    if ltb i (length piece)
    then (if bit_and c 0x80 == 0
        then length piece
        else if bit_and c 0xC0 == 0xC0
        then (if ltb (i + 1) (need c) then length piece - 1 - i else length piece)
        else rest)
    else length piece

-- What is emitted, and the new `pend`.
unfoldable pub utf8_clip : Bytes → Bytes → Bytes × Bytes
utf8_clip pend piece =
    let text = pend ++ piece in let keep = clip_keep 4 0 text in (take keep text, drop keep text)
