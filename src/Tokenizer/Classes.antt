-- ===== src/Tokenizer/Classes.antt =====
-- core/tokenizer.cpp: the character classes of the pre-tokenizers.
use questwend.Prelude.{ℕ, ◌+◌, Bool, ◌&&◌, ◌||◌, not, ltb, leb, ◌==◌, if◌then◌else◌}

unfoldable pub cp_in : ℕ → ℕ → ℕ → Bool
cp_in c lo hi = leb lo c && leb c hi

-- ASCII and fullwidth digits.
unfoldable pub cp_is_number : ℕ → Bool
unfolding cp_in
cp_is_number c = (leb b'0' c && leb c b'9') || cp_in c 0xFF10 0xFF19

-- CJK ideographs, hiragana, katakana.
unfoldable pub cp_is_cjk_run : ℕ → Bool
unfolding cp_in
cp_is_cjk_run c = cp_in c 0x4E00 0x9FA5 || cp_in c 0x3040 0x309F || cp_in c 0x30A0 0x30FF

unfoldable pub cp_is_punct_or_symbol : ℕ → Bool
unfolding cp_in
cp_is_punct_or_symbol c =
    if ltb c 0x80
    then (leb 0x21 c && leb c 0x2F)
      || (leb 0x3A c && leb c 0x40)
      || (leb 0x5B c && leb c 0x60)
      || (leb 0x7B c && leb c 0x7E)
    else cp_in c 0x00A1 0x00BF
      || c == 0x00D7
      || c == 0x00F7
      || cp_in c 0x2000 0x206F
      || cp_in c 0x20A0 0x20CF
      || cp_in c 0x2190 0x2BFF
      || cp_in c 0x2E00 0x2E7F
      || cp_in c 0x3000 0x303F
      || cp_in c 0xFE10 0xFE6F
      || cp_in c 0xFF01 0xFF0F
      || cp_in c 0xFF1A 0xFF20
      || cp_in c 0xFF3B 0xFF40
      || cp_in c 0xFF5B 0xFF65

unfoldable pub cp_is_mark : ℕ → Bool
unfolding cp_in
cp_is_mark c =
    cp_in c 0x0300 0x036F || cp_in c 0x1AB0 0x1AFF || cp_in c 0x20D0 0x20FF || cp_in c 0xFE20 0xFE2F

unfoldable pub cp_is_space : ℕ → Bool
cp_is_space c = c == 0x20 || c == 0x09 || c == 0x0A || c == 0x0D || c == 0x0B || c == 0x0C

abbrev pub ascii_letter : ℕ → Bool
ascii_letter c = (leb b'A' c && leb c b'Z') || (leb b'a' c && leb c b'z')

unfoldable pub cp_is_letter : ℕ → Bool
unfolding cp_is_number cp_is_punct_or_symbol cp_is_mark cp_is_space
cp_is_letter c =
    if ltb c 0x80
    then ascii_letter c
    else not (cp_is_space c)
      && not (cp_is_number c)
      && not (cp_is_punct_or_symbol c)
      && not (cp_is_mark c)

-- `rule3_letter` of the deepseek-v3 split: rules 1 and 2 had first refusal.
unfoldable pub rule3_letter : ℕ → Bool
unfolding cp_is_letter cp_is_cjk_run cp_is_mark
rule3_letter c = (cp_is_letter c && not (cp_is_cjk_run c)) || cp_is_mark c

-- The lambdas of the qwen split.
unfoldable pub is_letter : ℕ → Bool
unfolding cp_is_letter cp_is_mark
is_letter c = if ltb c 0x80 then ascii_letter c else cp_is_letter c || cp_is_mark c

unfoldable pub is_punct : ℕ → Bool
unfolding cp_is_space is_letter cp_is_number
is_punct c = not (cp_is_space c) && not (is_letter c) && not (cp_is_number c)

unfoldable pub lower : ℕ → ℕ
lower c = if leb b'A' c && leb c b'Z' then c + 32 else c

abbrev pub newline : ℕ → Bool
newline c = c == 0x0A || c == 0x0D
