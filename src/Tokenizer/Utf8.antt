-- ===== src/Tokenizer/Utf8.antt =====
-- core/tokenizer.cpp, "UTF-8 helpers": `utf8_append` and `utf8_decode`.
pub mod RoundTrip
pub mod Tiling
use questwend.Prelude.{
  ℕ, zero, suc, ◌+◌, ◌-◌, ◌*◌, ◌/◌, ◌%◌, ◌^◌, List, [], ◌∷◌, ◌++◌, Bytes, Bool, bit_and, bit_or,
  ltb, ◌==◌, if◌then◌else◌, length, drop,
}

-- `(char) v` as a byte.
abbrev byte : ℕ → ℕ
byte v = v % 256

-- The bytes of one codepoint; `utf8_append(s, cp)` puts them behind `s`.
unfoldable pub utf8_bytes : ℕ → Bytes
utf8_bytes cp =
    if ltb cp 0x80
    then byte cp ∷ []
    else if ltb cp 0x800
    then byte (bit_or 0xC0 (cp / 2 ^ 6)) ∷ byte (bit_or 0x80 (bit_and cp 0x3F)) ∷ []
    else if ltb cp 0x10000
    then byte (bit_or 0xE0 (cp / 2 ^ 12))
      ∷ byte (bit_or 0x80 (bit_and (cp / 2 ^ 6) 0x3F))
      ∷ byte (bit_or 0x80 (bit_and cp 0x3F))
      ∷ []
    else byte (bit_or 0xF0 (cp / 2 ^ 18))
      ∷ byte (bit_or 0x80 (bit_and (cp / 2 ^ 12) 0x3F))
      ∷ byte (bit_or 0x80 (bit_and (cp / 2 ^ 6) 0x3F))
      ∷ byte (bit_or 0x80 (bit_and cp 0x3F))
      ∷ []

unfoldable pub utf8_append : Bytes → ℕ → Bytes
unfolding utf8_bytes
utf8_append s cp = s ++ utf8_bytes cp

-- `struct CP`.
pub record Codepoint : Type 0 where
  pub cp : ℕ
  pub off : ℕ
  pub len : ℕ

-- What the first byte says: the bits that it gives, and the length of the sequence.
unfoldable pub lead : ℕ → ℕ × ℕ
lead c =
    if ltb c 0x80
    then (c, 1)
    else if c / 2 ^ 5 == 0x6
    then (bit_and c 0x1F, 2)
    else if c / 2 ^ 4 == 0xE
    then (bit_and c 0x0F, 3)
    else if c / 2 ^ 3 == 0x1E
    then (bit_and c 0x07, 4)
    else (c, 1)

-- The loop over the continuation bytes, `k` of them at most; it stops at the end of the text.
unfoldable pub continue_cp : ℕ → ℕ → Bytes → ℕ
continue_cp zero cp rest = cp
continue_cp (suc k) cp [] = cp
continue_cp (suc k) cp (b ∷ rest) =
    continue_cp k (bit_or (cp * 2 ^ 6 % 2 ^ 32) (bit_and b 0x3F)) rest

-- The `while (i < s.size())` loop at offset `i`, with `rest` the text from there on.
unfoldable pub decode_from : ℕ → ℕ → Bytes → List Codepoint
unfolding lead continue_cp
decode_from zero i rest = []
decode_from (suc fuel) i [] = []
decode_from (suc fuel) i (c ∷ rest) =
    let (first, len) = lead c in
    record { cp = continue_cp (len - 1) first rest; off = i; len = len }
    ∷ decode_from fuel (i + len) (drop (len - 1) rest)

-- A round takes a byte at least, so the length of the text is fuel enough.
unfoldable pub utf8_decode : Bytes → List Codepoint
unfolding decode_from
utf8_decode s = decode_from (length s) 0 s
