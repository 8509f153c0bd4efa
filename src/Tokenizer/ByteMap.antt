-- ===== src/Tokenizer/ByteMap.antt =====
-- core/tokenizer.cpp, "GPT-2 byte<->unicode": the table that gives every byte a printable codepoint.
use questwend.Prelude.{
  ℕ, zero, suc, ◌+◌, ◌<◌, ◌≡◌, refl, Bool, true, false, ◌&&◌, ◌||◌, Option, some, none, [], ltb,
  leb, ◌==◌, if◌then◌else◌, arith,
}
use questwend.Prelude.Table.{passes, test_of_passes}
use questwend.Prelude.Dict.{Dict, nat_key, lookup, insert}

in_printable : ℕ → Bool
in_printable b =
    (leb b'!' b && leb b b'~') || (leb 0xA1 b && leb b 0xAC) || (leb 0xAE b && leb b 0xFF)

-- `byte_to_uni_` and `uni_to_byte_`.
pub record ByteMaps : Type 0 where
  pub byte_to_uni : Dict ℕ ℕ
  pub uni_to_byte : Dict ℕ ℕ

-- The loop over the bytes, `left` of them from `b` on; `n` counts the bytes with no glyph so far.
build_from : ℕ → ℕ → ℕ → ByteMaps → ByteMaps
build_from zero b n maps = maps
build_from (suc left) b n maps =
    let cp = if in_printable b then b else 256 + n in
    let n' = if in_printable b then n else n + 1 in
    build_from left (b + 1) n' (record {
      byte_to_uni = insert b cp maps.byte_to_uni;
      uni_to_byte = insert cp b maps.uni_to_byte;
    })

unfoldable pub build_byte_unicode : ByteMaps
unfolding in_printable build_from insert
build_byte_unicode = build_from 256 0 0 (record { byte_to_uni = []; uni_to_byte = [] })

-- `byte_to_uni_.at(b)`: every byte has an entry, so the default is never taken.
unfoldable pub byte_symbol : ByteMaps → ℕ → ℕ
byte_symbol maps b = elim (lookup b maps.byte_to_uni) [ none ↦ 0 | some cp ↦ cp ]

abbrev some_eq : Option ℕ → ℕ → Bool
some_eq none y = false
some_eq (some x) y = x == y

some_eq_sound : (o : Option ℕ) (y : ℕ) → some_eq o y ≡ true → o ≡ some y
some_eq_sound none y h = ground arith
some_eq_sound (some x) y h = ground arith

-- The table at every byte: the codepoint is stored, is one that takes two bytes at most, and leads
-- back to the byte.
check_byte : ℕ → Bool
check_byte b =
    let maps = build_byte_unicode in
    let cp = byte_symbol maps b in
    some_eq (lookup b maps.byte_to_uni) cp && (some_eq (lookup cp maps.uni_to_byte) b && ltb cp 324)

table : passes check_byte 256 ≡ true
unfolding passes check_byte build_byte_unicode byte_symbol lookup
table = refl

check_byte_sound :
    (b : ℕ)
    → check_byte b ≡ true
    → (lookup b build_byte_unicode.byte_to_uni ≡ some (byte_symbol build_byte_unicode b))
      × (lookup (byte_symbol build_byte_unicode b) build_byte_unicode.uni_to_byte ≡ some b)
      × (byte_symbol build_byte_unicode b < 324)
unfolding check_byte
check_byte_sound b h =
    let maps = build_byte_unicode in
    ground (
      arith,
      some_eq_sound (lookup b maps.byte_to_uni) (byte_symbol maps b),
      some_eq_sound (lookup (byte_symbol maps b) maps.uni_to_byte) b,
    )

-- Every byte has a codepoint in the table, that codepoint is below 324, and the reverse table leads
-- from it back to the byte; so no two bytes share a codepoint.
pub byte_maps_inverse :
    (b : ℕ)
    → b < 256
    → (lookup b build_byte_unicode.byte_to_uni ≡ some (byte_symbol build_byte_unicode b))
      × (lookup (byte_symbol build_byte_unicode b) build_byte_unicode.uni_to_byte ≡ some b)
      × (byte_symbol build_byte_unicode b < 324)
byte_maps_inverse b h = check_byte_sound b (test_of_passes check_byte 256 h table)
