-- ===== src/Tokenizer/Utf8/RoundTrip.antt =====
-- Decoding gives encoded codepoints back, and the codepoints of any text tile it.
use questwend.Prelude.{
  ℕ, zero, suc, ◌+◌, ◌*◌, ◌/◌, ◌%◌, ◌^◌, ◌≤◌, ◌<◌, ◌≡◌, refl, ap, List, [], ◌∷◌, ◌++◌, map, Bytes,
  bit_and, bit_or, ltb, if◌then◌else◌, arith, length, All, length-append,
}
use questwend.Prelude.Bits.{
  bit_and_7, bit_and_15, bit_and_31, bit_and_63, bit_or_low6, bit_or_C0, bit_or_E0, bit_or_F0,
  bit_or_80,
}
use questwend.Tokenizer.Utf8.{Codepoint, utf8_bytes, lead, decode_from, utf8_decode, byte}

-- The bytes by quotients and remainders.
abbrev bytes_by_digits : ℕ → Bytes
bytes_by_digits cp =
    if ltb cp 0x80
    then cp ∷ []
    else if ltb cp 0x800
    then (0xC0 + cp / 64) ∷ (0x80 + cp % 64) ∷ []
    else if ltb cp 0x10000
    then (0xE0 + cp / 4096) ∷ (0x80 + cp / 64 % 64) ∷ (0x80 + cp % 64) ∷ []
    else (0xF0 + cp / 262144)
      ∷ (0x80 + cp / 4096 % 64)
      ∷ (0x80 + cp / 64 % 64)
      ∷ (0x80 + cp % 64)
      ∷ []

byte_80 : (v : ℕ) → byte (bit_or 0x80 (bit_and v 0x3F)) ≡ 0x80 + v % 64
byte_80 v = rw bit_and_63 (omega (arith, bit_or_80 (v % 64) (omega arith)))

byte_C0 : (v : ℕ) → v < 32 → byte (bit_or 0xC0 v) ≡ 0xC0 + v
byte_C0 v h = omega (arith, bit_or_C0 v h)

byte_E0 : (v : ℕ) → v < 16 → byte (bit_or 0xE0 v) ≡ 0xE0 + v
byte_E0 v h = omega (arith, bit_or_E0 v h)

byte_F0 : (v : ℕ) → v < 8 → byte (bit_or 0xF0 v) ≡ 0xF0 + v
byte_F0 v h = omega (arith, bit_or_F0 v h)

utf8_bytes_digits : (cp : ℕ) → cp < 0x200000 → utf8_bytes cp ≡ bytes_by_digits cp
unfolding utf8_bytes
utf8_bytes_digits cp h = ground (
  arith,
  byte_80 cp,
  byte_80 (cp / 64),
  byte_80 (cp / 4096),
  byte_C0 (cp / 64),
  byte_E0 (cp / 4096),
  byte_F0 (cp / 262144),
)

continue_step :
    (cp b : ℕ) → cp < 2 ^ 26 → bit_or (cp * 2 ^ 6 % 2 ^ 32) (bit_and b 0x3F) ≡ cp * 64 + b % 64
continue_step cp b h =
    let e : cp * 2 ^ 6 % 2 ^ 32 ≡ cp * 64 = omega arith in
    rw (e, bit_and_63) (bit_or_low6 cp (b % 64) (omega arith))

-- The first codepoint of an encoded one followed by any text.
decode_1 :
    (f i cp : ℕ) (rest : Bytes)
    → cp < 0x80
    → decode_from (suc f) i (cp ∷ rest)
      ≡ record { cp = cp; off = i; len = 1 } ∷ decode_from f (i + 1) rest
unfolding decode_from
decode_1 f i cp rest h = ground arith

lead_2 : (x : ℕ) → x < 32 → lead (0xC0 + x) ≡ (x, 2)
unfolding lead
lead_2 x h = ground (arith, bit_and_31 (0xC0 + x))

lead_3 : (x : ℕ) → x < 16 → lead (0xE0 + x) ≡ (x, 3)
unfolding lead
lead_3 x h = ground (arith, bit_and_15 (0xE0 + x))

lead_4 : (x : ℕ) → x < 8 → lead (0xF0 + x) ≡ (x, 4)
unfolding lead
lead_4 x h = ground (arith, bit_and_7 (0xF0 + x))

decode_2 :
    (f i cp : ℕ) (rest : Bytes)
    → cp < 0x800
    → decode_from (suc f) i ((0xC0 + cp / 64) ∷ (0x80 + cp % 64) ∷ rest)
      ≡ record { cp = cp; off = i; len = 2 } ∷ decode_from f (i + 2) rest
unfolding decode_from
decode_2 f i cp rest h =
    ground (
      arith,
      lead_2 (cp / 64) (omega arith),
      continue_step (cp / 64) (0x80 + cp % 64) (omega arith),
    )

decode_3 :
    (f i cp : ℕ) (rest : Bytes)
    → cp < 0x10000
    → decode_from (suc f) i ((0xE0 + cp / 4096) ∷ (0x80 + cp / 64 % 64) ∷ (0x80 + cp % 64) ∷ rest)
      ≡ record { cp = cp; off = i; len = 3 } ∷ decode_from f (i + 3) rest
unfolding decode_from
decode_3 f i cp rest h = ground (
  arith,
  lead_3 (cp / 4096) (omega arith),
  continue_step (cp / 4096) (0x80 + cp / 64 % 64) (omega arith),
  continue_step (cp / 64) (0x80 + cp % 64) (omega arith),
)

decode_4 :
    (f i cp : ℕ) (rest : Bytes)
    → cp < 0x200000
    → decode_from (suc f) i (
        (0xF0 + cp / 262144)
        ∷ (0x80 + cp / 4096 % 64)
        ∷ (0x80 + cp / 64 % 64)
        ∷ (0x80 + cp % 64)
        ∷ rest)
      ≡ record { cp = cp; off = i; len = 4 } ∷ decode_from f (i + 4) rest
unfolding decode_from
decode_4 f i cp rest h = ground (
  arith,
  lead_4 (cp / 262144) (omega arith),
  continue_step (cp / 262144) (0x80 + cp / 4096 % 64) (omega arith),
  continue_step (cp / 4096) (0x80 + cp / 64 % 64) (omega arith),
  continue_step (cp / 64) (0x80 + cp % 64) (omega arith),
)

-- One encoded codepoint, whatever follows it.
decode_bytes :
    (f i cp : ℕ) (rest : Bytes)
    → cp < 0x200000
    → decode_from (suc f) i (utf8_bytes cp ++ rest)
      ≡ record { cp = cp; off = i; len = length (utf8_bytes cp) }
        ∷ decode_from f (i + length (utf8_bytes cp)) rest
decode_bytes f i cp rest h = rw (utf8_bytes_digits cp h) (
    ground (
      arith,
      decode_1 f i cp rest,
      decode_2 f i cp rest,
      decode_3 f i cp rest,
      decode_4 f i cp rest,
    ))

length-utf8_bytes : (cp : ℕ) → cp < 0x200000 → 1 ≤ length (utf8_bytes cp)
length-utf8_bytes cp h = rw (utf8_bytes_digits cp h) (ground arith)

-- The bytes of a sequence of codepoints.
unfoldable pub encode_all : List ℕ → Bytes
encode_all [] = []
encode_all (cp ∷ cps) = utf8_bytes cp ++ encode_all cps

abbrev pub cp_values : List Codepoint → List ℕ
cp_values = map (λ c. c.cp)

decode_from-encode_all :
    (cps : List ℕ) (f i : ℕ)
    → All (λ c. c < 0x200000) cps
    → length (encode_all cps) ≤ f
    → cp_values (decode_from f i (encode_all cps)) ≡ cps
unfolding encode_all
decode_from-encode_all [] zero i _ h = unfold decode_from in refl
decode_from-encode_all [] (suc f) i _ h = unfold decode_from in refl
decode_from-encode_all (c ∷ cps) zero i (hc, hs) h =
    absurd
      (omega (arith, length-utf8_bytes c hc, length-append {0} (utf8_bytes c) (encode_all cps)))
decode_from-encode_all (c ∷ cps) (suc f) i (hc, hs) h =
    rw (decode_bytes f i c (encode_all cps) hc) (
      ap (◌∷◌ c) (
        decode_from-encode_all cps f (i + length (utf8_bytes c)) hs (
          omega
            (arith, length-utf8_bytes c hc, length-append {0} (utf8_bytes c) (encode_all cps)))))

-- Decoding the UTF-8 bytes of any codepoints below 2^21 gives these codepoints back.
pub utf8_decode-encode_all :
    (cps : List ℕ) → All (λ c. c < 0x200000) cps → cp_values (utf8_decode (encode_all cps)) ≡ cps
unfolding utf8_decode
utf8_decode-encode_all cps h = decode_from-encode_all cps _ 0 h (omega arith)
