-- ===== src/Server/Base64.antt =====
-- server/main.cpp, `base64_decode`. `acc` is an `int` that is shifted without a mask: it is kept here
-- as its 32 bits, and of them only the low fourteen are used.
pub mod RoundTrip
mod Tests
use questwend.Prelude.{
  ℕ, zero, suc, ◌+◌, ◌-◌, ◌*◌, ◌/◌, ◌%◌, ◌^◌, List, [], ◌∷◌, Bytes, codes, Bool, true, false, ◌||◌,
  Option, none, some, leb, ◌==◌, if◌then◌else◌, bit_and, bit_or,
}

-- `cs`
unfoldable pub alphabet : Bytes
alphabet = codes "ABCDEFGHIJKLMNOPQRSTUVWXYZabcdefghijklmnopqrstuvwxyz0123456789+/"

-- `tbl[c]`, where `cs` goes on with `chars` from its place `i`.
unfoldable pub table_from : Bytes → ℕ → ℕ → Option ℕ
table_from [] i c = none
table_from (x ∷ chars) i c =
    let rest = table_from chars (i + 1) c in if x == c then some i else rest

-- The six bits of a character; `none` is one that the loop passes over.
unfoldable pub sextet : ℕ → Option ℕ
sextet c =
    let entry = table_from alphabet 0 c in
    if (c == 0x3D) || ((c == 0x0A) || (c == 0x0D)) then none else entry

-- The loop over the characters, with `acc` and `bits`.
unfoldable pub decode_loop : Bytes → ℕ → ℕ → Bytes
decode_loop [] acc bits = []
decode_loop (c ∷ s) acc bits = elim (sextet c) [
  | none ↦ decode_loop s acc bits
  | some v ↦
      let acc' = bit_or (acc * 2 ^ 6 % 2 ^ 32) v in
      let full = leb 8 (bits + 6) in
      let bits' = if full then bits + 6 - 8 else bits + 6 in
      let rest = decode_loop s acc' bits' in
      if full then bit_and (acc' / 2 ^ bits') 0xFF ∷ rest else rest
]

unfoldable pub base64_decode : Bytes → Bytes
base64_decode s = decode_loop s 0 0
