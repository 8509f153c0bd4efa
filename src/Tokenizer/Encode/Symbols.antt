-- ===== src/Tokenizer/Encode/Symbols.antt =====
-- Symbols that spell whole bytes: the merge loop keeps them so, and their tokens decode to the bytes.
use questwend.Prelude.{
  ℕ, zero, suc, ◌+◌, ◌<◌, ◌≡◌, refl, ap, ◌∙◌, List, [], ◌∷◌, ◌++◌, append_assoc, append-nil, Bytes,
  Option, none, some, map, flatten, ltb, length, get_elem?, All, arith, Option-cases, inl, inr,
  Bool-cases, ◌⊎◌,
}
use questwend.Prelude.Dict.{Dict, nat_key, bytes_key, lookup, insert, lookup-insert}
use questwend.Tokenizer.Bpe.{
  Vocab, index_keys, int_max, best_pair, merge_at, merge_loop, byte_symbols,
}
use questwend.Tokenizer.Bpe.Merge
use questwend.Tokenizer.ByteMap.{build_byte_unicode, byte_symbol, byte_maps_inverse}
use questwend.Tokenizer.Encode.{unmap}
use questwend.Tokenizer.Utf8.{Codepoint, utf8_bytes, utf8_decode}
use questwend.Tokenizer.Utf8.RoundTrip.{encode_all, cp_values, utf8_decode-encode_all}

abbrev pub IsByte : ℕ → Type 0
IsByte b = b < 256

-- The codepoints of some bytes, and the text that they make.
abbrev pub cps_of : Bytes → List ℕ
cps_of = map (byte_symbol build_byte_unicode)

unfoldable pub spell : Bytes → Bytes
spell bs = encode_all (cps_of bs)

spell-append : (xs bs : Bytes) → spell (xs ++ bs) ≡ spell xs ++ spell bs
unfolding spell encode_all
spell-append [] bs = refl
spell-append (x ∷ xs) bs = simp (spell-append xs bs, append_assoc)

pub byte_symbols-spell :
    (piece : Bytes) → byte_symbols build_byte_unicode piece ≡ map spell (map (λ b. b ∷ []) piece)
unfolding byte_symbols spell encode_all
byte_symbols-spell [] = refl
byte_symbols-spell (b ∷ piece) = rw (append-nil, byte_symbols-spell piece)

pub flatten_singles : (piece : Bytes) → flatten (map (λ b. b ∷ []) piece) ≡ piece
unfolding flatten
flatten_singles [] = refl
flatten_singles (b ∷ piece) = ap (◌∷◌ b) (flatten_singles piece)

merge_at-spell :
    (i : ℕ) (chunks : List Bytes) → merge_at i (map spell chunks) ≡ map spell (merge_at i chunks)
unfolding merge_at
merge_at-spell i [] = refl
merge_at-spell i (a ∷ []) = refl
merge_at-spell zero (a ∷ b ∷ rest) = rw spell-append
merge_at-spell (suc i) (a ∷ b ∷ rest) = ap (◌∷◌ (spell a)) (merge_at-spell i (b ∷ rest))

-- Whatever the merge table holds, the loop leaves symbols that spell chunks of the same bytes.
pub merge_loop-spell :
    (fuel : ℕ) (ranks : Dict Bytes ℕ) (chunks : List Bytes)
    → (chunks' : List Bytes) × (merge_loop fuel ranks (map spell chunks) ≡ map spell chunks')
      × (flatten chunks' ≡ flatten chunks)
unfolding merge_loop
merge_loop-spell zero ranks chunks = (chunks, refl, refl)
merge_loop-spell (suc fuel) ranks chunks = elim (Bool-cases (ltb 1 (length (map spell chunks)))) [
  | inr short ↦ rw short (chunks, refl, refl)
  | inl long ↦ elim (Option-cases (best_pair ranks (map spell chunks) 0 int_max none)) [
    | inl nothing ↦ rw (long, nothing) (chunks, refl, refl)
    | inr (i, found) ↦
        let (rest, same, flat) = merge_loop-spell fuel ranks (merge_at i chunks) in
        rw (long, found, merge_at-spell) (rest, same, flat ∙ Merge.flatten-merge_at i chunks)
  ]
]

-- What the constructor's index says of the token list.
pub index_keys_sound :
    (ks : List Bytes) (i : ℕ) (m : Dict Bytes ℕ) (k : Bytes) (v : ℕ)
    → lookup k (index_keys ks i m) ≡ some v
    → (lookup k m ≡ some v) ⊎ ((j : ℕ) × (v ≡ i + j) × (get_elem? ks j ≡ some k))
unfolding index_keys
index_keys_sound [] i m k v h = inl h
index_keys_sound (key ∷ ks) i m k v h = elim (index_keys_sound ks (i + 1) (insert key i m) k v h) [
  | inr (j, e, g) ↦ inr (suc j, omega arith, g)
  | inl old ↦ elim (Bool-cases (bytes_key.beq key k)) [
    | inl here ↦
        let same = (bytes_key.beq_iff key k).0 here in
        inr (0, ground (arith, lookup-insert k key i m), ap {B = Option Bytes} some same)
    | inr other ↦ inl (ground (arith, lookup-insert k key i m))
  ]
]

-- Every byte has a token of its own.
abbrev pub ByteComplete : Vocab → Type 0
ByteComplete vocab =
    (b : ℕ)
    → b < 256
    → (id : ℕ) × (lookup (utf8_bytes (byte_symbol build_byte_unicode b))
          (index_keys vocab.tokens 0 [])
        ≡ some id)

pub cps_of-small : (bs : Bytes) → All IsByte bs → All (λ c. c < 0x200000) (cps_of bs)
cps_of-small [] h = tt
cps_of-small (b ∷ bs) (hb, hs) = (omega (arith, (byte_maps_inverse b hb).2), cps_of-small bs hs)

unmap_values :
    (cs : List Codepoint) (bs : Bytes)
    → All IsByte bs
    → cp_values cs ≡ cps_of bs
    → unmap build_byte_unicode cs ≡ bs
unfolding unmap
unmap_values [] [] h e = refl
unmap_values [] (b ∷ bs) h e = ground arith
unmap_values (c ∷ cs) [] h e = ground arith
unmap_values (c ∷ cs) (b ∷ bs) (hb, hs) e =
    ground (arith, (byte_maps_inverse b hb).1, unmap_values cs bs hs)

pub cp_values-spell : (bs : Bytes) → All IsByte bs → cp_values (utf8_decode (spell bs)) ≡ cps_of bs
unfolding spell
cp_values-spell bs h = utf8_decode-encode_all (cps_of bs) (cps_of-small bs h)

-- The token of a spelled chunk decodes to the chunk.
pub decode-spell :
    (bs : Bytes) → All IsByte bs → unmap build_byte_unicode (utf8_decode (spell bs)) ≡ bs
decode-spell bs h = unmap_values _ bs h (cp_values-spell bs h)

-- So does the token of a single byte.
pub decode_single :
    (b : ℕ)
    → b < 256
    → unmap build_byte_unicode (utf8_decode (utf8_bytes (byte_symbol build_byte_unicode b)))
      ≡ b ∷ []
unfolding spell encode_all
decode_single b h = rw append-nil at (decode-spell (b ∷ []) (h, tt))
