-- ===== src/Tokenizer/Encode.antt =====
-- core/tokenizer.cpp: `match_special`, `encode` and the two `decode`s.
pub mod Special
pub mod RoundTrip
pub mod Symbols
use questwend.Prelude.{
  ℕ, zero, suc, ◌+◌, ◌-◌, List, [], ◌∷◌, ◌++◌, Bytes, Bool, true, false, ◌&&◌, ◌||◌, Option, none,
  some, leb, ltb, ◌==◌, if◌then◌else◌, length, take, drop, get_elem?, substr, begins_with,
}
use questwend.Prelude.Dict.{nat_key, bytes_key, lookup}
use questwend.Prelude.Int.{ℤ, pos, negsuc}
use questwend.Tokenizer.Bpe.{Tokenizer, bpe_encode_piece}
use questwend.Tokenizer.ByteMap.{ByteMaps, byte_symbol}
use questwend.Tokenizer.Pretokenize.{pretokenize}
use questwend.Tokenizer.Utf8.{Codepoint, utf8_append, utf8_decode}

-- `special_first_[c]`
unfoldable pub is_first : ℕ → List ℕ → Bool
is_first c [] = false
is_first c (d ∷ ds) = c == d || is_first c ds

-- The loop over `special_`: the length and the id of the first that stands at the front.
unfoldable pub first_special : List (Bytes × ℕ) → Bytes → Option (ℕ × ℕ)
first_special [] rest = none
first_special ((tok, id) ∷ special) rest =
    if begins_with tok rest then some (length tok, id) else first_special special rest

-- `match_special(text, pos, &len)`, with `rest` the text from `pos` on; `none` stands for -1.
unfoldable pub match_special : Tokenizer → Bytes → Option (ℕ × ℕ)
match_special t [] = none
match_special t (c ∷ rest) =
    if is_first c t.special_first then first_special t.special (c ∷ rest) else none

-- The symbols of a piece in one string.
unfoldable pub whole_symbol : ByteMaps → Bytes → Bytes → Bytes
whole_symbol maps sym [] = sym
whole_symbol maps sym (b ∷ piece) = whole_symbol maps (utf8_append sym (byte_symbol maps b)) piece

-- The body of the loop over the pieces.
unfoldable pub encode_piece : Tokenizer → Bytes → List ℕ
encode_piece t piece =
    if t.ignore_merges
    then elim (lookup (whole_symbol t.byte_maps [] piece) t.token_ids) [
      | some id ↦ id ∷ []
      | none ↦ bpe_encode_piece t piece
    ]
    else bpe_encode_piece t piece

unfoldable pub encode_pieces : Tokenizer → List Bytes → List ℕ
encode_pieces t [] = []
encode_pieces t (p ∷ ps) = encode_piece t p ++ encode_pieces t ps

-- The lambda `flush(from, to)`
unfoldable pub flush : Tokenizer → Bytes → ℕ → ℕ → List ℕ
flush t text from to =
    if leb to from then [] else encode_pieces t (pretokenize t.pre (substr text from (to - from)))

-- The loop over the special tokens at `i`, with the plain run since `run`, and the last `flush`.
unfoldable pub encode_loop : Tokenizer → ℕ → Bytes → ℕ → ℕ → List ℕ
encode_loop t zero text i run = flush t text run (length text)
encode_loop t (suc fuel) text i run = elim (ltb i (length text)) [
  | false ↦ flush t text run (length text)
  | true ↦ elim (match_special t (drop i text)) [
    | none ↦ encode_loop t fuel text (i + 1) run
    | some (len, id) ↦ flush t text run i ++ (id ∷ encode_loop t fuel text (i + len) (i + len))
  ]
]

-- `if (add_bos && bos_ >= 0) ids.push_back(bos_);`
unfoldable pub bos_prefix : Bool → ℤ → List ℕ
bos_prefix false bos = []
bos_prefix true (pos id) = id ∷ []
bos_prefix true (negsuc n) = []

-- `encode(text, add_bos, parse_special)`; a round takes a byte at least.
unfoldable pub encode : Tokenizer → Bytes → Bool → Bool → List ℕ
encode t text add_bos parse_special =
    bos_prefix add_bos t.bos
    ++ (if parse_special
        then encode_loop t (length text) text 0 0
        else flush t text 0 (length text))

-- The bytes that the codepoints stand for; one that stands for none is left out.
unfoldable pub unmap : ByteMaps → List Codepoint → Bytes
unmap maps [] = []
unmap maps (c ∷ cs) = elim (lookup c.cp maps.uni_to_byte) [
  | some b ↦ b ∷ unmap maps cs
  | none ↦ unmap maps cs
]

-- `decode(token)`
unfoldable pub decode_one : Tokenizer → ℤ → Bytes
decode_one t (negsuc n) = []
decode_one t (pos n) = elim (get_elem? t.id_to_token n) [
  | none ↦ []
  | some tok ↦ unmap t.byte_maps (utf8_decode tok)
]

-- `decode(tokens)`
unfoldable pub decode : Tokenizer → List ℤ → Bytes
decode t [] = []
decode t (id ∷ ids) = decode_one t id ++ decode t ids
