-- ===== src/Tokenizer/Tests.antt =====
-- The tokenizer at concrete inputs.
use questwend.Prelude.{
  ℕ, zero, suc, ◌<◌, ◌≡◌, refl, ◌⊎◌, List, [], ◌∷◌, Bytes, Bool, true, false, Option, none, some,
  map, flatten, codes, arith, Member, inl, inr, bytes_eq,
}
use questwend.Prelude.Table.{passes, test_of_passes}
use questwend.Prelude.Dict.{Dict, nat_key, bytes_key, lookup, insert, erase}
use questwend.Prelude.Int.{pos, negsuc}
use questwend.Tokenizer.Bpe
use questwend.Tokenizer.Bpe.{Vocab, make, index_keys, int_max, best_pair, merge_loop}
use questwend.Tokenizer.Bpe.Merge
use questwend.Tokenizer.Bpe.Merge.{IsBest, NoneBelow}
use questwend.Tokenizer.ByteMap.{build_byte_unicode, byte_symbol, byte_maps_inverse}
use questwend.Tokenizer.Classes
use questwend.Tokenizer.Encode
use questwend.Tokenizer.Encode.RoundTrip
use questwend.Tokenizer.Encode.Special.{IsLongest, NoneStands, specials, match_special_correct}
use questwend.Tokenizer.Encode.Symbols.{ByteComplete}
use questwend.Tokenizer.Pretokenize
use questwend.Tokenizer.Pretokenize.{Pre, pretokenize}
use questwend.Tokenizer.Pretokenize.Lossless.{flatten-pretokenize}
use questwend.Tokenizer.Split
use questwend.Tokenizer.Utf8
use questwend.Tokenizer.Utf8.{utf8_bytes, utf8_decode}
use questwend.Tokenizer.Utf8.RoundTrip.{encode_all, cp_values, utf8_decode-encode_all}
use questwend.Tokenizer.Utf8.Tiling.{Tiled, utf8_decode-Tiled}

scan : Unit {0}
unfolding Utf8.utf8_decode Split.split_all Split.run_end Split.run_end_limited Split.newline_end
    Split.at Classes.rule3_letter Classes.is_letter Classes.is_punct Classes.lower
    Classes.cp_is_letter Classes.cp_is_cjk_run Pretokenize.contraction Pretokenize.space_end
    Pretokenize.symbol_end Pretokenize.qwen_end Pretokenize.deepseek_end
    Pretokenize.pretokenize_qwen Pretokenize.pretokenize_deepseek3 pretokenize
scan = tt

pieces_qwen :
    pretokenize Pre.qwen (codes "it's 12  a.spring;\n x")
    ≡ codes "it"
      ∷ codes "'s"
      ∷ codes " "
      ∷ codes "1"
      ∷ codes "2"
      ∷ codes " "
      ∷ codes " a"
      ∷ codes ".spring"
      ∷ codes ";\n"
      ∷ codes " x"
      ∷ []
unfolding scan
pieces_qwen = refl

pieces_deepseek :
    pretokenize Pre.deepseek3 (codes "it's 1234 .x")
    ≡ codes "it" ∷ codes "'s" ∷ codes " " ∷ codes "123" ∷ codes "4" ∷ codes " ." ∷ codes "x" ∷ []
unfolding scan
pieces_deepseek = refl

utf8_decode-encode_all_example :
    cp_values (utf8_decode (encode_all (0x41 ∷ 0xE9 ∷ 0x3042 ∷ 0x1F600 ∷ [])))
    ≡ 0x41 ∷ 0xE9 ∷ 0x3042 ∷ 0x1F600 ∷ []
utf8_decode-encode_all_example =
    utf8_decode-encode_all (0x41 ∷ 0xE9 ∷ 0x3042 ∷ 0x1F600 ∷ []) (omega arith)

utf8_decode-Tiled_example : Tiled 0 3 (utf8_decode (0xE3 ∷ 0x41 ∷ 0xFF ∷ []))
utf8_decode-Tiled_example = utf8_decode-Tiled (0xE3 ∷ 0x41 ∷ 0xFF ∷ [])

byte_maps_inverse_example :
    (lookup 0x20 build_byte_unicode.byte_to_uni ≡ some (byte_symbol build_byte_unicode 0x20))
    × (lookup (byte_symbol build_byte_unicode 0x20) build_byte_unicode.uni_to_byte ≡ some 0x20)
    × (byte_symbol build_byte_unicode 0x20 < 324)
byte_maps_inverse_example = byte_maps_inverse 0x20 (omega arith)

flatten-pretokenize_example : flatten (pretokenize Pre.llama3 (codes "a 123")) ≡ codes "a 123"
flatten-pretokenize_example = flatten-pretokenize Pre.llama3 (codes "a 123")

abbrev ranks : Dict Bytes ℕ
ranks = (codes "a b", 1) ∷ (codes "ab c", 0) ∷ []

abbrev letters : List Bytes
letters = codes "a" ∷ codes "b" ∷ codes "c" ∷ []

best_pair_correct_example :
    (best_pair ranks letters 0 int_max none ≡ none) × NoneBelow ranks letters int_max
    ⊎ ((k : ℕ) × (r : ℕ) × (best_pair ranks letters 0 int_max none ≡ some k)
        × IsBest ranks letters int_max k r)
best_pair_correct_example = Merge.best_pair_correct ranks letters

merge_loop_done_example : NoneBelow ranks (merge_loop 3 ranks letters) int_max
merge_loop_done_example = Merge.merge_loop_done 3 ranks letters (omega arith)

-- A token for each byte, one merged token, and one special token.
abbrev byte_tokens : ℕ → List Bytes → List Bytes
byte_tokens zero rest = rest
byte_tokens (suc b) rest = byte_tokens b (utf8_bytes (byte_symbol build_byte_unicode b) ∷ rest)

abbrev types : ℕ → List ℕ → List ℕ
types zero rest = rest
types (suc b) rest = 1 ∷ types b rest

abbrev small : Vocab
small = record {
  tokens = byte_tokens 256 (codes "ab" ∷ codes "<|end|>" ∷ codes "<|" ∷ []);
  token_types = types 257 (3 ∷ 4 ∷ []);
  merges = codes "a b" ∷ [];
  bos_id = negsuc 0;
  eos_id = pos 257;
  add_bos = false;
  pre = codes "qwen2";
  chat_template = codes "{%- if tools %}";
}

has_token : ℕ → Bool
has_token b =
    elim (lookup (utf8_bytes (byte_symbol build_byte_unicode b)) (index_keys small.tokens 0 [])) [
      | none ↦ false
      | some id ↦ true
    ]

tokenize : Unit {0}
unfolding scan lookup insert erase bytes_eq build_byte_unicode byte_symbol utf8_bytes index_keys
    make Bpe.special_tokens Bpe.sort_by_length Bpe.first_bytes Bpe.template_wants_bos Bpe.pre_of
    Bpe.best_pair Bpe.merge_at Bpe.merge_loop Bpe.byte_symbols Bpe.fallback_ids Bpe.symbol_ids
    Bpe.bpe_encode_piece Encode.is_first Encode.first_special Encode.match_special
    Encode.whole_symbol Encode.encode_piece Encode.encode_pieces Encode.flush Encode.encode_loop
    Encode.bos_prefix Encode.encode Encode.unmap Encode.decode_one Encode.decode
tokenize = tt

all_have_token : passes has_token 256 ≡ true
unfolding passes has_token tokenize
all_have_token = refl

small-ByteComplete : ByteComplete small
unfolding has_token
small-ByteComplete b h =
    found (lookup (utf8_bytes (byte_symbol build_byte_unicode b)) (index_keys small.tokens 0 []))
      refl (test_of_passes has_token 256 h all_have_token)
  where
    found :
        (o : Option ℕ)
        → lookup (utf8_bytes (byte_symbol build_byte_unicode b)) (index_keys small.tokens 0 []) ≡ o
        → elim o [ none ↦ false | some id ↦ true ] ≡ true
        → (id : ℕ) × (lookup
              (utf8_bytes (byte_symbol build_byte_unicode b))
              (index_keys small.tokens 0 [])
            ≡ some id)
    found none e t = ground arith
    found (some id) e t = (id, e)

abbrev small_specials : List (Bytes × ℕ)
small_specials = (codes "<|end|>", 257) ∷ (codes "<|", 258) ∷ []

specials-small : specials small ≡ small_specials
unfolding tokenize
specials-small = refl

end_decodes : Encode.decode_one (make small) (pos 257) ≡ codes "<|end|>"
unfolding tokenize
end_decodes = refl

open_decodes : Encode.decode_one (make small) (pos 258) ≡ codes "<|"
unfolding tokenize
open_decodes = refl

plain_of_Member :
    (x : Bytes × ℕ) → Member x small_specials → Encode.decode_one (make small) (pos x.1) ≡ x.0
plain_of_Member x (inl e) = rw e end_decodes
plain_of_Member x (inr (inl e)) = rw e open_decodes
plain_of_Member x (inr (inr m)) = elim m [ ]

small_plain :
    (x : Bytes × ℕ) → Member x (specials small) → Encode.decode_one (make small) (pos x.1) ≡ x.0
small_plain x m = plain_of_Member x (rw specials-small at m)

decode-encode_example :
    Encode.decode
      (make small)
      (map pos (Encode.encode (make small) (codes "ab<|end|> c<|") false true))
    ≡ codes "ab<|end|> c<|"
decode-encode_example =
    RoundTrip.decode-encode small small-ByteComplete small_plain (codes "ab<|end|> c<|") true
      (omega arith)

match_special_correct_example :
    (Encode.match_special (make small) (codes "<|end|>") ≡ none)
      × NoneStands (specials small) (codes "<|end|>")
    ⊎ ((len : ℕ) × (id : ℕ) × (Encode.match_special (make small) (codes "<|end|>") ≡ some (len, id))
        × IsLongest (specials small) (codes "<|end|>") len id)
match_special_correct_example = match_special_correct small (codes "<|end|>")

encoded : Encode.encode (make small) (codes "ab<|end|>c") true true ≡ 256 ∷ 257 ∷ 99 ∷ []
unfolding tokenize
encoded = refl
