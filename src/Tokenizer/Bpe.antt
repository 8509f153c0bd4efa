-- ===== src/Tokenizer/Bpe.antt =====
-- core/tokenizer.cpp: the members of `Tokenizer`, its constructor, and `bpe_encode_piece`.
pub mod Merge
use questwend.Prelude.{
  ℕ, zero, suc, ◌+◌, ◌-◌, ◌^◌, List, [], ◌∷◌, ◌++◌, Bytes, Bool, true, false, ◌&&◌, ◌||◌, Option,
  none, some, map, codes, ltb, ◌==◌, if◌then◌else◌, length, take, drop, get_elem?, find, substr,
  begins_with, bytes_eq,
}
use questwend.Prelude.Dict.{Dict, nat_key, bytes_key, lookup, insert}
use questwend.Prelude.Int.{ℤ, pos, negsuc}
use questwend.Tokenizer.ByteMap.{ByteMaps, build_byte_unicode, byte_symbol}
use questwend.Tokenizer.Pretokenize.{Pre}
use questwend.Tokenizer.Utf8.{Codepoint, utf8_bytes, utf8_decode}

-- The members of `Vocab` (core/model.h) that the tokenizer reads.
pub record Vocab : Type 0 where
  pub tokens : List Bytes
  pub token_types : List ℕ
  pub merges : List Bytes
  pub bos_id : ℤ
  pub eos_id : ℤ
  pub add_bos : Bool
  pub pre : Bytes
  pub chat_template : Bytes

-- A token id is an `int32_t`; -1 stands for none.
pub record Tokenizer : Type 0 where
  pub token_ids : Dict Bytes ℕ
  pub id_to_token : List Bytes
  pub merge_rank : Dict Bytes ℕ
  pub bos : ℤ
  pub eos : ℤ
  pub add_bos : Bool
  pub template_bos : Bool
  pub byte_maps : ByteMaps
  pub pre : Pre
  pub ignore_merges : Bool
  pub special : List (Bytes × ℕ)
  pub special_first : List ℕ

-- `for (i = 0; …) m[keys[i]] = i;`, over the keys from `i` on
unfoldable pub index_keys : List Bytes → ℕ → Dict Bytes ℕ → Dict Bytes ℕ
index_keys [] i m = m
index_keys (k ∷ ks) i m = index_keys ks (i + 1) (insert k i m)

-- CONTROL (3) and USER_DEFINED (4) tokens that are not empty.
unfoldable pub is_special : ℕ → Bytes → Bool
is_special t [] = false
is_special t (c ∷ cs) = t == 3 || t == 4

unfoldable pub special_tokens : List Bytes → List ℕ → ℕ → List (Bytes × ℕ)
unfolding is_special
special_tokens [] types i = []
special_tokens (tok ∷ toks) [] i = []
special_tokens (tok ∷ toks) (t ∷ types) i =
    let rest = special_tokens toks types (i + 1) in
    if is_special t tok then (tok, i) ∷ rest else rest

-- The bytes `c` at which `special_first_[c]` is set.
unfoldable pub first_bytes : List (Bytes × ℕ) → List ℕ
first_bytes [] = []
first_bytes (([], i) ∷ special) = first_bytes special
first_bytes ((c ∷ cs, i) ∷ special) = c ∷ first_bytes special

-- `std::sort` by falling length. The order of equally long tokens, which `std::sort` leaves open,
-- is that of the vocabulary.
unfoldable pub insert_by_length : Bytes × ℕ → List (Bytes × ℕ) → List (Bytes × ℕ)
insert_by_length e [] = e ∷ []
insert_by_length e (f ∷ fs) =
    let later = f ∷ insert_by_length e fs in
    if ltb (length f.0) (length e.0) then e ∷ f ∷ fs else later

unfoldable pub sort_by_length : List (Bytes × ℕ) → List (Bytes × ℕ)
unfolding insert_by_length
sort_by_length [] = []
sort_by_length (e ∷ es) = insert_by_length e (sort_by_length es)

-- `t.find_first_not_of(" \t\r\n")`, as the rest of the text from there on.
unfoldable pub skip_blanks : Bytes → Bytes
skip_blanks [] = []
skip_blanks (c ∷ cs) =
    let rest = skip_blanks cs in
    if c == 0x20 || c == 0x09 || c == 0x0D || c == 0x0A then rest else c ∷ cs

abbrev is_some {ℓ} : {A : Type ℓ} → Option A → Bool
is_some none = false
is_some (some a) = true

-- Does the template's first tag name `bos_token`?
unfoldable pub template_wants_bos : Bytes → Bool
unfolding skip_blanks begins_with find
template_wants_bos t =
    let tag = skip_blanks t in
    begins_with (codes "{{") tag && elim (find tag (codes "}}") 0) [
      | none ↦ false
      | some e ↦ is_some (find (substr tag 0 e) (codes "bos_token") 0)
    ]

unfoldable pub pre_of : Bytes → Pre
unfolding bytes_eq
pre_of name =
    if bytes_eq name (codes "deepseek-v3")
    then Pre.deepseek3
    else if bytes_eq name (codes "lfm2")
    then Pre.llama3
    else Pre.qwen

abbrev pub is_llama3 : Pre → Bool
is_llama3 Pre.llama3 = true
is_llama3 _ = false

-- `Tokenizer::Tokenizer`
unfoldable pub make : Vocab → Tokenizer
make vocab = record {
  token_ids = index_keys vocab.tokens 0 [];
  id_to_token = vocab.tokens;
  merge_rank = index_keys vocab.merges 0 [];
  bos = vocab.bos_id;
  eos = vocab.eos_id;
  add_bos = vocab.add_bos;
  template_bos = template_wants_bos vocab.chat_template;
  byte_maps = build_byte_unicode;
  pre = pre_of vocab.pre;
  ignore_merges = is_llama3 (pre_of vocab.pre);
  special = sort_by_length (special_tokens vocab.tokens vocab.token_types 0);
  special_first = first_bytes (special_tokens vocab.tokens vocab.token_types 0);
}

-- `std::numeric_limits<int>::max()`
abbrev pub int_max : ℕ
int_max = 2 ^ 31 - 1

-- The scan for the lowest-ranked adjacent pair; `i` is the place of the first symbol, and `best`
-- holds `best_rank` and `best_i` (`none` for -1).
unfoldable pub best_pair : Dict Bytes ℕ → List Bytes → ℕ → ℕ → Option ℕ → Option ℕ
best_pair ranks [] i best_rank best_i = best_i
best_pair ranks (a ∷ []) i best_rank best_i = best_i
best_pair ranks (a ∷ b ∷ rest) i best_rank best_i = elim (lookup (a ++ 0x20 ∷ b) ranks) [
  | none ↦ best_pair ranks (b ∷ rest) (i + 1) best_rank best_i
  | some rank ↦
      best_pair ranks (b ∷ rest) (i + 1) (if ltb rank best_rank then rank else best_rank)
        (if ltb rank best_rank then some i else best_i)
]

-- `symbols[i] += symbols[i + 1]; symbols.erase(symbols.begin() + i + 1);`
unfoldable pub merge_at : ℕ → List Bytes → List Bytes
merge_at i [] = []
merge_at i (a ∷ []) = a ∷ []
merge_at zero (a ∷ b ∷ rest) = (a ++ b) ∷ rest
merge_at (suc i) (a ∷ b ∷ rest) = a ∷ merge_at i (b ∷ rest)

-- `while (symbols.size() > 1)`; every round but the last shortens the list, so its length is fuel
-- enough.
unfoldable pub merge_loop : ℕ → Dict Bytes ℕ → List Bytes → List Bytes
merge_loop zero ranks symbols = symbols
merge_loop (suc fuel) ranks symbols =
    if ltb 1 (length symbols)
    then elim (best_pair ranks symbols 0 int_max none) [
      | none ↦ symbols
      | some i ↦ merge_loop fuel ranks (merge_at i symbols)
    ]
    else symbols

-- The symbol of each byte.
unfoldable pub byte_symbols : ByteMaps → Bytes → List Bytes
byte_symbols maps [] = []
byte_symbols maps (b ∷ piece) = utf8_bytes (byte_symbol maps b) ∷ byte_symbols maps piece

-- The fallback: a token for each codepoint of the symbol that has one.
unfoldable pub fallback_ids : Dict Bytes ℕ → List Codepoint → List ℕ
fallback_ids ids [] = []
fallback_ids ids (c ∷ cs) = elim (lookup (utf8_bytes c.cp) ids) [
  | none ↦ fallback_ids ids cs
  | some id ↦ id ∷ fallback_ids ids cs
]

unfoldable pub symbol_ids : Dict Bytes ℕ → List Bytes → List ℕ
symbol_ids ids [] = []
symbol_ids ids (s ∷ symbols) =
    elim (lookup s ids) [ some id ↦ id ∷ [] | none ↦ fallback_ids ids (utf8_decode s) ]
    ++ symbol_ids ids symbols

unfoldable pub bpe_encode_piece : Tokenizer → Bytes → List ℕ
bpe_encode_piece t piece =
    let symbols = byte_symbols t.byte_maps piece in
    symbol_ids t.token_ids (merge_loop (length symbols) t.merge_rank symbols)
