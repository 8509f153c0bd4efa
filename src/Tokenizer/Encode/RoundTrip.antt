-- ===== src/Tokenizer/Encode/RoundTrip.antt =====
-- Decoding what `encode` returns gives the text back.
use questwend.Prelude.{
  ℕ, zero, suc, ◌+◌, ◌-◌, ◌≤◌, ◌<◌, ◌≡◌, refl, ap, ap₂, ◌∙◌, sym, List, [], ◌∷◌, ◌++◌, append_assoc,
  append-nil, Bytes, Bool, true, false, Option, none, some, map, flatten, leb, ltb, if◌then◌else◌,
  length, take, drop, cut_at, take_all, length-drop, Member, All, All-of-append, All-take, All-drop,
  arith, Option-cases, inl, inr, Bool-cases,
}
use questwend.Prelude.Dict.{nat_key, bytes_key, lookup}
use questwend.Prelude.Int.{pos}
use questwend.Tokenizer.Bpe.{
  Vocab, make, is_llama3, pre_of, index_keys, merge_loop, byte_symbols, fallback_ids, symbol_ids,
  bpe_encode_piece,
}
use questwend.Tokenizer.ByteMap.{build_byte_unicode, byte_symbol}
use questwend.Tokenizer.Encode.{
  unmap, decode_one, decode, encode_piece, encode_pieces, whole_symbol, flush, encode_loop, encode,
  bos_prefix,
}
use questwend.Tokenizer.Encode.Symbols.{
  IsByte, cps_of, spell, byte_symbols-spell, flatten_singles, merge_loop-spell, index_keys_sound,
  ByteComplete, cp_values-spell, decode-spell, decode_single,
}
use questwend.Tokenizer.Encode.Special.{
  specials, special_pos, IsLongest, match_special_correct, take_of_begins_with,
}
use questwend.Tokenizer.Pretokenize.{pretokenize}
use questwend.Tokenizer.Pretokenize.Lossless.{flatten-pretokenize}
use questwend.Tokenizer.Utf8.{Codepoint, utf8_bytes, utf8_append, utf8_decode}
use questwend.Tokenizer.Utf8.RoundTrip.{encode_all, cp_values}

All-flatten : (chunks : List Bytes) → All IsByte (flatten chunks) → All (All IsByte) chunks
unfolding flatten
All-flatten [] h = tt
All-flatten (c ∷ cs) h =
    let (hc, hs) = All-of-append IsByte c (flatten cs) h in (hc, All-flatten cs hs)

module _ (vocab : Vocab) (complete : ByteComplete vocab) where
  -- The text of some ids, as the constructor's tables give it.
  pub text_of : List ℕ → Bytes
  text_of ids = decode (make vocab) (map pos ids)

  text_of-append : (xs ys : List ℕ) → text_of (xs ++ ys) ≡ text_of xs ++ text_of ys
  unfolding text_of decode
  text_of-append [] ys = refl
  text_of-append (x ∷ xs) ys = simp (text_of-append xs ys, append_assoc)

  text_of_one : (id : ℕ) → text_of (id ∷ []) ≡ decode_one (make vocab) (pos id)
  unfolding text_of decode
  text_of_one id = append-nil _

  decode_token :
      (s : Bytes) (id : ℕ)
      → lookup s (index_keys vocab.tokens 0 []) ≡ some id
      → decode_one (make vocab) (pos id) ≡ unmap build_byte_unicode (utf8_decode s)
  unfolding decode_one make lookup
  decode_token s id h = elim (index_keys_sound vocab.tokens 0 [] s id h) [
    | inl absent ↦ absurd (ground arith)
    | inr (j, e, g) ↦ let e' : id ≡ j = omega arith in rw (e', g)
  ]

  text_of-fallback_ids :
      (cs : List Codepoint) (bs : Bytes)
      → All IsByte bs
      → cp_values cs ≡ cps_of bs
      → text_of (fallback_ids (index_keys vocab.tokens 0 []) cs) ≡ bs
  unfolding text_of decode fallback_ids
  text_of-fallback_ids [] [] h e = refl
  text_of-fallback_ids [] (b ∷ bs) h e = ground arith
  text_of-fallback_ids (c ∷ cs) [] h e = ground arith
  text_of-fallback_ids (c ∷ cs) (b ∷ bs) (hb, hs) e =
      let (id, found) = complete b hb in
      let here : c.cp ≡ byte_symbol build_byte_unicode b = ground arith in
      let found' : lookup (utf8_bytes c.cp) (index_keys vocab.tokens 0 []) ≡ some id =
        rw here found in
      rw (found', fallback_ids, decode_token _ id found, decode_single b hb)
        (ap (◌∷◌ b) (text_of-fallback_ids cs bs hs (ground arith)))

  text_of-symbol_ids :
      (chunks : List Bytes)
      → All (All IsByte) chunks
      → text_of (symbol_ids (index_keys vocab.tokens 0 []) (map spell chunks)) ≡ flatten chunks
  unfolding symbol_ids flatten
  text_of-symbol_ids [] h = unfold text_of decode in refl
  text_of-symbol_ids (c ∷ cs) (hc, hs) =
      let ids = index_keys vocab.tokens 0 [] in
      elim (Option-cases (lookup (spell c) ids)) [
        | inl missing ↦
            rw (missing, text_of-append)
              (ap₂ ◌++◌ (text_of-fallback_ids _ c hc (cp_values-spell c hc))
                (text_of-symbol_ids cs hs))
        | inr (id, found) ↦
            rw (found, text_of-append)
              (ap₂ ◌++◌ (text_of_one id ∙ decode_token _ id found ∙ decode-spell c hc)
                (text_of-symbol_ids cs hs))
      ]

  -- A piece is encoded without loss, whichever merges apply and whichever symbols have no token.
  pub text_of-bpe_encode_piece :
      (piece : Bytes) → All IsByte piece → text_of (bpe_encode_piece (make vocab) piece) ≡ piece
  unfolding bpe_encode_piece make
  text_of-bpe_encode_piece piece h =
      let singles = map (λ b. b ∷ []) piece in
      let symbols = byte_symbols build_byte_unicode piece in
      let (chunks, same, flat) =
        merge_loop-spell (length symbols) (index_keys vocab.merges 0 []) singles in
      let whole : flatten chunks ≡ piece = flat ∙ flatten_singles piece in
      ap
        (λ s. text_of (
          symbol_ids (index_keys vocab.tokens 0 [])
            (merge_loop (length symbols) (index_keys vocab.merges 0 []) s)))
        (byte_symbols-spell piece)
      ∙ ap (λ s. text_of (symbol_ids (index_keys vocab.tokens 0 []) s)) same
      ∙ text_of-symbol_ids chunks (All-flatten chunks (rw whole h))
      ∙ whole

  whole_symbol-spell :
      (acc piece : Bytes) → whole_symbol build_byte_unicode acc piece ≡ acc ++ spell piece
  unfolding whole_symbol utf8_append spell encode_all
  whole_symbol-spell acc [] = sym (append-nil acc)
  whole_symbol-spell acc (b ∷ piece) =
      whole_symbol-spell (acc ++ utf8_bytes (byte_symbol build_byte_unicode b)) piece
      ∙ append_assoc acc _ _

  -- With `ignore_merges` or without, and whether the whole piece has a token or not.
  text_of-encode_piece :
      (piece : Bytes) → All IsByte piece → text_of (encode_piece (make vocab) piece) ≡ piece
  unfolding encode_piece make
  text_of-encode_piece piece h = choose (is_llama3 (pre_of vocab.pre))
    where
      whole : Bytes
      whole = whole_symbol build_byte_unicode [] piece

      token :
          (id : ℕ)
          → lookup whole (index_keys vocab.tokens 0 []) ≡ some id
          → text_of (id ∷ []) ≡ piece
      token id found =
          text_of_one id
          ∙ decode_token whole id found
          ∙ ap (λ s. unmap build_byte_unicode (utf8_decode s)) (whole_symbol-spell [] piece)
          ∙ decode-spell piece h

      pick :
          (o : Option ℕ)
          → lookup whole (index_keys vocab.tokens 0 []) ≡ o
          → text_of (elim o [ some id ↦ id ∷ [] | none ↦ bpe_encode_piece (make vocab) piece ])
            ≡ piece
      pick none e = text_of-bpe_encode_piece piece h
      pick (some id) e = token id e

      choose :
          (b : Bool)
          → text_of (
              if b
              then elim (lookup whole (index_keys vocab.tokens 0 [])) [
                | some id ↦ id ∷ []
                | none ↦ bpe_encode_piece (make vocab) piece
              ]
              else bpe_encode_piece (make vocab) piece)
            ≡ piece
      choose true = pick (lookup whole (index_keys vocab.tokens 0 [])) refl
      choose false = text_of-bpe_encode_piece piece h

  text_of-encode_pieces :
      (pieces : List Bytes)
      → All (All IsByte) pieces
      → text_of (encode_pieces (make vocab) pieces) ≡ flatten pieces
  unfolding encode_pieces flatten
  text_of-encode_pieces [] h = unfold text_of decode in refl
  text_of-encode_pieces (p ∷ ps) (hp, hs) =
      rw text_of-append (ap₂ ◌++◌ (text_of-encode_piece p hp) (text_of-encode_pieces ps hs))

  text_of-flush :
      (text : Bytes) (from to : ℕ)
      → All IsByte text
      → text_of (flush (make vocab) text from to) ≡ take (to - from) (drop from text)
  unfolding flush
  text_of-flush text from to h = elim (Bool-cases (leb to from)) [
    | inl empty ↦
        let e : to - from ≡ 0 = ground arith in rw (empty, e) (unfold text_of decode in refl)
    | inr some_text ↦
        let part = take (to - from) (drop from text) in
        let pieces = pretokenize (make vocab).pre part in
        let whole : flatten pieces ≡ part = flatten-pretokenize (make vocab).pre part in
        let bytes = All-take IsByte (to - from) _ (All-drop IsByte from text h) in
        rw some_text (text_of-encode_pieces pieces (All-flatten pieces (rw whole bytes)) ∙ whole)
  ]

  -- What follows holds where each special token decodes to its own text, as one of printable ASCII
  -- characters does.
  module _
      (plain : (x : Bytes × ℕ)
        → Member x (specials vocab)
        → decode_one (make vocab) (pos x.1) ≡ x.0) where
    text_of_special :
        (rest : Bytes) (len id : ℕ)
        → IsLongest (specials vocab) rest len id
        → (decode_one (make vocab) (pos id) ≡ take len rest) × (0 < len)
    text_of_special rest len id t = (
      plain (t.token, id) t.member
          ∙ sym (take_of_begins_with t.token rest t.stands)
          ∙ ap (λ (k : ℕ). take k rest) (sym t.is_length),
      omega (arith, t.is_length, special_pos vocab (t.token, id) t.member),
    )

    text_of_rest :
        (run : ℕ) (text : Bytes)
        → All IsByte text
        → text_of (flush (make vocab) text run (length text)) ≡ drop run text
    text_of_rest run text h =
        text_of-flush text run (length text) h
        ∙ take_all (length text - run) (drop run text) (omega (arith, length-drop {0} run text))

    -- The plain run, the special token and the rest of the text, joined.
    text_of_found :
        (i run len id : ℕ) (rest : List ℕ) (text : Bytes)
        → All IsByte text
        → run ≤ i
        → decode_one (make vocab) (pos id) ≡ take len (drop i text)
        → text_of rest ≡ drop (i + len) text
        → text_of (flush (make vocab) text run i ++ (id ∷ rest)) ≡ drop run text
    text_of_found i run len id rest text h le token later =
        let step : i + len - i ≡ len = omega arith in
        let tail : take len (drop i text) ++ drop (i + len) text ≡ drop i text =
          rw step at (cut_at i (i + len) text (omega arith)) in
        text_of-append (flush (make vocab) text run i) (id ∷ rest)
        ∙ ap₂ ◌++◌ (text_of-flush text run i h)
            (text_of-append (id ∷ []) rest ∙ ap₂ ◌++◌ (text_of_one id ∙ token) later ∙ tail)
        ∙ cut_at run i text le

    -- The loop at `i` with a plain run since `run`: what is still to come is the text from `run` on.
    text_of-encode_loop :
        (fuel i run : ℕ) (text : Bytes)
        → All IsByte text
        → run ≤ i
        → length text ≤ i + fuel
        → text_of (encode_loop (make vocab) fuel text i run) ≡ drop run text
    unfolding encode_loop
    text_of-encode_loop zero i run text h le fit = text_of_rest run text h
    text_of-encode_loop (suc fuel) i run text h le fit = elim (Bool-cases (ltb i (length text))) [
      | inr done ↦ rw (done, encode_loop) (text_of_rest run text h)
      | inl more ↦ elim (match_special_correct vocab (drop i text)) [
        | inl (e, _) ↦
            rw (more, e, encode_loop)
              (text_of-encode_loop fuel (i + 1) run text h (omega arith) (omega arith))
        | inr (len, id, e, t) ↦
            let (token, positive) = text_of_special (drop i text) len id t in
            rw (more, e, encode_loop)
              (text_of_found i run len id _ text h le token
                (text_of-encode_loop fuel (i + len) (i + len) text h (omega arith) (omega arith)))
      ]
    ]

    -- For a vocabulary with a token for every byte, decoding what `encode` returns for any byte
    -- string gives the string back, with special tokens recognised or not, for each pre-tokenizer
    -- and merge table, if no BOS is added and every special token decodes to its own text.
    pub decode-encode :
        (text : Bytes) (parse_special : Bool)
        → All IsByte text
        → decode (make vocab) (map pos (encode (make vocab) text false parse_special)) ≡ text
    unfolding text_of encode bos_prefix
    decode-encode text true h =
        text_of-encode_loop (length text) 0 0 text h (omega arith) (omega arith)
    decode-encode text false h = text_of_rest 0 text h
