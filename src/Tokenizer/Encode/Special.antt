-- ===== src/Tokenizer/Encode/Special.antt =====
-- The special tokens: what the constructor's table holds, and what `match_special` finds.
use questwend.Prelude.{
  ℕ, ◌+◌, ◌≤◌, ◌<◌, ◌≡◌, refl, ap, List, [], ◌∷◌, Bytes, Bool, true, false, none, some, ltb, ltb→lt,
  sym, Option-cases, ◌==◌, ◌||◌, if◌then◌else◌, length, take, begins_with, Member, arith,
  Bool-cases, ◌⊎◌, inl, inr,
}
use questwend.Tokenizer.Bpe.{
  Vocab, make, special_tokens, first_bytes, insert_by_length, sort_by_length,
}
use questwend.Tokenizer.Encode.{is_first, first_special, match_special}

pub take_of_begins_with : (p s : Bytes) → begins_with p s ≡ true → take (length p) s ≡ p
unfolding begins_with
take_of_begins_with [] s h = refl
take_of_begins_with (p ∷ ps) [] h = ground arith
take_of_begins_with (p ∷ ps) (c ∷ s) h = ground (arith, take_of_begins_with ps s)

abbrev Token : Type 0
Token = Bytes × ℕ

Member-insert :
    (x e : Token) (es : List Token) → (x ≡ e) ⊎ Member x es → Member x (insert_by_length e es)
unfolding insert_by_length
Member-insert x e [] h = h
Member-insert x e (f ∷ fs) h = go (ltb (length f.0) (length e.0)) h (Member-insert x e fs)
  where
    go :
        (b : Bool)
        → (x ≡ e) ⊎ Member x (f ∷ fs)
        → ((x ≡ e) ⊎ Member x fs → Member x (insert_by_length e fs))
        → Member x (if b then e ∷ f ∷ fs else f ∷ insert_by_length e fs)
    go true h ih = h
    go false (inl here) ih = inr (ih (inl here))
    go false (inr (inl next)) ih = inl next
    go false (inr (inr later)) ih = inr (ih (inr later))

Member-of-insert :
    (x e : Token) (es : List Token) → Member x (insert_by_length e es) → (x ≡ e) ⊎ Member x es
unfolding insert_by_length
Member-of-insert x e [] h = h
Member-of-insert x e (f ∷ fs) h = go (ltb (length f.0) (length e.0)) h (Member-of-insert x e fs)
  where
    go :
        (b : Bool)
        → Member x (if b then e ∷ f ∷ fs else f ∷ insert_by_length e fs)
        → (Member x (insert_by_length e fs) → (x ≡ e) ⊎ Member x fs)
        → (x ≡ e) ⊎ Member x (f ∷ fs)
    go true h ih = h
    go false (inl next) ih = inr (inl next)
    go false (inr later) ih = elim (ih later) [ inl here ↦ inl here | inr more ↦ inr (inr more) ]

Member-sort : (x : Token) (es : List Token) → Member x es → Member x (sort_by_length es)
unfolding sort_by_length
Member-sort x [] h = h
Member-sort x (e ∷ es) (inl here) = Member-insert x e (sort_by_length es) (inl here)
Member-sort x (e ∷ es) (inr later) =
    Member-insert x e (sort_by_length es) (inr (Member-sort x es later))

Member-of-sort : (x : Token) (es : List Token) → Member x (sort_by_length es) → Member x es
unfolding sort_by_length
Member-of-sort x [] h = h
Member-of-sort x (e ∷ es) h = elim (Member-of-insert x e (sort_by_length es) h) [
  | inl here ↦ inl here
  | inr later ↦ inr (Member-of-sort x es later)
]

-- No token is longer than one before it.
abbrev IsSorted : List Token → Type 0
IsSorted [] = Unit
IsSorted (e ∷ es) = ((x : Token) → Member x es → length x.0 ≤ length e.0) × IsSorted es

length_of_eq : (x y : Token) → x ≡ y → length x.0 ≡ length y.0
length_of_eq x y e = ap (λ (t : Token). length t.0) e

insert_by_length-IsSorted :
    (e : Token) (es : List Token) → IsSorted es → IsSorted (insert_by_length e es)
unfolding insert_by_length
insert_by_length-IsSorted e [] h = (λ x m. absurd m, tt)
insert_by_length-IsSorted e (f ∷ fs) (top, h) = elim (Bool-cases (ltb (length f.0) (length e.0))) [
  | inl longer ↦ rw longer (under (ltb→lt _ _ longer), (top, h))
  | inr not_longer ↦
      rw not_longer (
        λ x m. beside (ground arith) x (Member-of-insert x e fs m),
        insert_by_length-IsSorted e fs h,
      )
]
  where
    under : length f.0 < length e.0 → (x : Token) → Member x (f ∷ fs) → length x.0 ≤ length e.0
    under longer x (inl here) = omega (arith, length_of_eq x f here)
    under longer x (inr later) = omega (arith, top x later)

    beside : length e.0 ≤ length f.0 → (x : Token) → (x ≡ e) ⊎ Member x fs → length x.0 ≤ length f.0
    beside h' x (inl here) = omega (arith, length_of_eq x e here)
    beside h' x (inr later) = top x later

sort_by_length-IsSorted : (es : List Token) → IsSorted (sort_by_length es)
unfolding sort_by_length
sort_by_length-IsSorted [] = tt
sort_by_length-IsSorted (e ∷ es) =
    insert_by_length-IsSorted e (sort_by_length es) (sort_by_length-IsSorted es)

-- The token found at the front is the longest that stands there.
pub record IsLongest (special : List Token) (rest : Bytes) (len id : ℕ) : Type 0 where
  pub token : Bytes
  pub member : Member (token, id) special
  pub stands : begins_with token rest ≡ true
  pub is_length : len ≡ length token
  pub longest : (x : Token) → Member x special → begins_with x.0 rest ≡ true → length x.0 ≤ len

-- No token stands at the front.
abbrev pub NoneStands : List Token → Bytes → Type 0
NoneStands special rest = (x : Token) → Member x special → begins_with x.0 rest ≡ false

first_special_found :
    (es : List Token) (rest : Bytes) (len id : ℕ)
    → IsSorted es
    → first_special es rest ≡ some (len, id)
    → IsLongest es rest len id
unfolding first_special
first_special_found [] rest len id s h = ground arith
first_special_found (e ∷ es) rest len id (top, s) h = elim (Bool-cases (begins_with e.0 rest)) [
  | inl here ↦
      let same : (length e.0 ≡ len) × (e.1 ≡ id) = ground arith in
      record {
        token = e.0;
        member = inl (λ i. (e.0, sym same.1 i));
        stands = here;
        is_length = sym same.0;
        longest = λ x m b. first x m same.0;
      }
  | inr absent ↦
      let t = first_special_found es rest len id s (ground arith) in
      record {
        token = t.token;
        member = inr t.member;
        stands = t.stands;
        is_length = t.is_length;
        longest = later t absent;
      }
]
  where
    first : (x : Token) → Member x (e ∷ es) → length e.0 ≡ len → length x.0 ≤ len
    first x (inl here) h' = omega (arith, length_of_eq x e here)
    first x (inr m) h' = omega (arith, top x m)

    later :
        IsLongest es rest len id
        → begins_with e.0 rest ≡ false
        → (x : Token) → Member x (e ∷ es)
        → begins_with x.0 rest ≡ true
        → length x.0 ≤ len
    later t absent x (inl here) b =
        absurd (ground (arith, ap (λ (t : Token). begins_with t.0 rest) here))
    later t absent x (inr m) b = t.longest x m b

first_special-none :
    (es : List Token) (rest : Bytes) → first_special es rest ≡ none → NoneStands es rest
unfolding first_special
first_special-none [] rest h x m = absurd m
first_special-none (e ∷ es) rest h x (inl here) =
    ground (arith, ap (λ (t : Token). begins_with t.0 rest) here)
first_special-none (e ∷ es) rest h x (inr m) = first_special-none es rest (ground arith) x m

special_tokens-pos :
    (toks : List Bytes) (types : List ℕ) (i : ℕ) (x : Token)
    → Member x (special_tokens toks types i)
    → 0 < length x.0
unfolding special_tokens
special_tokens-pos [] types i x m = absurd m
special_tokens-pos (tok ∷ toks) [] i x m = absurd m
special_tokens-pos ([] ∷ toks) (t ∷ types) i x m = special_tokens-pos toks types (i + 1) x m
special_tokens-pos ((c ∷ cs) ∷ toks) (t ∷ types) i x m =
    go (t == 3 || t == 4) m (special_tokens-pos toks types (i + 1) x)
  where
    go :
        (b : Bool)
        → Member x (
            if b
            then (c ∷ cs, i) ∷ special_tokens toks types (i + 1)
            else special_tokens toks types (i + 1))
        → (Member x (special_tokens toks types (i + 1)) → 0 < length x.0)
        → 0 < length x.0
    go true (inl here) ih = omega (arith, length_of_eq x (c ∷ cs, i) here)
    go true (inr later) ih = ih later
    go false later ih = ih later

is_first-first_bytes :
    (es : List Token) (x : Token) (c : ℕ) (rest : Bytes)
    → Member x es
    → 0 < length x.0
    → begins_with x.0 (c ∷ rest) ≡ true
    → is_first c (first_bytes es) ≡ true
unfolding is_first first_bytes begins_with
is_first-first_bytes [] x c rest m p b = absurd m
is_first-first_bytes (([], i) ∷ es) x c rest (inl here) p b =
    absurd (omega (arith, length_of_eq x ([], i) here))
is_first-first_bytes (([], i) ∷ es) x c rest (inr m) p b = is_first-first_bytes es x c rest m p b
is_first-first_bytes ((d ∷ ds, i) ∷ es) x c rest (inl here) p b =
    ground (arith, ap (λ (t : Token). begins_with t.0 (c ∷ rest)) here)
is_first-first_bytes ((d ∷ ds, i) ∷ es) x c rest (inr m) p b =
    ground (arith, is_first-first_bytes es x c rest m p b)

-- The special tokens of a vocabulary, in the order of their ids.
abbrev pub specials : Vocab → List Token
specials vocab = special_tokens vocab.tokens vocab.token_types 0

pub special_pos : (vocab : Vocab) (x : Token) → Member x (specials vocab) → 0 < length x.0
special_pos vocab x m = special_tokens-pos vocab.tokens vocab.token_types 0 x m

NoneStands-nil : (vocab : Vocab) → NoneStands (specials vocab) []
unfolding begins_with
NoneStands-nil vocab ([], i) m = absurd (omega (arith, special_pos vocab ([], i) m))
NoneStands-nil vocab (c ∷ cs, i) m = refl

-- The table of first bytes hides no token, and the sorted table holds the same tokens.
NoneStands-unmarked :
    (vocab : Vocab) (c : ℕ) (rest : Bytes)
    → is_first c (first_bytes (specials vocab)) ≡ false
    → NoneStands (specials vocab) (c ∷ rest)
NoneStands-unmarked vocab c rest h x m = elim (Bool-cases (begins_with x.0 (c ∷ rest))) [
  | inl stands ↦ absurd (
      ground
        (arith, is_first-first_bytes (specials vocab) x c rest m (special_pos vocab x m) stands))
  | inr absent ↦ absent
]

IsLongest-of-sort :
    (es : List Token) (rest : Bytes) (len id : ℕ)
    → IsLongest (sort_by_length es) rest len id
    → IsLongest es rest len id
IsLongest-of-sort es rest len id t = record {
  token = t.token;
  member = Member-of-sort _ es t.member;
  stands = t.stands;
  is_length = t.is_length;
  longest = λ x m b. t.longest x (Member-sort x es m) b;
}

-- At every place of a text `match_special` either finds the longest special token of the vocabulary
-- that stands there, with its length and id, or finds none because none stands there.
pub match_special_correct :
    (vocab : Vocab) (rest : Bytes)
    → (match_special (make vocab) rest ≡ none) × NoneStands (specials vocab) rest
      ⊎ ((len : ℕ) × (id : ℕ) × (match_special (make vocab) rest ≡ some (len, id))
          × IsLongest (specials vocab) rest len id)
unfolding match_special make
match_special_correct vocab [] = inl (refl, NoneStands-nil vocab)
match_special_correct vocab (c ∷ rest) =
    let es = specials vocab in
    elim (Bool-cases (is_first c (first_bytes es))) [
      | inr unmarked ↦ rw unmarked (inl (refl, NoneStands-unmarked vocab c rest unmarked))
      | inl marked ↦ elim (Option-cases (first_special (sort_by_length es) (c ∷ rest))) [
        | inl missing ↦
            rw (marked, missing)
              (inl (
                refl,
                λ x m.
                    first_special-none (sort_by_length es) (c ∷ rest) missing x
                      (Member-sort x es m),
              ))
        | inr ((len, id), found) ↦
            rw (marked, found)
              (inr (
                len,
                id,
                refl,
                IsLongest-of-sort es (c ∷ rest) len id (
                    first_special_found (sort_by_length es) (c ∷ rest) len id
                      (sort_by_length-IsSorted es) found),
              ))
      ]
    ]
