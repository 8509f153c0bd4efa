-- ===== src/Chat/Growth/Turns.antt =====
-- A turn of the assistant after the messages leaves their tokens as they were.
pub mod Stable
use questwend.Prelude.{
  ℕ, zero, suc, ◌+◌, ◌-◌, ◌<◌, ◌≡◌, refl, sym, ap, ap₂, ◌∙◌, List, [], ◌∷◌, ◌++◌, Bytes, Bool, true,
  false, ◌&&◌, ◌||◌, not, Option, none, some, if◌then◌else◌, length, length-append, get_elem?, drop,
  Bool-cases, inl, inr, arith, codes, bytes_eq, ltb,
}
use questwend.Prelude.Int.{ℤ}
use questwend.Tokenizer.Bpe.{Tokenizer}
use questwend.Chat.{ChatError, ChatMessage, ChatPrompt, ChatPromptOptions, Result, ok, err, ◌>>=◌}
use questwend.Chat.Content.{VisionIds}
use questwend.Chat.Emit.{emit_text, has_image, flat_text}
use questwend.Chat.Lfm2.{CallMarks, any_has_image, last_user, lfm2_loop, after_user, emit_lfm2_turn}
use questwend.Chat.Qwen.Header.{system_of, msg_begin, plain_loop}
use questwend.Chat.Qwen.Turns.{
  Marks, has_role, is_query, query_step, query_loop, last_query_index, Turn, turn_of, TurnOptions,
  message_turn, head_is_tool, turn_loop, emit_assistant,
}

-- One of the messages is a query.
abbrev pub HasQuery : List ChatMessage → Type 0
HasQuery ms =
    (i : ℕ) × (m : ChatMessage) × (i < length ms) × (get_elem? ms i ≡ some m) × (is_query m ≡ true)

pub length-snoc {ℓ} : {A : Type ℓ} (xs : List A) (x : A) → length (xs ++ x ∷ []) ≡ suc (length xs)
length-snoc [] x = refl
length-snoc (y ∷ xs) x = ap suc (length-snoc xs x)

get_elem?-snoc {ℓ} :
    {A : Type ℓ} (xs : List A) (x : A) (i : ℕ)
    → i < length xs
    → get_elem? (xs ++ x ∷ []) i ≡ get_elem? xs i
get_elem?-snoc [] x i h = absurd (omega arith)
get_elem?-snoc (y ∷ xs) x zero h = refl
get_elem?-snoc (y ∷ xs) x (suc i) h = get_elem?-snoc xs x i (omega arith)

get_elem?-snoc_last {ℓ} :
    {A : Type ℓ} (xs : List A) (x : A) → get_elem? (xs ++ x ∷ []) (length xs) ≡ some x
get_elem?-snoc_last [] x = refl
get_elem?-snoc_last (y ∷ xs) x = get_elem?-snoc_last xs x

-- The start value is not used if there is a query below.
query_loop_found :
    (ms : List ChatMessage) (a b n i : ℕ) (q : ChatMessage)
    → i < n
    → get_elem? ms i ≡ some q
    → is_query q ≡ true
    → query_loop ms a n ≡ query_loop ms b n
unfolding query_loop
query_loop_found ms a b zero i q low here found = absurd (omega arith)
query_loop_found ms a b (suc n) i q low here found = elim (Bool-cases (ltb i n)) [
  | inl below ↦
      ap (query_step (get_elem? ms n) n) (query_loop_found ms a b n i q (ground arith) here found)
  | inr above ↦
      let last : n ≡ i = ground arith in
      let at_last : get_elem? ms n ≡ some q = ap (get_elem? ms) last ∙ here in
      unfold query_step in rw (at_last, found) refl
]

query_loop-snoc :
    (ms : List ChatMessage) (m : ChatMessage) (a n : ℕ)
    → n < length ms + 1
    → query_loop (ms ++ m ∷ []) a n ≡ query_loop ms a n
unfolding query_loop
query_loop-snoc ms m a zero h = refl
query_loop-snoc ms m a (suc n) h =
    ap₂ (λ (o : Option ChatMessage) (r : ℕ). query_step o n r) (get_elem?-snoc ms m n (omega arith))
      (query_loop-snoc ms m a n (omega arith))

pub last_query_index-snoc :
    (ms : List ChatMessage) (m : ChatMessage)
    → HasQuery ms
    → is_query m ≡ false
    → last_query_index (ms ++ m ∷ []) ≡ last_query_index ms
unfolding last_query_index query_loop query_step
last_query_index-snoc ms m (i, q, low, here, found) other =
    let n = length ms in
    let top : query_loop (ms ++ m ∷ []) (suc n - 1) (suc n)
        ≡ query_loop (ms ++ m ∷ []) (suc n - 1) n =
      rw (query_loop, get_elem?-snoc_last ms m, other) refl in
    rw (length-snoc ms m) (
      top
      ∙ query_loop-snoc ms m (suc n - 1) n (omega arith)
      ∙ query_loop_found ms (suc n - 1) (n - 1) n i q low here found)

head_is_tool-snoc :
    (ms : List ChatMessage) (m : ChatMessage)
    → has_role m (codes "tool") ≡ false
    → head_is_tool (ms ++ m ∷ []) ≡ head_is_tool ms
unfolding head_is_tool
head_is_tool-snoc [] m h = h
head_is_tool-snoc (x ∷ ms) m h = refl

>>=_cong {ℓ κ} :
    {A : Type ℓ} {B : Type κ} (r : Result A) (f g : A → Result B)
    → ((a : A) → f a ≡ g a)
    → (r >>= f) ≡ (r >>= g)
>>=_cong (ok a) f g h = h a
>>=_cong (err e) f g h = refl

>>=_assoc {ℓ κ μ} :
    {A : Type ℓ} {B : Type κ} {C : Type μ} (r : Result A) (f : A → Result B) (g : B → Result C)
    → (r >>= λ a. f a >>= g) ≡ ((r >>= f) >>= g)
>>=_assoc (ok a) f g = refl
>>=_assoc (err e) f g = refl

-- The turn of a message after the others, which does not look ahead.
pub last_turn :
    Tokenizer
    → Marks
    → VisionIds
    → TurnOptions
    → ℕ
    → ℕ
    → Bool
    → List ChatMessage
    → ChatMessage
    → ChatPrompt × ℕ
    → Result (ChatPrompt × ℕ)
last_turn t k v o q i prev [] m s = message_turn t k v o (ltb q i) prev false m (turn_of m) s
last_turn t k v o q i prev (x ∷ ms) m s =
    last_turn t k v o q (i + 1) (has_role x (codes "tool")) ms m s

pub turn_loop-snoc :
    (t : Tokenizer) (k : Marks) (v : VisionIds) (o : TurnOptions) (q i : ℕ) (prev : Bool)
    (ms : List ChatMessage) (m : ChatMessage) (s : ChatPrompt × ℕ)
    → has_role m (codes "tool") ≡ false
    → turn_loop t k v o q i prev (ms ++ m ∷ []) s
      ≡ (turn_loop t k v o q i prev ms s >>= last_turn t k v o q i prev ms m)
unfolding turn_loop last_turn head_is_tool
turn_loop-snoc t k v o q i prev [] m s no_tool =
    go (message_turn t k v o (ltb q i) prev false m (turn_of m) s)
  where
    go : (r : Result (ChatPrompt × ℕ)) → (r >>= λ a. ok a) ≡ r
    go (ok a) = refl
    go (err e) = refl
turn_loop-snoc t k v o q i prev (x ∷ ms) m s no_tool = rw (head_is_tool-snoc ms m no_tool) (
    let first = message_turn t k v o (ltb q i) prev (head_is_tool ms) x (turn_of x) s in
    let tool = has_role x (codes "tool") in
    >>=_cong first _ _ (λ s'. turn_loop-snoc t k v o q (i + 1) tool ms m s' no_tool)
    ∙ >>=_assoc first (turn_loop t k v o q (i + 1) tool ms) (last_turn t k v o q (i + 1) tool ms m))
