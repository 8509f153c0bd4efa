-- ===== src/Server/ToolCalls/Reader.antt =====
-- server/main.cpp, `PyReader`: the tool calls of lfm2. `i` is the text that is left. A reader gives its
-- result, or none where the source returns false, and the text that is left in both cases.
use questwend.Prelude.{
  ℕ, zero, suc, [], ◌∷◌, Bytes, codes, Bool, true, false, ◌&&◌, ◌||◌, not, Option, none, some, leb,
  ◌==◌, if◌then◌else◌, bytes_eq,
}
use questwend.Chat.Trim.{is_ws, drop_while}
use questwend.Server.ToolCalls.{Json}

unfoldable pub ws : Bytes → Bytes
ws s = drop_while is_ws s

-- `eat(c)`
unfoldable pub eat : ℕ → Bytes → Bool × Bytes
eat c s = elim (ws s) [
  | [] ↦ (false, [])
  | x ∷ rest ↦ if x == c then (true, rest) else (false, x ∷ rest)
]

-- `isalnum(c) || c == '_' || c == '.' || c == '-'`
abbrev is_ident : ℕ → Bool
is_ident c =
    (leb 0x30 c && leb c 0x39)
    || ((leb 0x41 c && leb c 0x5A)
        || ((leb 0x61 c && leb c 0x7A) || (c == 0x5F || (c == 0x2E || c == 0x2D))))

unfoldable pub ident_span : Bytes → Bytes × Bytes
ident_span [] = ([], [])
ident_span (c ∷ s) =
    let (word, rest) = ident_span s in if is_ident c then (c ∷ word, rest) else ([], c ∷ s)

unfoldable pub ident : Bytes → Option Bytes × Bytes
ident s =
    let (word, rest) = ident_span (ws s) in (elim word [ [] ↦ none | c ∷ cs ↦ some (c ∷ cs) ], rest)

unfoldable pub unescape : ℕ → ℕ
unescape e = if e == 0x6E then 0x0A else if e == 0x74 then 0x09 else if e == 0x72 then 0x0D else e

-- `out += c`, in front of what the rest of the loop adds.
unfoldable pub prepend : ℕ → Option Bytes × Bytes → Option Bytes × Bytes
prepend c (none, left) = (none, left)
prepend c (some t, left) = (some (c ∷ t), left)

-- The loop of `str`, and the `eat(q)` behind it.
unfoldable pub str_body : ℕ → Bytes → Option Bytes × Bytes
str_body q [] = (none, [])
str_body q (c ∷ []) = if c == q then (some [], []) else (none, [])
str_body q (c ∷ e ∷ s) = elim (c == q) [
  | true ↦ (some [], e ∷ s)
  | false ↦ elim (c == 0x5C) [
    | true ↦ prepend (unescape e) (str_body q s)
    | false ↦ prepend c (str_body q (e ∷ s))
  ]
]

unfoldable pub str : Bytes → Option Bytes × Bytes
str s = elim (ws s) [
  | [] ↦ (none, [])
  | q ∷ rest ↦ if q == 0x27 || q == 0x22 then str_body q rest else (none, q ∷ rest)
]

module _ (json : Json) where
  open json use {
    J, of_string, of_bool, null, empty_array, push_back, empty_object, set_key, get_string,
    is_string, is_number, parse, dump,
  }

  -- A word that is no string, list or dict.
  unfoldable pub word_value : Bytes → Option J
  word_value t =
      if bytes_eq t (codes "True")
      then some (of_bool true)
      else if bytes_eq t (codes "False")
      then some (of_bool false)
      else if bytes_eq t (codes "None")
      then some null
      else elim (parse t) [ none ↦ none | some v ↦ if is_number v then some v else none ]

  -- `value`, and its loops over the elements of a list and the entries of a dict.
  unfoldable mutual
    pub value : ℕ → Bytes → Option J × Bytes
    value zero s = (none, s)
    value (suc fuel) s = elim (ws s) [
      | [] ↦ (none, [])
      | c ∷ rest ↦
          let (text, left_text) = str (c ∷ rest) in
          let (no_elements, left_open) = eat 0x5D rest in
          let (no_entries, left_brace) = eat 0x7D rest in
          let (word, left_word) = ident (c ∷ rest) in
          let list = elements fuel left_open empty_array in
          let dict = entries fuel left_brace empty_object in
          if c == 0x27 || c == 0x22
          then (elim text [ none ↦ none | some t ↦ some (of_string t) ], left_text)
          else if c == 0x5B
          then (if no_elements then (some empty_array, left_open) else list)
          else if c == 0x7B
          then (if no_entries then (some empty_object, left_brace) else dict)
          else (elim word [ none ↦ none | some t ↦ word_value t ], left_word)
    ]

    pub elements : ℕ → Bytes → J → Option J × Bytes
    elements zero s v = (none, s)
    elements (suc fuel) s v = elim (value fuel s).0 [
      | none ↦ (none, (value fuel s).1)
      | some e ↦
          let (more, left_more) = eat 0x2C (value fuel s).1 in
          let (closed, left_closed) = eat 0x5D left_more in
          let rest = elements fuel left_more (push_back v e) in
          if more
          then rest
          else if closed
          then (some (push_back v e), left_closed)
          else (none, left_closed)
    ]

    pub entries : ℕ → Bytes → J → Option J × Bytes
    entries zero s v = (none, s)
    entries (suc fuel) s v = elim (value fuel s).0 [
      | none ↦ (none, (value fuel s).1)
      | some k ↦
          let (colon, left_key) = eat 0x3A (value fuel s).1 in
          let (e, left) = value fuel left_key in
          let (more, left_more) = eat 0x2C left in
          let (closed, left_closed) = eat 0x7D left_more in
          if not (is_string k)
          then (none, (value fuel s).1)
          else if not colon
          then (none, left_key)
          else elim e [
            | none ↦ (none, left)
            | some x ↦
                let v1 = set_key v (get_string k) x in
                let rest = entries fuel left_more v1 in
                if more
                then rest
                else if closed
                then (some v1, left_closed)
                else (none, left_closed)
          ]
    ]
