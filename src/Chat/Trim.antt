-- ===== src/Chat/Trim.antt =====
-- core/chat.cpp: the string helpers at the top of the file and the `pop_back` and `erase` loops.
use questwend.Prelude.{
  ℕ, zero, suc, ◌+◌, ◌-◌, ◌/◌, ◌%◌, [], ◌∷◌, Bytes, Bool, ◌&&◌, ◌||◌, Option, none, some, ltb, leb,
  ◌==◌, if◌then◌else◌, length, take, drop, get_or, bytes_eq, begins_with,
}

unfoldable pub is_ws : ℕ → Bool
is_ws c = c == 0x20 || c == 0x09 || c == 0x0A || c == 0x0D

-- `while (i < s.size() && p(s[i])) ++i; return s.substr(i);`
unfoldable pub drop_while : (ℕ → Bool) → Bytes → Bytes
drop_while p [] = []
drop_while p (c ∷ s) = let rest = drop_while p s in if p c then rest else c ∷ s

-- `while (e > 0 && p(s[e - 1])) --e;`
unfoldable pub end_without : (ℕ → Bool) → Bytes → ℕ → ℕ
end_without p s zero = zero
end_without p s (suc e) = let rest = end_without p s e in if p (get_or s e 0) then rest else suc e

unfoldable pub drop_end : (ℕ → Bool) → Bytes → Bytes
unfolding end_without
drop_end p s = take (end_without p s (length s)) s

unfoldable pub ltrim_ws : Bytes → Bytes
unfolding drop_while is_ws
ltrim_ws s = drop_while is_ws s

unfoldable pub rtrim_ws : Bytes → Bytes
unfolding drop_end is_ws
rtrim_ws s = drop_end is_ws s

unfoldable pub trim_ws : Bytes → Bytes
unfolding ltrim_ws rtrim_ws
trim_ws s = rtrim_ws (ltrim_ws s)

unfoldable pub ends_with : Bytes → Bytes → Bool
unfolding bytes_eq
ends_with s p = leb (length p) (length s) && bytes_eq (drop (length s - length p) s) p

-- `c == '\n'`
abbrev pub is_newline : ℕ → Bool
is_newline c = c == 0x0A

-- The last place, counted on from `i`, at which the needle stands.
unfoldable pub rfind_in : Bytes → Bytes → ℕ → Option ℕ
unfolding begins_with
rfind_in needle [] i = if begins_with needle [] then some i else none
rfind_in needle (c ∷ s) i = elim (rfind_in needle s (suc i)) [
  | some j ↦ some j
  | none ↦ if begins_with needle (c ∷ s) then some i else none
]

-- `s.rfind(needle)`
unfoldable pub rfind : Bytes → Bytes → Option ℕ
unfolding rfind_in
rfind s needle = rfind_in needle s 0

-- The decimal digits of a number, before those in `acc`; a digit is taken off in each round.
unfoldable pub digits : ℕ → ℕ → Bytes → Bytes
digits zero n acc = acc
digits (suc fuel) n acc =
    let rest = digits fuel (n / 10) ((0x30 + n % 10) ∷ acc) in
    if ltb n 10 then (0x30 + n) ∷ acc else rest

-- `std::to_string`
unfoldable pub to_string : ℕ → Bytes
unfolding digits
to_string n = digits (n + 1) n []
