-- ===== src/Prelude/Text.antt =====
-- Byte strings, with the members of `std::string` that the program calls. A position is a number,
-- and `npos` is `none`. `substr` past the end throws in C++; every caller keeps inside.
use Prim.Native.Char.{code}
use Prim.Native.Nat.{ℕ, suc}
use Prim.Native.String.{String}
use mathlib.Core.Bool.{Bool, true, false, ◌&&◌}
use mathlib.Core.List.{List, [], ◌∷◌, ◌++◌}
use mathlib.Core.Logic.{◌↔◌}
use mathlib.Core.Option.{Option, none, some}
use mathlib.Core.Path.{◌≡◌, refl}
use native.Mathlib.Omega.{arith}
use questwend.Prelude.Lists.{length, take, drop}
use questwend.Prelude.Tests.{◌==◌, ltb, if◌then◌else◌}

abbrev pub Bytes : Type 0
Bytes = List ℕ

-- The bytes of an ASCII literal.
abbrev pub codes : String → Bytes
codes String.[] = []
codes (String.◌∷◌ c s) = code c ∷ codes s

unfoldable pub bytes_eq : Bytes → Bytes → Bool
bytes_eq [] [] = true
bytes_eq [] (y ∷ ys) = false
bytes_eq (x ∷ xs) [] = false
bytes_eq (x ∷ xs) (y ∷ ys) = (x == y) && bytes_eq xs ys

pub bytes_eq_refl : (xs : Bytes) → bytes_eq xs xs ≡ true
unfolding bytes_eq
bytes_eq_refl [] = refl
bytes_eq_refl (x ∷ xs) = ground (arith, bytes_eq_refl xs)

pub eq_of_bytes_eq : (xs ys : Bytes) → bytes_eq xs ys ≡ true → xs ≡ ys
unfolding bytes_eq
eq_of_bytes_eq [] [] h = refl
eq_of_bytes_eq [] (y ∷ ys) h = ground arith
eq_of_bytes_eq (x ∷ xs) [] h = ground arith
eq_of_bytes_eq (x ∷ xs) (y ∷ ys) h = ground (arith, eq_of_bytes_eq xs ys)

pub bytes_eq_iff : (xs ys : Bytes) → (bytes_eq xs ys ≡ true) ↔ (xs ≡ ys)
bytes_eq_iff xs ys = (eq_of_bytes_eq xs ys, λ e. rw e (bytes_eq_refl ys))

-- `compare(0, p.size(), p) == 0`: does the text begin with `p`?
unfoldable pub begins_with : Bytes → Bytes → Bool
begins_with [] s = true
begins_with (p ∷ ps) [] = false
begins_with (p ∷ ps) (c ∷ s) = (p == c) && begins_with ps s

pub begins_with-split : (p s : Bytes) → begins_with p s ≡ true → p ++ drop (length p) s ≡ s
unfolding begins_with
begins_with-split [] s h = refl
begins_with-split (p ∷ ps) [] h = ground arith
begins_with-split (p ∷ ps) (c ∷ s) h = ground (arith, begins_with-split ps s)

-- The first place, counted on from `i`, at which the needle stands in the rest of the text.
unfoldable pub find_in : Bytes → Bytes → ℕ → Option ℕ
find_in needle [] i = if begins_with needle [] then some i else none
find_in needle (c ∷ s) i =
    let later = find_in needle s (suc i) in if begins_with needle (c ∷ s) then some i else later

-- `s.find(needle, pos)`
unfoldable pub find : Bytes → Bytes → ℕ → Option ℕ
unfolding find_in begins_with
find s needle pos = if ltb (length s) pos then none else find_in needle (drop pos s) pos

-- `s.substr(pos, len)`
abbrev pub substr : Bytes → ℕ → ℕ → Bytes
substr s pos len = take len (drop pos s)
