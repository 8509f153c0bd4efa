-- ===== src/Server/Router/Find.antt =====
-- Where a marker stands in a text.
use questwend.Prelude.{
  ℕ, zero, suc, ◌+◌, ◌-◌, ◌<◌, ◌≡◌, refl, [], ◌∷◌, ◌++◌, Bytes, true, false, ◌==◌, none, some, drop,
  begins_with, find, find_in, arith, Bool-cases, inl, inr,
}

-- The marker stands nowhere in the text before place `bound`.
abbrev pub IsAbsentBelow : Bytes → Bytes → ℕ → Type 0
IsAbsentBelow marker text bound = (p : ℕ) → p < bound → begins_with marker (drop p text) ≡ false

abbrev pub IsAbsent : Bytes → Bytes → Type 0
IsAbsent marker text = (p : ℕ) → begins_with marker (drop p text) ≡ false

pub begins_with-append :
    (marker s later : Bytes) → begins_with marker s ≡ true → begins_with marker (s ++ later) ≡ true
unfolding begins_with
begins_with-append [] s later h = refl
begins_with-append (m ∷ marker) [] later h = ground arith
begins_with-append (m ∷ marker) (c ∷ s) later h = ground (arith, begins_with-append marker s later)

-- What `find_in` says, with places counted from `i`.
find_in-none : (marker s : Bytes) (i : ℕ) → find_in marker s i ≡ none → IsAbsent marker s
unfolding find_in
find_in-none marker [] i h zero = ground arith
find_in-none marker [] i h (suc p) = ground arith
find_in-none marker (c ∷ s) i h zero = ground arith
find_in-none marker (c ∷ s) i h (suc p) = find_in-none marker s (suc i) (ground arith) p

find_in-some :
    (marker s : Bytes) (i q : ℕ)
    → find_in marker s i ≡ some q
    → (p : ℕ) × (q ≡ p + i) × (begins_with marker (drop p s) ≡ true) × IsAbsentBelow marker s p
unfolding find_in
find_in-some marker [] i q h = (0, ground arith, ground arith, λ p lt. absurd (omega arith))
find_in-some marker (c ∷ s) i q h = elim (Bool-cases (begins_with marker (c ∷ s))) [
  | inl here ↦ (0, ground arith, here, λ p lt. absurd (omega arith))
  | inr not_here ↦
      let (p, at, found, first) = find_in-some marker s (suc i) q (ground arith) in
      (
        suc p,
        omega arith,
        found,
        λ r lt. elim (Bool-cases (r == 0)) [
          | inl front ↦ let e : r ≡ 0 = ground arith in rw e not_here
          | inr later ↦
              let e : r ≡ suc (r - 1) = ground arith in rw e (first (r - 1) (ground arith))
        ],
      )
]

pub find-none : (marker s : Bytes) → find s marker 0 ≡ none → IsAbsent marker s
unfolding find
find-none marker s h = find_in-none marker s 0 (ground arith)

pub find-some :
    (marker s : Bytes) (p : ℕ)
    → find s marker 0 ≡ some p
    → (begins_with marker (drop p s) ≡ true) × IsAbsentBelow marker s p
unfolding find
find-some marker s p h =
    let (q, at, found, first) = find_in-some marker s 0 p (ground arith) in
    let e : p ≡ q = omega arith in rw e (found, first)

-- The same from a place on.
pub find-from :
    (marker s : Bytes) (a b : ℕ)
    → find s marker a ≡ some b
    → (p : ℕ) × (b ≡ p + a)
      × (begins_with marker (drop p (drop a s)) ≡ true)
      × IsAbsentBelow marker (drop a s) p
unfolding find
find-from marker s a b h = find_in-some marker (drop a s) a b (ground arith)
