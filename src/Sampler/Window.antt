-- ===== src/Sampler/Window.antt =====
-- The penalty window: the last tokens seen, and how often each is among them.
use questwend.Prelude.{
  ℕ, zero, suc, ◌+◌, ◌-◌, ◌≤◌, ◌<◌, ◌≡◌, refl, sym, ap, ◌∙◌, List, [], ◌∷◌, ◌++◌, append_assoc,
  append-nil, true, Option, none, some, ltb, min, if◌then◌else◌, length, length-append, length-drop,
  drop, drop_all, arith, Bool-cases, inl, inr,
}
use questwend.Prelude.Dict.{Dict, lookup, lookup-erase, lookup-insert}
use questwend.Prelude.Indexing.{drop-append, drop-drop}
use questwend.Prelude.Int.{ℤ, int_key, eq_ℤ, eq_ℤ_iff, pos_part}
use questwend.Sampler.{
  Floats, State, penalized, count_up, count_down, shrink, accept, accept_all, prime,
}

-- How often the token stands in the list.
abbrev pub occurrences : ℤ → List ℤ → ℕ
occurrences id [] = 0
occurrences id (x ∷ xs) = let rest = occurrences id xs in if eq_ℤ x id then suc rest else rest

-- The entry of a map that drops a count of 0.
abbrev nonzero : ℕ → Option ℕ
nonzero zero = none
nonzero (suc n) = some (suc n)

abbrev pub Counted : Dict ℤ ℕ → List ℤ → Type 0
Counted counts recent = (id : ℤ) → lookup id counts ≡ nonzero (occurrences id recent)

-- The last `n` entries.
abbrev pub last : ℕ → List ℤ → List ℤ
last n xs = drop (length xs - n) xs

occurrences-snoc :
    (id x : ℤ) (xs : List ℤ)
    → occurrences id (xs ++ x ∷ [])
      ≡ (if eq_ℤ x id then suc (occurrences id xs) else occurrences id xs)
occurrences-snoc id x [] = refl
occurrences-snoc id x (y ∷ xs) = ground (arith, occurrences-snoc id x xs)

drop-append_past {ℓ} :
    {A : Type ℓ} (xs ys : List A) (k : ℕ) → drop (length xs + k) (xs ++ ys) ≡ drop k ys
drop-append_past [] ys k = ap (λ (j : ℕ). drop j ys) {x = 0 + k} {y = k} (omega arith)
drop-append_past (x ∷ xs) ys k =
    let e : suc (length xs) + k ≡ suc (length xs + k) = omega arith in
    rw e (drop-append_past xs ys k)

-- What came before the last `n` does not matter when more is added.
last-append_last : (n : ℕ) (xs ys : List ℤ) → last n (last n xs ++ ys) ≡ last n (xs ++ ys)
last-append_last n xs ys =
    let a = length xs - n in
    let all = xs ++ ys in
    let joined : last n xs ++ ys ≡ drop a all = sym (drop-append a xs ys (omega arith)) in
    rw joined (
      drop-drop (length (drop a all) - n) a (length all - n) all
        (omega (arith, length-drop {0} a all, length-append {0} xs ys)))

last-append_prompt : (n : ℕ) (xs ys : List ℤ) → last n (xs ++ last n ys) ≡ last n (xs ++ ys)
last-append_prompt n xs ys = elim (Bool-cases (ltb (length ys) n)) [
  | inl short ↦
      let all : length ys - n ≡ 0 = omega (arith, (let h : length ys < n = ground arith in h)) in
      rw all refl
  | inr long ↦
      let low : n ≤ length ys = ground arith in
      let tail = last n ys in
      let size : length tail ≡ n = omega (arith, length-drop {0} (length ys - n) ys) in
      let one : length (xs ++ tail) - n ≡ length xs + 0 =
        omega (arith, length-append {0} xs tail) in
      let two : length (xs ++ ys) - n ≡ length xs + (length ys - n) =
        omega (arith, length-append {0} xs ys) in
      ap (λ (k : ℕ). drop k (xs ++ tail)) one
      ∙ drop-append_past xs tail 0
      ∙ sym (ap (λ (k : ℕ). drop k (xs ++ ys)) two ∙ drop-append_past xs ys (length ys - n))
]

module _ (fl : Floats) where
  count_up-Counted :
      (id : ℤ) (counts : Dict ℤ ℕ) (recent : List ℤ)
      → Counted counts recent
      → Counted (count_up fl id counts) (recent ++ id ∷ [])
  unfolding count_up
  count_up-Counted id counts recent ok j = ground (
    arith,
    lookup-insert j id (elim (lookup id counts) [ none ↦ 1 | some n ↦ n + 1 ]) counts,
    occurrences-snoc j id recent,
    ok j,
    ok id,
    eq_ℤ_iff id j,
  )

  count_down-Counted :
      (old : ℤ) (counts : Dict ℤ ℕ) (recent : List ℤ)
      → Counted counts (old ∷ recent)
      → Counted (count_down fl old counts) recent
  unfolding count_down
  count_down-Counted old counts recent ok j =
      let n = occurrences old recent in
      let held : lookup old counts ≡ some (suc n) =
        ok old ∙ (let self : eq_ℤ old old ≡ true = (eq_ℤ_iff old old).1 refl in rw self refl) in
      rw (count_down, held)
        (ground (
          arith,
          lookup-insert j old (suc n - 1) counts,
          lookup-erase j old counts,
          ok j,
          eq_ℤ_iff old j,
          (let same : old ≡ j → occurrences old recent ≡ occurrences j recent =
                λ e. ap (λ i. occurrences i recent) e in
              same),
        ))

  shrink-Counted :
      (bound : ℕ) (recent : List ℤ) (counts : Dict ℤ ℕ)
      → Counted counts recent
      → let after = shrink fl bound recent counts in
        (after.0 ≡ last bound recent) × Counted after.1 after.0
  unfolding shrink
  shrink-Counted bound [] counts ok = (sym (drop_all (0 - bound) [] (omega arith)), ok)
  shrink-Counted bound (old ∷ recent) counts ok =
      elim (Bool-cases (ltb bound (suc (length recent)))) [
        | inl over ↦
            let (e, ok') =
              shrink-Counted bound recent (count_down fl old counts)
                (count_down-Counted old counts recent ok) in
            let k : suc (length recent) - bound ≡ suc (length recent - bound) = ground arith in
            rw (over, k) (e, ok')
        | inr within ↦
            let k : suc (length recent) - bound ≡ 0 = ground arith in rw (within, k) (refl, ok)
      ]

  -- The window holds the last `n` tokens of the history, and the counts are theirs.
  pub record IsWindow (n : ℕ) (history : List ℤ) (s : State fl) : Type 0 where
    pub bound : pos_part s.cfg.repeat_last_n ≡ n
    pub on : penalized fl s.cfg ≡ true
    pub newest : s.recent ≡ last n history
    pub counted : Counted s.counts s.recent

  pub accept-IsWindow :
      (n : ℕ) (history : List ℤ) (s : State fl) (id : ℤ)
      → IsWindow n history s
      → IsWindow n (history ++ id ∷ []) (accept fl s id)
  unfolding accept
  accept-IsWindow n history s id w =
      let b = pos_part s.cfg.repeat_last_n in
      let (e, ok) =
        shrink-Counted b (s.recent ++ id ∷ []) (count_up fl id s.counts)
          (count_up-Counted id s.counts s.recent w.counted) in
      rw w.on (record {
        bound = w.bound;
        on = w.on;
        newest =
            e
            ∙ ap (λ (m : ℕ). last m (s.recent ++ id ∷ [])) w.bound
            ∙ ap (λ (xs : List ℤ). last n (xs ++ id ∷ [])) w.newest
            ∙ last-append_last n history (id ∷ []);
        counted = ok;
      })

  pub accept_all-IsWindow :
      (n : ℕ) (history : List ℤ) (s : State fl) (ids : List ℤ)
      → IsWindow n history s
      → IsWindow n (history ++ ids) (accept_all fl s ids)
  unfolding accept_all
  accept_all-IsWindow n history s [] w = rw append-nil w
  accept_all-IsWindow n history s (id ∷ ids) w = rw (← append_assoc history (id ∷ []) ids) (
      accept_all-IsWindow n (history ++ id ∷ []) (accept fl s id) ids
        (accept-IsWindow n history s id w))

  -- Priming with a prompt and accepting generated tokens leaves in the window exactly the last
  -- `repeat_last_n` tokens of all that was seen, a prompt longer than the window included, and
  -- `counts_` has each of them with the number of its occurrences there, and no other token.
  pub prime-IsWindow :
      (n : ℕ) (history : List ℤ) (s : State fl) (prompt generated : List ℤ)
      → IsWindow n history s
      → IsWindow n (history ++ (prompt ++ generated)) (accept_all fl (prime fl s prompt) generated)
  unfolding prime
  prime-IsWindow n history s prompt generated w =
      let b = pos_part s.cfg.repeat_last_n in
      let tail = drop (length prompt - min (length prompt) b) prompt in
      let k : length prompt - min (length prompt) b ≡ length prompt - n = omega (arith, w.bound) in
      let seen = accept_all-IsWindow n history s tail w in
      let primed : IsWindow n (history ++ prompt) (accept_all fl s tail) = record {
        bound = seen.bound;
        on = seen.on;
        newest =
            seen.newest
            ∙ ap (λ (j : ℕ). last n (history ++ drop j prompt)) k
            ∙ last-append_prompt n history prompt;
        counted = seen.counted;
      } in
      rw (w.on, ← append_assoc history prompt generated)
        (accept_all-IsWindow n (history ++ prompt) (accept_all fl s tail) generated primed)
