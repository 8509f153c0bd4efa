-- ===== src/Server/TicketLock/Queue.antt =====
-- The tickets of `TicketLock` that timed out: the set `dead` and the loop that skips them.
use questwend.Prelude.{
  ℕ, zero, suc, ◌+◌, ◌%◌, ◌^◌, ◌≤◌, ◌<◌, ◌≡◌, refl, List, [], ◌∷◌, true, false, ◌||◌, ltb, ◌==◌,
  if◌then◌else◌, length, arith, Bool-cases, inl, inr,
}
use questwend.Server.TicketLock.{dead_count, dead_insert, dead_erase, skip_dead}

pub dead_count-insert :
    (t u : ℕ) (xs : List ℕ) → dead_count t (dead_insert u xs) ≡ ((u == t) || dead_count t xs)
unfolding dead_insert dead_count
dead_count-insert t u xs = ground arith

pub dead_count-erase :
    (t u : ℕ) (xs : List ℕ)
    → dead_count t (dead_erase u xs) ≡ (if u == t then false else dead_count t xs)
unfolding dead_erase dead_count
dead_count-erase t u [] = ground arith
dead_count-erase t u (x ∷ xs) = ground (arith, dead_count-erase t u xs)

length-dead_erase_le : (t : ℕ) (xs : List ℕ) → length (dead_erase t xs) ≤ length xs
unfolding dead_erase
length-dead_erase_le t [] = omega arith
length-dead_erase_le t (x ∷ xs) = ground (arith, length-dead_erase_le t xs)

length-dead_erase :
    (t : ℕ) (xs : List ℕ) → dead_count t xs ≡ true → length (dead_erase t xs) < length xs
unfolding dead_erase dead_count
length-dead_erase t [] h = ground arith
length-dead_erase t (x ∷ xs) h = ground (arith, length-dead_erase t xs, length-dead_erase_le t xs)

none_dead : (t : ℕ) (xs : List ℕ) → length xs ≤ 0 → dead_count t xs ≡ false
unfolding dead_count
none_dead t [] le = refl
none_dead t (x ∷ xs) le = absurd (omega arith)

-- What the loop leaves: it stops at a ticket that is not dead, and has passed and erased dead ones.
pub record IsSkipped (from next to : ℕ) (dead left : List ℕ) : Type 0 where
  pub ahead : from ≤ to
  pub bound : to ≤ next
  pub alive : dead_count to left ≡ false
  pub passed : (t : ℕ) → from ≤ t → t < to → dead_count t dead ≡ true
  pub kept : (t : ℕ) → dead_count t left ≡ (if ltb t to then false else dead_count t dead)

pub skip_dead-IsSkipped :
    (fuel from next : ℕ) (dead : List ℕ)
    → next < 2 ^ 64
    → length dead ≤ fuel
    → from ≤ next
    → ((t : ℕ) → dead_count t dead ≡ true → (from ≤ t) × (t < next))
    → IsSkipped from next (skip_dead fuel from dead).0 dead (skip_dead fuel from dead).1
unfolding skip_dead
skip_dead-IsSkipped zero from next dead small le bound within = record {
  ahead = omega arith;
  bound = bound;
  alive = none_dead from dead le;
  passed = λ t ge lt. absurd (omega arith);
  kept = λ t. ground (arith, none_dead t dead);
}
skip_dead-IsSkipped (suc fuel) from next dead small le bound within =
    elim (Bool-cases (dead_count from dead)) [
      | inr stop ↦ rw stop (record {
        ahead = omega arith;
        bound = bound;
        alive = stop;
        passed = λ t ge lt. absurd (omega arith);
        kept = λ t. ground (arith, within t);
      })
      | inl go ↦
          let room = (within from go).1 in
          let wrap : (from + 1) % 2 ^ 64 ≡ from + 1 = omega arith in
          let rest =
            skip_dead-IsSkipped fuel (from + 1) next (dead_erase from dead) small
              (omega (arith, length-dead_erase from dead go)) (omega arith)
              (λ t h. ground (arith, within t, dead_count-erase t from dead)) in
          rw go (
            rw wrap (record {
              ahead = omega (arith, rest.ahead);
              bound = rest.bound;
              alive = rest.alive;
              passed = λ t ge lt. ground (arith, rest.passed t, dead_count-erase t from dead);
              kept = λ t. ground (arith, rest.kept t, rest.ahead, dead_count-erase t from dead);
            }))
    ]
