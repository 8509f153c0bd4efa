-- ===== src/Server/TicketLock.antt =====
-- server/main.cpp, `TicketLock`: the members, and the parts of its operations between two waits of the
-- condition variable, each of which runs under the mutex. `Calls` puts them together. The wake-up,
-- `cv.notify_all`, is left out: a call that waits may test its predicate at any time.
pub mod Calls
pub mod Queue
pub mod Waiters
pub mod Invariant
pub mod Safety
mod Tests
use questwend.Prelude.{
  ℕ, zero, suc, ◌+◌, ◌-◌, ◌*◌, ◌/◌, ◌%◌, ◌^◌, List, [], ◌∷◌, Bool, true, false, ◌||◌, ltb, ◌==◌,
  if◌then◌else◌, length,
}

-- `waiting` is an `int`; it counts threads, far fewer than its range.
pub record TicketLock : Type 0 where
  pub next : ℕ
  pub serving : ℕ
  pub waiting : ℕ
  pub dead : List ℕ

-- A `TicketLock` as it is constructed.
unfoldable pub unlocked : TicketLock
unlocked = record { next = 0; serving = 0; waiting = 0; dead = [] }

-- `dead.count(t)`
unfoldable pub dead_count : ℕ → List ℕ → Bool
dead_count t [] = false
dead_count t (x ∷ xs) = (x == t) || dead_count t xs

-- `dead.insert(t)`
unfoldable pub dead_insert : ℕ → List ℕ → List ℕ
dead_insert t xs = if dead_count t xs then xs else t ∷ xs

-- `dead.erase(t)`
unfoldable pub dead_erase : ℕ → List ℕ → List ℕ
dead_erase t [] = []
dead_erase t (x ∷ xs) = let rest = dead_erase t xs in if x == t then rest else x ∷ rest

-- `t = next++; ++waiting;`
unfoldable pub take_ticket : TicketLock → ℕ × TicketLock
take_ticket l = (l.next, record l { next = (l.next + 1) % 2 ^ 64; waiting = l.waiting + 1 })

-- The predicate that a caller waits for.
unfoldable pub is_served : TicketLock → ℕ → Bool
is_served l t = l.serving == t

-- `--waiting`, after the wait in `lock`, or in `lock_for` with the predicate true.
unfoldable pub admit : TicketLock → TicketLock
admit l = record l { waiting = l.waiting - 1 }

-- `--waiting; dead.insert(t);`, after the timeout of `lock_for`.
unfoldable pub abandon : TicketLock → ℕ → TicketLock
abandon l t = record l { waiting = l.waiting - 1; dead = dead_insert t l.dead }

-- `while (dead.count(serving)) { … }`, with a bound on the rounds.
unfoldable pub skip_dead : ℕ → ℕ → List ℕ → ℕ × List ℕ
skip_dead zero serving dead = (serving, dead)
skip_dead (suc fuel) serving dead =
    let rest = skip_dead fuel ((serving + 1) % 2 ^ 64) (dead_erase serving dead) in
    if dead_count serving dead then rest else (serving, dead)

unfoldable pub unlock : TicketLock → TicketLock
unlock l =
    let (serving, dead) = skip_dead (length l.dead) ((l.serving + 1) % 2 ^ 64) l.dead in
    record l { serving = serving; dead = dead }

unfoldable pub contended : TicketLock → Bool
contended l = ltb 0 l.waiting

unfoldable pub busy : TicketLock → Bool
busy l = ltb l.serving l.next
