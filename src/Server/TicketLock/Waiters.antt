-- ===== src/Server/TicketLock/Waiters.antt =====
-- How many calls of `TicketLock` wait: `waiting` counts them.
use questwend.Prelude.{
  ℕ, zero, suc, ◌+◌, ◌≤◌, ◌<◌, ◌≡◌, refl, ltb, ◌==◌, arith, Bool-cases, inl, inr,
}
use questwend.Server.TicketLock.Calls.{CallState, assign}

-- One for a call that waits.
unfoldable pub weight : CallState → ℕ
weight CallState.absent = 0
weight CallState.waits = 1
weight CallState.holds = 0
weight CallState.timed_out = 0
weight CallState.released = 0

-- The calls below ticket `n` that wait.
unfoldable pub waiters : ℕ → (ℕ → CallState) → ℕ
waiters zero phase = 0
waiters (suc n) phase = waiters n phase + weight (phase n)

waiters-out :
    (n t : ℕ) (phase : ℕ → CallState) (p : CallState)
    → n ≤ t
    → waiters n (assign phase t p) ≡ waiters n phase
unfolding waiters assign
waiters-out zero t phase p le = refl
waiters-out (suc n) t phase p le = ground (arith, waiters-out n t phase p)

pub waiters-assign :
    (n t : ℕ) (phase : ℕ → CallState) (p : CallState)
    → t < n
    → waiters n (assign phase t p) + weight (phase t) ≡ waiters n phase + weight p
unfolding waiters assign
waiters-assign zero t phase p lt = absurd (omega arith)
waiters-assign (suc n) t phase p lt =
    ground (arith, waiters-assign n t phase p, waiters-out n t phase p)

pub waiters-pos :
    (n t : ℕ) (phase : ℕ → CallState) → t < n → phase t ≡ CallState.waits → 0 < waiters n phase
unfolding waiters weight
waiters-pos zero t phase lt h = absurd (omega arith)
waiters-pos (suc n) t phase lt h = elim (Bool-cases (t == n)) [
  | inl last ↦ let e : t ≡ n = ground arith in rw (← e) (rw h (omega arith))
  | inr before ↦ omega (arith, waiters-pos n t phase (ground arith) h)
]

weight-pos : (p : CallState) → 0 < weight p → p ≡ CallState.waits
unfolding weight
weight-pos CallState.absent h = absurd (omega arith)
weight-pos CallState.waits h = refl
weight-pos CallState.holds h = absurd (omega arith)
weight-pos CallState.timed_out h = absurd (omega arith)
weight-pos CallState.released h = absurd (omega arith)

pub some_waits :
    (n : ℕ) (phase : ℕ → CallState) → 0 < waiters n phase → (t : ℕ) × (phase t ≡ CallState.waits)
unfolding waiters
some_waits zero phase h = absurd (omega arith)
some_waits (suc n) phase h = elim (Bool-cases (ltb 0 (weight (phase n)))) [
  | inl here ↦ (n, weight-pos (phase n) (ground arith))
  | inr not_here ↦ some_waits n phase (ground arith)
]
