-- ===== src/Server/TicketLock/Safety.antt =====
-- What `TicketLock` promises to the threads that call it.
use questwend.Prelude.{ℕ, ◌≤◌, ◌<◌, ◌≡◌, refl, ◌⊎◌, ◌↔◌, inl, inr, true, ◌==◌, arith, Bool-cases}
use questwend.Server.TicketLock.{is_served, contended, busy, unlock}
use questwend.Server.TicketLock.Calls.{CallState, Calls, Reach, later, release, assign}
use questwend.Server.TicketLock.Invariant.{is_open, is_over, holds-serving, waits-range, Reach-Inv}
use questwend.Server.TicketLock.Waiters.{waiters-pos, some_waits}

-- In every state that threads reach, if a call holds the lock then no other call holds it, and each
-- call that waits took its ticket later: the lock is exclusive, and it is taken in the order of the
-- tickets, where time-outs of `lock_for` leave gaps.
pub exclusive_fifo :
    {s : Calls}
    → Reach s
    → (t : ℕ) → s.phase t ≡ CallState.holds
    → (u : ℕ) → (s.phase u ≡ CallState.holds → t ≡ u) × (s.phase u ≡ CallState.waits → t < u)
unfolding is_over
exclusive_fifo r t h u =
    let inv = Reach-Inv r in
    let at = holds-serving inv t h in
    (λ k. ground (arith, holds-serving inv u k), λ k. ground (arith, waits-range inv u k))

open_held : (p : CallState) → is_open p ≡ true → (p ≡ CallState.holds) ⊎ (p ≡ CallState.waits)
unfolding is_open
open_held CallState.absent h = ground arith
open_held CallState.waits h = inr refl
open_held CallState.holds h = inl refl
open_held CallState.timed_out h = ground arith
open_held CallState.released h = ground arith

-- No deadlock: in every state that threads reach, if a call waits then a call with the same or an
-- earlier ticket, the one served, either holds the lock or waits and finds its predicate true.
pub some_proceeds :
    {s : Calls}
    → Reach s
    → (u : ℕ) → s.phase u ≡ CallState.waits
    → (t : ℕ) × (t ≤ u)
      × (is_served s.lock t ≡ true)
      × ((s.phase t ≡ CallState.holds) ⊎ (s.phase t ≡ CallState.waits))
unfolding is_served
some_proceeds {s} r u h =
    let inv = Reach-Inv r in
    let (low, high) = waits-range inv u h in
    (
      s.lock.serving,
      low,
      ground arith,
      open_held (s.phase s.lock.serving) (inv.current (omega arith)),
    )

-- The holder's `unlock` hands the lock over: if a call waits, then after `unlock` the call with the
-- earliest ticket of those that wait finds its predicate true, whatever timed out in between.
pub unlock-hands_over :
    {s : Calls}
    → Reach s
    → (t : ℕ) → s.phase t ≡ CallState.holds
    → (u : ℕ) → s.phase u ≡ CallState.waits
    → (w : ℕ) × (s.phase w ≡ CallState.waits)
      × (is_served (unlock s.lock) w ≡ true)
      × ((v : ℕ) → s.phase v ≡ CallState.waits → w ≤ v)
unfolding is_served is_open is_over assign
unlock-hands_over {s} r t h u k =
    let before = Reach-Inv r in
    let after = Reach-Inv (later r (release t h)) in
    let lock = unlock s.lock in
    let still : (v : ℕ)
        → s.phase v ≡ CallState.waits
        → assign s.phase t CallState.released v ≡ CallState.waits =
      λ v q. ground arith in
    let (low, high) = waits-range after u (still u k) in
    (
      lock.serving,
      elim (Bool-cases (t == lock.serving)) [
        | inl same ↦ ground (arith, after.current (omega arith))
        | inr other ↦
            elim (open_held (s.phase lock.serving) (ground (arith, after.current (omega arith)))) [
              | inl held ↦
                  ground (arith, holds-serving before lock.serving held, holds-serving before t h)
              | inr queued ↦ queued
            ]
      ],
      ground arith,
      λ v q. (waits-range after v (still v q)).0,
    )

-- In every state that threads reach, `contended` tells whether a call waits, and `busy` whether one
-- waits or holds the lock.
pub contended-busy :
    {s : Calls}
    → Reach s
    → ((contended s.lock ≡ true) ↔ ((t : ℕ) × (s.phase t ≡ CallState.waits)))
      × ((busy s.lock ≡ true)
          ↔ ((t : ℕ) × ((s.phase t ≡ CallState.holds) ⊎ (s.phase t ≡ CallState.waits))))
unfolding contended busy
contended-busy {s} r =
    let inv = Reach-Inv r in
    (
      (
        λ h. some_waits s.lock.next s.phase (ground (arith, inv.counted)),
        λ (t, h).
            ground
              (arith, inv.counted, waiters-pos s.lock.next t s.phase (waits-range inv t h).1 h),
      ),
      (
        λ h. (s.lock.serving, open_held (s.phase s.lock.serving) (inv.current (ground arith))),
        λ (t, h). elim h [
          | inl held ↦ ground (arith, inv.fresh t, inv.ordered, holds-serving inv t held)
          | inr queued ↦ ground (arith, waits-range inv t queued)
        ],
      ),
    )
