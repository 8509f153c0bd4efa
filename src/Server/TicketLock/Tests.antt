-- ===== src/Server/TicketLock/Tests.antt =====
-- A run of a `TicketLock`: ticket 0 holds the lock, ticket 1 has timed out, ticket 2 waits.
use questwend.Prelude.{ℕ, ◌≤◌, ◌<◌, ◌≡◌, refl, ◌⊎◌, ◌↔◌, true, arith}
use questwend.Server.TicketLock
use questwend.Server.TicketLock.{is_served, unlock, contended, busy}
use questwend.Server.TicketLock.Calls.{
  CallState, Calls, assign, arrive, enter, give_up, Reach, start, later,
}
use questwend.Server.TicketLock.Safety.{
  exclusive_fifo, some_proceeds, unlock-hands_over, contended-busy,
}

abbrev run : (s : Calls) × Reach s
unfolding assign is_served TicketLock.take_ticket TicketLock.admit TicketLock.abandon
    TicketLock.unlocked TicketLock.dead_insert TicketLock.dead_count
run =
    let r0 = later start (arrive (omega arith)) in
    let r1 = later r0 (enter 0 refl refl) in
    let r2 = later r1 (arrive (omega arith)) in
    let r3 = later r2 (arrive (omega arith)) in (_, later r3 (give_up 1 refl refl))

abbrev state : Calls
state = run.0

unlocked_next : (unlock state.lock).serving ≡ 2
unfolding unlock TicketLock.skip_dead TicketLock.dead_erase TicketLock.dead_count run
unlocked_next = refl

exclusive_fifo_example :
    (state.phase 2 ≡ CallState.holds → ◌≡◌ {A = ℕ} 0 2) × (state.phase 2 ≡ CallState.waits → 0 < 2)
unfolding assign run
exclusive_fifo_example = exclusive_fifo run.1 0 refl 2

some_proceeds_example :
    (t : ℕ) × (t ≤ 2)
    × (is_served state.lock t ≡ true)
    × ((state.phase t ≡ CallState.holds) ⊎ (state.phase t ≡ CallState.waits))
unfolding assign run
some_proceeds_example = some_proceeds run.1 2 refl

unlock-hands_over_example :
    (w : ℕ) × (state.phase w ≡ CallState.waits)
    × (is_served (unlock state.lock) w ≡ true)
    × ((v : ℕ) → state.phase v ≡ CallState.waits → w ≤ v)
unfolding assign run
unlock-hands_over_example = unlock-hands_over run.1 0 refl 2 refl

contended-busy_example :
    ((contended state.lock ≡ true) ↔ ((t : ℕ) × (state.phase t ≡ CallState.waits)))
    × ((busy state.lock ≡ true)
        ↔ ((t : ℕ) × ((state.phase t ≡ CallState.holds) ⊎ (state.phase t ≡ CallState.waits))))
contended-busy_example = contended-busy run.1
