-- ===== src/Server/TicketLock/Invariant.antt =====
-- What holds of a `TicketLock` and its callers whenever the mutex is free.
use questwend.Prelude.{
  ℕ, ◌+◌, ◌%◌, ◌^◌, ◌≤◌, ◌<◌, ◌≡◌, refl, length, Bool, true, false, if◌then◌else◌, arith,
}
use questwend.Server.TicketLock.{
  unlocked, dead_count, take_ticket, is_served, admit, abandon, unlock, skip_dead,
}
use questwend.Server.TicketLock.Calls.{
  CallState, assign, Calls, arrive, enter, give_up, release, start_calls, Reach, start, later,
}
use questwend.Server.TicketLock.Queue.{dead_count-insert, skip_dead-IsSkipped}
use questwend.Server.TicketLock.Waiters.{weight, waiters, waiters-assign}

-- A call that neither waits nor holds the lock.
unfoldable pub is_over : CallState → Bool
is_over CallState.absent = false
is_over CallState.waits = false
is_over CallState.holds = false
is_over CallState.timed_out = true
is_over CallState.released = true

unfoldable pub is_open : CallState → Bool
is_open CallState.absent = false
is_open CallState.waits = true
is_open CallState.holds = true
is_open CallState.timed_out = false
is_open CallState.released = false

-- The tickets below `serving` are over, that of `serving` is open, those above wait or have timed
-- out, and of the latter `dead` holds exactly them; `waiting` is the number of those that wait.
pub record Inv (s : Calls) : Type 0 where
  pub small : s.lock.next < 2 ^ 64
  pub ordered : s.lock.serving ≤ s.lock.next
  pub fresh : (t : ℕ) → s.lock.next ≤ t → s.phase t ≡ CallState.absent
  pub past : (t : ℕ) → t < s.lock.serving → is_over (s.phase t) ≡ true
  pub current : s.lock.serving < s.lock.next → is_open (s.phase s.lock.serving) ≡ true
  pub queued :
      (t : ℕ)
      → s.lock.serving < t
      → t < s.lock.next
      → s.phase t ≡ (if dead_count t s.lock.dead then CallState.timed_out else CallState.waits)
  pub within : (t : ℕ) → dead_count t s.lock.dead ≡ true → (s.lock.serving < t) × (t < s.lock.next)
  pub counted : s.lock.waiting ≡ waiters s.lock.next s.phase

start-Inv : Inv start_calls
unfolding unlocked dead_count waiters
start-Inv = record {
  small = omega arith;
  ordered = omega arith;
  fresh = λ t le. refl;
  past = λ t lt. absurd (omega arith);
  current = λ lt. absurd (omega arith);
  queued = λ t gt lt. absurd (omega arith);
  within = λ t h. ground arith;
  counted = refl;
}

-- A call that holds the lock has the ticket that is served; one that waits has that or a later one.
pub holds-serving : {s : Calls} → Inv s → (t : ℕ) → s.phase t ≡ CallState.holds → t ≡ s.lock.serving
unfolding is_over
holds-serving {s} inv t h = ground (arith, inv.fresh t, inv.past t, inv.queued t)

pub waits-range :
    {s : Calls}
    → Inv s
    → (t : ℕ) → s.phase t ≡ CallState.waits
    → (s.lock.serving ≤ t) × (t < s.lock.next)
unfolding is_over
waits-range {s} inv t h = ground (arith, inv.fresh t, inv.past t)

arrive-Inv :
    {s : Calls}
    → Inv s
    → s.lock.next + 1 < 2 ^ 64
    → Inv (record {
      lock = (take_ticket s.lock).1;
      phase = assign s.phase (take_ticket s.lock).0 CallState.waits;
    })
unfolding take_ticket assign is_over is_open waiters weight
arrive-Inv {s} inv room =
    let wrap : (s.lock.next + 1) % 2 ^ 64 ≡ s.lock.next + 1 = omega arith in
    rw wrap (record {
      small = room;
      ordered = omega (arith, inv.ordered);
      fresh = λ t le. ground (arith, inv.fresh t);
      past = λ t lt. ground (arith, inv.past t, inv.ordered);
      current = λ lt. ground (arith, inv.current, inv.ordered);
      queued = λ t gt lt. ground (arith, inv.queued t, inv.within t);
      within = λ t h. ground (arith, inv.within t);
      counted = ground (
        arith,
        inv.counted,
        inv.fresh s.lock.next,
        waiters-assign (s.lock.next + 1) s.lock.next s.phase CallState.waits,
      );
    })

enter-Inv :
    {s : Calls}
    → Inv s
    → (t : ℕ) → s.phase t ≡ CallState.waits
    → is_served s.lock t ≡ true
    → Inv (record { lock = admit s.lock; phase = assign s.phase t CallState.holds })
unfolding is_served admit assign is_over is_open weight
enter-Inv {s} inv t h served = record {
  small = inv.small;
  ordered = inv.ordered;
  fresh = λ u le. ground (arith, inv.fresh u, waits-range inv t h);
  past = λ u lt. ground (arith, inv.past u);
  current = λ lt. ground (arith);
  queued = λ u gt lt. ground (arith, inv.queued u);
  within = inv.within;
  counted = ground (
    arith,
    inv.counted,
    waits-range inv t h,
    waiters-assign s.lock.next t s.phase CallState.holds,
  );
}

give_up-Inv :
    {s : Calls}
    → Inv s
    → (t : ℕ) → s.phase t ≡ CallState.waits
    → is_served s.lock t ≡ false
    → Inv (record { lock = abandon s.lock t; phase = assign s.phase t CallState.timed_out })
unfolding is_served abandon assign is_over is_open weight
give_up-Inv {s} inv t h served = record {
  small = inv.small;
  ordered = inv.ordered;
  fresh = λ u le. ground (arith, inv.fresh u, waits-range inv t h);
  past = λ u lt. ground (arith, inv.past u, waits-range inv t h);
  current = λ lt. ground (arith, inv.current);
  queued = λ u gt lt. ground (arith, inv.queued u, dead_count-insert u t s.lock.dead);
  within =
      λ u d. ground (arith, inv.within u, waits-range inv t h, dead_count-insert u t s.lock.dead);
  counted = ground (
    arith,
    inv.counted,
    waits-range inv t h,
    waiters-assign s.lock.next t s.phase CallState.timed_out,
  );
}

release-Inv :
    {s : Calls}
    → Inv s
    → (t : ℕ) → s.phase t ≡ CallState.holds
    → Inv (record { lock = unlock s.lock; phase = assign s.phase t CallState.released })
unfolding unlock assign is_over is_open weight
release-Inv {s} inv t h =
    let at = holds-serving inv t h in
    let low : s.lock.serving < s.lock.next = ground (arith, inv.fresh t, inv.ordered) in
    let wrap : (s.lock.serving + 1) % 2 ^ 64 ≡ s.lock.serving + 1 = omega (arith, inv.small) in
    rw wrap (
      let skip =
        skip_dead-IsSkipped (length s.lock.dead) (s.lock.serving + 1) s.lock.next s.lock.dead
          inv.small (omega arith) (omega arith) (λ u d. ground (arith, inv.within u)) in
      record {
        small = inv.small;
        ordered = skip.bound;
        fresh = λ u le. ground (arith, inv.fresh u);
        past = λ u lt. ground (arith, inv.past u, inv.queued u, skip.passed u, skip.bound);
        current = λ lt. ground (
          arith,
          inv.queued (skip_dead (length s.lock.dead) (s.lock.serving + 1) s.lock.dead).0,
          skip.alive,
          skip.ahead,
          skip.kept (skip_dead (length s.lock.dead) (s.lock.serving + 1) s.lock.dead).0,
        );
        queued = λ u gt lt. ground (arith, inv.queued u, skip.kept u, skip.ahead);
        within = λ u d. ground (arith, inv.within u, skip.kept u, skip.alive);
        counted =
            ground
              (arith, inv.counted, low, waiters-assign s.lock.next t s.phase CallState.released);
      })

pub Reach-Inv : {s : Calls} → Reach s → Inv s
Reach-Inv start = start-Inv
Reach-Inv (later r (arrive room)) = arrive-Inv (Reach-Inv r) room
Reach-Inv (later r (enter t h served)) = enter-Inv (Reach-Inv r) t h served
Reach-Inv (later r (give_up t h served)) = give_up-Inv (Reach-Inv r) t h served
Reach-Inv (later r (release t h)) = release-Inv (Reach-Inv r) t h
