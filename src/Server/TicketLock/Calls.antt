-- ===== src/Server/TicketLock/Calls.antt =====
-- The callers of a `TicketLock`: a step is what one thread does while it has the mutex. A call of
-- `lock` or `lock_for` is known by its ticket.
use questwend.Prelude.{ℕ, ◌+◌, ◌^◌, ◌<◌, ◌≡◌, true, false, ◌==◌, if◌then◌else◌}
use questwend.Server.TicketLock.{
  TicketLock, unlocked, take_ticket, is_served, admit, abandon, unlock,
}

-- Where a call is. `absent` is a ticket that nobody took, `timed_out` a call of `lock_for` that
-- returned false, `released` one whose thread called `unlock`.
pub data CallState : Type 0 where
  absent : CallState
  waits : CallState
  holds : CallState
  timed_out : CallState
  released : CallState

unfoldable pub assign : (ℕ → CallState) → ℕ → CallState → ℕ → CallState
assign phase t p u = if t == u then p else phase u

pub record Calls : Type 0 where
  pub lock : TicketLock
  pub phase : ℕ → CallState

-- The program takes fewer than `2 ^ 64` tickets: `arrive` stops before `next` wraps.
pub data Step (s : Calls) : Calls → Type 0 where
  arrive :
      s.lock.next + 1 < 2 ^ 64
      → Step s (record {
        lock = (take_ticket s.lock).1;
        phase = assign s.phase (take_ticket s.lock).0 CallState.waits;
      })
  enter :
      (t : ℕ)
      → s.phase t ≡ CallState.waits
      → is_served s.lock t ≡ true
      → Step s (record { lock = admit s.lock; phase = assign s.phase t CallState.holds })
  give_up :
      (t : ℕ)
      → s.phase t ≡ CallState.waits
      → is_served s.lock t ≡ false
      → Step s (record { lock = abandon s.lock t; phase = assign s.phase t CallState.timed_out })
  release :
      (t : ℕ)
      → s.phase t ≡ CallState.holds
      → Step s (record { lock = unlock s.lock; phase = assign s.phase t CallState.released })

abbrev pub start_calls : Calls
unfolding unlocked
start_calls = record { lock = unlocked; phase = λ _. CallState.absent }

pub data Reach : Calls → Type 0 where
  start : Reach start_calls
  later : {s t : Calls} → Reach s → Step s t → Reach t
