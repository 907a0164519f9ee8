-- ===== src/EventIo.antt =====
-- src/event_io.h: what an event loop needs of the backend that the build selects, and its two
-- backends, src/event_io_select.c and src/event_io_kqueue.c.
pub mod Select
pub mod Kqueue
mod Tests
use eloop.Base.{ℕ, ℤ}
use eloop.Memory.{Ptr}
use eloop.World.{Prog}

-- The arguments are the `struct event_io` and the channel, or the map and the timeout.
pub record EventIo : Type 0 where
  pub add_fd : (eio channel : Ptr) → Prog ℤ
  pub remove_fd : (eio channel : Ptr) → Prog ℤ
  pub poll : (eio map : Ptr) → (timeout : ℕ) → Prog ℤ
