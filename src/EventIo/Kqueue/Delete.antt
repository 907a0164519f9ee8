-- ===== src/EventIo/Kqueue/Delete.antt =====
-- `event_io_remove_fd` of src/event_io_kqueue.c for all three bits, as `event_loop_update_channel`
-- calls it.
use eloop.Base.{
  Bool-cases, inl, inr, ==→eq, ℕ, zero, suc, ◌+◌, ◌<◌, ◌≤◌, ◌≡◌, ◌≢◌, refl, Option, true, false,
  some, [], ◌∷◌, ◌==◌, ne→==, eq→==, ℤ, pos, minus_one, eqb_ℤ, eqb_ℤ-refl, arith, List,
}
use eloop.Memory.{Ptr, null, ok, write}
use eloop.World.{
  Kevent, Kqueue, ev_delete, evfilt_except, Channel, Memory, load_kqueue, store_kqueue,
}
use eloop.EventLoop.Channels.Remove.{get_mask-ok}
use eloop.EventLoop.Channels.Watches.{get_fd-run}
use eloop.EventIo.Kqueue.{mark, put_entry, kevent, remove_loop, event_io_remove_fd}

-- The memory with other kqueues and one more change.
abbrev pub with_change : Memory → (Ptr → Option Kqueue) → Kevent → Memory
with_change m f e = record m {
  user = record (m.user) { kqueue_at = f; changes = e ∷ m.user.changes };
}

-- The deletion of the filter for exceptions.
abbrev pub except_deleted : (fd : ℤ) → (channel : Ptr) → Kevent
except_deleted fd channel = record {
  ident = fd;
  filter = evfilt_except;
  action = ev_delete;
  udata = channel;
}

-- What the three `if`s make of an entry of the descriptor, and of any other.
mark_hit :
    (fd : ℤ) (i : Ptr) (e : Kevent)
    → eqb_ℤ e.ident fd ≡ true
    → mark fd ev_delete fd 7 i 0 e ≡ record { event = except_deleted fd i; flag = 7; is_set = true }
unfolding mark
mark_hit fd i e here = rw (here, eqb_ℤ-refl fd) (rw (eqb_ℤ-refl fd) refl)

mark_miss :
    (fd : ℤ) (i : Ptr) (e : Kevent)
    → eqb_ℤ e.ident fd ≡ false
    → mark fd ev_delete fd 7 i 0 e ≡ record { event = e; flag = 0; is_set = false }
unfolding mark
mark_miss fd i e other = rw other (rw other (rw other refl))

module _ (fd_setsize : ℕ) (submit : List Kevent → ℤ) (eio : Ptr) (eio_ne : eio ≢ null) (k : Kqueue)
    (fd : ℤ) (i : Ptr) (j : ℕ) (here : eqb_ℤ (k.events j).ident fd ≡ true)
    (taken : eqb_ℤ (submit (except_deleted fd i ∷ [])) minus_one ≡ false) where
  remove_loop-here :
      (n : ℕ) (m : Memory)
      → m.user.kqueue_at eio ≡ some k
      → (f : Ptr → Option Kqueue) × (remove_loop fd_setsize submit (suc n) j fd 7 eio i 0 m
          ≡ ok (pos 0) (with_change m f (except_deleted fd i)))
        × (f eio
            ≡ some (record k {
              events = put_entry k.events j (record (except_deleted fd i) { ident = minus_one });
            }))
  unfolding remove_loop load_kqueue store_kqueue kevent
  remove_loop-here n m at = (
    write
        (write m.user.kqueue_at eio
          (some (record k { events = put_entry k.events j (except_deleted fd i) })))
        eio
        (some (record k {
          events = put_entry k.events j (record (except_deleted fd i) { ident = minus_one });
        })),
    rw (ne→== eio null eio_ne, at, mark_hit fd i (k.events j) here, taken) refl,
    rw (eq→== eio eio refl) refl,
  )

  remove_loop-first :
      (n from : ℕ) (m : Memory)
      → m.user.kqueue_at eio ≡ some k
      → from ≤ j
      → j < from + n
      → ((a : ℕ) → from ≤ a → a < j → eqb_ℤ (k.events a).ident fd ≡ false)
      → (f : Ptr → Option Kqueue) × (remove_loop fd_setsize submit n from fd 7 eio i 0 m
          ≡ ok (pos 0) (with_change m f (except_deleted fd i)))
        × (f eio
            ≡ some (record k {
              events = put_entry k.events j (record (except_deleted fd i) { ident = minus_one });
            }))
  unfolding remove_loop load_kqueue store_kqueue kevent
  remove_loop-first zero from m at le lt before = absurd (omega arith)
  remove_loop-first (suc n) from m at le lt before = elim (Bool-cases (from == j)) [
    | inl found ↦ rw (==→eq from j found) (remove_loop-here n m at)
    | inr later ↦
        let (f, run, result) =
          remove_loop-first n (from + 1) m at (ground arith) (omega arith)
            (λ a h h'. before a (omega arith) h') in
        (
          f,
          rw
              (
                ne→== eio null eio_ne,
                at,
                mark_miss fd i (k.events from) (before from (omega arith) (ground arith)),
              )
              run,
          result,
        )
  ]

  -- `event_io_remove_fd` of a channel with the bits for reading, writing and exceptions, as
  -- `event_loop_update_channel` sets them, where the entry at `j` is the first one of its descriptor
  -- and kevent succeeds: it returns 0 and hands one change to kevent, the deletion of the filter for
  -- exceptions; the entry at `j` is free and all other entries are as they were.
  pub event_io_remove_fd-one :
      (c : Channel) (m : Memory)
      → i ≢ null
      → m.user.channel_at i ≡ some c
      → c.fd ≡ fd
      → c.mask ≡ 7
      → m.user.kqueue_at eio ≡ some k
      → j < fd_setsize
      → ((a : ℕ) → a < j → eqb_ℤ (k.events a).ident fd ≡ false)
      → (f : Ptr → Option Kqueue) × (event_io_remove_fd fd_setsize submit eio i m
          ≡ ok (pos 0) (with_change m f (except_deleted fd i)))
        × (f eio
            ≡ some (record k {
              events = put_entry k.events j (record (except_deleted fd i) { ident = minus_one });
            }))
  unfolding event_io_remove_fd
  event_io_remove_fd-one c m i_ne e is_fd all at lt before =
      let (f, run, result) =
        remove_loop-first fd_setsize 0 m at (omega arith) (omega arith) (λ a h h'. before a h') in
      (f, rw (get_fd-run m i c i_ne e, get_mask-ok m i c i_ne e, is_fd, all) run, result)
