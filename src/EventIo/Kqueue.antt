-- ===== src/EventIo/Kqueue.antt =====
-- src/event_io_kqueue.c. `fd_setsize` is FD_SETSIZE, the length of the array of entries.
pub mod Delete
pub mod Serve
use Prim.Native.Nat.{bit_and, bit_or}
use eloop.Base.{
  ℕ, zero, suc, ◌+◌, ◌*◌, ◌/◌, ◌%◌, Bool, true, false, not, ◌&&◌, ◌||◌, Option, none, some, List,
  [], ◌∷◌, ◌==◌, if◌then◌else◌, ℤ, pos, minus_one, eqb_ℤ,
}
use eloop.Memory.{Ptr, null, ok, pure, ◌>>=◌, ◌>>◌, when, write}
use eloop.World.{
  Filter, unset, evfilt_read, evfilt_write, evfilt_except, Action, no_action, ev_add, ev_delete,
  Kevent, Kqueue, Timespec, Prog, load_kqueue, store_kqueue,
}
use eloop.EventChannel.{
  fd_mask_read, fd_mask_write, fd_mask_error, event_channel_get_fd, event_channel_get_mask,
  event_channel_on_read, event_channel_on_write, event_channel_on_error, event_channel_on_close,
}
use eloop.ChannelMap.{event_channel_map_get_length}
use eloop.EventIo.{EventIo}

abbrev pub zeroed_kevent : Kevent
zeroed_kevent = record { ident = pos 0; filter = unset; action = no_action; udata = null }

-- `close(fd)`.
unfoldable pub close : ℤ → Prog (Unit {0})
close fd m = ok tt (record m { user = record (m.user) { closed = fd ∷ m.user.closed } })

-- The caller's pointer comes in and goes out as the result.
unfoldable pub event_io_delete : Ptr → Prog Ptr
event_io_delete eio = if eio == null then pure null else do
  k ← load_kqueue eio
  when (not (eqb_ℤ k.kqfd minus_one)) (close k.kqfd)
  store_kqueue eio none
  pure null

-- `fresh` is the address that calloc returns, `kqueue` the result of the system call.
unfoldable pub event_io_create : (fresh : Ptr) → (kqueue : ℤ) → Prog Ptr
event_io_create fresh kqueue = if fresh == null then event_io_delete fresh else do
  store_kqueue fresh (some (record { kqfd = kqueue; events = λ i. zeroed_kevent }))
  if eqb_ℤ kqueue minus_one then event_io_delete fresh else do
    store_kqueue fresh
        (some (record { kqfd = kqueue; events = λ i. record zeroed_kevent { ident = minus_one } }))
    pure fresh

-- An entry, `flag`, and whether the entry was set: `event != NULL`.
pub record Marked : Type 0 where
  pub event : Kevent
  pub flag : ℕ
  pub is_set : Bool

abbrev pub has_bit : (flag bit : ℕ) → Bool
has_bit flag bit = not (bit_and flag bit == 0)

-- One `if` of the loops of `event_io_add_fd` and `event_io_remove_fd`: `ident` is what the entry
-- has to hold.
abbrev pub mark_if :
    (ident : ℤ)
    → Action
    → (fd : ℤ) → (mask : ℕ) → (channel : Ptr) → (bit : ℕ) → Filter
    → Marked
    → Marked
mark_if ident action fd mask channel bit filter s =
    if not (has_bit s.flag bit) && has_bit mask bit && eqb_ℤ s.event.ident ident
    then record {
      event = record { ident = fd; filter = filter; action = action; udata = channel };
      flag = bit_or s.flag bit;
      is_set = true;
    }
    else s

-- The three of them.
unfoldable pub mark :
    (ident : ℤ) → Action → (fd : ℤ) → (mask : ℕ) → (channel : Ptr) → (flag : ℕ) → Kevent → Marked
mark ident action fd mask channel flag event =
    mark_if ident action fd mask channel fd_mask_error evfilt_except (
      mark_if ident action fd mask channel fd_mask_write evfilt_write (
        mark_if ident action fd mask channel fd_mask_read evfilt_read
          (record { event = event; flag = flag; is_set = false })))

abbrev pub put_entry : (ℕ → Kevent) → ℕ → Kevent → ℕ → Kevent
put_entry events i e j = if j == i then e else events j

-- The array from the index `i` on, with the number of entries left.
abbrev pub listed : (ℕ → Kevent) → (n i : ℕ) → List Kevent
listed events zero i = []
listed events (suc n) i = events i ∷ listed events n (i + 1)

-- The array after the loop of `event_io_add_fd`, with the number of entries left.
unfoldable pub add_loop :
    (n i : ℕ) → (fd : ℤ) → (mask : ℕ) → (channel : Ptr) → (flag : ℕ) → (ℕ → Kevent) → ℕ → Kevent
add_loop zero i fd mask channel flag events = events
add_loop (suc n) i fd mask channel flag events =
    let s = mark minus_one ev_add fd mask channel flag (events i) in
    let events' = put_entry events i s.event in
    let rest = add_loop n (i + 1) fd mask channel s.flag events' in
    if s.flag == mask then events' else rest

abbrev pub append_changes : List Kevent → List Kevent → List Kevent
append_changes [] old = old
append_changes (e ∷ es) old = append_changes es (e ∷ old)

-- What a poll finds for an entry: the channel, the filter and the two flags.
pub record Fired : Type 0 where
  pub channel : Ptr
  pub filter : Filter
  pub is_error : Bool
  pub is_eof : Bool

-- `submit` is the result of kevent for a list of changes.
module _ (fd_setsize : ℕ) (submit : List Kevent → ℤ) where
  unfoldable pub kevent : List Kevent → Prog ℤ
  kevent es m =
      ok (submit es)
        (record m { user = record (m.user) { changes = append_changes es m.user.changes } })

  unfoldable pub event_io_add_fd : (eio channel : Ptr) → Prog ℤ
  event_io_add_fd eio channel = do
    fd ← event_channel_get_fd channel
    mask ← event_channel_get_mask channel
    k ← load_kqueue eio
    let events = add_loop fd_setsize 0 fd mask channel 0 k.events
    store_kqueue eio (some (record k { events = events }))
    ret ← kevent (listed events fd_setsize 0)
    pure (if eqb_ℤ ret minus_one then minus_one else pos 0)

  -- The loop of `event_io_remove_fd`, with the number of entries left.
  unfoldable pub remove_loop :
      (n i : ℕ) → (fd : ℤ) → (mask : ℕ) → (eio channel : Ptr) → (flag : ℕ) → Prog ℤ
  remove_loop zero i fd mask eio channel flag = pure (pos 0)
  remove_loop (suc n) i fd mask eio channel flag = do
    k ← load_kqueue eio
    let s = mark fd ev_delete fd mask channel flag (k.events i)
    if not s.is_set
        then (if s.flag == mask
            then pure (pos 0)
            else remove_loop n (i + 1) fd mask eio channel s.flag)
        else (do
          store_kqueue eio (some (record k { events = put_entry k.events i s.event }))
          ret ← kevent (s.event ∷ [])
          if eqb_ℤ ret minus_one then pure minus_one else do
            store_kqueue eio (
                some (record k {
                  events = put_entry k.events i (record (s.event) { ident = minus_one });
                }))
            if s.flag == mask
                then pure (pos 0)
                else remove_loop n (i + 1) fd mask eio channel s.flag)

  unfoldable pub event_io_remove_fd : (eio channel : Ptr) → Prog ℤ
  event_io_remove_fd eio channel = do
    fd ← event_channel_get_fd channel
    mask ← event_channel_get_mask channel
    remove_loop fd_setsize 0 fd mask eio channel 0

-- `call` is what the program's function pointers do.
module _ (call : Ptr → Ptr → Prog ℤ) where
  -- The last three `if`s of the loop of `event_io_poll`.
  unfoldable pub serve_filter : Filter → Ptr → Prog (Unit {0})
  serve_filter unset channel = pure tt
  serve_filter evfilt_read channel = do event_channel_on_read call channel; pure tt
  serve_filter evfilt_write channel = do event_channel_on_write call channel; pure tt
  serve_filter evfilt_except channel = do event_channel_on_error call channel; pure tt

  -- The body of the loop.
  unfoldable pub serve_event : Fired → Prog (Unit {0})
  serve_event e = do
    event_channel_get_fd e.channel
    if e.is_error
        then (do event_channel_on_error call e.channel; pure tt)
        else if e.is_eof
        then (do event_channel_on_close call e.channel; pure tt)
        else serve_filter e.filter e.channel

  unfoldable pub poll_loop : List Fired → Prog (Unit {0})
  poll_loop [] = pure tt
  poll_loop (e ∷ es) = do serve_event e; poll_loop es

  -- `wait` is what kevent finds within a time, `none` for an error.
  unfoldable pub event_io_poll :
      (wait : Timespec → Option (List Fired)) → (eio map : Ptr) → (timeout : ℕ) → Prog ℤ
  event_io_poll wait eio map timeout = do
    length ← event_channel_map_get_length map
    if length == 0 then pure (pos 0) else do
      load_kqueue eio
      elim (wait (record { sec = timeout / 1000; nsec = timeout % 1000 * 1000 * 1000 })) [
        | none ↦ pure minus_one
        | some es ↦ do poll_loop es; pure (pos 0)
      ]
