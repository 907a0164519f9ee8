-- ===== src/EventIo/Select.antt =====
-- src/event_io_select.c. `fd_setsize` is FD_SETSIZE: FD_SET, FD_CLR and FD_ISSET are defined for
-- the descriptors from 0 to below it, and any other is a fault here.
pub mod Sets
pub mod InStep
pub mod Dispatch
pub mod Poll
use eloop.Base.{
  ℕ, zero, suc, ◌+◌, ◌*◌, ◌/◌, ◌%◌, ◌-◌, ◌^◌, Bool, true, false, ◌||◌, none, some, ◌==◌,
  if◌then◌else◌, ltb, ℤ, pos, negsuc, minus_one, eqb_ℤ, ltb_ℤ,
}
use eloop.Memory.{Ptr, null, fault, out_of_fuel, pure, ◌>>=◌, ◌>>◌, when}
use eloop.World.{FdSet, Select, Prog, load_select, store_select}
use eloop.EventChannel.{
  fd_mask_read, fd_mask_write, fd_mask_error, event_channel_get_fd, event_channel_is_exist_mask,
  event_channel_on_read, event_channel_on_write, event_channel_on_error,
}
use eloop.ChannelMap.{
  event_channel_map_get_length, event_channel_map_get_max_fd, event_channel_map_get_head,
  event_channel_map_get_next,
}
use eloop.EventIo.{EventIo}

-- FD_ZERO, FD_SET and FD_CLR.
abbrev pub fd_zero : FdSet
fd_zero a = false

abbrev pub fd_set : ℤ → FdSet → FdSet
fd_set fd s a = if eqb_ℤ a fd then true else s a

abbrev pub fd_clr : ℤ → FdSet → FdSet
fd_clr fd s a = if eqb_ℤ a fd then false else s a

abbrev pub zeroed_select : Select
zeroed_select = record {
  fds_read = fd_zero;
  fds_write = fd_zero;
  fds_exp = fd_zero;
  fds_read_back = fd_zero;
  fds_write_back = fd_zero;
  fds_exp_back = fd_zero;
  max_fd = pos 0;
  fds_is_dirty = false;
}

-- The caller's pointer comes in and goes out as the result.
unfoldable pub event_io_delete : Ptr → Prog Ptr
unfolding load_select store_select
event_io_delete eio =
    if eio == null then pure null else (do load_select eio; store_select eio none; pure null)

-- `fresh` is the address that calloc returns. calloc's zeros are the empty sets of FD_ZERO.
unfoldable pub event_io_create : (fresh : Ptr) → Prog Ptr
unfolding store_select event_io_delete
event_io_create fresh = if fresh == null then event_io_delete fresh else do
  store_select fresh (some zeroed_select)
  store_select fresh (some (record zeroed_select { max_fd = minus_one; fds_is_dirty = true }))
  pure fresh

unfoldable pub modify_select : (Select → Select) → Ptr → Prog (Unit {0})
unfolding load_select store_select
modify_select f eio = do s ← load_select eio; store_select eio (some (f s))

-- `+ 1` on an `int`.
abbrev pub succ_int : ℤ → ℤ
succ_int (pos n) = if n + 1 == 2 ^ 31 then negsuc (2 ^ 31 - 1) else pos (n + 1)
succ_int (negsuc zero) = pos 0
succ_int (negsuc (suc n)) = negsuc n

-- What the milliseconds of a timeout are in a `struct timeval`.
pub record Timeval : Type 0 where
  pub tv_sec : ℕ
  pub tv_usec : ℕ

abbrev pub timeval_of : ℕ → Timeval
timeval_of timeout = record { tv_sec = timeout / 1000; tv_usec = timeout % 1000 * 1000 }

-- The result of select(2), and the three sets after the call.
pub record Selected : Type 0 where
  pub count : ℤ
  pub interrupted : Bool
  pub ready_read : FdSet
  pub ready_write : FdSet
  pub ready_exp : FdSet

module _ (fd_setsize : ℕ) where
  abbrev pub in_range : ℤ → Bool
  in_range (pos n) = ltb n fd_setsize
  in_range (negsuc n) = false

  -- The descriptor of a channel, for one of the three macros.
  unfoldable pub checked_fd : (channel : Ptr) → Prog ℤ
  unfolding event_channel_get_fd
  checked_fd channel = do
    fd ← event_channel_get_fd channel
    if in_range fd then pure fd else λ _. fault

  -- One line of `event_io_add_fd` and of `event_io_remove_fd`.
  unfoldable pub change_if :
      (mask : ℕ) → (ℤ → Select → Select) → (eio channel : Ptr) → Prog (Unit {0})
  unfolding event_channel_is_exist_mask checked_fd modify_select
  change_if mask change eio channel = do
    exist ← event_channel_is_exist_mask channel mask
    when exist (do fd ← checked_fd channel; modify_select (change fd) eio)

  unfoldable pub event_io_add_fd : (eio channel : Ptr) → Prog ℤ
  unfolding change_if modify_select
  event_io_add_fd eio channel = do
    change_if fd_mask_read (λ fd s. record s { fds_read = fd_set fd s.fds_read }) eio channel
    change_if fd_mask_write (λ fd s. record s { fds_write = fd_set fd s.fds_write }) eio channel
    change_if fd_mask_error (λ fd s. record s { fds_exp = fd_set fd s.fds_exp }) eio channel
    modify_select (λ s. record s { fds_is_dirty = true }) eio
    pure (pos 0)

  unfoldable pub event_io_remove_fd : (eio channel : Ptr) → Prog ℤ
  unfolding change_if modify_select
  event_io_remove_fd eio channel = do
    change_if fd_mask_read (λ fd s. record s { fds_read = fd_clr fd s.fds_read }) eio channel
    change_if fd_mask_write (λ fd s. record s { fds_write = fd_clr fd s.fds_write }) eio channel
    change_if fd_mask_error (λ fd s. record s { fds_exp = fd_clr fd s.fds_exp }) eio channel
    modify_select (λ s. record s { fds_is_dirty = true }) eio
    pure (pos 0)

  -- `call` is what the program's function pointers do.
  module _ (call : Ptr → Ptr → Prog ℤ) where
    -- `if (FD_ISSET(fd, set)) event_ret = on_event(channel);`
    unfoldable pub notify_if :
        (Select → FdSet) → (Ptr → Prog ℤ) → (fd : ℤ) → (eio channel : Ptr) → Prog (Unit {0})
    unfolding load_select
    notify_if set on_event fd eio channel =
        if in_range fd
        then (do s ← load_select eio; when (set s fd) (do on_event channel; pure tt))
        else λ _. fault

    -- The loop of `event_io_poll`: the value of `live_count` at its end.
    unfoldable pub dispatch_loop : ℕ → (eio channel meta : Ptr) → (live_count : ℕ) → Prog ℕ
    dispatch_loop zero eio channel meta live_count = λ _. out_of_fuel
    dispatch_loop (suc fuel) eio channel meta live_count =
        if (channel == null) || (meta == null) then pure live_count else do
          fd ← event_channel_get_fd channel
          (channel_next, meta') ← event_channel_map_get_next meta
          notify_if (λ s. s.fds_read_back) (event_channel_on_read call) fd eio channel
          notify_if (λ s. s.fds_write_back) (event_channel_on_write call) fd eio channel
          notify_if (λ s. s.fds_exp_back) (event_channel_on_error call) fd eio channel
          dispatch_loop fuel eio channel_next meta' (live_count + 1)

    -- The three copies that select may write to.
    unfoldable pub copy_sets : (eio : Ptr) → Prog (Unit {0})
    copy_sets eio = do
      modify_select (λ s. record s { fds_read_back = s.fds_read }) eio
      modify_select (λ s. record s { fds_write_back = s.fds_write }) eio
      modify_select (λ s. record s { fds_exp_back = s.fds_exp }) eio

    unfoldable pub refresh_max : ℕ → (eio map : Ptr) → Prog (Unit {0})
    refresh_max fuel eio map = do
      s ← load_select eio
      when s.fds_is_dirty (do
        modify_select (λ s. record s { fds_is_dirty = false }) eio
        max ← event_channel_map_get_max_fd fuel map
        modify_select (λ s. record s { max_fd = max }) eio)

    -- What follows the system call.
    unfoldable pub handle_ready : Selected → ℕ → (eio map : Ptr) → Prog ℤ
    handle_ready r fuel eio map =
        if ltb_ℤ r.count (pos 0)
        then pure (if r.interrupted then pos 0 else r.count)
        else if ltb_ℤ (pos 0) r.count
        then (do
          (channel, meta) ← event_channel_map_get_head map null
          live_count ← dispatch_loop fuel eio channel meta 0
          pure (pos live_count))
        else pure (pos 0)

    -- `select` is the system call, as on Linux. It may write to the copies of the three sets.
    unfoldable pub event_io_poll :
        (select : ℤ → FdSet → FdSet → FdSet → Timeval → Selected)
        → ℕ
        → (eio map : Ptr) → (timeout : ℕ) → Prog ℤ
    event_io_poll select fuel eio map timeout = do
      length ← event_channel_map_get_length map
      if length == 0 then pure (pos 0) else do
        copy_sets eio
        refresh_max fuel eio map
        s ← load_select eio
        let r =
            select (succ_int s.max_fd) s.fds_read_back s.fds_write_back s.fds_exp_back
              (timeval_of timeout)
        modify_select
            (λ s. record s {
              fds_read_back = r.ready_read;
              fds_write_back = r.ready_write;
              fds_exp_back = r.ready_exp;
            })
            eio
        handle_ready r fuel eio map

    -- The backend, as an event loop sees it.
    abbrev pub select_io : (ℤ → FdSet → FdSet → FdSet → Timeval → Selected) → ℕ → EventIo
    select_io select fuel = record {
      add_fd = event_io_add_fd;
      remove_fd = event_io_remove_fd;
      poll = event_io_poll select fuel;
    }
