-- ===== src/EventChannel.antt =====
-- src/event_channel.c and the masks of src/event.h, with the creation and the deletion of the
-- pipes of src/buffer_pipe.c. The addresses that calloc returns are arguments, NULL when it fails.
pub mod Masks
pub mod Lifecycle
pub mod Clone
mod Tests
use Prim.Native.Nat.{bit_and, bit_or}
use eloop.Base.{
  ℕ, ◌-◌, ◌^◌, Bool, Option, none, some, ◌==◌, ◌||◌, if◌then◌else◌, not, ℤ, pos, minus_one,
}
use eloop.Memory.{Ptr, null, pure, ◌>>=◌, ◌>>◌, when}
use eloop.BufferPipe.{Pipe, buffer_pipe_create}
use eloop.World.{Channel, Prog, load_channel, load_pipe, store_channel, store_pipe}

-- `enum fd_mask`.
abbrev pub fd_mask_none : ℕ
fd_mask_none = 0

abbrev pub fd_mask_read : ℕ
fd_mask_read = 1

abbrev pub fd_mask_write : ℕ
fd_mask_write = 2

abbrev pub fd_mask_error : ℕ
fd_mask_error = 4

abbrev pub fd_mask_close : ℕ
fd_mask_close = 8

-- The indices of `procs`.
pub data Event : Type 0 where
  proc_read proc_write proc_error proc_close : Event

abbrev pub proc_of : Channel → Event → Ptr
proc_of c proc_read = c.read_proc
proc_of c proc_write = c.write_proc
proc_of c proc_error = c.error_proc
proc_of c proc_close = c.close_proc

-- `buffer_pipe_create` at the address that calloc returned.
unfoldable pub pipe_create : Ptr → Prog Ptr
unfolding buffer_pipe_create store_pipe
pipe_create fresh =
    if fresh == null then pure null else (do store_pipe fresh (some buffer_pipe_create); pure fresh)

-- `buffer_pipe_delete`: the caller's pointer comes in and goes out as the result.
unfoldable pub buffer_pipe_delete : Ptr → Prog Ptr
unfolding load_pipe store_pipe
buffer_pipe_delete p =
    if p == null then pure null else (do load_pipe p; store_pipe p none; pure null)

abbrev pub zeroed : Channel
zeroed = record {
  fd = pos 0;
  mask = 0;
  read_proc = null;
  write_proc = null;
  error_proc = null;
  close_proc = null;
  userdata = null;
  pipe_recv = null;
  pipe_send = null;
}

-- The caller's pointer comes in and goes out as the result.
unfoldable pub event_channel_delete : Ptr → Prog Ptr
unfolding load_channel store_channel buffer_pipe_delete
event_channel_delete p = if p == null then pure null else do
  c ← load_channel p
  recv ← (if c.pipe_recv == null then pure c.pipe_recv else buffer_pipe_delete c.pipe_recv)
  store_channel p (some (record c { pipe_recv = recv }))
  send ← (if c.pipe_send == null then pure c.pipe_send else buffer_pipe_delete c.pipe_send)
  store_channel p (some (record c { pipe_recv = recv; pipe_send = send }))
  store_channel p none
  pure null

unfoldable pub event_channel_create : (fresh recv send : Ptr) → Prog Ptr
unfolding store_channel pipe_create event_channel_delete
event_channel_create fresh recv send = if fresh == null then pure null else do
  store_channel fresh (some zeroed)
  r ← pipe_create recv
  store_channel fresh (some (record zeroed { pipe_recv = r }))
  s ← pipe_create send
  store_channel fresh (some (record zeroed { pipe_recv = r; pipe_send = s }))
  if r == null || s == null then event_channel_delete fresh else pure fresh

-- `_on_event`; `call` is what the program's function pointers do.
unfoldable pub on_event : (call : Ptr → Ptr → Prog ℤ) → Ptr → Event → Prog ℤ
unfolding load_channel
on_event call p e = do
  c ← load_channel p
  if proc_of c e == null then pure minus_one else call (proc_of c e) p

unfoldable pub event_channel_on_read : (call : Ptr → Ptr → Prog ℤ) → Ptr → Prog ℤ
unfolding on_event
event_channel_on_read call p = on_event call p proc_read

unfoldable pub event_channel_on_write : (call : Ptr → Ptr → Prog ℤ) → Ptr → Prog ℤ
unfolding on_event
event_channel_on_write call p = on_event call p proc_write

unfoldable pub event_channel_on_error : (call : Ptr → Ptr → Prog ℤ) → Ptr → Prog ℤ
unfolding on_event
event_channel_on_error call p = on_event call p proc_error

unfoldable pub event_channel_on_close : (call : Ptr → Ptr → Prog ℤ) → Ptr → Prog ℤ
unfolding on_event
event_channel_on_close call p = on_event call p proc_close

unfoldable pub event_channel_copy : (dst src : Ptr) → Prog (Unit {0})
unfolding load_channel store_channel
event_channel_copy dst src = do c ← load_channel src; load_channel dst; store_channel dst (some c)

unfoldable pub event_channel_clone : (fresh recv send p : Ptr) → Prog Ptr
unfolding event_channel_create event_channel_copy
event_channel_clone fresh recv send p = do
  ret ← event_channel_create fresh recv send
  when (not (ret == null)) (event_channel_copy ret p)
  pure ret

unfoldable pub event_channel_get_recv_pipe : Ptr → Prog Ptr
unfolding load_channel
event_channel_get_recv_pipe p = do c ← load_channel p; pure c.pipe_recv

unfoldable pub event_channel_get_send_pipe : Ptr → Prog Ptr
unfolding load_channel
event_channel_get_send_pipe p = do c ← load_channel p; pure c.pipe_send

unfoldable pub event_channel_get_fd : Ptr → Prog ℤ
unfolding load_channel
event_channel_get_fd p = do c ← load_channel p; pure c.fd

-- The setters: one field of the channel changes.
unfoldable pub modify_channel : (Channel → Channel) → Ptr → Prog (Unit {0})
unfolding load_channel store_channel
modify_channel f p = do c ← load_channel p; store_channel p (some (f c))

unfoldable pub event_channel_set_fd : Ptr → ℤ → Prog (Unit {0})
unfolding modify_channel
event_channel_set_fd p fd = modify_channel (λ c. record c { fd = fd }) p

unfoldable pub event_channel_set_userdata : Ptr → Ptr → Prog (Unit {0})
unfolding modify_channel
event_channel_set_userdata p u = modify_channel (λ c. record c { userdata = u }) p

unfoldable pub event_channel_get_userdata : Ptr → Prog Ptr
unfolding load_channel
event_channel_get_userdata p = do c ← load_channel p; pure c.userdata

-- `~mask` of a 32-bit int.
abbrev pub complement : ℕ → ℕ
complement mask = 2 ^ 32 - 1 - mask

-- The new bit patterns, and the two tests on them.
abbrev pub add_mask : Channel → ℕ → Channel
add_mask c mask = record c { mask = bit_or c.mask mask }

abbrev pub remove_mask : Channel → ℕ → Channel
remove_mask c mask = record c { mask = bit_and c.mask (complement mask) }

abbrev pub is_exist_mask : Channel → ℕ → Bool
is_exist_mask c mask = bit_and c.mask mask == mask

unfoldable pub event_channel_set_mask : Ptr → ℕ → Prog (Unit {0})
unfolding modify_channel
event_channel_set_mask p mask = modify_channel (λ c. record c { mask = mask }) p

unfoldable pub event_channel_get_mask : Ptr → Prog ℕ
unfolding load_channel
event_channel_get_mask p = do c ← load_channel p; pure c.mask

unfoldable pub event_channel_add_mask : Ptr → ℕ → Prog (Unit {0})
unfolding modify_channel
event_channel_add_mask p mask = modify_channel (λ c. add_mask c mask) p

unfoldable pub event_channel_remove_mask : Ptr → ℕ → Prog (Unit {0})
unfolding modify_channel
event_channel_remove_mask p mask = modify_channel (λ c. remove_mask c mask) p

unfoldable pub event_channel_is_equal_mask : Ptr → ℕ → Prog Bool
unfolding load_channel
event_channel_is_equal_mask p mask = do c ← load_channel p; pure (c.mask == mask)

unfoldable pub event_channel_is_exist_mask : Ptr → ℕ → Prog Bool
unfolding load_channel
event_channel_is_exist_mask p mask = do c ← load_channel p; pure (is_exist_mask c mask)

unfoldable pub event_channel_clear_mask : Ptr → Prog (Unit {0})
unfolding modify_channel
event_channel_clear_mask p = modify_channel (λ c. record c { mask = fd_mask_none }) p

unfoldable pub event_channel_set_read_proc : Ptr → Ptr → Prog (Unit {0})
unfolding modify_channel
event_channel_set_read_proc p proc = modify_channel (λ c. record c { read_proc = proc }) p

unfoldable pub event_channel_set_write_proc : Ptr → Ptr → Prog (Unit {0})
unfolding modify_channel
event_channel_set_write_proc p proc = modify_channel (λ c. record c { write_proc = proc }) p

unfoldable pub event_channel_set_error_proc : Ptr → Ptr → Prog (Unit {0})
unfolding modify_channel
event_channel_set_error_proc p proc = modify_channel (λ c. record c { error_proc = proc }) p

unfoldable pub event_channel_set_close_proc : Ptr → Ptr → Prog (Unit {0})
unfolding modify_channel
event_channel_set_close_proc p proc = modify_channel (λ c. record c { close_proc = proc }) p
