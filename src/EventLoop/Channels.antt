-- ===== src/EventLoop/Channels.antt =====
-- The channels of src/event_loop.c: the loop's map, kept in step with what the loop polls.
pub mod Remove
pub mod Watches
pub mod Touch
pub mod InStep
pub mod Update
pub mod RemoveFd
use Prim.Native.Nat.{bit_or}
use eloop.Base.{ℕ, Bool, true, false, ◌==◌, if◌then◌else◌, ℤ, pos, minus_one, eqb_ℤ}
use eloop.Memory.{Ptr, null, pure, ◌>>=◌, ◌>>◌, when}
use eloop.World.{Prog, load_loop}
use eloop.EventChannel.{
  fd_mask_none, fd_mask_read, fd_mask_write, fd_mask_error, event_channel_get_fd,
  event_channel_get_mask, event_channel_set_mask, event_channel_remove_mask,
}
use eloop.EventIo.{EventIo}
use eloop.ChannelMap.{event_channel_map_add, event_channel_map_find, event_channel_map_remove}

module _ (io : EventIo) where
  -- `fresh` is the address that calloc returns for the node of the map.
  unfoldable pub event_loop_add_channel : (fresh eloop channel : Ptr) → Prog ℤ
  event_loop_add_channel fresh eloop channel = do
    lp ← load_loop eloop
    ret ← event_channel_map_add fresh lp.ec_map channel
    when (eqb_ℤ ret (pos 0)) (do io.add_fd lp.fd_io channel; pure tt)
    pure ret

  -- The result, and the value of `*is_delete` after the call.
  unfoldable pub event_loop_remove_fd : ℕ → (eloop : Ptr) → (fd : ℤ) → (mask : ℕ) → Prog (ℤ × Bool)
  event_loop_remove_fd fuel eloop fd mask = do
    lp ← load_loop eloop
    channel ← event_channel_map_find fuel lp.ec_map fd
    if channel == null then pure (minus_one, false) else do
      origin_mask ← event_channel_get_mask channel
      event_channel_set_mask channel mask
      io.remove_fd lp.fd_io channel
      event_channel_set_mask channel origin_mask
      event_channel_remove_mask channel mask
      left ← event_channel_get_mask channel
      if left == fd_mask_none
          then (do event_channel_map_remove fuel lp.ec_map fd; pure (pos 0, true))
          else pure (pos 0, false)

  unfoldable pub event_loop_remove_channel : ℕ → (eloop channel : Ptr) → Prog ℤ
  event_loop_remove_channel fuel eloop channel = do
    fd ← event_channel_get_fd channel
    lp ← load_loop eloop
    io.remove_fd lp.fd_io channel
    event_channel_map_remove fuel lp.ec_map fd
    pure (pos 0)

  unfoldable pub event_loop_update_channel : (eloop channel : Ptr) → Prog ℤ
  event_loop_update_channel eloop channel = do
    origin_mask ← event_channel_get_mask channel
    event_channel_set_mask channel (bit_or (bit_or fd_mask_read fd_mask_write) fd_mask_error)
    lp ← load_loop eloop
    io.remove_fd lp.fd_io channel
    event_channel_set_mask channel origin_mask
    io.add_fd lp.fd_io channel
