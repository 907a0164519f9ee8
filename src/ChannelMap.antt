-- ===== src/ChannelMap.antt =====
-- src/event_channel_map.c: the list of the channels of an event loop, over the list of
-- `LinkedList`. `map` is the address of a `struct event_channel_map`, and a loop takes `fuel`, the
-- number of rounds that it may make.
pub mod Find
pub mod MaxFd
pub mod Remove
pub mod Walk
mod Tests
use eloop.Base.{
  ℕ, zero, suc, Option, none, some, ◌==◌, if◌then◌else◌, ℤ, minus_one, eqb_ℤ, ltb_ℤ, not,
}
use eloop.Memory.{Ptr, null, pure, out_of_fuel, ◌>>=◌, ◌>>◌}
use eloop.LinkedList.{
  list_create, list_delete, list_append, list_remove_node, list_length, list_get_head,
  list_get_next, list_get_data,
}
use eloop.World.{Prog, load_map, store_map}
use eloop.EventChannel.{event_channel_get_fd}

-- The caller's pointer comes in and goes out as the result.
unfoldable pub event_channel_map_delete : ℕ → Ptr → Prog Ptr
event_channel_map_delete fuel map = if map == null then pure null else do
  l ← load_map map
  l' ← list_delete fuel l none
  store_map map (some l')
  store_map map none
  pure null

unfoldable pub event_channel_map_create : (fresh list : Ptr) → Prog Ptr
event_channel_map_create fresh list = if fresh == null then pure null else do
  store_map fresh (some null)
  l ← list_create list
  store_map fresh (some l)
  if l == null then event_channel_map_delete 1 fresh else pure fresh

-- The loop of `_map_find`: the channel or NULL, and what `*nodep` holds.
unfoldable pub map_find_loop : ℕ → (node : Ptr) → (fd : ℤ) → (nodep : Ptr) → Prog (Ptr × Ptr)
map_find_loop zero node fd nodep = λ _. out_of_fuel
map_find_loop (suc fuel) node fd nodep = if node == null then pure (null, nodep) else do
  channel ← list_get_data node
  fd' ← event_channel_get_fd channel
  if eqb_ℤ fd' fd
      then pure (channel, node)
      else do next ← list_get_next node; map_find_loop fuel next fd node

unfoldable pub map_find : ℕ → (map : Ptr) → (fd : ℤ) → Prog (Ptr × Ptr)
map_find fuel map fd = do l ← load_map map; head ← list_get_head l; map_find_loop fuel head fd null

unfoldable pub event_channel_map_add : (fresh map channel : Ptr) → Prog ℤ
event_channel_map_add fresh map channel = do l ← load_map map; list_append fresh l channel

unfoldable pub event_channel_map_remove : ℕ → (map : Ptr) → (fd : ℤ) → Prog ℕ
event_channel_map_remove fuel map fd = do
  (channel, node) ← map_find fuel map fd
  l ← load_map map
  list_remove_node l node none

unfoldable pub event_channel_map_find : ℕ → (map : Ptr) → (fd : ℤ) → Prog Ptr
event_channel_map_find fuel map fd = do (channel, node) ← map_find fuel map fd; pure channel

unfoldable pub event_channel_map_get_length : Ptr → Prog ℕ
event_channel_map_get_length map = do l ← load_map map; list_length l

unfoldable pub max_fd_loop : ℕ → (node : Ptr) → (ret : ℤ) → Prog ℤ
max_fd_loop zero node ret = λ _. out_of_fuel
max_fd_loop (suc fuel) node ret = if node == null then pure ret else do
  channel ← list_get_data node
  fd ← event_channel_get_fd channel
  next ← list_get_next node
  max_fd_loop fuel next (if ltb_ℤ ret fd then fd else ret)

unfoldable pub event_channel_map_get_max_fd : ℕ → Ptr → Prog ℤ
event_channel_map_get_max_fd fuel map = do
  l ← load_map map
  head ← list_get_head l
  max_fd_loop fuel head minus_one

-- The channel, or NULL, and the value of `*meta` after the call.
unfoldable pub event_channel_map_get_head : (map meta : Ptr) → Prog (Ptr × Ptr)
event_channel_map_get_head map meta = do
  l ← load_map map
  node ← list_get_head l
  if node == null then pure (null, meta) else do channel ← list_get_data node; pure (channel, node)

unfoldable pub event_channel_map_get_next : (meta : Ptr) → Prog (Ptr × Ptr)
event_channel_map_get_next meta = if meta == null then pure (null, meta) else do
  node ← list_get_next meta
  if node == null then pure (null, meta) else do channel ← list_get_data node; pure (channel, node)
