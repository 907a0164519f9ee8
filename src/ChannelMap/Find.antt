-- ===== src/ChannelMap/Find.antt =====
-- What a channel map stands for, and the searches of src/event_channel_map.c.
use eloop.Base.{
  ℕ, zero, suc, ◌<◌, ◌≡◌, ◌≢◌, refl, inl, inr, Bool, Bool-cases, none, some, [], ◌∷◌, ne→==,
  if◌then◌else◌, ℤ, minus_one, eqb_ℤ, length, arith,
}
use eloop.Memory.{Ptr, null, ok}
use eloop.LinkedList.Links.{Cells, first, Links, IsList}
use eloop.LinkedList.Access.{list_get_head-ok, list_get_next-ok, list_get_data-ok, list_length-ok}
use eloop.World.{Channel, World, Memory, load_map, load_channel}
use eloop.EventChannel.{event_channel_get_fd}
use eloop.ChannelMap.{map_find_loop, map_find, event_channel_map_find, event_channel_map_get_length}

-- The data of each cell is a channel.
abbrev pub AllChannels : World → Cells → Type 0
AllChannels w [] = Unit {0}
AllChannels w ((p, i) ∷ xs) =
    (i ≢ null) × ((c : Channel) × (w.channel_at i ≡ some c)) × AllChannels w xs

-- The file descriptor of a channel in use.
abbrev pub fd_at : World → Ptr → ℤ
fd_at w i = elim (w.channel_at i) [ none ↦ minus_one | some c ↦ c.fd ]

-- `map` is the address of a map whose list, at `l`, holds the channels of the cells `xs`.
pub record IsMap (m : Memory) (map l : Ptr) (xs : Cells) : Type 0 where
  pub ne_null : map ≢ null
  pub at_map : m.user.map_at map ≡ some l
  pub list : IsList m l xs
  pub channels : AllChannels m.user xs

module _ (w : World) (fd : ℤ) where
  abbrev pub matches : Ptr → Bool
  matches i = eqb_ℤ (fd_at w i) fd

  -- The first channel with the descriptor, or NULL.
  unfoldable pub channel_of : Cells → Ptr
  channel_of [] = null
  channel_of ((p, i) ∷ xs) = if matches i then i else channel_of xs

  -- The node where the search ends: that of the channel found, or the last one.
  unfoldable pub node_of : Cells → Ptr → Ptr
  node_of [] q = q
  node_of ((p, i) ∷ xs) q = if matches i then p else node_of xs p

module _ (m : Memory) where
  pub load_map-ok :
      {map l : Ptr} → map ≢ null → m.user.map_at map ≡ some l → load_map map m ≡ ok l m
  unfolding load_map
  load_map-ok {map} ne e = rw (ne→== map null ne, e)

  pub get_fd-ok :
      (i : Ptr)
      → i ≢ null
      → (c : Channel) × (m.user.channel_at i ≡ some c)
      → event_channel_get_fd i m ≡ ok (fd_at m.user i) m
  unfolding event_channel_get_fd load_channel
  get_fd-ok i ne (c, e) = ground (arith, ne→== i null ne)

  map_find_loop-run :
      (fuel : ℕ) (before : Ptr) (ys : Cells) (fd : ℤ) (nodep : Ptr)
      → Links m.node_at before ys null
      → AllChannels m.user ys
      → length ys < fuel
      → map_find_loop fuel (first ys null) fd nodep m
        ≡ ok (channel_of m.user fd ys, node_of m.user fd ys nodep) m
  unfolding map_find_loop channel_of node_of
  map_find_loop-run zero before ys fd nodep s a h = absurd (omega arith)
  map_find_loop-run (suc fuel) before [] fd nodep s a h = refl
  map_find_loop-run (suc fuel) before ((p, i) ∷ ys) fd nodep s a h =
      rw (ne→== p null s.0, list_get_data-ok m p _ s.0 s.1, get_fd-ok i a.0 a.1)
        (elim (Bool-cases (matches m.user fd i)) [
          | inl hit ↦ rw hit
          | inr miss ↦
              rw (miss, list_get_next-ok m p _ s.0 s.1)
                (map_find_loop-run fuel p ys fd p s.3 a.2 (omega arith))
        ])

  module _ {map l : Ptr} {xs : Cells} (is : IsMap m map l xs) where
    pub map_find-run :
        (fuel : ℕ) (fd : ℤ)
        → length xs < fuel
        → map_find fuel map fd m ≡ ok (channel_of m.user fd xs, node_of m.user fd xs null) m
    unfolding map_find
    map_find-run fuel fd h =
        rw (load_map-ok is.ne_null is.at_map, list_get_head-ok is.list)
          (map_find_loop-run fuel null xs fd null is.list.links is.channels h)

    -- `event_channel_map_find`, with more rounds than the map has channels: the first channel whose
    -- descriptor is `fd`, or NULL, and nothing changes.
    pub event_channel_map_find-run :
        (fuel : ℕ) (fd : ℤ)
        → length xs < fuel
        → event_channel_map_find fuel map fd m ≡ ok (channel_of m.user fd xs) m
    unfolding event_channel_map_find
    event_channel_map_find-run fuel fd h = rw (map_find-run fuel fd h)

    pub event_channel_map_get_length-run : event_channel_map_get_length map m ≡ ok (length xs) m
    unfolding event_channel_map_get_length
    event_channel_map_get_length-run = rw (load_map-ok is.ne_null is.at_map, list_length-ok is.list)
