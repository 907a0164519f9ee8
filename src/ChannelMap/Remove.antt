-- ===== src/ChannelMap/Remove.antt =====
-- `event_channel_map_add` and `event_channel_map_remove`.
use eloop.Base.{ℕ, ◌<◌, ◌≡◌, ◌≢◌, refl, ◌∙◌, true, false, none, some, [], ◌∷◌, ◌++◌, ℤ, pos, length}
use eloop.Memory.{Ptr, null, ok}
use eloop.LinkedList.Links.{Cells, last}
use eloop.LinkedList.Clear.{list_remove_node-null}
use eloop.LinkedList.Remove.{list_remove_node-refines}
use eloop.LinkedList.Insert.{IsFresh}
use eloop.LinkedList.AppendAfter.{list_append-refines}
use eloop.World.{Channel, World, Memory}
use eloop.ChannelMap.{event_channel_map_add, event_channel_map_remove}
use eloop.ChannelMap.Find.{AllChannels, matches, node_of, IsMap, load_map-ok, map_find-run}

-- No channel of the cells has the descriptor.
abbrev pub NoFd : World → ℤ → Cells → Type 0
NoFd w fd [] = Unit {0}
NoFd w fd ((p, i) ∷ xs) = (matches w fd i ≡ false) × NoFd w fd xs

AllChannels-append :
    (w : World) (xs ys : Cells) → AllChannels w xs → AllChannels w ys → AllChannels w (xs ++ ys)
AllChannels-append w [] ys a b = b
AllChannels-append w ((p, i) ∷ xs) ys a b = (a.0, a.1, AllChannels-append w xs ys a.2 b)

AllChannels-without :
    (w : World) (xs : Cells) (c : Ptr × Ptr) (ys : Cells)
    → AllChannels w (xs ++ c ∷ ys)
    → AllChannels w (xs ++ ys)
AllChannels-without w [] (p, i) ys a = a.2
AllChannels-without w ((q, j) ∷ xs) c ys a = (a.0, a.1, AllChannels-without w xs c ys a.2)

module _ (w : World) (fd : ℤ) where
  node_of-present :
      (xs : Cells) (p i : Ptr) (ys : Cells) (q : Ptr)
      → NoFd w fd xs
      → matches w fd i ≡ true
      → node_of w fd (xs ++ (p, i) ∷ ys) q ≡ p
  unfolding node_of
  node_of-present [] p i ys q n h = rw h
  node_of-present ((r, j) ∷ xs) p i ys q n h = rw n.0 (node_of-present xs p i ys r n.1 h)

  -- A search that fails ends at the last node.
  node_of-absent : (xs : Cells) (q : Ptr) → NoFd w fd xs → node_of w fd xs q ≡ last xs q
  unfolding node_of
  node_of-absent [] q n = refl
  node_of-absent ((r, j) ∷ xs) q n = rw n.0 (node_of-absent xs r n.1)

  NoFd-left : (xs ys : Cells) → NoFd w fd (xs ++ ys) → NoFd w fd xs
  NoFd-left [] ys n = tt
  NoFd-left ((r, j) ∷ xs) ys n = (n.0, NoFd-left xs ys n.1)

last-snoc : (xs : Cells) (p i q : Ptr) → last (xs ++ (p, i) ∷ []) q ≡ p
last-snoc [] p i q = refl
last-snoc ((r, j) ∷ xs) p i q = last-snoc xs p i r

module _ (m : Memory) {map l : Ptr} where
  -- Removing the node where the search ends.
  removed-IsMap :
      (fuel : ℕ) (fd : ℤ) (xs : Cells) (p i : Ptr) (ys : Cells)
      → IsMap m map l (xs ++ (p, i) ∷ ys)
      → length (xs ++ (p, i) ∷ ys) < fuel
      → node_of m.user fd (xs ++ (p, i) ∷ ys) null ≡ p
      → (m' : Memory) × (event_channel_map_remove fuel map fd m ≡ ok 1 m')
        × IsMap m' map l (xs ++ ys)
        × (m'.user ≡ m.user)
  unfolding event_channel_map_remove
  removed-IsMap fuel fd xs p i ys is h e =
      let (m', run, list, u, gone, same) = list_remove_node-refines xs p i ys is.list none in
      (
        m',
        rw (map_find-run m is fuel fd h, load_map-ok m is.ne_null is.at_map, e) run,
        record {
          ne_null = is.ne_null;
          at_map = rw u is.at_map;
          list = list;
          channels = rw u (AllChannels-without m.user xs (p, i) ys is.channels);
        },
        u,
      )

  -- `event_channel_map_remove` of a descriptor that the map has, with more rounds than the map has
  -- channels: the call returns 1, the first channel with the descriptor leaves the map, and no
  -- channel changes.
  pub event_channel_map_remove-present :
      (fuel : ℕ) (fd : ℤ) (xs : Cells) (p i : Ptr) (ys : Cells)
      → IsMap m map l (xs ++ (p, i) ∷ ys)
      → length (xs ++ (p, i) ∷ ys) < fuel
      → NoFd m.user fd xs
      → matches m.user fd i ≡ true
      → (m' : Memory) × (event_channel_map_remove fuel map fd m ≡ ok 1 m')
        × IsMap m' map l (xs ++ ys)
        × (m'.user ≡ m.user)
  event_channel_map_remove-present fuel fd xs p i ys is h n hit =
      removed-IsMap fuel fd xs p i ys is h (node_of-present m.user fd xs p i ys null n hit)

  -- `event_channel_map_remove` of a descriptor that no channel of a map with some channel has, with
  -- more rounds than the map has channels: the call returns 1 all the same, and the last channel
  -- leaves the map.
  pub event_channel_map_remove-absent :
      (fuel : ℕ) (fd : ℤ) (xs : Cells) (p i : Ptr)
      → IsMap m map l (xs ++ (p, i) ∷ [])
      → length (xs ++ (p, i) ∷ []) < fuel
      → NoFd m.user fd (xs ++ (p, i) ∷ [])
      → (m' : Memory) × (event_channel_map_remove fuel map fd m ≡ ok 1 m')
        × IsMap m' map l (xs ++ [])
        × (m'.user ≡ m.user)
  event_channel_map_remove-absent fuel fd xs p i is h n =
      removed-IsMap fuel fd xs p i [] is h
        (node_of-absent m.user fd (xs ++ (p, i) ∷ []) null n ∙ last-snoc xs p i null)

  -- `event_channel_map_remove` from an empty map returns 0 and changes nothing.
  pub event_channel_map_remove-empty :
      (fuel : ℕ) (fd : ℤ)
      → IsMap m map l []
      → 0 < fuel
      → event_channel_map_remove fuel map fd m ≡ ok 0 m
  unfolding event_channel_map_remove node_of
  event_channel_map_remove-empty fuel fd is h =
      rw (map_find-run m is fuel fd h, load_map-ok m is.ne_null is.at_map)
        (list_remove_node-null m none is.list.ne_null)

  -- `event_channel_map_add` of a channel, with memory for a node: the call returns 0, the channel
  -- stands last in the map, and no channel changes.
  pub event_channel_map_add-last :
      {fresh : Ptr} (channel : Ptr) (xs : Cells)
      → IsMap m map l xs
      → IsFresh m fresh
      → channel ≢ null
      → (c : Channel) × (m.user.channel_at channel ≡ some c)
      → (m' : Memory) × (event_channel_map_add fresh map channel m ≡ ok (pos 0) m')
        × IsMap m' map l (xs ++ (fresh, channel) ∷ [])
        × (m'.user ≡ m.user)
  unfolding event_channel_map_add
  event_channel_map_add-last channel xs is new ne there =
      let (m', run, ins) = list_append-refines channel xs is.list new in
      (
        m',
        rw (load_map-ok m is.ne_null is.at_map) run,
        record {
          ne_null = is.ne_null;
          at_map = rw (ins.user) is.at_map;
          list = ins.list;
          channels = rw (ins.user) (AllChannels-append m.user xs _ is.channels (ne, there, tt));
        },
        ins.user,
      )
