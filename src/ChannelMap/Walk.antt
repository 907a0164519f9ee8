-- ===== src/ChannelMap/Walk.antt =====
-- A walk through the channels of a map with `event_channel_map_get_head` and
-- `event_channel_map_get_next`, as the backends of src/event_io.h make it.
use eloop.Base.{
  ℕ, zero, suc, ◌+◌, ◌<◌, ◌≡◌, refl, List, [], ◌∷◌, ◌==◌, if◌then◌else◌, ne→==, length, arith,
}
use eloop.Memory.{Ptr, null, ok, out_of_fuel, pure, ◌>>=◌}
use eloop.LinkedList.Links.{Cells, Links}
use eloop.LinkedList.Access.{list_get_head-ok, list_get_next-ok, list_get_data-ok}
use eloop.World.{Memory, Prog}
use eloop.ChannelMap.{event_channel_map_get_head, event_channel_map_get_next}
use eloop.ChannelMap.Find.{AllChannels, IsMap, load_map-ok}

-- The data of the cells, in order.
abbrev pub items : Cells → List Ptr
items [] = []
items ((p, i) ∷ xs) = i ∷ items xs

-- The walk from a channel on, with the value of its `meta`.
unfoldable pub walk : ℕ → (channel meta : Ptr) → Prog (List Ptr)
walk zero channel meta = λ _. out_of_fuel
walk (suc fuel) channel meta = if channel == null then pure [] else do
  (next, meta') ← event_channel_map_get_next meta
  rest ← walk fuel next meta'
  pure (channel ∷ rest)

unfoldable pub channels : ℕ → (map : Ptr) → Prog (List Ptr)
channels fuel map = do (channel, meta) ← event_channel_map_get_head map null; walk fuel channel meta

module _ (m : Memory) where
  walk-run :
      (fuel : ℕ) (before p i : Ptr) (ys : Cells)
      → Links m.node_at before ((p, i) ∷ ys) null
      → AllChannels m.user ((p, i) ∷ ys)
      → length ys + 1 < fuel
      → walk fuel i p m ≡ ok (i ∷ items ys) m
  unfolding walk event_channel_map_get_next
  walk-run zero before p i ys s a h = absurd (omega arith)
  walk-run (suc zero) before p i ys s a h = absurd (omega arith)
  walk-run (suc (suc fuel)) before p i [] s a h =
      rw (ne→== i null a.0, ne→== p null s.0, list_get_next-ok m p _ s.0 s.1) refl
  walk-run (suc (suc fuel)) before p i ((q, j) ∷ ys) s a h =
      rw
        (
          ne→== i null a.0,
          ne→== p null s.0,
          list_get_next-ok m p _ s.0 s.1,
          ne→== q null s.3.0,
          list_get_data-ok m q _ s.3.0 s.3.1,
          walk-run (suc fuel) p q j ys s.3 a.2 (omega arith),
        )
        refl

  walk_nil : (fuel : ℕ) → 0 < fuel → walk fuel null null m ≡ ok [] m
  unfolding walk
  walk_nil zero h = absurd (omega arith)
  walk_nil (suc fuel) h = refl

  channels_cells :
      (fuel : ℕ) {map l : Ptr} (xs : Cells)
      → IsMap m map l xs
      → length xs < fuel
      → channels fuel map m ≡ ok (items xs) m
  unfolding channels event_channel_map_get_head
  channels_cells fuel [] is h =
      rw (load_map-ok m is.ne_null is.at_map, list_get_head-ok is.list) (walk_nil fuel h)
  channels_cells fuel ((p, i) ∷ xs) is h =
      let s = is.list.links in
      rw
        (
          load_map-ok m is.ne_null is.at_map,
          list_get_head-ok is.list,
          ne→== p null s.0,
          list_get_data-ok m p _ s.0 s.1,
        )
        (walk-run fuel null p i xs s is.channels (omega arith))

-- A walk through a map with `event_channel_map_get_head` and `event_channel_map_get_next`, with more
-- rounds than the map has channels, meets the channel of each cell once, in order, then NULL, and
-- changes nothing.
channels-items :
    (m : Memory) (fuel : ℕ) {map l : Ptr} {xs : Cells}
    → IsMap m map l xs
    → length xs < fuel
    → channels fuel map m ≡ ok (items xs) m
channels-items m fuel {xs = xs} is h = channels_cells m fuel xs is h
