-- ===== src/EventLoop/Channels/InStep.antt =====
-- `event_loop_add_channel` and `event_loop_remove_channel` of src/event_loop.c with the backend of
-- src/event_io_select.c.
use eloop.Base.{
  ℕ, ◌<◌, ◌≡◌, ◌≢◌, inl, refl, sym, ap, ◌∙◌, subst, true, some, [], ◌∷◌, ◌++◌, append-nil, ℤ, pos,
  length,
}
use eloop.Memory.{Ptr, null, ok}
use eloop.LinkedList.Links.{Cells}
use eloop.LinkedList.Insert.{IsFresh}
use eloop.World.{FdSet, Channel, Loop, Memory, Prog}
use eloop.ChannelMap.Find.{matches}
use eloop.ChannelMap.Remove.{NoFd, event_channel_map_add-last, event_channel_map_remove-present}
use eloop.EventIo.{EventIo}
use eloop.EventIo.Select.{Timeval, Selected, in_range, select_io}
use eloop.EventIo.Select.Sets.{
  selects-IsMap, with_selects, added, removed, event_io_add_fd-run, event_io_remove_fd-run,
}
use eloop.EventIo.Select.InStep.{InStep, added-InStep, removed-InStep, InStep-same}
use eloop.EventLoop.Timers.Insert.{load_loop-ok}
use eloop.EventLoop.Channels.{event_loop_add_channel, event_loop_remove_channel}
use eloop.EventLoop.Channels.Watches.{NoFd-selects, get_fd-run, fd_matches, Watches}

module _ (fd_setsize : ℕ) (call : Ptr → Ptr → Prog ℤ)
    (select : ℤ → FdSet → FdSet → FdSet → Timeval → Selected) (rounds : ℕ) where
  abbrev io : EventIo
  io = select_io fd_setsize call select rounds

  module _ {m : Memory} {eloop l : Ptr} {lp : Loop} (i : Ptr) (c : Channel) (i_ne : i ≢ null)
      (range : in_range fd_setsize c.fd ≡ true) where
    -- `event_loop_add_channel` of a channel whose descriptor is in range, with memory for a node, to
    -- a loop that watches exactly what its channels wait for: it returns 0, the channel is the last
    -- of the map, no channel changes, and the loop watches exactly what its channels wait for: the
    -- sets hold just that, and `fds_is_dirty` is set or no channel has a descriptor above `max_fd`.
    pub event_loop_add_channel-Watches :
        {fresh : Ptr} (xs : Cells)
        → Watches m eloop lp l xs
        → m.user.channel_at i ≡ some c
        → IsFresh m fresh
        → (m' : Memory) × (event_loop_add_channel io fresh eloop i m ≡ ok (pos 0) m')
          × Watches m' eloop lp l (xs ++ (fresh, i) ∷ [])
          × (m'.user.channel_at ≡ m.user.channel_at)
    unfolding event_loop_add_channel
    event_loop_add_channel-Watches {fresh} xs is e new =
        let p = is.polled in
        let (m1, run1, is1, u) = event_channel_map_add-last m i xs p.channels new i_ne (c, e) in
        let e1 : m1.user.channel_at i ≡ some c = ap (λ v. v.channel_at i) u ∙ e in
        let at1 : m1.user.select_at lp.fd_io ≡ some is.sets =
          ap (λ v. v.select_at lp.fd_io) u ∙ p.at_io in
        let (f, run2, changed) =
          event_io_add_fd-run fd_setsize i c i_ne range lp.fd_io p.io_ne_null m1 e1 is.sets at1 in
        (
          with_selects m1 f,
          rw (load_loop-ok m eloop lp p.ne_null p.at_loop, run1, run2) refl,
          record {
            sets = added c is.sets;
            polled = record {
              ne_null = p.ne_null;
              at_loop = ap (λ v. v.loop_at eloop) u ∙ p.at_loop;
              channels = selects-IsMap m1 f is1;
              io_ne_null = p.io_ne_null;
              at_io = changed.here;
            };
            in_step =
                InStep-same m.user (with_selects m1 f).user (ap (λ v. v.channel_at) u)
                  (xs ++ (fresh, i) ∷ []) (added c is.sets)
                  (added-InStep m.user i c e xs [] fresh is.sets
                    (subst (λ ys. InStep m.user ys is.sets) (sym (append-nil xs)) is.in_step));
            max_known = inl refl;
          },
          ap (λ v. v.channel_at) u,
        )

    -- `event_loop_remove_channel` of a channel of the map whose descriptor is in range and is no other
    -- channel's, on a loop that watches exactly what its channels wait for, with more rounds than the
    -- map has channels: it returns 0, the channel leaves the map, no channel changes, and the loop
    -- watches exactly what its channels wait for.
    pub event_loop_remove_channel-Watches :
        (fuel : ℕ) (xs : Cells) (p : Ptr) (ys : Cells)
        → Watches m eloop lp l (xs ++ (p, i) ∷ ys)
        → m.user.channel_at i ≡ some c
        → NoFd m.user c.fd xs
        → NoFd m.user c.fd ys
        → length (xs ++ (p, i) ∷ ys) < fuel
        → (m' : Memory) × (event_loop_remove_channel io fuel eloop i m ≡ ok (pos 0) m')
          × Watches m' eloop lp l (xs ++ ys)
          × (m'.user.channel_at ≡ m.user.channel_at)
    unfolding event_loop_remove_channel
    event_loop_remove_channel-Watches fuel xs p ys is e n n' h =
        let q = is.polled in
        let (f, run1, changed) =
          event_io_remove_fd-run fd_setsize i c i_ne range lp.fd_io q.io_ne_null m e is.sets
            q.at_io in
        let m1 = with_selects m f in
        let hit : matches m.user c.fd i ≡ true = fd_matches m.user i c e in
        let (m2, run2, is2, u) =
          event_channel_map_remove-present m1 fuel c.fd xs p i ys (selects-IsMap m f q.channels) h
            (NoFd-selects m f c.fd xs n) hit in
        (
          m2,
          rw (get_fd-run m i c i_ne e, load_loop-ok m eloop lp q.ne_null q.at_loop, run1, run2)
              refl,
          record {
            sets = removed c is.sets;
            polled = record {
              ne_null = q.ne_null;
              at_loop = ap (λ v. v.loop_at eloop) u ∙ q.at_loop;
              channels = is2;
              io_ne_null = q.io_ne_null;
              at_io = ap (λ v. v.select_at lp.fd_io) u ∙ changed.here;
            };
            in_step =
                InStep-same m.user m2.user (ap (λ v. v.channel_at) u) (xs ++ ys) (removed c is.sets)
                  (removed-InStep m.user i c e xs ys p is.sets n n' is.in_step);
            max_known = inl refl;
          },
          ap (λ v. v.channel_at) u,
        )
