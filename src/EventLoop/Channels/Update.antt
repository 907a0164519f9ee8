-- ===== src/EventLoop/Channels/Update.antt =====
-- `event_loop_update_channel` of src/event_loop.c with the backend of src/event_io_select.c.
use eloop.Base.{ap, fun_ext, ◌∙◌, Option, ℕ, ◌≡◌, ◌≢◌, inl, refl, true, some, ◌∷◌, ◌++◌, ℤ, pos}
use eloop.Memory.{Ptr, null, ok}
use eloop.LinkedList.Links.{Cells}
use eloop.World.{FdSet, Select, Channel, Loop, Memory, Prog}
use eloop.ChannelMap.Remove.{NoFd}
use eloop.EventIo.{EventIo}
use eloop.EventIo.Select.{Timeval, Selected, in_range, select_io}
use eloop.EventIo.Select.Sets.{
  selects-IsMap, with_selects, added, removed, event_io_add_fd-run, event_io_remove_fd-run,
}
use eloop.EventIo.Select.InStep.{InStepBut, reset-InStep, InStep-same}
use eloop.EventLoop.Timers.Insert.{load_loop-ok}
use eloop.EventLoop.Channels.{event_loop_update_channel}
use eloop.EventLoop.Channels.Remove.{put_channel, set_mask-ok, get_mask-ok}
use eloop.EventLoop.Channels.Watches.{written, rewritten, IsPolled, Watches}

module _ (fd_setsize : ℕ) (call : Ptr → Ptr → Prog ℤ)
    (select : ℤ → FdSet → FdSet → FdSet → Timeval → Selected) (rounds : ℕ) where
  abbrev io : EventIo
  io = select_io fd_setsize call select rounds

  module _ {m : Memory} {eloop l : Ptr} {lp : Loop} (i : Ptr) (c : Channel) (i_ne : i ≢ null)
      (range : in_range fd_setsize c.fd ≡ true) where
    -- `event_loop_update_channel` of a channel of the map whose descriptor is in range and is no other
    -- channel's, where the sets hold what the channels wait for on all other descriptors: it returns
    -- 0, only the sets change, and the loop watches exactly what its channels wait for.
    pub event_loop_update_channel-Watches :
        (xs : Cells) (p : Ptr) (ys : Cells) (s : Select)
        → IsPolled m eloop lp l (xs ++ (p, i) ∷ ys) s
        → InStepBut c.fd m.user (xs ++ (p, i) ∷ ys) s
        → m.user.channel_at i ≡ some c
        → NoFd m.user c.fd xs
        → NoFd m.user c.fd ys
        → (f : Ptr → Option Select) × (event_loop_update_channel io eloop i m
            ≡ ok (pos 0) (with_selects m f))
          × Watches (with_selects m f) eloop lp l (xs ++ (p, i) ∷ ys)
    unfolding event_loop_update_channel
    event_loop_update_channel-Watches xs p ys s q but e n n' =
        let all : ℕ = 7 in
        let m1 = put_channel m i (record c { mask = all }) in
        let e1 = written m i (record c { mask = all }) in
        let (f1, run1, changed1) =
          event_io_remove_fd-run fd_setsize i (record c { mask = all }) i_ne range lp.fd_io
            q.io_ne_null m1 e1 s q.at_io in
        let m2 = with_selects m1 f1 in
        let m3 = put_channel m2 i c in
        let (f2, run2, changed2) =
          event_io_add_fd-run fd_setsize i c i_ne range lp.fd_io q.io_ne_null m3 (written m2 i c)
            (removed (record c { mask = all }) s) changed1.here in
        let m4 = with_selects m3 f2 in
        let same : (a : Ptr) → m4.user.channel_at a ≡ m.user.channel_at a =
          (λ a. rewritten m i (record c { mask = all }) c a e) in
        (
          f2,
          rw
                (
                  get_mask-ok m i c i_ne e,
                  set_mask-ok m i c i_ne e all,
                  load_loop-ok m1 eloop lp q.ne_null q.at_loop,
                  run1,
                  set_mask-ok m2 i (record c { mask = all }) i_ne e1 c.mask,
                  run2,
                )
                refl
              ∙ ap
                  (λ channels. ok (pos 0) (
                    with_selects (record m { user = record (m.user) { channel_at = channels } })
                      f2))
                  (fun_ext same),
          record {
            sets = added c (removed (record c { mask = all }) s);
            polled = record {
              ne_null = q.ne_null;
              at_loop = q.at_loop;
              channels = selects-IsMap m f2 q.channels;
              io_ne_null = q.io_ne_null;
              at_io = changed2.here;
            };
            in_step =
                InStep-same m.user (with_selects m f2).user refl (xs ++ (p, i) ∷ ys)
                  (added c (removed (record c { mask = all }) s))
                  (reset-InStep m.user i c e xs ys p s n n' but);
            max_known = inl refl;
          },
        )
