-- ===== src/EventLoop/Channels/RemoveFd.antt =====
-- `event_loop_remove_fd` of src/event_loop.c with the backend of src/event_io_select.c.
use eloop.Base.{
  ℕ, ◌<◌, ◌≡◌, ◌≢◌, inl, refl, ap, ◌∙◌, true, some, ◌∷◌, ◌++◌, ◌==◌, ne→==, if◌then◌else◌, ℤ, pos,
  length,
}
use eloop.Memory.{Ptr, null, ok}
use eloop.LinkedList.Links.{Cells}
use eloop.World.{FdSet, Channel, Loop, Memory, Prog}
use eloop.EventChannel.{remove_mask}
use eloop.EventChannel.Masks.{is_exist_remove}
use eloop.ChannelMap.Remove.{NoFd}
use eloop.EventIo.{EventIo}
use eloop.EventIo.Select.{Timeval, Selected, in_range, select_io}
use eloop.EventIo.Select.Sets.{with_selects, removed, event_io_remove_fd-run}
use eloop.EventIo.Select.InStep.{InStep-same, stripped-InStep}
use eloop.EventLoop.Channels.{event_loop_remove_fd}
use eloop.EventLoop.Channels.Remove.{put_channel, masked, remove_fd_told}
use eloop.EventLoop.Channels.Watches.{fd_matches, written, InStep-left, Watches}

module _ (fd_setsize : ℕ) (call : Ptr → Ptr → Prog ℤ)
    (select : ℤ → FdSet → FdSet → FdSet → Timeval → Selected) (rounds : ℕ) where
  abbrev io : EventIo
  io = select_io fd_setsize call select rounds

  module _ {m : Memory} {eloop l : Ptr} {lp : Loop} (i : Ptr) (c : Channel) (i_ne : i ≢ null)
      (range : in_range fd_setsize c.fd ≡ true) where
    -- `event_loop_remove_fd` of masks below 16, on a loop that watches exactly what its channels wait
    -- for and whose map has one channel with the descriptor, in range, with more rounds than the map
    -- has channels: it returns 0, the channel has lost the bits of the mask, it leaves the map if and
    -- only if no bit is left, as `*is_delete` says, the other channels are as they were, and the loop
    -- watches exactly what its channels wait for.
    pub event_loop_remove_fd-Watches :
        (mask fuel : ℕ) (xs : Cells) (p : Ptr) (ys : Cells)
        → Watches m eloop lp l (xs ++ (p, i) ∷ ys)
        → m.user.channel_at i ≡ some c
        → c.mask < 16
        → mask < 16
        → NoFd m.user c.fd xs
        → NoFd m.user c.fd ys
        → length (xs ++ (p, i) ∷ ys) < fuel
        → (m' : Memory) × (event_loop_remove_fd io fuel eloop c.fd mask m
            ≡ ok (pos 0, (remove_mask c mask).mask == 0) m')
          × Watches m' eloop lp l
              (if (remove_mask c mask).mask == 0 then xs ++ ys else xs ++ (p, i) ∷ ys)
          × (m'.user.channel_at i ≡ some (remove_mask c mask))
          × ((a : Ptr) → a ≢ i → m'.user.channel_at a ≡ m.user.channel_at a)
    event_loop_remove_fd-Watches mask fuel xs p ys is e hc hm n n' h =
        let q = is.polled in
        let m1 = masked m i c mask in
        let (f, run1, changed) =
          event_io_remove_fd-run fd_setsize i (record c { mask = mask }) i_ne range lp.fd_io
            q.io_ne_null m1 (written m i (record c { mask = mask })) is.sets q.at_io in
        let w = (with_selects m1 f).user in
        let c' = remove_mask c mask in
        let (m', run, is', u) =
          remove_fd_told io lp c xs p i ys q.ne_null q.at_loop refl q.channels i_ne e mask w run1
            refl refl fuel c.fd h n (fd_matches m.user i c e) in
        let last = put_channel (put_channel (record m { user = w }) i c) i c' in
        let others : (a : Ptr) → a ≢ i → last.user.channel_at a ≡ m.user.channel_at a =
          (λ a k. rw (ne→== a i k) refl) in
        let all =
          stripped-InStep m.user last.user i c c' e
            (written (put_channel (record m { user = w }) i c) i c') refl others mask xs ys p n n'
            is.sets (λ k b. is_exist_remove c mask k hc hm b) is.in_step in
        let at_last = written (put_channel (record m { user = w }) i c) i c' in
        let sets = removed (record c { mask = mask }) is.sets in
        (
          m',
          run,
          record {
            sets = sets;
            polled = record {
              ne_null = q.ne_null;
              at_loop = ap (λ v. v.loop_at eloop) u ∙ q.at_loop;
              channels = is';
              io_ne_null = q.io_ne_null;
              at_io = ap (λ v. v.select_at lp.fd_io) u ∙ changed.here;
            };
            in_step =
                InStep-same last.user m'.user (ap (λ v. v.channel_at) u)
                  (if c'.mask == 0 then xs ++ ys else xs ++ (p, i) ∷ ys) sets
                  (InStep-left last.user i c' at_last xs ys p sets all);
            max_known = inl refl;
          },
          ap (λ v. v.channel_at i) u ∙ at_last,
          λ a k. ap (λ v. v.channel_at a) u ∙ others a k,
        )
