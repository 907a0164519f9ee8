-- ===== src/TcpConnect/Marks.antt =====
-- `tcp_connect_mark_write` and `tcp_connect_unmark_write` of src/net/tcp_connect.c on a loop with the
-- backend of src/event_io_select.c.
use eloop.Base.{Option, ℕ, ◌≡◌, ◌≢◌, refl, true, some, ◌∷◌, ◌++◌, ne→==, ℤ, pos}
use eloop.Memory.{Ptr, null, ok}
use eloop.LinkedList.Links.{Cells}
use eloop.World.{
  FdSet, Select, Channel, Connect, Loop, Memory, Prog, load_channel, store_channel, load_connect,
}
use eloop.EventChannel.{
  add_mask, remove_mask, fd_mask_write, modify_channel, event_channel_add_mask,
  event_channel_remove_mask, event_channel_set_write_proc,
}
use eloop.ChannelMap.Remove.{NoFd}
use eloop.EventIo.Select.{Timeval, Selected, in_range, select_io}
use eloop.EventIo.Select.Sets.{with_selects}
use eloop.EventLoop.Channels.{event_loop_update_channel}
use eloop.EventLoop.Channels.Remove.{put_channel, NoFd-kept}
use eloop.EventLoop.Channels.Watches.{Watches, written}
use eloop.EventLoop.Channels.Touch.{touched-IsPolled, touched-InStepBut, InStep-but}
use eloop.EventLoop.Channels.Update.{event_loop_update_channel-Watches}
use eloop.TcpConnect.{tcp_connect_mark_write, tcp_connect_unmark_write}

-- The channel at `i` is `c` and all others are as they were.
pub record ChannelIs (m m' : Memory) (i : Ptr) (c : Channel) : Type 0 where
  pub here : m'.user.channel_at i ≡ some c
  pub others : (a : Ptr) → a ≢ i → m'.user.channel_at a ≡ m.user.channel_at a

-- No pipe changes and no byte is sent.
pub record SameStreams (m m' : Memory) : Type 0 where
  pub pipes : m'.user.pipe_at ≡ m.user.pipe_at
  pub sent : m'.user.sent ≡ m.user.sent

pub modify-ok :
    (m : Memory) (i : Ptr) (c : Channel) (f : Channel → Channel)
    → i ≢ null
    → m.user.channel_at i ≡ some c
    → modify_channel f i m ≡ ok tt (put_channel m i (f c))
unfolding modify_channel load_channel store_channel
modify-ok m i c f ne e = rw (ne→== i null ne, e) refl

module _ (fd_setsize : ℕ) (call : Ptr → Ptr → Prog ℤ)
    (select : ℤ → FdSet → FdSet → FdSet → Timeval → Selected) (rounds : ℕ) (m : Memory)
    (k : Connect) {l : Ptr} {lp : Loop} (c : Channel) (i_ne : k.channel ≢ null)
    (range : in_range fd_setsize c.fd ≡ true) (xs : Cells) (p : Ptr) (ys : Cells)
    (is : Watches m k.e_loop lp l (xs ++ (p, k.channel) ∷ ys))
    (e : m.user.channel_at k.channel ≡ some c) (n : NoFd m.user c.fd xs)
    (n' : NoFd m.user c.fd ys) where
  abbrev i : Ptr
  i = k.channel

  -- The bits and the procedure change, then the loop is told.
  module _ (mask : ℕ) (proc : Ptr) where
    abbrev remarked : Channel
    remarked = record c { mask = mask }

    abbrev last : Channel
    last = record c { mask = mask; write_proc = proc }

    abbrev changed : Memory
    changed = put_channel (put_channel m i remarked) i last

    changed_others : (a : Ptr) → a ≢ i → changed.user.channel_at a ≡ m.user.channel_at a
    changed_others a k = rw (ne→== a i k) refl

    updated-Watches :
        (f : Ptr → Option Select) × (event_loop_update_channel
            (select_io fd_setsize call select rounds)
            k.e_loop
            i
            changed
          ≡ ok (pos 0) (with_selects changed f))
        × Watches (with_selects changed f) k.e_loop lp l (xs ++ (p, i) ∷ ys)
    updated-Watches =
        let m1 = put_channel m i remarked in
        let all = xs ++ (p, i) ∷ ys in
        let s = is.sets in
        let at1 = written m i remarked in
        let kept =
          NoFd-kept m.user changed.user i c last e (written m1 i last) changed_others refl c.fd in
        event_loop_update_channel-Watches fd_setsize call select rounds i last i_ne range xs p ys s
          (touched-IsPolled m1 i remarked last at1 refl all s
            (touched-IsPolled m i c remarked e refl all s is.polled))
          (touched-InStepBut m1 i remarked last at1 refl all s
            (touched-InStepBut m i c remarked e refl all s (InStep-but m c.fd all s is.in_step)))
          (written m1 i last) (kept xs n) (kept ys n')

    changed-ChannelIs : (f : Ptr → Option Select) → ChannelIs m (with_selects changed f) i last
    changed-ChannelIs f = record {
      here = written (put_channel m i remarked) i last;
      others = changed_others;
    }

  module _ (connect : Ptr) (connect_ne : connect ≢ null)
      (at : m.user.connect_at connect ≡ some k) where
    -- `tcp_connect_mark_write` of a connection whose channel is in its loop, with a descriptor in range
    -- that is no other channel's, where the loop watches exactly what its channels wait for: it returns
    -- 0, the channel has the bit for writing and the procedure, the other channels, the pipes and what
    -- was sent are as they were, and the loop watches exactly what its channels wait for.
    pub tcp_connect_mark_write-Watches :
        (on_write : Ptr)
        → (m' : Memory) × (tcp_connect_mark_write
              (select_io fd_setsize call select rounds)
              on_write
              connect
              m
            ≡ ok (pos 0) m')
          × Watches m' k.e_loop lp l (xs ++ (p, i) ∷ ys)
          × SameStreams m m'
          × ChannelIs m m' i (record (add_mask c fd_mask_write) { write_proc = on_write })
    unfolding tcp_connect_mark_write event_channel_add_mask event_channel_set_write_proc
        load_connect
    tcp_connect_mark_write-Watches on_write =
        let d = add_mask c fd_mask_write in
        let (f, run, w) = updated-Watches d.mask on_write in
        (
          with_selects (changed d.mask on_write) f,
          rw
              (
                ne→== connect null connect_ne,
                at,
                modify-ok m i c (λ c. add_mask c fd_mask_write) i_ne e,
                modify-ok (put_channel m i d) i d (λ c. record c { write_proc = on_write }) i_ne
                    (written m i d),
                run,
              )
              refl,
          w,
          record { pipes = refl; sent = refl },
          changed-ChannelIs d.mask on_write f,
        )

    -- `tcp_connect_unmark_write` under the same conditions: it returns 0, the channel has neither the
    -- bit for writing nor a procedure for it, the other channels, the pipes and what was sent are as
    -- they were, and the loop watches exactly what its channels wait for.
    pub tcp_connect_unmark_write-Watches :
        (m' : Memory) × (tcp_connect_unmark_write
            (select_io fd_setsize call select rounds)
            connect
            m
          ≡ ok (pos 0) m')
        × Watches m' k.e_loop lp l (xs ++ (p, i) ∷ ys)
        × SameStreams m m'
        × ChannelIs m m' i (record (remove_mask c fd_mask_write) { write_proc = null })
    unfolding tcp_connect_unmark_write event_channel_remove_mask event_channel_set_write_proc
        load_connect
    tcp_connect_unmark_write-Watches =
        let d = remove_mask c fd_mask_write in
        let (f, run, w) = updated-Watches d.mask null in
        (
          with_selects (changed d.mask null) f,
          rw
              (
                ne→== connect null connect_ne,
                at,
                modify-ok m i c (λ c. remove_mask c fd_mask_write) i_ne e,
                modify-ok (put_channel m i d) i d (λ c. record c { write_proc = null }) i_ne
                    (written m i d),
                run,
              )
              refl,
          w,
          record { pipes = refl; sent = refl },
          changed-ChannelIs d.mask null f,
        )
