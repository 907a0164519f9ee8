-- ===== src/TcpConnect/Send.antt =====
-- `tcp_connect_write` of src/net/tcp_connect.c on a loop with the backend of src/event_io_select.c.
use eloop.Base.{
  ℕ, ◌+◌, ◌^◌, ◌<◌, ◌≡◌, ◌≢◌, ◌⊎◌, inl, inr, refl, ap, ◌∙◌, Option, some, List, [], ◌∷◌, ◌++◌,
  ne→==, true, ℤ, pos,
}
use eloop.Memory.{Ptr, null, ok}
use eloop.LinkedList.Links.{Cells}
use eloop.World.{FdSet, Channel, Connect, Loop, Memory, Prog, load_channel, load_connect}
use eloop.BufferPipe.{Pipe, Realloc, IsRealloc, bucket_length}
use eloop.BufferPipe.Valid.{IsValid, contents}
use eloop.BufferPipe.Queue.{IsPlentiful}
use eloop.EventChannel.{
  remove_mask, fd_mask_write, event_channel_get_userdata, event_channel_get_send_pipe,
}
use eloop.ChannelMap.MaxFd.{AllAtMost}
use eloop.ChannelMap.Remove.{NoFd}
use eloop.EventIo.Select.{Timeval, Selected, in_range, select_io}
use eloop.EventIo.Select.InStep.{InStep-same}
use eloop.EventLoop.Channels.Watches.{Watches, get_fd-run}
use eloop.TcpConnect.{Departures, tcp_connect_write, tcp_connect_get_event_channel}
use eloop.TcpConnect.Write.{with_output, IsSending, write_loop-run}
use eloop.TcpConnect.Marks.{ChannelIs, tcp_connect_unmark_write-Watches}

AllAtMost-output :
    (m : Memory) (f : Ptr → Option Pipe) (sent : List ℕ) (top : ℤ) (xs : Cells)
    → AllAtMost m.user top xs
    → AllAtMost (with_output m f sent).user top xs
AllAtMost-output m f sent top [] known = tt
AllAtMost-output m f sent top ((p, i) ∷ xs) known =
    (known.0, AllAtMost-output m f sent top xs known.1)

-- A loop does not see the pipes and the output.
output-Watches :
    (m : Memory) (f : Ptr → Option Pipe) (sent : List ℕ) {eloop l : Ptr} {lp : Loop} (xs : Cells)
    → Watches m eloop lp l xs
    → Watches (with_output m f sent) eloop lp l xs
output-Watches m f sent xs is = record {
  sets = is.sets;
  polled = record {
    ne_null = is.polled.ne_null;
    at_loop = is.polled.at_loop;
    channels = record {
      ne_null = is.polled.channels.ne_null;
      at_map = is.polled.channels.at_map;
      list = record {
        ne_null = is.polled.channels.list.ne_null;
        unmapped = is.polled.channels.list.unmapped;
        header = is.polled.channels.list.header;
        links = is.polled.channels.list.links;
      };
      channels = is.polled.channels.channels;
    };
    io_ne_null = is.polled.io_ne_null;
    at_io = is.polled.at_io;
  };
  in_step = InStep-same m.user (with_output m f sent).user refl xs is.sets is.in_step;
  max_known = elim is.max_known [
    | inl dirty ↦ inl dirty
    | inr known ↦ inr (AllAtMost-output m f sent is.sets.max_fd xs known)
  ];
}

module _ (m : Memory) (i : Ptr) (c : Channel) (ne : i ≢ null)
    (e : m.user.channel_at i ≡ some c) where
  pub get_userdata-ok : event_channel_get_userdata i m ≡ ok c.userdata m
  unfolding event_channel_get_userdata load_channel
  get_userdata-ok = rw (ne→== i null ne, e) refl

  get_send_pipe-ok : event_channel_get_send_pipe i m ≡ ok c.pipe_send m
  unfolding event_channel_get_send_pipe load_channel
  get_send_pipe-ok = rw (ne→== i null ne, e) refl

module _ {realloc : Realloc} (is_realloc : IsRealloc realloc) (plenty : IsPlentiful realloc)
    (send : Departures) (sending : IsSending send) (fd_setsize : ℕ) (call : Ptr → Ptr → Prog ℤ)
    (select : ℤ → FdSet → FdSet → FdSet → Timeval → Selected) (rounds : ℕ) (m : Memory)
    (connect : Ptr) (connect_ne : connect ≢ null) (k : Connect)
    (at : m.user.connect_at connect ≡ some k) {l : Ptr} {lp : Loop} (c : Channel)
    (i_ne : k.channel ≢ null) (range : in_range fd_setsize c.fd ≡ true) (xs : Cells) (p : Ptr)
    (ys : Cells) (is : Watches m k.e_loop lp l (xs ++ (p, k.channel) ∷ ys))
    (e : m.user.channel_at k.channel ≡ some c) (n : NoFd m.user c.fd xs) (n' : NoFd m.user c.fd ys)
    (pipe_ne : c.pipe_send ≢ null) (q : Pipe) (at_pipe : m.user.pipe_at c.pipe_send ≡ some q)
    (v : IsValid q) (fits : q.length + bucket_length < 2 ^ 64) where
  -- The channel after the call: as it was while bytes are left, and without the bit for writing when
  -- none is.
  abbrev pub IsMarked : (m' : Memory) → (left : List ℕ) → Type 0
  IsMarked m' left =
      ChannelIs m m' k.channel c
      ⊎ ((left ≡ [])
          × ChannelIs m m' k.channel (record (remove_mask c fd_mask_write) { write_proc = null }))

  -- `tcp_connect_write` of a connection whose channel is in its loop, with a descriptor in range that
  -- is no other channel's, where the loop watches exactly what its channels wait for, the pipe is
  -- valid, there is memory for every block, every call of send takes some bytes, and there are more
  -- rounds than the pipe has bytes: the call ends, the bytes sent before and by it followed by those
  -- that are left in the pipe are the bytes sent before followed by those that were in the pipe, the
  -- pipe is valid, the loop watches exactly what its channels wait for, and the channel is as it was
  -- or, with an empty pipe, has lost the bit for writing and the procedure for it.
  pub tcp_connect_write-sent :
      (fuel : ℕ)
      → q.length < fuel
      → (ret : ℤ) × (m' : Memory) × (q' : Pipe) × (tcp_connect_write
            (select_io fd_setsize call select rounds)
            realloc
            send
            fuel
            connect
            m
          ≡ ok ret m')
        × (m'.user.pipe_at c.pipe_send ≡ some q')
        × IsValid q'
        × (m'.user.sent ++ contents q' ≡ m.user.sent ++ contents q)
        × Watches m' k.e_loop lp l (xs ++ (p, k.channel) ∷ ys)
        × IsMarked m' (contents q')
  unfolding tcp_connect_write tcp_connect_get_event_channel load_connect
  tcp_connect_write-sent fuel lt =
      let (end, f, sent, q', run, put, w) =
        write_loop-run is_realloc plenty c.pipe_send pipe_ne send sending fuel 0 (pos 0) m q lt
          at_pipe v fits in
      let m1 = with_output m f sent in
      let is1 = output-Watches m f sent (xs ++ (p, k.channel) ∷ ys) is in
      elim w.done [
        | inl more ↦ (
          end.ret,
          m1,
          q',
          rw
              (
                ne→== connect null connect_ne,
                at,
                get_userdata-ok m k.channel c i_ne e,
                get_send_pipe-ok m k.channel c i_ne e,
                get_fd-run m k.channel c i_ne e,
                run,
                w.goes_on,
                more,
              )
              refl,
          put.here,
          w.valid,
          w.in_order,
          is1,
          inl (record { here = e; others = λ a k. refl }),
        )
        | inr (none, nothing) ↦
            let (m', run', is', same, marked) =
              tcp_connect_unmark_write-Watches fd_setsize call select rounds m1 k c i_ne range xs p
                ys is1 e n n' connect connect_ne at in
            (
              end.ret,
              m',
              q',
              rw
                  (
                    ne→== connect null connect_ne,
                    at,
                    get_userdata-ok m k.channel c i_ne e,
                    get_send_pipe-ok m k.channel c i_ne e,
                    get_fd-run m k.channel c i_ne e,
                    run,
                    w.goes_on,
                    none,
                    run',
                  )
                  refl,
              ap (λ g. g c.pipe_send) same.pipes ∙ put.here,
              w.valid,
              ap (λ s. s ++ contents q') same.sent ∙ w.in_order,
              is',
              inr (nothing, record { here = marked.here; others = marked.others }),
            )
      ]
