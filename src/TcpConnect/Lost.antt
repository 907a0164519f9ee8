-- ===== src/TcpConnect/Lost.antt =====
-- Where src/net/tcp_connect.c loses bytes, and where it writes to memory of another kind.
use Prim.Native.Nat.{bit_or}
use eloop.Base.{
  Bool-cases, inl, inr, ==→eq, le→ltb, append-nil, ◌++◌, drop, ℕ, suc, ◌<◌, ◌≤◌, ◌≡◌, ◌≢◌, refl, ap,
  ◌∙◌, Option, none, some, [], ◌==◌, lt→ltb, min, false, ℤ, pos, negsuc, drop_all, arith,
}
use eloop.Memory.{Ptr, null, ok, fault, write}
use eloop.BufferPipe.{Pipe, Realloc}
use eloop.BufferPipe.Valid.{IsValid, contents}
use eloop.BufferPipe.Read.{length-contents}
use eloop.World.{Channel, Connect, Memory, load_channel}
use eloop.Net.{eagain, net_fd_write, net_get_last_error}
use eloop.EventChannel.{
  add_mask, fd_mask_read, fd_mask_error, modify_channel, event_channel_add_mask,
  event_channel_set_read_proc, event_channel_set_close_proc,
}
use eloop.EventLoop.Channels.Remove.{put_channel}
use eloop.EventLoop.Channels.Watches.{written}
use eloop.TcpConnect.{Departures, write_loop, tcp_connect_mark_read}
use eloop.TcpConnect.Marks.{modify-ok}
use eloop.TcpConnect.Receive.{load_connect-ok}
use eloop.TcpConnect.Pipes.{with_pipes, stored-Refilled, read_pipe-run}
use eloop.TcpConnect.Write.{with_output}

module _ (realloc : Realloc) (pipe : Ptr) (pipe_ne : pipe ≢ null) (send : Departures) (n : ℕ)
    (refused : (send 0).0 ≡ negsuc n) (again : net_get_last_error (send 0).1 ≡ eagain) where
  -- The loop of `tcp_connect_write` on a pipe with up to 1024 bytes, where send takes nothing for now
  -- (EAGAIN), with two rounds or more: the loop ends as it does when all is sent, no byte has been
  -- sent, and the pipe is empty.
  pub write_loop-lost :
      (fuel : ℕ) (ret : ℤ) (m : Memory) (p : Pipe)
      → m.user.pipe_at pipe ≡ some p
      → IsValid p
      → 0 < p.length
      → p.length ≤ 1024
      → (q : Pipe) × (f : Ptr → Option Pipe) × (write_loop realloc send
            (suc (suc fuel))
            0
            pipe
            ret
            m
          ≡ ok
              (record { ret = pos eagain; remain_data = false; close_fd = false })
              (with_output m f m.user.sent))
        × (f pipe ≡ some q)
        × (contents q ≡ [])
  unfolding write_loop net_fd_write
  write_loop-lost fuel ret m p at v more few =
      let (q, run, v1, e, l) = read_pipe-run m pipe p 1024 pipe_ne at v in
      let m1 = with_pipes m (write m.user.pipe_at pipe (some q)) in
      let m2 = with_output m1 m1.user.pipe_at (m.user.sent ++ []) in
      let (q2, run2, v2, e2, l2) =
        read_pipe-run m2 pipe q 1024 pipe_ne (stored-Refilled m pipe q).here v1 in
      (
        q2,
        write m1.user.pipe_at pipe (some q2),
        rw
              (
                run,
                lt→ltb 0 (min 1024 p.length) (omega arith),
                refused,
                again,
                run2,
                le→ltb 0 (min 1024 q.length) (omega arith),
              )
              refl
            ∙ ap
                (λ s.
                  ok (record { ret = pos eagain; remain_data = false; close_fd = false })
                    (with_output m (write m1.user.pipe_at pipe (some q2)) s))
                (append-nil m.user.sent),
        (stored-Refilled m2 pipe q2).here,
        e2 ∙ ap (drop 1024) (e ∙ drop_all 1024 (contents p) (omega (arith, length-contents v))),
      )

not_channel :
    (m : Memory) (a : Ptr) (g : Channel → Channel)
    → m.user.channel_at a ≡ none
    → modify_channel g a m ≡ fault
unfolding modify_channel load_channel
not_channel m a g e = elim (Bool-cases (a == null)) [ inl z ↦ rw z refl | inr z ↦ rw (z, e) refl ]

-- `tcp_connect_mark_read` of a connection with a channel, where no channel lies at the address of
-- the event loop: the procedure for closing is written into the loop as if that were a channel, and
-- the access is a fault.
pub tcp_connect_mark_read-fault :
    (m : Memory) (connect : Ptr) (k : Connect) (c : Channel) (on_read on_close : Ptr)
    → connect ≢ null
    → m.user.connect_at connect ≡ some k
    → k.channel ≢ null
    → m.user.channel_at k.channel ≡ some c
    → m.user.channel_at k.e_loop ≡ none
    → tcp_connect_mark_read on_read on_close connect m ≡ fault
unfolding tcp_connect_mark_read event_channel_add_mask event_channel_set_read_proc
    event_channel_set_close_proc
tcp_connect_mark_read-fault m connect k c on_read on_close ne at i_ne e at_loop =
    let d = add_mask c (bit_or fd_mask_read fd_mask_error) in
    let d' = record d { read_proc = on_read } in
    let m1 = put_channel m k.channel d in
    rw
      (
        load_connect-ok m connect k ne at,
        modify-ok m k.channel c (λ c. add_mask c (bit_or fd_mask_read fd_mask_error)) i_ne e,
        modify-ok m1 k.channel d (λ c. record c { read_proc = on_read }) i_ne
            (written m k.channel d),
        not_channel (put_channel m1 k.channel d') k.e_loop (λ c. record c { close_proc = on_close })
            (elim (Bool-cases (k.e_loop == k.channel)) [
              | inl same ↦ absurd (cc (e, at_loop, ==→eq k.e_loop k.channel same))
              | inr other ↦ rw other at_loop
            ]),
      )
      refl
