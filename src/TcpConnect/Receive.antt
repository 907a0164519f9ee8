-- ===== src/TcpConnect/Receive.antt =====
-- `_tcp_connec_on_read` of src/net/tcp_connect.c: what is received is in the pipe before the
-- connection's own function is called.
use eloop.Base.{
  Bool, ℕ, suc, ◌+◌, ◌*◌, ◌^◌, ◌<◌, ◌≡◌, ◌≢◌, refl, Option, some, ◌++◌, ne→==, if◌then◌else◌, false,
  ltb_ℤ, ℤ, pos, minus_one,
}
use eloop.Memory.{Run, and_then, fault, out_of_fuel, when, Ptr, null, ok, pure, ◌>>=◌, ◌>>◌}
use eloop.BufferPipe.{Pipe, Realloc, IsRealloc, bucket_length}
use eloop.BufferPipe.Valid.{IsValid, contents}
use eloop.BufferPipe.Queue.{IsPlentiful}
use eloop.World.{World, Channel, Connect, Memory, Prog, load_channel, load_connect}
use eloop.EventChannel.{event_channel_get_recv_pipe}
use eloop.EventIo.{EventIo}
use eloop.EventLoop.Channels.Watches.{get_fd-run}
use eloop.Net.{eagain}
use eloop.TcpConnect.{read_loop, Arrivals, hand_over, tcp_connec_on_read, tcp_connec_on_close}
use eloop.TcpConnect.Pipes.{with_pipes, Refilled}
use eloop.TcpConnect.Read.{Arriving, last_of, gathered, read_loop-run}
use eloop.TcpConnect.Send.{get_userdata-ok}

-- The result of a call, with any error as -1.
abbrev pub clipped : ℤ → ℤ
clipped ret = if ltb_ℤ ret (pos 0) then minus_one else ret

get_recv_pipe-ok :
    (m : Memory) (i : Ptr) (c : Channel)
    → i ≢ null
    → m.user.channel_at i ≡ some c
    → event_channel_get_recv_pipe i m ≡ ok c.pipe_recv m
unfolding event_channel_get_recv_pipe load_channel
get_recv_pipe-ok m i c ne e = rw (ne→== i null ne, e) refl

pub load_connect-ok :
    (m : Memory) (connect : Ptr) (k : Connect)
    → connect ≢ null
    → m.user.connect_at connect ≡ some k
    → load_connect connect m ≡ ok k m
unfolding load_connect
load_connect-ok m connect k ne at = rw (ne→== connect null ne, at) refl

-- The end of the function where the connection stays open, whatever the call came to.
left_open :
    (r : Run World ℤ) (close : Prog (Unit {0}))
    → and_then {A = ℤ × Bool}
        (and_then r (λ ret. pure (ret, false)))
        (λ x. when x.1 close >> pure (clipped x.0))
      ≡ and_then r (λ ret. pure (clipped ret))
left_open (ok ret m) close = refl
left_open fault close = refl
left_open out_of_fuel close = refl

-- The end of the function where the connection's own function closes it.
closed_by :
    (r : Run World ℤ)
    → and_then {A = Unit {0}}
        (and_then {A = ℤ} (and_then r (λ ret. pure (pos 0))) (λ x. pure tt))
        (λ x. pure {A = ℤ} (pos 0))
      ≡ and_then r (λ ret. pure (pos 0))
closed_by (ok ret m) = refl
closed_by fault = refl
closed_by out_of_fuel = refl

module _ {realloc : Realloc} (is_realloc : IsRealloc realloc) (plenty : IsPlentiful realloc)
    (recv : Arrivals) (io : EventIo) (call : Ptr → Ptr → Prog ℤ) (fuel : ℕ) (m : Memory) (i : Ptr)
    (i_ne : i ≢ null) (c : Channel) (e : m.user.channel_at i ≡ some c) (k : Connect)
    (connect_ne : c.userdata ≢ null) (at : m.user.connect_at c.userdata ≡ some k)
    (pipe_ne : c.pipe_recv ≢ null) (p : Pipe) (at_pipe : m.user.pipe_at c.pipe_recv ≡ some p)
    (v : IsValid p) where
  -- `_tcp_connec_on_read` with a procedure for reading, where recv brings bytes at least once, up to
  -- 1024 each time, and then has none for now (EAGAIN), with memory for every block and more rounds
  -- than calls of recv: the pipe is valid and holds its bytes followed by all that was received, in
  -- order; then the procedure is called once, and what it returns, or -1 for an error, is the result.
  -- The connection is not closed.
  pub tcp_connec_on_read-received :
      (n rounds : ℕ)
      → Arriving recv (suc n) 0
      → (last_of recv (suc n) 0).0.count ≡ minus_one
      → (last_of recv (suc n) 0).1 ≡ eagain
      → suc n < rounds
      → p.length + suc n * 1024 + bucket_length < 2 ^ 64
      → k.read_proc ≢ null
      → (q : Pipe) × (f : Ptr → Option Pipe) × (tcp_connec_on_read io call fuel realloc recv rounds
            i m
          ≡ (do ret ← call k.read_proc c.userdata; pure (clipped ret)) (with_pipes m f))
        × Refilled m c.pipe_recv q f
        × IsValid q
        × (contents q ≡ contents p ++ gathered recv (suc n) 0)
  unfolding tcp_connec_on_read hand_over
  tcp_connec_on_read-received n rounds arriving failed again lt fits proc_ne =
      let (q, f, run, put, v', all) =
        read_loop-run is_realloc plenty c.pipe_recv pipe_ne recv (suc n) rounds 0 false m p arriving
          lt at_pipe v fits in
      (
        q,
        f,
        rw
            (
              get_fd-run m i c i_ne e,
              get_userdata-ok m i c i_ne e,
              get_recv_pipe-ok m i c i_ne e,
              run,
              load_connect-ok (with_pipes m f) c.userdata k connect_ne at,
              ne→== k.read_proc null proc_ne,
              failed,
              again,
            )
            (left_open (call k.read_proc c.userdata (with_pipes m f))
              (do tcp_connec_on_close io call fuel i; pure tt)),
        put,
        v',
        all,
      )

module _ (realloc : Realloc) (recv : Arrivals) (io : EventIo) (call : Ptr → Ptr → Prog ℤ) (fuel : ℕ)
    (m : Memory) (i : Ptr) (i_ne : i ≢ null) (c : Channel) (e : m.user.channel_at i ≡ some c)
    (k : Connect) (connect_ne : c.userdata ≢ null)
    (at : m.user.connect_at c.userdata ≡ some k) where
  -- `_tcp_connec_on_read` where the peer has closed and there is nothing to read: the procedure for
  -- closing is called once, if there is one, and the result is 0.
  tcp_connec_on_read-closed :
      (rounds : ℕ)
      → (recv 0).0.count ≡ pos 0
      → k.close_proc ≢ null
      → tcp_connec_on_read io call fuel realloc recv (suc rounds) i m
        ≡ (do call k.close_proc c.userdata; pure (pos 0)) m
  unfolding tcp_connec_on_read hand_over tcp_connec_on_close read_loop
  tcp_connec_on_read-closed rounds eof proc_ne =
      rw
        (
          get_fd-run m i c i_ne e,
          get_userdata-ok m i c i_ne e,
          get_recv_pipe-ok m i c i_ne e,
          eof,
          get_userdata-ok m i c i_ne e,
          load_connect-ok m c.userdata k connect_ne at,
          ne→== k.close_proc null proc_ne,
        )
        (closed_by (call k.close_proc c.userdata m))
