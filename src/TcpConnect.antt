-- ===== src/TcpConnect.antt =====
-- src/net/tcp_connect.c. `_tcp_connec_on_read` and its like go without the
-- underscore. Of the system, `recv` and `send` are given by the round of the loop that
-- calls them, from 0 on, with the value of `errno` after the call.
pub mod Pipes
pub mod Read
pub mod Write
pub mod Marks
pub mod Send
pub mod Receive
pub mod Lost
mod Tests
use Prim.Native.Nat.{bit_or}
use eloop.Base.{
  ℕ, zero, suc, ◌+◌, ◌-◌, ◌||◌, ◌&&◌, not, Bool, true, false, Option, none, some, List, ◌==◌,
  if◌then◌else◌, ltb, ℤ, pos, negsuc, minus_one, eqb_ℤ, ltb_ℤ, drop,
}
use eloop.Memory.{Ptr, null, fault, out_of_fuel, pure, ◌>>=◌, ◌>>◌, when}
use eloop.BufferPipe.{Realloc, Pipe, buffer_pipe_write, buffer_pipe_write_head, buffer_pipe_read}
use eloop.World.{Connect, Prog, load_pipe, store_pipe, load_connect, store_connect}
use eloop.EventChannel.{
  fd_mask_read, fd_mask_write, fd_mask_error, event_channel_create, event_channel_delete,
  event_channel_get_fd, event_channel_get_userdata, event_channel_get_recv_pipe,
  event_channel_get_send_pipe, event_channel_add_mask, event_channel_remove_mask,
  event_channel_set_fd, event_channel_set_userdata, event_channel_set_read_proc,
  event_channel_set_write_proc, event_channel_set_close_proc,
}
use eloop.EventIo.{EventIo}
use eloop.EventLoop.Channels.{
  event_loop_add_channel, event_loop_remove_channel, event_loop_update_channel,
}
use eloop.Net.{Received, eagain, net_fd_close, net_fd_read, net_fd_write, net_get_last_error}

-- What recv and send do in a round.
abbrev pub Arrivals : Type 0
Arrivals = ℕ → Received × ℕ

abbrev pub Departures : Type 0
Departures = ℕ → ℤ × ℕ

-- What a call of src/buffer_pipe.c leaves at the pipe's address, and what it returns.
unfoldable pub put_back : {A : Type 0} → (pipe : Ptr) → Option (A × Pipe) → Prog A
put_back pipe none = λ _. fault
put_back pipe (some (a, q)) = do store_pipe pipe (some q); pure a

unfoldable pub write_pipe : Realloc → (pipe : Ptr) → (bytes : List ℕ) → (n : ℕ) → Prog ℤ
write_pipe realloc pipe bytes n = do
  p ← load_pipe pipe
  put_back pipe (buffer_pipe_write realloc p bytes n)

unfoldable pub write_pipe_head : Realloc → (pipe : Ptr) → (bytes : List ℕ) → (n : ℕ) → Prog ℤ
write_pipe_head realloc pipe bytes n = do
  p ← load_pipe pipe
  put_back pipe (buffer_pipe_write_head realloc p bytes n)

-- The number of bytes and the bytes, as one value of the call.
abbrev pub paired : Option (ℕ × List ℕ × Pipe) → Option ((ℕ × List ℕ) × Pipe)
paired none = none
paired (some (n, bytes, q)) = some ((n, bytes), q)

unfoldable pub read_pipe : (pipe : Ptr) → (n : ℕ) → Prog (ℕ × List ℕ)
read_pipe pipe n = do p ← load_pipe pipe; put_back pipe (paired (buffer_pipe_read p n))

-- `(size_t) ret`, of an `int` that is above 0.
abbrev pub size_of : ℤ → ℕ
size_of (pos n) = n
size_of (negsuc n) = 0

-- The local variables of `tcp_connec_on_read` after its loop.
pub record ReadEnd : Type 0 where
  pub ret : ℤ
  pub has_data : Bool
  pub need_close : Bool

-- The loop of `tcp_connec_on_read`: the fuel bounds the rounds left.
unfoldable pub read_loop :
    Realloc → Arrivals → ℕ → (round : ℕ) → (pipe : Ptr) → (has_data : Bool) → Prog ReadEnd
read_loop realloc recv zero round pipe has_data = λ _. out_of_fuel
read_loop realloc recv (suc fuel) round pipe has_data =
    let (ret, buffer, error) = net_fd_read (recv round).0 (recv round).1 in
    if ltb_ℤ (pos 0) ret
    then (do
      ret ← write_pipe realloc pipe buffer (size_of ret)
      if eqb_ℤ ret (pos 0)
          then read_loop realloc recv fuel (round + 1) pipe true
          else pure (record { ret = ret; has_data = has_data; need_close = true }))
    else if eqb_ℤ ret (pos 0)
    then pure (record { ret = ret; has_data = has_data; need_close = true })
    else pure (record { ret = ret; has_data = has_data; need_close = not (error == eagain) })

-- The local variables of `tcp_connect_write` after its loop.
pub record WriteEnd : Type 0 where
  pub ret : ℤ
  pub remain_data : Bool
  pub close_fd : Bool

abbrev pub write_end : ℤ → (remain_data close_fd : Bool) → Prog WriteEnd
write_end ret remain_data close_fd =
    pure (record { ret = ret; remain_data = remain_data; close_fd = close_fd })

-- The loop of `tcp_connect_write`.
unfoldable pub write_loop :
    Realloc → Departures → ℕ → (round : ℕ) → (pipe : Ptr) → (ret : ℤ) → Prog WriteEnd
write_loop realloc send zero round pipe ret = λ _. out_of_fuel
write_loop realloc send (suc fuel) round pipe ret = do
  (length, buffer) ← read_pipe pipe 1024
  if not (ltb 0 length) then write_end ret false false else do
    ret ← net_fd_write (send round).0 buffer
    if ltb_ℤ (pos 0) ret
        then (if ltb (size_of ret) length
            then (do
              write_pipe_head realloc pipe (drop (size_of ret) buffer) (length - size_of ret)
              write_end ret true false)
            else write_loop realloc send fuel (round + 1) pipe ret)
        else if eqb_ℤ ret (pos 0)
        then write_end ret true true
        else (let error = net_get_last_error (send round).1 in
            if not (error == eagain)
            then write_end (pos error) true true
            else write_loop realloc send fuel (round + 1) pipe (pos error))

abbrev pub fresh_connect : Connect
fresh_connect = record {
  channel = null;
  e_loop = null;
  read_proc = null;
  write_proc = null;
  error_proc = null;
  close_proc = null;
  userdata = null;
}

unfoldable pub modify_connect : (Connect → Connect) → Ptr → Prog (Unit {0})
unfolding load_connect store_connect
modify_connect f connect = do c ← load_connect connect; store_connect connect (some (f c))

unfoldable pub tcp_connect_get_event_loop : Ptr → Prog Ptr
tcp_connect_get_event_loop connect = do c ← load_connect connect; pure c.e_loop

unfoldable pub tcp_connect_get_event_channel : Ptr → Prog Ptr
tcp_connect_get_event_channel connect = do c ← load_connect connect; pure c.channel

unfoldable pub tcp_connect_set_userdata : Ptr → Ptr → Prog (Unit {0})
tcp_connect_set_userdata connect u = modify_connect (λ c. record c { userdata = u }) connect

unfoldable pub tcp_connect_get_userdata : Ptr → Prog Ptr
tcp_connect_get_userdata connect = do c ← load_connect connect; pure c.userdata

-- `on_read` and `on_close` are the addresses of the two functions.
unfoldable pub tcp_connect_mark_read : (on_read on_close : Ptr) → (connect : Ptr) → Prog ℤ
tcp_connect_mark_read on_read on_close connect = do
  c ← load_connect connect
  event_channel_add_mask c.channel (bit_or fd_mask_read fd_mask_error)
  event_channel_set_read_proc c.channel on_read
  event_channel_set_close_proc c.e_loop on_close
  pure (pos 0)

module _ (io : EventIo) where
  -- `on_write` is the address of `tcp_connec_on_write`.
  unfoldable pub tcp_connect_mark_write : (on_write : Ptr) → (connect : Ptr) → Prog ℤ
  tcp_connect_mark_write on_write connect = do
    c ← load_connect connect
    event_channel_add_mask c.channel fd_mask_write
    event_channel_set_write_proc c.channel on_write
    event_loop_update_channel io c.e_loop c.channel
    pure (pos 0)

  unfoldable pub tcp_connect_unmark_write : (connect : Ptr) → Prog ℤ
  tcp_connect_unmark_write connect = do
    c ← load_connect connect
    event_channel_remove_mask c.channel fd_mask_write
    event_channel_set_write_proc c.channel null
    event_loop_update_channel io c.e_loop c.channel
    pure (pos 0)

  unfoldable pub tcp_connect_write : Realloc → Departures → ℕ → (connect : Ptr) → Prog ℤ
  tcp_connect_write realloc send fuel connect = do
    channel ← tcp_connect_get_event_channel connect
    event_channel_get_userdata channel
    pipe_send ← event_channel_get_send_pipe channel
    event_channel_get_fd channel
    e ← write_loop realloc send fuel 0 pipe_send (pos 0)
    if e.close_fd
        then pure minus_one
        else do when (not e.remain_data) (do tcp_connect_unmark_write connect; pure tt); pure e.ret

  -- The caller's pointer comes in and goes out as the result. The search of the map has `fuel`
  -- rounds.
  unfoldable pub tcp_connect_delete : ℕ → (connect : Ptr) → Prog Ptr
  tcp_connect_delete fuel connect = if connect == null then pure null else do
    c ← load_connect connect
    fd ← event_channel_get_fd c.channel
    when (not (c.e_loop == null) && not (c.channel == null))
        (do event_loop_remove_channel io fuel c.e_loop c.channel; pure tt)
    when (not (c.channel == null)) (do
      net_fd_close fd
      event_channel_delete c.channel
      store_connect connect (some (record c { channel = null })))
    store_connect connect none
    pure null

  -- `new` are the addresses that calloc returns: for the connection, for the channel with its two
  -- pipes, and for the node of the map.
  unfoldable pub tcp_connect_create :
      (on_read on_close : Ptr)
      → ℕ
      → (new channel recv send node : Ptr) → (fd : ℤ)
      → (e_loop read_proc write_proc close_proc : Ptr) → Prog Ptr
  tcp_connect_create on_read on_close fuel new channel recv send node fd e_loop read_proc write_proc
        close_proc =
      if new == null then pure null else do
        store_connect new (some fresh_connect)
        channel ← event_channel_create channel recv send
        if channel == null then tcp_connect_delete fuel new else do
          store_connect new (
              some (record fresh_connect {
                channel = channel;
                e_loop = e_loop;
                read_proc = read_proc;
                write_proc = write_proc;
                close_proc = close_proc;
              }))
          event_channel_set_fd channel fd
          event_channel_set_userdata channel new
          tcp_connect_mark_read on_read on_close new
          ret ← event_loop_add_channel io node e_loop channel
          if eqb_ℤ ret (pos 0) then pure new else do
            modify_connect (λ c. record c { e_loop = null }) new
            tcp_connect_delete fuel new

  -- `call` is what the program's function pointers do to a connection.
  module _ (call : Ptr → Ptr → Prog ℤ) (fuel : ℕ) where
    unfoldable pub tcp_connec_on_close : (channel : Ptr) → Prog ℤ
    tcp_connec_on_close channel = do
      connect ← event_channel_get_userdata channel
      c ← load_connect connect
      if not (c.close_proc == null)
          then (do call c.close_proc connect; pure (pos 0))
          else (do tcp_connect_delete fuel connect; pure (pos 0))

    unfoldable pub tcp_connec_on_write : (channel : Ptr) → Prog ℤ
    tcp_connec_on_write channel = do
      connect ← event_channel_get_userdata channel
      c ← load_connect connect
      when (not (c.write_proc == null)) (do call c.write_proc connect; pure tt)
      pure (pos 0)

    -- `ret` and `need_close` after the call of the connection's own function.
    unfoldable pub hand_over : (connect : Ptr) → ReadEnd → Prog (ℤ × Bool)
    hand_over connect e = if not e.has_data then pure (e.ret, e.need_close) else do
      c ← load_connect connect
      ret ← (if c.read_proc == null then pure e.ret else call c.read_proc connect)
      pure (ret, e.need_close && not (eqb_ℤ ret (pos 1)))

    unfoldable pub tcp_connec_on_read : Realloc → Arrivals → (rounds : ℕ) → (channel : Ptr) → Prog ℤ
    tcp_connec_on_read realloc recv rounds channel = do
      event_channel_get_fd channel
      connect ← event_channel_get_userdata channel
      pipe_recv ← event_channel_get_recv_pipe channel
      e ← read_loop realloc recv rounds 0 pipe_recv false
      (ret, need_close) ← hand_over connect e
      when need_close (do tcp_connec_on_close channel; pure tt)
      pure (if ltb_ℤ ret (pos 0) then minus_one else ret)
