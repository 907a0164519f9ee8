-- ===== src/TcpConnect/Tests.antt =====
-- A connection on a loop, and the calls of src/net/tcp_connect.c on it.
use eloop.Base.{
  Option, ◌≡◌, ◌⊎◌, inr, refl, none, some, ◌==◌, [], ◌∷◌, ◌++◌, Bool, ◌&&◌, ◌||◌, true, false,
  if◌then◌else◌, ℤ, pos, minus_one, eqb_ℤ, arith,
}
use eloop.Memory.{Ptr, node, handle, ok, fault, pure, ◌>>=◌}
use eloop.LinkedList.Links.{Cells}
use eloop.World.{FdSet, Select, Channel, Connect, Loop, Memory, Prog}
use eloop.BufferPipe.{Pipe}
use eloop.BufferPipe.Valid.{IsValid, contents}
use eloop.BufferPipe.Zeros.{zeros, zeros-IsRealloc, zeros-IsPlentiful}
use eloop.EventChannel.{zeroed}
use eloop.ChannelMap.Find.{IsMap}
use eloop.EventIo.{EventIo}
use eloop.EventIo.Select.{Timeval, Selected, zeroed_select, fd_zero, fd_set, select_io}
use eloop.EventLoop.Channels.Watches.{Watches}
use eloop.Net.{eagain}
use eloop.TcpConnect.{
  Arrivals, Departures, fresh_connect, write_loop, tcp_connect_mark_read, tcp_connect_mark_write,
  tcp_connect_write, tcp_connec_on_read,
}
use eloop.TcpConnect.Pipes.{with_pipes, Refilled}
use eloop.TcpConnect.Write.{with_output, IsSending}
use eloop.TcpConnect.Marks.{SameStreams, ChannelIs, tcp_connect_mark_write-Watches}
use eloop.TcpConnect.Send.{tcp_connect_write-sent}
use eloop.TcpConnect.Receive.{clipped, tcp_connec_on_read-received}
use eloop.TcpConnect.Lost.{write_loop-lost, tcp_connect_mark_read-fault}

abbrev the_loop : Loop
the_loop = record {
  tid = pos 2;
  timer_list = 1;
  job_list = 2;
  fd_io = 4;
  ec_map = 5;
  is_thread_ready = true;
}

abbrev socket : Channel
socket = record zeroed {
  fd = pos 9;
  mask = 3;
  write_proc = 71;
  userdata = 40;
  pipe_recv = 41;
  pipe_send = 42;
}

abbrev client : Connect
client = record fresh_connect { channel = 25; e_loop = 3; read_proc = 60; close_proc = 61 }

abbrev pipe : Pipe
pipe = record { block = 1 ∷ 2 ∷ 3 ∷ 4 ∷ 9 ∷ 9 ∷ 9 ∷ 9 ∷ []; length = 4; actual_length = 8 }

pipe-IsValid : IsValid pipe
pipe-IsValid = record { block_size = refl; in_block = omega arith; small = omega arith }

-- The descriptor 9 is polled for reading and writing.
abbrev nine : Select
nine = record zeroed_select {
  fds_read = fd_set (pos 9) fd_zero;
  fds_write = fd_set (pos 9) fd_zero;
  max_fd = pos 9;
}

-- The loop at 3 has the channel at 25, of the connection at 40, in the node 15 of its map at 5.
abbrev open_socket : Memory
open_socket = record {
  node_at = λ a. if a == 15 then some (node 0 0 25) else none;
  list_at = λ a. if a == 6 then some (handle 15 15 1) else none;
  user = record {
    pipe_at = λ a. if a == 41 then some pipe else if a == 42 then some pipe else none;
    channel_at = λ a. if a == 25 then some socket else none;
    map_at = λ a. if a == 5 then some 6 else none;
    timer_at = λ a. none;
    job_at = λ a. none;
    loop_at = λ a. if a == 3 then some the_loop else none;
    select_at = λ a. if a == 4 then some nine else none;
    kqueue_at = λ a. none;
    connect_at = λ a. if a == 40 then some client else none;
    server_at = λ a. none;
    pool_at = λ a. none;
    closed = [];
    changes = [];
    sent = 8 ∷ [];
  };
}

abbrev cells : Cells
cells = (15, 25) ∷ []

open_socket-IsMap : IsMap open_socket 5 6 cells
open_socket-IsMap = record {
  ne_null = ground arith;
  at_map = refl;
  list = record {
    ne_null = ground arith;
    unmapped = refl;
    header = refl;
    links = (ground arith, refl, refl, tt);
  };
  channels = (ground arith, (socket, refl), tt);
}

one_wanted : (b : Bool) → (if b then true else false) ≡ ((b && true) || false)
one_wanted b = ground arith

none_wanted : (b : Bool) → false ≡ ((b && false) || false)
none_wanted b = ground arith

open_socket-Watches : Watches open_socket 3 the_loop 6 cells
open_socket-Watches = record {
  sets = nine;
  polled = record {
    ne_null = ground arith;
    at_loop = refl;
    channels = open_socket-IsMap;
    io_ne_null = ground arith;
    at_io = refl;
  };
  in_step = record {
    reads = λ fd. one_wanted (eqb_ℤ fd (pos 9));
    writes = λ fd. one_wanted (eqb_ℤ fd (pos 9));
    errors = λ fd. none_wanted (eqb_ℤ fd (pos 9));
  };
  max_known = inr (refl, tt);
}

abbrev call : Ptr → Ptr → Prog ℤ
call o i = pure (pos 1)

abbrev select : ℤ → FdSet → FdSet → FdSet → Timeval → Selected
select n r w x tv = record {
  count = pos 0;
  interrupted = false;
  ready_read = fd_zero;
  ready_write = fd_zero;
  ready_exp = fd_zero;
}

abbrev io : EventIo
io = select_io 1024 call select 9

tcp_connect_mark_write-Watches_example :
    (m' : Memory) × (tcp_connect_mark_write io 73 40 open_socket ≡ ok (pos 0) m')
    × Watches m' 3 the_loop 6 cells
    × SameStreams open_socket m'
    × ChannelIs open_socket m' 25 (record socket { write_proc = 73 })
tcp_connect_mark_write-Watches_example =
    tcp_connect_mark_write-Watches 1024 call select 9 open_socket client socket (ground arith) refl
      [] 15 [] open_socket-Watches refl tt tt 40 (ground arith) refl 73

-- send takes three bytes.
abbrev send : Departures
send j = (pos 3, 0)

send-IsSending : IsSending send
send-IsSending j = (3, refl, omega arith)

tcp_connect_write-sent_example :
    (ret : ℤ) × (m' : Memory) × (q' : Pipe) × (tcp_connect_write io zeros send 5 40 open_socket
      ≡ ok ret m')
    × (m'.user.pipe_at 42 ≡ some q')
    × IsValid q'
    × (m'.user.sent ++ contents q' ≡ 8 ∷ 1 ∷ 2 ∷ 3 ∷ 4 ∷ [])
    × Watches m' 3 the_loop 6 cells
    × (ChannelIs open_socket m' 25 socket
        ⊎ ((contents q' ≡ [])
            × ChannelIs open_socket m' 25 (record socket { mask = 1; write_proc = 0 })))
tcp_connect_write-sent_example =
    tcp_connect_write-sent zeros-IsRealloc zeros-IsPlentiful send send-IsSending 1024 call select 9
      open_socket 40 (ground arith) client refl socket (ground arith) refl [] 15 []
      open_socket-Watches refl tt tt (ground arith) pipe refl pipe-IsValid (omega arith) 5
      (omega arith)

-- Two bytes arrive, then no more for now.
abbrev recv : Arrivals
recv j =
    if j == 0
    then (record { count = pos 2; buffer = 5 ∷ 6 ∷ 0 ∷ [] }, 0)
    else (record { count = minus_one; buffer = [] }, eagain)

tcp_connec_on_read-received_example :
    (q : Pipe) × (f : Ptr → Option Pipe) × (tcp_connec_on_read io call 3 zeros recv 2 25 open_socket
      ≡ (do ret ← call 60 40; pure (clipped ret)) (with_pipes open_socket f))
    × Refilled open_socket 41 q f
    × IsValid q
    × (contents q ≡ 1 ∷ 2 ∷ 3 ∷ 4 ∷ 5 ∷ 6 ∷ [])
tcp_connec_on_read-received_example =
    tcp_connec_on_read-received zeros-IsRealloc zeros-IsPlentiful recv io call 3 open_socket 25
      (ground arith) socket refl client (ground arith) refl (ground arith) pipe refl pipe-IsValid 0
      2
      (
        (
          2,
          record {
            count = refl;
            some_bytes = omega arith;
            bound = omega arith;
            filled = omega arith;
          },
        ),
        refl,
      )
      refl refl (omega arith) (omega arith) (ground arith)

-- send takes nothing for now.
abbrev stuck : Departures
stuck j = (minus_one, eagain)

write_loop-lost_example :
    (q : Pipe) × (f : Ptr → Option Pipe) × (write_loop zeros stuck 2 0 42 (pos 0) open_socket
      ≡ ok
          (record { ret = pos eagain; remain_data = false; close_fd = false })
          (with_output open_socket f (8 ∷ [])))
    × (f 42 ≡ some q)
    × (contents q ≡ [])
write_loop-lost_example =
    write_loop-lost zeros 42 (ground arith) stuck 0 refl refl 0 (pos 0) open_socket pipe refl
      pipe-IsValid (omega arith) (omega arith)

tcp_connect_mark_read-fault_example : tcp_connect_mark_read 70 72 40 open_socket ≡ fault
tcp_connect_mark_read-fault_example =
    tcp_connect_mark_read-fault open_socket 40 client socket 70 72 (ground arith) refl
      (ground arith) refl refl
