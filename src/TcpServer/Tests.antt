-- ===== src/TcpServer/Tests.antt =====
-- A server whose socket can be bound and not listened on.
use eloop.Base.{◌≡◌, ◌⊎◌, Option, none, some, [], true, false, ℤ, pos, minus_one, eqb_ℤ, arith}
use eloop.Memory.{Ptr, ok}
use eloop.World.{Memory}
use eloop.Net.{System}
use eloop.Net.Sockets.{after_close, is_ready}
use eloop.TcpServer.{tcp_server_open}
use eloop.TcpServer.Open.{with_servers, Served, tcp_server_open-closed}

-- The descriptor 5 can be bound and not listened on, and 6 is accepted.
abbrev system : System
system = record {
  socket = pos 5;
  connect = λ fd. pos 0;
  bind = λ fd. pos 0;
  listen = λ fd backlog. minus_one;
  accept = λ fd. pos 6;
  sin_port = 80;
  o_nonblock = 2048;
  f_getfl = λ fd. 2;
  f_setfl = λ fd flags. pos 0;
  setsockopt = λ fd level option value. pos 0;
  shutdown = λ fd how. pos 0;
}

abbrev nothing : Memory
nothing = record {
  node_at = λ a. none;
  list_at = λ a. none;
  user = record {
    pipe_at = λ a. none;
    channel_at = λ a. none;
    map_at = λ a. none;
    timer_at = λ a. none;
    job_at = λ a. none;
    loop_at = λ a. none;
    select_at = λ a. none;
    kqueue_at = λ a. none;
    connect_at = λ a. none;
    server_at = λ a. none;
    pool_at = λ a. none;
    closed = [];
    changes = [];
    sent = [];
  };
}

tcp_server_open-closed_example :
    (f : Ptr → Option ℤ) × (((pos 5 ≡ minus_one)
        × (tcp_server_open system 8 (pos 9) nothing ≡ ok 0 (with_servers nothing f))
        × Served nothing 8 none f)
      ⊎ ((is_ready system (pos 9) (pos 5) ≡ true)
          × (eqb_ℤ (pos 5) minus_one ≡ false)
          × (tcp_server_open system 8 (pos 9) nothing ≡ ok 8 (with_servers nothing f))
          × Served nothing 8 (some (pos 5)) f)
      ⊎ ((is_ready system (pos 9) (pos 5) ≡ false)
          × (tcp_server_open system 8 (pos 9) nothing
              ≡ ok 0 (after_close (pos 5) (with_servers nothing f)))
          × Served nothing 8 none f))
tcp_server_open-closed_example = tcp_server_open-closed system nothing 8 (ground arith) (pos 9)
