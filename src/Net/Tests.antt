-- ===== src/Net/Tests.antt =====
-- Calls of src/net/net.c where a step after the first one fails.
use eloop.Base.{◌≡◌, ◌≢◌, ◌⊎◌, none, some, [], pos, minus_one}
use eloop.Memory.{ok}
use eloop.World.{Memory}
use eloop.Net.{System, net_fd_set_noblock, net_tcp_accept}
use eloop.Net.Sockets.{after_close, net_tcp_accept-closed}

-- The descriptor 5 can be bound and not listened on, and 6 is accepted.
abbrev system : System
system = record {
  socket = pos 5;
  connect = λ fd. pos 0;
  bind = λ fd. pos 0;
  listen = λ fd backlog. minus_one;
  accept = λ fd. pos 6;
  sin_port = 80;
  o_nonblock = 2048;
  f_getfl = λ fd. 2;
  f_setfl = λ fd flags. pos 0;
  setsockopt = λ fd level option value. pos 0;
  shutdown = λ fd how. pos 0;
}

abbrev nothing : Memory
nothing = record {
  node_at = λ a. none;
  list_at = λ a. none;
  user = record {
    pipe_at = λ a. none;
    channel_at = λ a. none;
    map_at = λ a. none;
    timer_at = λ a. none;
    job_at = λ a. none;
    loop_at = λ a. none;
    select_at = λ a. none;
    kqueue_at = λ a. none;
    connect_at = λ a. none;
    server_at = λ a. none;
    pool_at = λ a. none;
    closed = [];
    changes = [];
    sent = [];
  };
}

net_tcp_accept-closed_example :
    ((system.accept (pos 5) ≡ minus_one)
      × (net_tcp_accept system 2 (pos 5) nothing ≡ ok (minus_one, none) nothing))
    ⊎ ((net_fd_set_noblock system (pos 6) ≡ pos 0)
        × (net_tcp_accept system 2 (pos 5) nothing ≡ ok (pos 6, some 80) nothing))
    ⊎ ((net_fd_set_noblock system (pos 6) ≢ pos 0)
        × (net_tcp_accept system 2 (pos 5) nothing
            ≡ ok (minus_one, none) (after_close (pos 6) nothing)))
net_tcp_accept-closed_example = net_tcp_accept-closed system nothing 0 (pos 5)
