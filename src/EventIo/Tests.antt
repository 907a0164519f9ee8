-- ===== src/EventIo/Tests.antt =====
-- Polls of a map of two channels with the backend of src/event_io_select.c.
use eloop.Base.{
  ℕ, List, minus_one, ◌≡◌, refl, some, none, ◌==◌, [], ◌∷◌, true, false, if◌then◌else◌, Option, ℤ,
  pos, arith,
}
use eloop.Memory.{ok, Ptr, node, handle}
use eloop.LinkedList.Links.{Cells}
use eloop.World.{Kevent, Kqueue, evfilt_read, evfilt_write, ev_add, FdSet, Select, Channel, Memory}
use eloop.EventChannel.{zeroed}
use eloop.ChannelMap.Find.{IsMap}
use eloop.EventIo.Select.{Timeval, Selected, zeroed_select, fd_zero, fd_set, event_io_poll}
use eloop.EventIo.Select.Sets.{Changed}
use eloop.EventIo.Select.Dispatch.{Effect, IsQuiet, callback}
use eloop.EventIo.Select.Sets.{with_selects}
use eloop.EventIo.Select.Poll.{IsAsked, polled, reply, answer, event_io_poll-answer}
use eloop.EventIo.Kqueue.{zeroed_kevent, put_entry, Fired, poll_loop, event_io_remove_fd}
use eloop.EventIo.Kqueue.Delete.{with_change, except_deleted, event_io_remove_fd-one}
use eloop.EventIo.Kqueue.Serve.{served, poll_loop-served}

abbrev first_socket : Channel
first_socket = record zeroed { fd = pos 5; mask = 1; read_proc = 70 }

abbrev second_socket : Channel
second_socket = record zeroed { fd = pos 7; mask = 3; read_proc = 70; write_proc = 71 }

-- What is polled, after a change.
abbrev sets : Select
sets = record zeroed_select {
  fds_read = fd_set (pos 5) (fd_set (pos 7) fd_zero);
  fds_write = fd_set (pos 7) fd_zero;
  fds_is_dirty = true;
}

-- The map at 2 has its list at 1 and holds the channels at 21 and 22, the sets lie at 4.
abbrev sockets : Memory
sockets = record {
  node_at =
      λ a. if a == 11 then some (node 0 12 21) else if a == 12 then some (node 11 0 22) else none;
  list_at = λ a. if a == 1 then some (handle 11 12 2) else none;
  user = record {
    pipe_at = λ a. none;
    channel_at =
        λ a. if a == 21 then some first_socket else if a == 22 then some second_socket else none;
    map_at = λ a. if a == 2 then some 1 else none;
    timer_at = λ a. none;
    job_at = λ a. none;
    loop_at = λ a. none;
    select_at = λ a. if a == 4 then some sets else none;
    kqueue_at = λ a. none;
    connect_at = λ a. none;
    server_at = λ a. none;
    pool_at = λ a. none;
    closed = [];
    changes = [];
    sent = [];
  };
}

abbrev cells : Cells
cells = (11, 21) ∷ (12, 22) ∷ []

sockets-IsMap : IsMap sockets 2 1 cells
sockets-IsMap = record {
  ne_null = ground arith;
  at_map = refl;
  list = record {
    ne_null = ground arith;
    unmapped = refl;
    header = refl;
    links = (ground arith, refl, refl, (ground arith, refl, refl, tt));
  };
  channels = (ground arith, (first_socket, refl), (ground arith, (second_socket, refl), tt));
}

-- A callback that notes its address at the channel's.
abbrev noting : Effect
noting o i w = record w { closed = pos o ∷ w.closed }

noting-IsQuiet : IsQuiet noting
noting-IsQuiet = record { channels = λ o i w. refl; maps = λ o i w. refl; selects = λ o i w. refl }

-- The descriptor 7 can be written to.
abbrev writable : ℤ → FdSet → FdSet → FdSet → Timeval → Selected
writable n r w x tv = record {
  count = pos 1;
  interrupted = false;
  ready_read = fd_zero;
  ready_write = fd_set (pos 7) fd_zero;
  ready_exp = fd_zero;
}

event_io_poll-answer_example :
    (top : ℤ) × (f : Ptr → Option Select) × (event_io_poll 1024
        (callback noting)
        writable
        3
        4
        2
        100
        sockets
      ≡ answer noting
          (polled sets top (reply writable 100 sets top))
          sockets.user.channel_at
          cells
          (reply writable 100 sets top)
          (with_selects sockets f))
    × Changed sockets 4 (polled sets top (reply writable 100 sets top)) f
    × IsAsked sockets.user cells sets top
event_io_poll-answer_example =
    event_io_poll-answer 1024 noting-IsQuiet 3 (omega arith) 4 (ground arith) writable 100 sockets
      sets sockets-IsMap
      (ground arith, (first_socket, refl, refl), (ground arith, (second_socket, refl, refl), tt))
      refl

-- Two entries of the descriptor 5, of which the first is for reading.
abbrev entries : ℕ → Kevent
entries i =
    if i == 0
    then record { ident = pos 5; filter = evfilt_read; action = ev_add; udata = 21 }
    else if i == 1
    then record { ident = pos 5; filter = evfilt_write; action = ev_add; udata = 21 }
    else record zeroed_kevent { ident = minus_one }

abbrev queue : Kqueue
queue = record { kqfd = pos 3; events = entries }

abbrev polled_twice : Memory
polled_twice = record sockets {
  user = record (sockets.user) {
    channel_at = λ a. if a == 21 then some (record first_socket { mask = 7 }) else none;
    kqueue_at = λ a. if a == 4 then some queue else none;
  };
}

abbrev submit : List Kevent → ℤ
submit es = pos 0

event_io_remove_fd-one_example :
    (f : Ptr → Option Kqueue) × (event_io_remove_fd 1024 submit 4 21 polled_twice
      ≡ ok (pos 0) (with_change polled_twice f (except_deleted (pos 5) 21)))
    × (f 4
        ≡ some (record queue {
          events = put_entry entries 0 (record (except_deleted (pos 5) 21) { ident = minus_one });
        }))
event_io_remove_fd-one_example =
    event_io_remove_fd-one 1024 submit 4 (ground arith) queue (pos 5) 21 0 refl refl
      (record first_socket { mask = 7 }) polled_twice (ground arith) refl refl refl refl
      (omega arith) (λ a h. absurd (omega arith))

-- The second channel is ready for writing, then the first one's peer has closed.
abbrev fired : List Fired
fired =
    record { channel = 22; filter = evfilt_write; is_error = false; is_eof = false }
    ∷ record { channel = 21; filter = evfilt_read; is_error = false; is_eof = true }
    ∷ []

poll_loop-served_example :
    poll_loop (callback noting) fired sockets
    ≡ ok tt (record sockets { user = served noting sockets.user.channel_at fired sockets.user })
poll_loop-served_example =
    poll_loop-served noting noting-IsQuiet.channels fired sockets
      (ground arith, (second_socket, refl), (ground arith, (first_socket, refl), tt))
