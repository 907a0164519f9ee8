-- ===== src/Lib.antt =====
-- A model of eloop, an event loop library in C, and theorems about it.
--
-- The parts of the program, from the bottom up. A doubly linked list (src/common/list.c) carries
-- the channels, the timers and the jobs. A buffer pipe (src/buffer_pipe.c) holds the bytes that a
-- connection has read or has yet to write. A channel (src/event_channel.c) joins a file descriptor,
-- a mask of the events it waits for, its callbacks and two pipes. A channel map
-- (src/event_channel_map.c) is the list of an event loop's channels. An event loop
-- (src/event_loop.c) runs the timers, the jobs and the channels, which it polls through a backend
-- (src/event_io.h) with select (src/event_io_select.c) or kqueue (src/event_io_kqueue.c), and a pool
-- (src/event_loop_pool.c) hands out event loops in turn. A connection (src/net/tcp_connect.c) is a
-- channel of an event loop that moves bytes between a socket (src/net/net.c) and two pipes, and a
-- server (src/net/tcp_server.c) is a socket that is listened on.
--
-- The files:
--   Base, Base/*: names of the libraries, Boolean tests, lists, and C's integers.
--   Memory: the memory of the list, and commands over it, that may fault or run out of fuel.
--   LinkedList: each function of src/common/list.c under its own name, as a command. `Links` says
--     what a sequence of nodes is, `Updates` and `Access` what a pointer write and an accessor do;
--     `Remove`, `Insert`, `AppendAfter`, `AppendBefore`, `Find`, `Clear`, `Matches` and `Purge`
--     are about the functions of those names and the searching removals.
--   BufferPipe: each function of src/buffer_pipe.c. `Valid` has the invariant, and `Queue` relates
--     sequences of calls to a plain list of bytes.
--   World: the structures of the other parts and the memory that holds them, one map from
--     addresses to contents for each kind.
--   EventChannel: each function of src/event_channel.c, and the masks of src/event.h.
--   ChannelMap: each function of src/event_channel_map.c. `Walk` is about going through a map with
--     event_channel_map_get_head and event_channel_map_get_next.
--   EventIo: the interface of src/event_io.h and its two backends. `Select` has `Sets` and `InStep`
--     for the descriptor sets, `Dispatch` and `Poll` for event_io_poll; `Kqueue` has `Delete` for
--     event_io_remove_fd and `Serve` for the loop of event_io_poll.
--   EventLoop: src/event_loop.c. `Time` is _ts_plus and _timer_compare, `Timers` the functions on
--     timers, `Jobs` those on jobs, `Channels` those that register channels, `Thread` the thread,
--     and `LifeCycle` event_loop_create and event_loop_delete, with the backend of select.
--     `Channels.Watches` says when a loop watches exactly what its channels wait for: the sets of
--     select hold just that, and the flag for a new largest descriptor is set unless the one that
--     is kept covers the map; `InStep`, `Update` and `RemoveFd` are about the functions that change
--     the map or the sets, and `Touch` about a channel that changes while it is polled.
--   Net: src/net/net.c, with `Sockets` about net_tcp_server and net_tcp_accept.
--   TcpConnect: src/net/tcp_connect.c. `Pipes` has the calls on a pipe at its address, `Read` and
--     `Receive` are about reading, `Write`, `Marks` and `Send` about writing, and `Lost` about what
--     goes wrong.
--   TcpServer: src/net/tcp_server.c.
--   EventLoopPool: src/event_loop_pool.c. `Turns` is about event_loop_pool_next, `Delete`, `Create`
--     and `Failed` about the making and the deletion of a pool. event_loop_create is an argument
--     there, with what it promises as a record, which `Loops` is about, and event_loop_delete is
--     given what the code gives it, a loop and not the address of a pointer.
--
-- How the model corresponds to the code. A function of C is a definition of the same name, a
-- leading underscore left out; a helper that a loop body needs is named for the loop. A pointer is
-- a number, NULL is 0, and a command faults where C reads or writes through NULL or through an
-- address that holds nothing of that kind. The addresses that calloc returns, what realloc
-- returns, what the clock reads and what a program's callbacks do are arguments. A `T **` that a
-- function sets to NULL is its argument and its result. The counters of the list are numbers, as
-- they count allocated nodes; a result of type unsigned int wraps at 2 ^ 32 and a size_t at 2 ^ 64.
--
-- Loops. A loop takes fuel, the number of rounds it may make, and every result about one asks for
-- more rounds than its list has nodes, the bound that a loop over a list needs; the loop that sends
-- asks for more rounds than its pipe has bytes, and the one that receives for more than there are
-- calls of recv that bring bytes. The firing of timers and the running of jobs depend on callbacks
-- that may add more; their loops run out of fuel where the code would go on.
--
-- The system. What select, kevent, recv, send and the calls of net.c answer are arguments; recv and
-- send are given by the round of the loop that calls them, and what a callback does by its address.
-- The world holds what the program has told the system: the descriptors closed, the bytes sent and
-- the changes handed to kevent. FD_SETSIZE is an argument, and a descriptor outside it is a fault.
--
-- What is not modelled. Threads and mutexes: each function that holds a mutex throughout is one
-- step. _wakeup_thread of src/event_loop.c, which only signals a condition. Of src/net/net.c, the
-- code for other systems than Linux, the texts about errors and the addresses of sockets. The
-- counter of a poll's channels is a number, since it counts allocated nodes. The benchmark
-- pingpong.c is input and output.
pub mod Base
pub mod Memory
pub mod LinkedList
pub mod BufferPipe
pub mod World
pub mod EventChannel
pub mod ChannelMap
pub mod EventIo
pub mod EventLoop
pub mod Net
pub mod TcpConnect
pub mod TcpServer
pub mod EventLoopPool
