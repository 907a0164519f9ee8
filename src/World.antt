-- ===== src/World.antt =====
-- The structures of the parts of the program above the list and the buffer pipe, and the
-- memory that they live in. A program runs on a `Mem World`: list nodes and list headers as in
-- `Memory`, and everything else here. A function pointer is an address, and NULL is 0.
use eloop.Base.{ℕ, Option, none, some, ◌==◌, if◌then◌else◌, ℤ, Bool, List}
use eloop.Memory.{Ptr, null, Mem, ok, fault, Cmd, write}
use eloop.BufferPipe.{Pipe}

-- `struct event_channel`, with the array `procs` by its four names. A mask is its bit pattern.
pub record Channel : Type 0 where
  pub fd : ℤ
  pub mask : ℕ
  pub read_proc : Ptr
  pub write_proc : Ptr
  pub error_proc : Ptr
  pub close_proc : Ptr
  pub userdata : Ptr
  pub pipe_recv : Ptr
  pub pipe_send : Ptr

-- `enum timer_type`.
pub data TimerType : Type 0 where
  one_shot forever : TimerType

-- `struct timespec`; the monotonic clock does not go below 0.
pub record Timespec : Type 0 where
  pub sec : ℕ
  pub nsec : ℕ

-- `struct event_timer`.
pub record Timer : Type 0 where
  pub id : ℤ
  pub interval_ms : ℕ
  pub type : TimerType
  pub on_timer : Ptr
  pub userdata : Ptr
  pub ts : Timespec

-- `struct event_job`.
pub record Job : Type 0 where
  pub on_job : Ptr
  pub userdata1 : Ptr
  pub userdata2 : Ptr
  pub userdata3 : Ptr

-- `struct event_loop` without the mutexes, the condition, the thread and its flag, and the three
-- fields that nothing reads.
pub record Loop : Type 0 where
  pub tid : ℤ
  pub timer_list : Ptr
  pub job_list : Ptr
  pub fd_io : Ptr
  pub ec_map : Ptr
  pub is_thread_ready : Bool

-- `fd_set`, by its members.
abbrev pub FdSet : Type 0
FdSet = ℤ → Bool

-- `struct event_io` of src/event_io_select.c.
pub record Select : Type 0 where
  pub fds_read : FdSet
  pub fds_write : FdSet
  pub fds_exp : FdSet
  pub fds_read_back : FdSet
  pub fds_write_back : FdSet
  pub fds_exp_back : FdSet
  pub max_fd : ℤ
  pub fds_is_dirty : Bool

-- The filters and the actions of a `struct kevent` that src/event_io_kqueue.c uses.
pub data Filter : Type 0 where
  unset evfilt_read evfilt_write evfilt_except : Filter

pub data Action : Type 0 where
  no_action ev_add ev_delete : Action

pub record Kevent : Type 0 where
  pub ident : ℤ
  pub filter : Filter
  pub action : Action
  pub udata : Ptr

-- `struct event_io` of src/event_io_kqueue.c, without the array that nothing uses.
pub record Kqueue : Type 0 where
  pub kqfd : ℤ
  pub events : ℕ → Kevent

-- `struct tcp_connect`, with the array `procs` by its four names.
pub record Connect : Type 0 where
  pub channel : Ptr
  pub e_loop : Ptr
  pub read_proc : Ptr
  pub write_proc : Ptr
  pub error_proc : Ptr
  pub close_proc : Ptr
  pub userdata : Ptr

-- `struct event_loop_pool`; `e_loops` gives the pointer at each index.
pub record Pool : Type 0 where
  pub number : ℕ
  pub e_loops : ℕ → Ptr
  pub pos : ℕ

-- What lies at each address; `map_at` holds the `channel_list` of a `struct event_channel_map`,
-- and `server_at` the `fd` of a `struct tcp_server`.
-- `closed` are the descriptors that the program has closed and `changes` the entries that it has
-- handed to kevent, both with the latest first, and `sent` the bytes that send has taken, in order.
pub record World : Type 0 where
  pub pipe_at : Ptr → Option Pipe
  pub channel_at : Ptr → Option Channel
  pub map_at : Ptr → Option Ptr
  pub timer_at : Ptr → Option Timer
  pub job_at : Ptr → Option Job
  pub loop_at : Ptr → Option Loop
  pub select_at : Ptr → Option Select
  pub kqueue_at : Ptr → Option Kqueue
  pub connect_at : Ptr → Option Connect
  pub server_at : Ptr → Option ℤ
  pub pool_at : Ptr → Option Pool
  pub closed : List ℤ
  pub changes : List Kevent
  pub sent : List ℕ

abbrev pub Memory : Type 0
Memory = Mem World

abbrev pub Prog : Type 0 → Type 0
Prog = Cmd World

-- `*p`, a fault at NULL and at an address that holds nothing of the kind.
abbrev pub load_at : {A : Type 0} → (World → Ptr → Option A) → Ptr → Prog A
load_at field p m =
    if p == null then fault else elim (field m.user p) [ none ↦ fault | some a ↦ ok a m ]

unfoldable pub load_channel : Ptr → Prog Channel
load_channel = load_at λ w. w.channel_at

unfoldable pub load_pipe : Ptr → Prog Pipe
load_pipe = load_at λ w. w.pipe_at

unfoldable pub load_map : Ptr → Prog Ptr
load_map = load_at λ w. w.map_at

unfoldable pub load_timer : Ptr → Prog Timer
load_timer = load_at λ w. w.timer_at

unfoldable pub load_job : Ptr → Prog Job
load_job = load_at λ w. w.job_at

unfoldable pub load_loop : Ptr → Prog Loop
load_loop = load_at λ w. w.loop_at

unfoldable pub load_select : Ptr → Prog Select
load_select = load_at λ w. w.select_at

unfoldable pub load_kqueue : Ptr → Prog Kqueue
load_kqueue = load_at λ w. w.kqueue_at

unfoldable pub load_connect : Ptr → Prog Connect
load_connect = load_at λ w. w.connect_at

-- A write to one kind of memory; `none` gives the address back.
unfoldable pub store_channel : Ptr → Option Channel → Prog (Unit {0})
store_channel p c m =
    ok tt (record m { user = record (m.user) { channel_at = write m.user.channel_at p c } })

unfoldable pub store_pipe : Ptr → Option Pipe → Prog (Unit {0})
store_pipe p c m =
    ok tt (record m { user = record (m.user) { pipe_at = write m.user.pipe_at p c } })

unfoldable pub store_map : Ptr → Option Ptr → Prog (Unit {0})
store_map p c m = ok tt (record m { user = record (m.user) { map_at = write m.user.map_at p c } })

unfoldable pub store_timer : Ptr → Option Timer → Prog (Unit {0})
store_timer p c m =
    ok tt (record m { user = record (m.user) { timer_at = write m.user.timer_at p c } })

unfoldable pub store_job : Ptr → Option Job → Prog (Unit {0})
store_job p c m = ok tt (record m { user = record (m.user) { job_at = write m.user.job_at p c } })

unfoldable pub store_loop : Ptr → Option Loop → Prog (Unit {0})
store_loop p c m =
    ok tt (record m { user = record (m.user) { loop_at = write m.user.loop_at p c } })

unfoldable pub store_select : Ptr → Option Select → Prog (Unit {0})
store_select p c m =
    ok tt (record m { user = record (m.user) { select_at = write m.user.select_at p c } })

unfoldable pub store_kqueue : Ptr → Option Kqueue → Prog (Unit {0})
store_kqueue p c m =
    ok tt (record m { user = record (m.user) { kqueue_at = write m.user.kqueue_at p c } })

unfoldable pub store_connect : Ptr → Option Connect → Prog (Unit {0})
store_connect p c m =
    ok tt (record m { user = record (m.user) { connect_at = write m.user.connect_at p c } })

unfoldable pub load_server : Ptr → Prog ℤ
load_server = load_at λ w. w.server_at

unfoldable pub store_server : Ptr → Option ℤ → Prog (Unit {0})
store_server p c m =
    ok tt (record m { user = record (m.user) { server_at = write m.user.server_at p c } })

unfoldable pub load_pool : Ptr → Prog Pool
load_pool = load_at λ w. w.pool_at

unfoldable pub store_pool : Ptr → Option Pool → Prog (Unit {0})
store_pool p c m =
    ok tt (record m { user = record (m.user) { pool_at = write m.user.pool_at p c } })
