-- ===== src/EventLoop/Tests.antt =====
-- A loop with two timers and one job, and the calls of src/event_loop.c on it.
use eloop.Base.{
  Option, ℕ, ◌+◌, ◌*◌, ◌≡◌, ◌≢◌, inr, refl, none, some, ◌==◌, [], ◌∷◌, Bool, ◌&&◌, ◌||◌, eqb_ℤ,
  true, false, if◌then◌else◌, ltb, ltb_ℤ, ℤ, pos, minus_one, arith,
}
use eloop.Memory.{null, Ptr, node, handle, ok, pure}
use eloop.EventIo.{EventIo}
use eloop.LinkedList.Links.{Disjoint, Cells, IsList}
use eloop.LinkedList.Access.{SameOutside}
use eloop.LinkedList.Insert.{IsFresh}
use eloop.World.{FdSet, Select, Prog, Timespec, Timer, one_shot, Job, Loop, Memory, Channel}
use eloop.EventLoop.Time.{ts_plus, timer_compare}
use eloop.EventLoop.Time.Laws.{nanos, IsNormal, ts_plus-nanos, timer_compare-nanos}
use eloop.EventLoop.Timers.Fire
use eloop.LinkedList.Clear.{release_all}
use eloop.EventLoop.Thread.{thread_func}
use eloop.EventLoop.Thread.Stop.{thread_func-stopped}
use eloop.EventLoop.Timers.Fired.{timer_proc-fired}
use eloop.EventLoop.Timers.{timer_proc, timer_add, timer_free, event_loop_remove_timer}
use eloop.EventLoop.Timers.Sorted.{IsTimer, IsTimers}
use eloop.EventLoop.Timers.Add.{timer_add-IsTimers}
use eloop.EventLoop.Timers.Remove.{event_loop_remove_timer-present}
use eloop.EventChannel.{zeroed}
use eloop.ChannelMap.Find.{IsMap}
use eloop.EventIo.Select.{Timeval, Selected, zeroed_select, fd_zero, fd_set, select_io}
use eloop.EventIo.Select.Sets.{with_selects}
use eloop.EventIo.Select.InStep.{InStep, InStepBut}
use eloop.EventLoop.Channels.{
  event_loop_add_channel, event_loop_remove_channel, event_loop_update_channel,
  event_loop_remove_fd,
}
use eloop.EventLoop.Channels.Watches.{IsPolled, Watches}
use eloop.EventLoop.Channels.InStep.{
  event_loop_add_channel-Watches, event_loop_remove_channel-Watches,
}
use eloop.EventLoop.Channels.Update.{event_loop_update_channel-Watches}
use eloop.EventLoop.Channels.RemoveFd.{event_loop_remove_fd-Watches}
use eloop.EventLoop.Jobs.{job_free, job_proc}
use eloop.EventLoop.Jobs.Run.{Effect, IsQuiet, callback, run_jobs, job_proc-run_jobs}
use eloop.EventLoop.Jobs.Add.{IsJobs}

abbrev at_ms : ℕ → Timespec
at_ms n = record { sec = n; nsec = 500000000 }

abbrev timer : ℤ → ℕ → Timer
timer id n = record {
  id = id;
  interval_ms = 700;
  type = one_shot;
  on_timer = 90;
  userdata = 0;
  ts = at_ms n;
}

abbrev job : Job
job = record { on_job = 91; userdata1 = 1; userdata2 = 2; userdata3 = 3 }

abbrev the_loop : Loop
the_loop = record {
  tid = pos 2;
  timer_list = 1;
  job_list = 2;
  fd_io = 4;
  ec_map = 5;
  is_thread_ready = true;
}

abbrev socket : Channel
socket = record zeroed { fd = pos 9; mask = 3 }

-- The sets of the backend at 4: the descriptor 9 is polled for reading and writing.
abbrev nine : Select
nine = record zeroed_select {
  fds_read = fd_set (pos 9) fd_zero;
  fds_write = fd_set (pos 9) fd_zero;
  max_fd = pos 9;
}

-- The loop at 3 has its timers, at 21 and 22, in the nodes 11 and 12, its job, at 23, in 13,
-- and the channel at 25 in the node 15 of its map at 5.
abbrev busy : Memory
busy = record {
  node_at = λ a.
      if a == 11
      then some (node 0 12 21)
      else if a == 12
      then some (node 11 0 22)
      else if a == 13
      then some (node 0 0 23)
      else if a == 15
      then some (node 0 0 25)
      else none;
  list_at = λ a.
      if a == 1
      then some (handle 11 12 2)
      else if a == 2
      then some (handle 13 13 1)
      else if a == 6
      then some (handle 15 15 1)
      else none;
  user = record {
    pipe_at = λ a. none;
    channel_at = λ a.
        if a == 25
        then some socket
        else if a == 26
        then some (record zeroed { fd = pos 7; mask = 5 })
        else none;
    map_at = λ a. if a == 5 then some 6 else none;
    timer_at = λ a.
        if a == 21
        then some (timer (pos 1) 4)
        else if a == 22
        then some (timer (pos 2) 8)
        else none;
    job_at = λ a. if a == 23 then some job else none;
    loop_at = λ a. if a == 3 then some the_loop else none;
    select_at = λ a. if a == 4 then some nine else none;
    kqueue_at = λ a. none;
    connect_at = λ a. none;
    server_at = λ a. none;
    pool_at = λ a. none;
    closed = [];
    changes = [];
    sent = [];
  };
}

abbrev timers : Cells
timers = (11, 21) ∷ (12, 22) ∷ []

first-IsTimer : IsTimer busy.user 21
first-IsTimer = record {
  ne_null = ground arith;
  there = (timer (pos 1) 4, refl);
  small = omega arith;
}

second-IsTimer : IsTimer busy.user 22
second-IsTimer = record {
  ne_null = ground arith;
  there = (timer (pos 2) 8, refl);
  small = omega arith;
}

busy-IsTimers : IsTimers busy 3 1 timers
busy-IsTimers = record {
  ne_null = ground arith;
  at_loop = (the_loop, refl, refl);
  list = record {
    ne_null = ground arith;
    unmapped = refl;
    header = refl;
    links = (ground arith, refl, refl, (ground arith, refl, refl, tt));
  };
  timers = (first-IsTimer, (second-IsTimer, tt));
  sorted = ((omega arith, tt), (tt, tt));
}

busy-IsJobs : IsJobs busy 3 2 ((13, 23) ∷ [])
busy-IsJobs = record {
  ne_null = ground arith;
  at_loop = (the_loop, refl, refl);
  list = record {
    ne_null = ground arith;
    unmapped = refl;
    header = refl;
    links = (ground arith, refl, refl, tt);
  };
  jobs = (ground arith, (job, refl), tt);
}

fourteen-IsFresh : IsFresh busy 14
fourteen-IsFresh = record { ne_null = ground arith; unused = refl }

ts_plus-nanos_example :
    IsNormal (ts_plus (at_ms 4) 700)
    × (nanos (ts_plus (at_ms 4) 700) ≡ nanos (at_ms 4) + 700 * 1000000)
ts_plus-nanos_example = ts_plus-nanos (at_ms 4) 700 (omega arith)

timer_compare-nanos_example : timer_compare (at_ms 4) (at_ms 8) ≡ (
    if ltb (nanos (at_ms 4)) (nanos (at_ms 8))
    then minus_one
    else if ltb (nanos (at_ms 8)) (nanos (at_ms 4))
    then pos 1
    else pos 0)
timer_compare-nanos_example = timer_compare-nanos (at_ms 4) (at_ms 8) (omega arith) (omega arith)

timer_add-IsTimers_example :
    (id : ℤ) × (m' : Memory) × (timer_add 3 24 14 3 (timer minus_one 6) busy ≡ ok id m')
    × (ltb_ℤ (pos 0) id ≡ true)
    × (m'.user.timer_at 24 ≡ some (timer id 6))
    × ((a : Ptr) → a ≢ 24 → m'.user.timer_at a ≡ busy.user.timer_at a)
    × IsTimers m' 3 1 ((11, 21) ∷ (14, 24) ∷ (12, 22) ∷ [])
timer_add-IsTimers_example =
    timer_add-IsTimers 3 (timer minus_one 6) busy-IsTimers (ground arith) refl fourteen-IsFresh
      (omega arith) (omega arith)

event_loop_remove_timer-present_example :
    (m' : Memory) × (event_loop_remove_timer 3 3 (pos 2) busy ≡ ok (pos 0) m')
    × IsList m' 1 ((11, 21) ∷ [])
    × (m'.user ≡ timer_free 22 busy.user)
    × (m'.node_at 12 ≡ none)
    × SameOutside busy m' 1 timers
event_loop_remove_timer-present_example =
    event_loop_remove_timer-present (pos 2) 3 ((11, 21) ∷ []) 12 22 [] busy-IsTimers (omega arith)
      (refl, tt) refl

-- A callback that writes its third user data into the map at its first.
abbrev noting : Effect
noting o e a b c w = record w { map_at = λ k. if k == a then some c else w.map_at k }

noting-IsQuiet : IsQuiet noting
noting-IsQuiet = record { jobs = λ o e a b c w. refl; loops = λ o e a b c w. refl }

job_proc-run_jobs_example :
    (m' : Memory) × (job_proc (callback noting) 2 3 false busy ≡ ok (pos 0) m')
    × IsJobs m' 3 2 []
    × (m'.user ≡ run_jobs noting 3 busy.user.job_at ((13, 23) ∷ []) busy.user)
job_proc-run_jobs_example = job_proc-run_jobs noting-IsQuiet 2 busy-IsJobs (tt, tt) (omega arith)

busy-IsMap : IsMap busy 5 6 ((15, 25) ∷ [])
busy-IsMap = record {
  ne_null = ground arith;
  at_map = refl;
  list = record {
    ne_null = ground arith;
    unmapped = refl;
    header = refl;
    links = (ground arith, refl, refl, tt);
  };
  channels = (ground arith, (socket, refl), tt);
}

busy-IsPolled : IsPolled busy 3 the_loop 6 ((15, 25) ∷ []) nine
busy-IsPolled = record {
  ne_null = ground arith;
  at_loop = refl;
  channels = busy-IsMap;
  io_ne_null = ground arith;
  at_io = refl;
}

one_wanted : (b : Bool) → (if b then true else false) ≡ ((b && true) || false)
one_wanted b = ground arith

none_wanted : (b : Bool) → false ≡ ((b && false) || false)
none_wanted b = ground arith

busy-InStep : InStep busy.user ((15, 25) ∷ []) nine
busy-InStep = record {
  reads = λ fd. one_wanted (eqb_ℤ fd (pos 9));
  writes = λ fd. one_wanted (eqb_ℤ fd (pos 9));
  errors = λ fd. none_wanted (eqb_ℤ fd (pos 9));
}

busy-InStepBut : InStepBut (pos 9) busy.user ((15, 25) ∷ []) nine
busy-InStepBut = record {
  reads = λ fd other. busy-InStep.reads fd;
  writes = λ fd other. busy-InStep.writes fd;
  errors = λ fd other. busy-InStep.errors fd;
}

busy-Watches : Watches busy 3 the_loop 6 ((15, 25) ∷ [])
busy-Watches = record {
  sets = nine;
  polled = busy-IsPolled;
  in_step = busy-InStep;
  max_known = inr (refl, tt);
}

-- No callback is called, and select finds nothing.
abbrev nothing : ℤ → FdSet → FdSet → FdSet → Timeval → Selected
nothing n r w x tv = record {
  count = pos 0;
  interrupted = false;
  ready_read = fd_zero;
  ready_write = fd_zero;
  ready_exp = fd_zero;
}

abbrev quiet_call : Ptr → Ptr → Prog ℤ
quiet_call o i = pure (pos 0)

abbrev io : EventIo
io = select_io 1024 quiet_call nothing 9

event_loop_add_channel-Watches_example :
    (m' : Memory) × (event_loop_add_channel io 14 3 26 busy ≡ ok (pos 0) m')
    × Watches m' 3 the_loop 6 ((15, 25) ∷ (14, 26) ∷ [])
    × (m'.user.channel_at ≡ busy.user.channel_at)
event_loop_add_channel-Watches_example =
    event_loop_add_channel-Watches 1024 quiet_call nothing 9 26
      (record zeroed { fd = pos 7; mask = 5 }) (ground arith) refl ((15, 25) ∷ []) busy-Watches refl
      fourteen-IsFresh

event_loop_remove_channel-Watches_example :
    (m' : Memory) × (event_loop_remove_channel io 2 3 25 busy ≡ ok (pos 0) m')
    × Watches m' 3 the_loop 6 []
    × (m'.user.channel_at ≡ busy.user.channel_at)
event_loop_remove_channel-Watches_example =
    event_loop_remove_channel-Watches 1024 quiet_call nothing 9 25 socket (ground arith) refl 2 []
      15 [] busy-Watches refl tt tt (omega arith)

event_loop_update_channel-Watches_example :
    (f : Ptr → Option Select) × (event_loop_update_channel io 3 25 busy
      ≡ ok (pos 0) (with_selects busy f))
    × Watches (with_selects busy f) 3 the_loop 6 ((15, 25) ∷ [])
event_loop_update_channel-Watches_example =
    event_loop_update_channel-Watches 1024 quiet_call nothing 9 25 socket (ground arith) refl [] 15
      [] nine busy-IsPolled busy-InStepBut refl tt tt

event_loop_remove_fd-Watches_example :
    (m' : Memory) × (event_loop_remove_fd io 2 3 (pos 9) 2 busy ≡ ok (pos 0, false) m')
    × Watches m' 3 the_loop 6 ((15, 25) ∷ [])
    × (m'.user.channel_at 25 ≡ some (record socket { mask = 1 }))
    × ((a : Ptr) → a ≢ 25 → m'.user.channel_at a ≡ busy.user.channel_at a)
event_loop_remove_fd-Watches_example =
    event_loop_remove_fd-Watches 1024 quiet_call nothing 9 25 socket (ground arith) refl 2 2 [] 15
      [] busy-Watches refl (omega arith) (omega arith) tt tt (omega arith)

-- A callback of a timer that notes its id.
abbrev noting_id : Fire.Effect
noting_id o e id u w = record w { closed = id ∷ w.closed }

noting_id-IsQuiet : Fire.IsQuiet noting_id
noting_id-IsQuiet = record { timers = λ o e id u w. refl; loops = λ o e id u w. refl }

-- The clock reads a time between those of the two timers.
abbrev clock : ℕ → Timespec
clock k = at_ms 6

timer_proc-fired_example :
    (m' : Memory) × (timer_proc (Fire.callback noting_id) clock (λ k. (30, 31)) 3 3 false busy
      ≡ ok tt m')
    × IsTimers m' 3 1 (Fire.waiting busy.user.timer_at clock 0 timers)
    × (m'.user ≡ Fire.fired busy.user.timer_at clock noting_id 3 0 timers busy.user)
timer_proc-fired_example =
    timer_proc-fired noting_id-IsQuiet clock (λ k. (30, 31)) 3 busy-IsTimers
      ((timer (pos 1) 4, refl, refl), ((timer (pos 2) 8, refl, refl), tt))
      ((ground arith, tt), (tt, tt)) (omega arith)

jobs-Disjoint : Disjoint ((13, 23) ∷ []) timers
jobs-Disjoint a h = ground arith

-- The loop is told to stop at once.
abbrev stop : ℕ → Bool
stop k = true

thread_func-stopped_example :
    (m' : Memory) × (thread_func io
        (Fire.callback noting_id)
        (callback noting)
        (λ k. clock)
        (λ k j. (30, 31))
        stop
        3
        1
        3
        busy
      ≡ ok null m')
    × IsTimers m' 3 1 []
    × IsJobs m' 3 2 []
    × (m'.user
        ≡ release_all
            (some job_free)
            ((13, 23) ∷ [])
            (release_all (some timer_free) timers busy.user))
thread_func-stopped_example =
    thread_func-stopped io (Fire.callback noting_id) (callback noting) (λ k. clock)
      (λ k j. (30, 31)) stop 3 0 refl busy-IsTimers busy-IsJobs (ground arith) jobs-Disjoint
      (omega arith) (omega arith)
