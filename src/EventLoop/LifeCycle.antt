-- ===== src/EventLoop/LifeCycle.antt =====
-- `event_loop_create` and `event_loop_delete` of src/event_loop.c, with the backend of
-- src/event_io_select.c.
use eloop.Base.{ℕ, Bool, ◌&&◌, not, true, false, none, some, ◌==◌, if◌then◌else◌, pos}
use eloop.Memory.{Ptr, null, pure, ◌>>=◌, ◌>>◌, when}
use eloop.LinkedList.{list_create, list_delete}
use eloop.World.{Loop, Prog, load_loop, store_loop}
use eloop.ChannelMap.{event_channel_map_create, event_channel_map_delete}
use eloop.EventIo.Select.{event_io_create, event_io_delete}
use eloop.EventLoop.Timers.{timer_free}
use eloop.EventLoop.Jobs.{job_free}

-- The addresses that calloc returns, and which of the calls about attributes, mutexes, the condition
-- and the thread succeed.
pub record Setup : Type 0 where
  pub eloop : Ptr
  pub timer_list : Ptr
  pub job_list : Ptr
  pub fd_io : Ptr
  pub ec_map : Ptr
  pub channel_list : Ptr
  pub mtx_attr : Bool
  pub mtx_attr_type : Bool
  pub cond_attr : Bool
  pub timer_mtx : Bool
  pub job_mtx : Bool
  pub fd_mtx : Bool
  pub proc_mtx : Bool
  pub proc_cond : Bool
  pub thread : Bool

-- The memory that calloc gives.
abbrev pub zeroed_loop : Loop
zeroed_loop = record {
  tid = pos 0;
  timer_list = null;
  job_list = null;
  fd_io = null;
  ec_map = null;
  is_thread_ready = false;
}

unfoldable pub modify_loop : (Loop → Loop) → (eloop : Ptr) → Prog (Unit {0})
unfolding load_loop store_loop
modify_loop f eloop = do lp ← load_loop eloop; store_loop eloop (some (f lp))

-- `join` is what the thread of the loop does from the setting of `thread_abort` to its end. The lists
-- are emptied in at most `fuel` rounds. The caller's pointer comes in and goes out as the result.
unfoldable pub event_loop_delete : (join : Ptr → Prog (Unit {0})) → ℕ → (eloop : Ptr) → Prog Ptr
event_loop_delete join fuel eloop = if eloop == null then pure null else do
  ep ← load_loop eloop
  when ep.is_thread_ready (join eloop)
  lp ← load_loop eloop
  timer_list ← list_delete fuel lp.timer_list (some timer_free)
  modify_loop (λ lp. record lp { timer_list = timer_list }) eloop
  job_list ← list_delete fuel lp.job_list (some job_free)
  modify_loop (λ lp. record lp { job_list = job_list }) eloop
  fd_io ← event_io_delete lp.fd_io
  modify_loop (λ lp. record lp { fd_io = fd_io }) eloop
  ec_map ← event_channel_map_delete fuel lp.ec_map
  modify_loop (λ lp. record lp { ec_map = ec_map }) eloop
  store_loop eloop none
  pure null

module _ (join : Ptr → Prog (Unit {0})) (s : Setup) where
  -- From `FAIL` on; the lists that are made so far are empty.
  unfoldable pub create_failed : Prog Ptr
  create_failed = event_loop_delete join 1 s.eloop

  -- The lines about the thread.
  unfoldable pub create_thread : Prog Ptr
  create_thread =
      if not (s.proc_mtx && s.proc_cond && s.thread)
      then create_failed
      else do modify_loop (λ lp. record lp { is_thread_ready = true }) s.eloop; pure s.eloop

  -- The lines about the backend and the map, and what follows them.
  unfoldable pub create_fd : Prog Ptr
  create_fd = if not s.fd_mtx then create_failed else do
    fd_io ← event_io_create s.fd_io
    modify_loop (λ lp. record lp { fd_io = fd_io }) s.eloop
    if fd_io == null then create_failed else (do
      ec_map ← event_channel_map_create s.ec_map s.channel_list
      modify_loop (λ lp. record lp { ec_map = ec_map }) s.eloop
      if ec_map == null then create_failed else create_thread)

  -- The lines about the lists of timers and jobs, and what follows them.
  unfoldable pub create_lists : Prog Ptr
  create_lists = if not s.timer_mtx then create_failed else do
    timer_list ← list_create s.timer_list
    modify_loop (λ lp. record lp { timer_list = timer_list }) s.eloop
    if not s.job_mtx then create_failed else (do
      job_list ← list_create s.job_list
      modify_loop (λ lp. record lp { job_list = job_list }) s.eloop
      create_fd)

  unfoldable pub event_loop_create : Prog Ptr
  event_loop_create = if s.eloop == null then create_failed else do
    store_loop s.eloop (some zeroed_loop)
    if not (s.mtx_attr && s.mtx_attr_type && s.cond_attr)
        then (do store_loop s.eloop none; pure null)
        else create_lists
