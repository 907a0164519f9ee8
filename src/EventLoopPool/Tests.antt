-- ===== src/EventLoopPool/Tests.antt =====
-- A pool of three loops, a pool that fails at its third loop, and the calls of
-- src/event_loop_pool.c on them.
use eloop.Base.{ℕ, ◌+◌, ◌≡◌, ◌≢◌, ◌<◌, refl, none, [], true, if◌then◌else◌, ltb, arith}
use eloop.Memory.{Ptr, null, ok, pure}
use eloop.World.{Pool, Memory, Prog}
use eloop.EventLoop.LifeCycle.{Setup, event_loop_create}
use eloop.EventLoopPool.{event_loop_pool_create, event_loop_pool_next}
use eloop.EventLoopPool.Turns.{IsPool, after, event_loop_pool_next-turn}
use eloop.EventLoopPool.Delete.{Idle}
use eloop.EventLoopPool.Create.{AreNew}
use eloop.EventLoopPool.Loops.{Works, event_loop_create-IsCreate}
use eloop.EventLoopPool.Failed.{event_loop_pool_create-failed}

abbrev three : Pool
three = record { number = 3; e_loops = λ i. 40 + i; pos = 2 }

three-IsPool : IsPool three
three-IsPool = record { bounded = omega arith; in_range = omega arith }

event_loop_pool_next-turn_example : (event_loop_pool_next (after 2 three)).0 ≡ 41
event_loop_pool_next-turn_example = event_loop_pool_next-turn 2 three three-IsPool

-- Two loops can be made, at 40 and 41.
abbrev made : ℕ → Ptr
made i = if ltb i 2 then 40 + i else 0

-- What each call of `event_loop_create` is given: all that it asks for but the loop itself.
abbrev setups : ℕ → Setup
setups i = record {
  eloop = made i;
  timer_list = 50 + i;
  job_list = 60 + i;
  fd_io = 70 + i;
  ec_map = 80 + i;
  channel_list = 90 + i;
  mtx_attr = true;
  mtx_attr_type = true;
  cond_attr = true;
  timer_mtx = true;
  job_mtx = true;
  fd_mtx = true;
  proc_mtx = true;
  proc_cond = true;
  thread = true;
}

setups-Works : (i : ℕ) → Works (setups i)
setups-Works i = record {
  timer_list = ground arith;
  job_list = ground arith;
  fd_io = ground arith;
  ec_map = ground arith;
  channel_list = ground arith;
  mtx_attr = refl;
  mtx_attr_type = refl;
  cond_attr = refl;
  timer_mtx = refl;
  job_mtx = refl;
  fd_mtx = refl;
  proc_mtx = refl;
  proc_cond = refl;
  thread = refl;
}

-- The thread of a loop ends at once.
abbrev join : Ptr → Prog (Unit {0})
join eloop = pure tt

abbrev make_loop : ℕ → Prog Ptr
make_loop i = event_loop_create join (setups i)

abbrev empty : Memory
empty = record {
  node_at = λ a. none;
  list_at = λ a. none;
  user = record {
    pipe_at = λ a. none;
    channel_at = λ a. none;
    map_at = λ a. none;
    timer_at = λ a. none;
    job_at = λ a. none;
    loop_at = λ a. none;
    select_at = λ a. none;
    kqueue_at = λ a. none;
    connect_at = λ a. none;
    server_at = λ a. none;
    pool_at = λ a. none;
    closed = [];
    changes = [];
    sent = [];
  };
}

two-AreNew : AreNew empty made 2
two-AreNew = record {
  ne_null = λ j a. ground arith;
  unused = λ j a. refl;
  distinct = λ i j a b. ground arith;
}

event_loop_pool_create-failed_example :
    (m' : Memory) × (event_loop_pool_create make_loop 30 true 3 empty ≡ ok null m')
    × ((a : Ptr) → m'.user.pool_at a ≡ none)
    × ((j : ℕ) → j < 2 → Idle m'.user (made j))
    × ((a : Ptr) → ((j : ℕ) → j < 2 → a ≢ made j) → m'.user.loop_at a ≡ none)
event_loop_pool_create-failed_example =
    event_loop_pool_create-failed (event_loop_create-IsCreate join setups (λ i ne. setups-Works i))
      30 (ground arith) refl 3 (omega arith) 2 two-AreNew refl (omega arith)
