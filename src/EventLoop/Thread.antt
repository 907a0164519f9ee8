-- ===== src/EventLoop/Thread.antt =====
-- The thread of src/event_loop.c: its rounds, and what it does when it is told to stop.
pub mod Stop
use eloop.Base.{ℕ, zero, suc, ◌+◌, Bool, true, false, leb, if◌then◌else◌, ℤ}
use eloop.Memory.{Ptr, null, out_of_fuel, pure, ◌>>=◌, ◌>>◌}
use eloop.World.{Timespec, Prog, load_loop}
use eloop.EventIo.{EventIo}
use eloop.EventLoop.Timers.{timer_min, timer_proc}
use eloop.EventLoop.Jobs.{job_proc}

module _ (io : EventIo) where
  unfoldable pub fd_proc : (eloop : Ptr) → (timeout : ℕ) → Prog ℤ
  fd_proc eloop timeout = do lp ← load_loop eloop; io.poll lp.fd_io lp.ec_map timeout

  -- In round k the timers see the clock `clock k` and the addresses `fresh k`, and `thread_abort`
  -- is `abort k` when it is tested. The loops of a round have `fuel` rounds.
  module _ (on_timer : (on_timer eloop : Ptr) → ℤ → (userdata : Ptr) → Prog ℤ)
      (on_job : (on_job eloop userdata1 userdata2 userdata3 : Ptr) → Prog ℤ)
      (clock : ℕ → ℕ → Timespec) (fresh : ℕ → ℕ → Ptr × Ptr) (abort : ℕ → Bool) (fuel : ℕ) where
    unfoldable pub thread_loop : (rounds k : ℕ) → (eloop : Ptr) → Prog (Unit {0})
    thread_loop zero k eloop = λ _. out_of_fuel
    thread_loop (suc rounds) k eloop = if abort k then pure tt else do
      timer_min_interval ← timer_min eloop
      fd_proc eloop (if leb timer_min_interval 10 then timer_min_interval else 10)
      timer_proc on_timer (clock k) (fresh k) fuel eloop false
      job_proc on_job fuel eloop false
      thread_loop rounds (k + 1) eloop

    unfoldable pub thread_func : (rounds : ℕ) → (eloop : Ptr) → Prog Ptr
    thread_func rounds eloop = do
      thread_loop rounds 0 eloop
      timer_proc on_timer (clock 0) (fresh 0) fuel eloop true
      job_proc on_job fuel eloop true
      pure null
