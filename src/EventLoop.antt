-- ===== src/EventLoop.antt =====
-- src/event_loop.c: the timers, the jobs and the channels of a loop, and its rounds. `eloop` is the
-- address of a `struct event_loop`. Each function that takes a mutex is one step.
pub mod Time
pub mod Timers
pub mod Jobs
pub mod Channels
pub mod Thread
pub mod LifeCycle
mod Tests
