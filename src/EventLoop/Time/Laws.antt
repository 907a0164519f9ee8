-- ===== src/EventLoop/Time/Laws.antt =====
-- What `_ts_plus` and `_timer_compare` of src/event_loop.c do to a time in nanoseconds.
use eloop.Base.{ℕ, ◌+◌, ◌*◌, ◌^◌, ◌<◌, ◌≡◌, if◌then◌else◌, ltb, pos, minus_one, arith}
use eloop.World.{Timespec}
use eloop.EventLoop.Time.{to_long, ts_plus, timer_compare}

-- The nanoseconds since boot.
abbrev pub nanos : Timespec → ℕ
nanos ts = ts.sec * 1000000000 + ts.nsec

-- The nanoseconds are below a second.
abbrev pub IsNormal : Timespec → Type 0
IsNormal ts = ts.nsec < 1000000000

-- `_ts_plus` on a normal time, with an interval in milliseconds: the new time is normal, and it is
-- the old one plus the interval.
pub ts_plus-nanos :
    (ts : Timespec) (interval_ms : ℕ)
    → IsNormal ts
    → IsNormal (ts_plus ts interval_ms)
      × (nanos (ts_plus ts interval_ms) ≡ nanos ts + interval_ms * 1000000)
unfolding ts_plus
ts_plus-nanos ts n h = ground (arith)

to_long-small : (n : ℕ) → n < 2 ^ 63 → to_long n ≡ pos n
unfolding to_long
to_long-small n h = ground arith

-- `_timer_compare` of two times below 2 ^ 63 nanoseconds: the result is -1, 0 or 1, as the first is
-- before, at or after the second.
pub timer_compare-nanos :
    (a b : Timespec)
    → nanos a < 2 ^ 63
    → nanos b < 2 ^ 63
    → timer_compare a b ≡ (
        if ltb (nanos a) (nanos b)
        then minus_one
        else if ltb (nanos b) (nanos a)
        then pos 1
        else pos 0)
unfolding timer_compare
timer_compare-nanos a b h k =
    rw
      (
        to_long-small (a.sec * 1000 * 1000 * 1000 + a.nsec) (omega arith),
        to_long-small (b.sec * 1000 * 1000 * 1000 + b.nsec) (omega arith),
      )
      (ground arith)
