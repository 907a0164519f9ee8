-- ===== src/EventLoop/Time.antt =====
-- `_ts_plus` and `_timer_compare` of src/event_loop.c: points in time, in `struct timespec`.
pub mod Laws
use eloop.Base.{
  ℕ, ◌+◌, ◌-◌, ◌*◌, ◌/◌, ◌%◌, ◌^◌, if◌then◌else◌, ltb, leb, ℤ, pos, negsuc, minus_one, ltb_ℤ,
}
use eloop.World.{Timespec}

abbrev pub one_seconds : ℕ
one_seconds = 1000 * 1000 * 1000

-- The 64-bit `long` with the bits of `n`.
unfoldable pub to_long : ℕ → ℤ
to_long n =
    let bits = n % 2 ^ 64 in if ltb bits (2 ^ 63) then pos bits else negsuc (2 ^ 64 - 1 - bits)

-- `interval_ms` is an unsigned 32-bit int; the seconds count up from boot and do not reach 2 ^ 63.
unfoldable pub ts_plus : Timespec → (interval_ms : ℕ) → Timespec
ts_plus ts interval_ms =
    let sec = ts.sec + interval_ms / 1000 in
    let nsec = ts.nsec + (interval_ms % 1000 * 1000 % 2 ^ 32) * 1000 % 2 ^ 32 in
    if leb one_seconds nsec
    then record { sec = sec + nsec / one_seconds; nsec = nsec % one_seconds }
    else record { sec = sec; nsec = nsec }

unfoldable pub timer_compare : Timespec → Timespec → ℤ
unfolding to_long
timer_compare ts1 ts2 =
    let t1 = to_long (ts1.sec * 1000 * 1000 * 1000 + ts1.nsec) in
    let t2 = to_long (ts2.sec * 1000 * 1000 * 1000 + ts2.nsec) in
    if ltb_ℤ t1 t2 then minus_one else if ltb_ℤ t2 t1 then pos 1 else pos 0
