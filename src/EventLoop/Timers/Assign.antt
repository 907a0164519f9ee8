-- ===== src/EventLoop/Timers/Assign.antt =====
-- The id of a new timer, as `_timer_add` of src/event_loop.c chooses it.
use eloop.Base.{
  ◌≡◌, ◌≢◌, refl, Bool-cases, inl, inr, true, false, some, ltb_ℤ, ℤ, pos, ne→==, eq→==, arith,
}
use eloop.Memory.{Ptr, null, ok, write}
use eloop.World.{World, Timer, Memory, Loop, store_timer, store_loop}
use eloop.EventLoop.Timers.{next_tid, assign_id}
use eloop.EventLoop.Timers.Insert.{load_timer-ok, load_loop-ok}

next_tid-positive : (n : ℤ) → ltb_ℤ (pos 0) (next_tid n) ≡ true
next_tid-positive n = ground arith

given-positive : (n : ℤ) → ltb_ℤ n (pos 1) ≡ false → ltb_ℤ (pos 0) n ≡ true
given-positive n h = ground arith

-- The world `w'` after the id is assigned, from the world `w` before the timer is stored.
pub record Assigned (w w' : World) (eloop l fresh : Ptr) (tm : Timer) (id : ℤ) : Type 0 where
  pub at_loop : (lp : Loop) × (w'.loop_at eloop ≡ some lp) × (lp.timer_list ≡ l)
  pub at_timer : w'.timer_at fresh ≡ some (record tm { id = id })
  pub others : (a : Ptr) → a ≢ fresh → w'.timer_at a ≡ w.timer_at a
  pub positive : ltb_ℤ (pos 0) id ≡ true

-- The memory after `*timer = *tm`.
abbrev pub stored : Memory → Ptr → Timer → Memory
stored m fresh tm = record m {
  user = record (m.user) { timer_at = write m.user.timer_at fresh (some tm) };
}

-- The world after the counter gives the id.
abbrev counted : Memory → Ptr → Loop → Ptr → Timer → World
counted m eloop lp fresh tm = record (m.user) {
  loop_at = write m.user.loop_at eloop (some (record lp { tid = next_tid lp.tid }));
  timer_at =
      write (write m.user.timer_at fresh (some tm)) fresh
        (some (record tm { id = next_tid lp.tid }));
}

counted-Assigned :
    (m : Memory) (eloop fresh : Ptr) (tm : Timer) (lp : Loop)
    → Assigned m.user (counted m eloop lp fresh tm) eloop lp.timer_list fresh tm (next_tid lp.tid)
counted-Assigned m eloop fresh tm lp = record {
  at_loop = (record lp { tid = next_tid lp.tid }, rw (eq→== eloop eloop refl) refl, refl);
  at_timer = rw (eq→== fresh fresh refl) refl;
  others = λ a ne. rw (ne→== a fresh ne) refl;
  positive = next_tid-positive lp.tid;
}

stored-Assigned :
    (m : Memory) (eloop fresh : Ptr) (tm : Timer) (lp : Loop)
    → m.user.loop_at eloop ≡ some lp
    → ltb_ℤ tm.id (pos 1) ≡ false
    → Assigned m.user (stored m fresh tm).user eloop lp.timer_list fresh tm tm.id
stored-Assigned m eloop fresh tm lp at h = record {
  at_loop = (lp, at, refl);
  at_timer = rw (eq→== fresh fresh refl) refl;
  others = λ a ne. rw (ne→== a fresh ne) refl;
  positive = given-positive tm.id h;
}

pub assign_id-run :
    (m : Memory) (eloop fresh : Ptr) (tm : Timer) (lp : Loop)
    → eloop ≢ null
    → m.user.loop_at eloop ≡ some lp
    → fresh ≢ null
    → (id : ℤ) × (w : World) × (assign_id eloop fresh tm (stored m fresh tm)
        ≡ ok id (record m { user = w }))
      × Assigned m.user w eloop lp.timer_list fresh tm id
unfolding assign_id store_loop store_timer
assign_id-run m eloop fresh tm lp ne at fresh_ne = elim (Bool-cases (ltb_ℤ tm.id (pos 1))) [
  | inl new ↦ (
    next_tid lp.tid,
    counted m eloop lp fresh tm,
    rw
        (
          new,
          load_loop-ok (stored m fresh tm) eloop lp ne at,
          load_timer-ok
              (record m {
                user = record ((stored m fresh tm).user) {
                  loop_at = write m.user.loop_at eloop (some (record lp { tid = next_tid lp.tid }));
                };
              })
              fresh tm fresh_ne (rw (eq→== fresh fresh refl) refl),
        )
        refl,
    counted-Assigned m eloop fresh tm lp,
  )
  | inr given ↦
      (tm.id, (stored m fresh tm).user, rw given refl, stored-Assigned m eloop fresh tm lp at given)
]
