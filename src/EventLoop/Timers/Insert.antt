-- ===== src/EventLoop/Timers/Insert.antt =====
-- The loop of `_timer_add` in src/event_loop.c: the place of the new timer.
use eloop.Base.{
  ℕ, zero, suc, ◌<◌, ◌^◌, ◌≡◌, ◌≢◌, refl, sym, Bool, Bool-cases, inl, inr, true, false, not, some,
  [], ◌∷◌, ltb, ltb_ℤ, pos, ne→==, length, arith,
}
use eloop.Memory.{Ptr, null, Run, ok, and_then}
use eloop.LinkedList.{list_append_before}
use eloop.LinkedList.Links.{Cells, first, Links}
use eloop.LinkedList.Access.{list_get_next-ok, list_get_data-ok}
use eloop.World.{World, Timer, Timespec, Memory, Loop, load_timer, load_loop}
use eloop.EventLoop.Time.{timer_compare}
use eloop.EventLoop.Time.Laws.{nanos, timer_compare-nanos}
use eloop.EventLoop.Timers.{insert_loop}
use eloop.EventLoop.Timers.Sorted.{AllOf, IsTimer, time_at, time_at-some, later}

module _ (m : Memory) where
  pub load_timer-ok :
      (i : Ptr) (t : Timer) → i ≢ null → m.user.timer_at i ≡ some t → load_timer i m ≡ ok t m
  unfolding load_timer
  load_timer-ok i t ne e = rw (ne→== i null ne, e)

  pub load_loop-ok :
      (i : Ptr) (lp : Loop) → i ≢ null → m.user.loop_at i ≡ some lp → load_loop i m ≡ ok lp m
  unfolding load_loop
  load_loop-ok i t ne e = rw (ne→== i null ne, e)

-- The test of one round of the loop: the new timer goes before the one of the node.
goes_before :
    (a b : Timespec)
    → nanos a < 2 ^ 63
    → nanos b < 2 ^ 63
    → not (ltb_ℤ (pos 0) (timer_compare a b)) ≡ not (ltb (nanos b) (nanos a))
goes_before a b h k = rw (timer_compare-nanos a b h k) (ground arith)

module _ (m : Memory) (eloop l timer fresh_node : Ptr) (t : Timer) (lp : Loop)
    (loop_ne : eloop ≢ null) (at_loop : m.user.loop_at eloop ≡ some lp)
    (is_list : lp.timer_list ≡ l) (timer_ne : timer ≢ null)
    (at_timer : m.user.timer_at timer ≡ some t) (small : nanos (t.ts) < 2 ^ 63) where
  -- What the loop does when it stands at the cells `ys`.
  abbrev pub insert_at : Cells → Run World Bool
  insert_at [] = ok false m
  insert_at ((p, i) ∷ ys) = and_then (list_append_before fresh_node l timer p m) (λ _. ok true)

  pub insert_loop-run :
      (fuel : ℕ) (before : Ptr) (ys : Cells)
      → Links m.node_at before ys null
      → AllOf (IsTimer m.user) ys
      → length ys < fuel
      → insert_loop fuel fresh_node eloop timer (first ys null) m
        ≡ insert_at (later m.user (nanos (t.ts)) ys)
  unfolding insert_loop
  insert_loop-run zero before ys s a h = absurd (omega arith)
  insert_loop-run (suc fuel) before [] s a h = refl
  insert_loop-run (suc fuel) before ((p, i) ∷ ys) s a h =
      let (t', e) = a.0.there in
      let time : time_at m.user i ≡ nanos (t'.ts) = time_at-some m.user i t' e in
      rw
        (
          ne→== p null s.0,
          list_get_data-ok m p _ s.0 s.1,
          load_timer-ok m timer t timer_ne at_timer,
          load_timer-ok m i t' a.0.ne_null e,
          goes_before (t.ts) (t'.ts) small (rw (sym time) a.0.small),
          time,
        )
        (elim (Bool-cases (ltb (nanos (t'.ts)) (nanos (t.ts)))) [
          | inl hit ↦
              rw (hit, list_get_next-ok m p _ s.0 s.1)
                (insert_loop-run fuel p ys s.3 a.1 (omega arith))
          | inr miss ↦ rw (miss, load_loop-ok m eloop lp loop_ne at_loop, is_list) refl
        ])
