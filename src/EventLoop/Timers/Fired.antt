-- ===== src/EventLoop/Timers/Fired.antt =====
-- `_timer_proc` of src/event_loop.c on the timers of a loop, in their order, that fire once.
use eloop.Base.{
  ℕ, ◌+◌, ◌<◌, ◌^◌, ◌≡◌, refl, sym, ◌∙◌, subst, Option, some, [], ◌∷◌, pos, Bool-cases, inl, inr,
  false, ltb_ℤ, length,
}
use eloop.Memory.{Ptr, ok}
use eloop.LinkedList.Links.{Cells}
use eloop.LinkedList.Access.{list_get_head-ok}
use eloop.World.{World, Timespec, Timer, one_shot, Memory}
use eloop.EventLoop.Time.{timer_compare}
use eloop.EventLoop.Timers.{timer_proc}
use eloop.EventLoop.Timers.Insert.{load_loop-ok}
use eloop.EventLoop.Timers.Sorted.{AllOf, IsTimer, IsTimers, Sorted, Sorted-same, time_at}
use eloop.EventLoop.Timers.Fire.{
  Effect, IsQuiet, callback, Distinct, waiting, fired, waiting-early, waiting-due, Ready,
  timer_proc_loop-run,
}

-- What holds of all cells holds of those that are left.
module _ (timers : Ptr → Option Timer) (clock : ℕ → Timespec) (w : World) where
  AllOf-waiting :
      (P : Ptr → Type 0) (k : ℕ) (xs : Cells)
      → AllOf (Ready timers clock w) xs
      → AllOf P xs
      → AllOf P (waiting timers clock k xs)
  AllOf-waiting P k [] r a = unfold waiting in tt
  AllOf-waiting P k ((p, i) ∷ xs) r a =
      let (i_ne, same, (t, e, once)) = r.0 in
      elim (Bool-cases (ltb_ℤ (timer_compare (clock k) t.ts) (pos 0))) [
        | inl early ↦ rw (waiting-early timers clock k p i xs t e early) a
        | inr due ↦
            rw (waiting-due timers clock k p i xs t e due) (AllOf-waiting P (k + 1) xs r.1 a.1)
      ]

  Sorted-waiting :
      (v : World) (k : ℕ) (xs : Cells)
      → AllOf (Ready timers clock w) xs
      → Sorted v xs
      → Sorted v (waiting timers clock k xs)
  Sorted-waiting v k [] r s = unfold waiting in tt
  Sorted-waiting v k ((p, i) ∷ xs) r s =
      let (i_ne, same, (t, e, once)) = r.0 in
      elim (Bool-cases (ltb_ℤ (timer_compare (clock k) t.ts) (pos 0))) [
        | inl early ↦ rw (waiting-early timers clock k p i xs t e early) s
        | inr due ↦
            rw (waiting-due timers clock k p i xs t e due) (Sorted-waiting v (k + 1) xs r.1 s.1)
      ]

-- Each timer of the cells fires once.
abbrev pub AllOneShot : World → Cells → Type 0
AllOneShot w xs = AllOf (λ i. (t : Timer) × (w.timer_at i ≡ some t) × (t.type ≡ one_shot)) xs

module _ (w w' : World) (clock : ℕ → Timespec) where
  AllOf-Ready :
      (xs : Cells) → AllOf (IsTimer w) xs → AllOneShot w xs → AllOf (Ready w.timer_at clock w) xs
  AllOf-Ready [] a o = tt
  AllOf-Ready ((p, i) ∷ xs) a o = ((a.0.ne_null, refl, o.0), AllOf-Ready xs a.1 o.1)

  time_same : (i : Ptr) → w'.timer_at i ≡ w.timer_at i → time_at w' i ≡ time_at w i
  time_same i e = rw (time_at, e) refl

  times_same :
      (xs : Cells)
      → AllOf (Ready w.timer_at clock w') xs
      → AllOf (λ i. time_at w' i ≡ time_at w i) xs
  times_same [] r = tt
  times_same ((p, i) ∷ xs) r = (time_same i r.0.1, times_same xs r.1)

  AllOf-IsTimer :
      (xs : Cells)
      → AllOf (Ready w.timer_at clock w') xs
      → AllOf (IsTimer w) xs
      → AllOf (IsTimer w') xs
  AllOf-IsTimer [] r a = tt
  AllOf-IsTimer ((p, i) ∷ xs) r a = (
    record {
      ne_null = a.0.ne_null;
      there = (a.0.there.0, r.0.1 ∙ a.0.there.1);
      small = subst (λ n. n < 2 ^ 63) (sym (time_same i r.0.1)) a.0.small;
    },
    AllOf-IsTimer xs r.1 a.1,
  )

-- `_timer_proc` of a loop whose timers are all different, in the order of their times, and fire
-- once, with callbacks that leave the timers and the loops alone, and more rounds than there are
-- timers: it ends; the timers before the first one that is not due when the clock is read for it
-- have been called once each with what they were given and then freed, in order, and the others
-- are the timers of the loop, still in order.
pub timer_proc-fired :
    {f : Effect} (quiet : IsQuiet f) (clock : ℕ → Timespec) (fresh : ℕ → Ptr × Ptr) {m : Memory}
    {eloop l : Ptr} {xs : Cells} (fuel : ℕ)
    → IsTimers m eloop l xs
    → AllOneShot m.user xs
    → Distinct xs
    → length xs < fuel
    → (m' : Memory) × (timer_proc (callback f) clock fresh fuel eloop false m ≡ ok tt m')
      × IsTimers m' eloop l (waiting m.user.timer_at clock 0 xs)
      × (m'.user ≡ fired m.user.timer_at clock f eloop 0 xs m.user)
unfolding timer_proc
timer_proc-fired {f} quiet clock fresh {m} {eloop} {l} {xs} fuel is once d h =
    let (lp, at, is_list) = is.at_loop in
    let ready = AllOf-Ready m.user m.user clock xs is.timers once in
    let (m', run, list, at', left, user) =
      timer_proc_loop-run m.user.timer_at clock quiet fresh lp is.ne_null is_list fuel 0 m xs at
        is.list ready d h in
    let ys = waiting m.user.timer_at clock 0 xs in
    (
      m',
      rw (load_loop-ok m eloop lp is.ne_null at, is_list, list_get_head-ok is.list) run,
      record {
        ne_null = is.ne_null;
        at_loop = (lp, at', is_list);
        list = list;
        timers =
            AllOf-IsTimer m.user m'.user clock ys left
              (AllOf-waiting m.user.timer_at clock m.user (IsTimer m.user) 0 xs ready is.timers);
        sorted =
            Sorted-same m.user m'.user ys (times_same m.user m'.user clock ys left)
              (Sorted-waiting m.user.timer_at clock m.user m.user 0 xs ready is.sorted);
      },
      user,
    )
