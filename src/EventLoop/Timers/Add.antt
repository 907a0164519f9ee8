-- ===== src/EventLoop/Timers/Add.antt =====
-- `_timer_add` of src/event_loop.c as a whole: the list stays in the order of time.
use eloop.Base.{
  ℕ, ◌<◌, ◌^◌, ◌≡◌, ◌≢◌, refl, sym, ap, ◌∙◌, subst, Bool, inl, true, not, none, some, [], ◌∷◌, ◌++◌,
  append-nil, ltb_ℤ, ℤ, pos, ne→==, length,
}
use eloop.Memory.{Ptr, null, Run, ok, and_then, pure, ◌>>=◌, ◌>>◌, when}
use eloop.LinkedList.{list_append}
use eloop.LinkedList.Links.{Cells, first, IsList}
use eloop.LinkedList.Insert.{IsFresh}
use eloop.LinkedList.AppendAfter.{list_append-refines}
use eloop.LinkedList.AppendBefore.{list_append_before-refines}
use eloop.LinkedList.Access.{list_get_head-ok}
use eloop.World.{World, Timer, Memory, store_timer}
use eloop.EventLoop.Time.Laws.{nanos}
use eloop.EventLoop.Timers.{timer_add, timer_list, insert_loop}
use eloop.EventLoop.Timers.Sorted.{
  AllOf, AllOf-map, IsTimer, IsTimers, Sorted-inserted, Sorted-same, AllOf-inserted, earlier-later,
  earlier-same, later-same, time_at, time_at-some, earlier, later,
}
use eloop.EventLoop.Timers.Insert.{load_loop-ok, insert_at, insert_loop-run}
use eloop.EventLoop.Timers.Assign.{Assigned, assign_id-run}

module _ (fuel : ℕ) {eloop l : Ptr} {fresh fresh_node : Ptr} (tm : Timer) {m : Memory} {xs : Cells}
    (is : IsTimers m eloop l xs) (fresh_ne : fresh ≢ null) (unused : m.user.timer_at fresh ≡ none)
    (new : IsFresh m fresh_node) (small : nanos (tm.ts) < 2 ^ 63) (enough : length xs < fuel) where
  abbrev time : ℕ
  time = nanos (tm.ts)

  module _ (w : World) (id : ℤ) (to : Assigned m.user w eloop l fresh tm id) where
    abbrev begun : Memory
    begun = record m { user = w }

    begun-IsList : IsList begun l xs
    begun-IsList = record {
      ne_null = is.list.ne_null;
      unmapped = is.list.unmapped;
      header = is.list.header;
      links = is.list.links;
    }

    begun-IsFresh : IsFresh begun fresh_node
    begun-IsFresh = record { ne_null = new.ne_null; unused = new.unused }

    ne-fresh : (i : Ptr) → IsTimer m.user i → i ≢ fresh
    ne-fresh i t e = cc (t.there.1, unused, ap m.user.timer_at e)

    same-timer : (i : Ptr) → IsTimer m.user i → time_at w i ≡ time_at m.user i
    same-timer i t = rw (to.others i (ne-fresh i t), time_at) refl

    still : (i : Ptr) → IsTimer m.user i → IsTimer w i
    still i t = record {
      ne_null = t.ne_null;
      there = (t.there.0, to.others i (ne-fresh i t) ∙ t.there.1);
      small = rw (same-timer i t) t.small;
    }

    here : IsTimer w fresh
    here = record {
      ne_null = fresh_ne;
      there = (record tm { id = id }, to.at_timer);
      small = rw (time_at-some w fresh _ to.at_timer) small;
    }

    same-times : AllOf (λ i. time_at w i ≡ time_at m.user i) xs
    same-times = AllOf-map same-timer xs is.timers

    -- What follows the loop of `_timer_add`.
    abbrev finish : Bool → Memory → Run World ℤ
    finish inserted =
        when (not inserted) (do l ← timer_list eloop; list_append fresh_node l fresh; pure tt)
        >> pure id

    place-run :
        (zs ys : Cells)
        → zs ++ ys ≡ xs
        → (m' : Memory) × (and_then
              (insert_at begun eloop l fresh fresh_node
                (record tm { id = id })
                (to.at_loop.0)
                is.ne_null
                to.at_loop.1
                to.at_loop.2
                fresh_ne
                to.at_timer
                small
                ys)
              finish
            ≡ ok id m')
          × IsList m' l (zs ++ (fresh_node, fresh) ∷ ys)
          × (m'.user ≡ w)
    place-run zs [] e =
        let (m', run, ins) =
          list_append-refines fresh zs (subst (IsList begun l) (sym e ∙ append-nil zs) begun-IsList)
            begun-IsFresh in
        (
          m',
          rw (load_loop-ok begun eloop (to.at_loop.0) is.ne_null to.at_loop.1, to.at_loop.2, run)
              refl,
          ins.list,
          ins.user,
        )
    place-run zs ((p, i) ∷ ys) e =
        let (m', run, ins) =
          list_append_before-refines fresh zs ((p, i) ∷ ys)
            (subst (IsList begun l) (sym e) begun-IsList) begun-IsFresh (inl (λ k. cc k)) in
        (m', rw run refl, ins.list, ins.user)

    loop-run :
        (m' : Memory) × (and_then
            (insert_loop fuel fresh_node eloop fresh (first xs null) begun)
            finish
          ≡ ok id m')
        × IsList m' l (earlier m.user time xs ++ (fresh_node, fresh) ∷ later m.user time xs)
        × (m'.user ≡ w)
    loop-run =
        let (m', run, list, user) =
          place-run (earlier w time xs) (later w time xs) (earlier-later w time xs) in
        (
          m',
          rw
              (insert_loop-run begun eloop l fresh fresh_node (record tm { id = id }) (to.at_loop.0)
                is.ne_null to.at_loop.1 to.at_loop.2 fresh_ne to.at_timer small fuel null xs
                is.list.links (AllOf-map still xs is.timers) enough)
              run,
          rw
              (
                sym (earlier-same m.user w time xs same-times),
                sym (later-same m.user w time xs same-times),
              )
              list,
          user,
        )

    added-IsTimers :
        (m' : Memory)
        → IsList m' l (earlier m.user time xs ++ (fresh_node, fresh) ∷ later m.user time xs)
        → m'.user ≡ w
        → IsTimers m' eloop l (earlier m.user time xs ++ (fresh_node, fresh) ∷ later m.user time xs)
    added-IsTimers m' list user = record {
      ne_null = is.ne_null;
      at_loop = (to.at_loop.0, rw user to.at_loop.1, to.at_loop.2);
      list = list;
      timers = rw user (
          AllOf-inserted m.user time (IsTimer w) fresh_node fresh xs here
            (AllOf-map still xs is.timers));
      sorted =
          rw
            (
              user,
              sym (earlier-same m.user w time xs same-times),
              sym (later-same m.user w time xs same-times),
            )
            (Sorted-inserted w time fresh_node fresh xs (time_at-some w fresh _ to.at_timer)
              (Sorted-same m.user w xs same-times is.sorted));
    }

  -- `_timer_add` on a list of timers in the order of their times, with memory for the timer and for
  -- its node, all times before nanosecond 2 ^ 63, and more rounds than there are timers: it returns
  -- the positive id that the new timer has, and the list, still in order, has the new timer before
  -- the first that fires at its time or later. No other timer changes.
  pub timer_add-IsTimers :
      (id : ℤ) × (m' : Memory) × (timer_add fuel fresh fresh_node eloop tm m ≡ ok id m')
      × (ltb_ℤ (pos 0) id ≡ true)
      × (m'.user.timer_at fresh ≡ some (record tm { id = id }))
      × ((a : Ptr) → a ≢ fresh → m'.user.timer_at a ≡ m.user.timer_at a)
      × IsTimers m' eloop l (
          earlier m.user (nanos (tm.ts)) xs
          ++ (fresh_node, fresh) ∷ later m.user (nanos (tm.ts)) xs)
  unfolding timer_add store_timer
  timer_add-IsTimers =
      let (lp, at, is_list) = is.at_loop in
      let (id, w, run, to') = assign_id-run m eloop fresh tm lp is.ne_null at fresh_ne in
      let to : Assigned m.user w eloop l fresh tm id =
        subst (λ k. Assigned m.user w eloop k fresh tm id) is_list to' in
      let (m', ends, list, user) = loop-run w id to in
      (
        id,
        m',
        rw
            (
              ne→== fresh null fresh_ne,
              run,
              load_loop-ok (begun w id to) eloop (to.at_loop.0) is.ne_null to.at_loop.1,
              to.at_loop.2,
              list_get_head-ok (begun-IsList w id to),
            )
            ends,
        to.positive,
        rw user to.at_timer,
        rw user to.others,
        added-IsTimers w id to m' list user,
      )
