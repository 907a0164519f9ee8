-- ===== src/EventLoop/Timers/Remove.antt =====
-- `_timer_remove` of src/event_loop.c, which `event_loop_remove_timer` calls.
use eloop.Base.{
  ℕ, zero, suc, ◌<◌, ◌≡◌, ◌≢◌, refl, ap, Bool, true, false, none, some, [], ◌∷◌, ◌++◌, ℤ, pos,
  minus_one, eqb_ℤ, ne→==, length, arith,
}
use eloop.Memory.{Ptr, null, ok, and_then}
use eloop.LinkedList.{list_remove_node}
use eloop.LinkedList.Links.{Cells, first, Links, IsList}
use eloop.LinkedList.Access.{list_get_head-ok, list_get_next-ok, list_get_data-ok, SameOutside}
use eloop.LinkedList.Remove.{list_remove_node-refines}
use eloop.World.{World, Timer, Memory, Loop}
use eloop.EventLoop.Timers.{timer_free, timer_remove_loop, timer_remove, event_loop_remove_timer}
use eloop.EventLoop.Timers.Sorted.{AllOf, IsTimer, IsTimers}
use eloop.EventLoop.Timers.Insert.{load_timer-ok, load_loop-ok}

-- The id of the timer at an address.
abbrev pub id_at : World → Ptr → ℤ
id_at w i = elim (w.timer_at i) [ none ↦ minus_one | some t ↦ t.id ]

-- No timer of the cells has the id.
abbrev pub NoId : World → ℤ → Cells → Type 0
NoId w id = AllOf (λ i. eqb_ℤ (id_at w i) id ≡ false)

id_test :
    (w : World) (i : Ptr) (t : Timer) (id : ℤ) (b : Bool)
    → w.timer_at i ≡ some t
    → eqb_ℤ (id_at w i) id ≡ b
    → eqb_ℤ t.id id ≡ b
id_test w i t id b e h = cc (h, ap (λ o. eqb_ℤ (elim o [ none ↦ minus_one | some t ↦ t.id ]) id) e)

module _ (m : Memory) (eloop : Ptr) (id : ℤ) where
  loop-absent :
      (fuel : ℕ) (before : Ptr) (xs : Cells)
      → Links m.node_at before xs null
      → AllOf (IsTimer m.user) xs
      → NoId m.user id xs
      → length xs < fuel
      → timer_remove_loop fuel eloop (first xs null) id m ≡ ok minus_one m
  unfolding timer_remove_loop
  loop-absent zero before xs s a n h = absurd (omega arith)
  loop-absent (suc fuel) before [] s a n h = refl
  loop-absent (suc fuel) before ((p, i) ∷ xs) s a n h =
      let (t, e) = a.0.there in
      rw
        (
          ne→== p null s.0,
          list_get_data-ok m p _ s.0 s.1,
          load_timer-ok m i t a.0.ne_null e,
          id_test m.user i t id false e n.0,
          list_get_next-ok m p _ s.0 s.1,
        )
        (loop-absent fuel p xs s.3 a.1 n.1 (omega arith))

  loop-present :
      (lp : Loop) (fuel : ℕ) (before : Ptr) (xs : Cells) (p i : Ptr) (ys : Cells)
      → eloop ≢ null
      → m.user.loop_at eloop ≡ some lp
      → Links m.node_at before (xs ++ (p, i) ∷ ys) null
      → AllOf (IsTimer m.user) (xs ++ (p, i) ∷ ys)
      → NoId m.user id xs
      → eqb_ℤ (id_at m.user i) id ≡ true
      → length xs < fuel
      → timer_remove_loop fuel eloop (first (xs ++ (p, i) ∷ ys) null) id m
        ≡ and_then (list_remove_node lp.timer_list p (some timer_free) m) (λ _. ok (pos 0))
  unfolding timer_remove_loop
  loop-present lp zero before xs p i ys ne at s a n hit h = absurd (omega arith)
  loop-present lp (suc fuel) before [] p i ys ne at s a n hit h =
      let (t, e) = a.0.there in
      rw
        (
          ne→== p null s.0,
          list_get_data-ok m p _ s.0 s.1,
          load_timer-ok m i t a.0.ne_null e,
          id_test m.user i t id true e hit,
          load_loop-ok m eloop lp ne at,
        )
        refl
  loop-present lp (suc fuel) before ((q, j) ∷ xs) p i ys ne at s a n hit h =
      let (t, e) = a.0.there in
      rw
        (
          ne→== q null s.0,
          list_get_data-ok m q _ s.0 s.1,
          load_timer-ok m j t a.0.ne_null e,
          id_test m.user j t id false e n.0,
          list_get_next-ok m q _ s.0 s.1,
        )
        (loop-present lp fuel q xs p i ys ne at s.3 a.1 n.1 hit (omega arith))

module _ {m : Memory} {eloop l : Ptr} (id : ℤ) (fuel : ℕ) where
  -- `event_loop_remove_timer` of an id that some timer of the loop has, with more rounds than there
  -- are timers: it returns 0, the node of the first timer with the id leaves the list, and exactly
  -- that node and that timer are given back.
  pub event_loop_remove_timer-present :
      (xs : Cells) (p i : Ptr) (ys : Cells)
      → IsTimers m eloop l (xs ++ (p, i) ∷ ys)
      → length xs < fuel
      → NoId m.user id xs
      → eqb_ℤ (id_at m.user i) id ≡ true
      → (m' : Memory) × (event_loop_remove_timer fuel eloop id m ≡ ok (pos 0) m')
        × IsList m' l (xs ++ ys)
        × (m'.user ≡ timer_free i m.user)
        × (m'.node_at p ≡ none)
        × SameOutside m m' l (xs ++ (p, i) ∷ ys)
  unfolding event_loop_remove_timer timer_remove
  event_loop_remove_timer-present xs p i ys is h n hit =
      let (lp, at, is_list) = is.at_loop in
      let (m', run, list, user, gone, same) =
        list_remove_node-refines xs p i ys is.list (some timer_free) in
      (
        m',
        rw
            (
              load_loop-ok m eloop lp is.ne_null at,
              is_list,
              list_get_head-ok is.list,
              loop-present m eloop id lp fuel null xs p i ys is.ne_null at is.list.links is.timers n
                  hit h,
              is_list,
              run,
            )
            refl,
        list,
        user,
        gone,
        same,
      )

  -- `event_loop_remove_timer` of an id that no timer of the loop has, with more rounds than there
  -- are timers, returns -1 and changes nothing.
  event_loop_remove_timer-absent :
      (xs : Cells)
      → IsTimers m eloop l xs
      → length xs < fuel
      → NoId m.user id xs
      → event_loop_remove_timer fuel eloop id m ≡ ok minus_one m
  unfolding event_loop_remove_timer timer_remove
  event_loop_remove_timer-absent xs is h n =
      let (lp, at, is_list) = is.at_loop in
      rw (load_loop-ok m eloop lp is.ne_null at, is_list, list_get_head-ok is.list)
        (loop-absent m eloop id fuel null xs is.list.links is.timers n h)
