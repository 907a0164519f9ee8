-- ===== src/EventIo/Select/Poll.antt =====
-- `event_io_poll` of src/event_io_select.c with callbacks that leave the channels, the maps and the
-- backends alone.
use eloop.Base.{
  ℕ, suc, ◌+◌, ◌<◌, ◌≡◌, ◌≢◌, refl, ap, ◌∙◌, ◌⊎◌, Bool-cases, inl, inr, true, false, Option, some,
  ◌∷◌, ne→==, if◌then◌else◌, ℤ, pos, minus_one, ltb_ℤ, length, arith,
}
use eloop.Memory.{Ptr, null, ok, Run}
use eloop.LinkedList.Links.{Cells}
use eloop.LinkedList.Access.{list_get_head-ok, list_get_data-ok}
use eloop.World.{FdSet, Select, Channel, World, Memory, Prog, load_select}
use eloop.ChannelMap.{event_channel_map_get_head}
use eloop.ChannelMap.Find.{IsMap, load_map-ok, event_channel_map_get_length-run}
use eloop.ChannelMap.MaxFd.{AllAtMost, Attains, event_channel_map_get_max_fd-max}
use eloop.EventIo.Select.{
  Timeval, Selected, succ_int, timeval_of, copy_sets, refresh_max, handle_ready, event_io_poll,
}
use eloop.EventIo.Select.Sets.{with_selects, Changed, selects-IsMap, modify_select-run}
use eloop.EventIo.Select.Dispatch.{Effect, IsQuiet, callback, serve, Servable, dispatch_loop-run}

-- The largest descriptor that select is asked about: the one kept, or that of the channels if the
-- sets have changed since.
abbrev pub IsAsked : World → Cells → Select → ℤ → Type 0
IsAsked w xs s n =
    ((s.fds_is_dirty ≡ false) × (n ≡ s.max_fd))
    ⊎ ((s.fds_is_dirty ≡ true) × AllAtMost w n xs × ((n ≡ minus_one) ⊎ Attains w n xs))

-- The structure after the system call.
abbrev pub polled : Select → ℤ → Selected → Select
polled s top r = record s {
  fds_read_back = r.ready_read;
  fds_write_back = r.ready_write;
  fds_exp_back = r.ready_exp;
  max_fd = top;
  fds_is_dirty = false;
}

-- The system call's answer about what is watched.
abbrev pub reply :
    (select : ℤ → FdSet → FdSet → FdSet → Timeval → Selected) (timeout : ℕ) → Select → ℤ → Selected
reply select timeout s top =
    select (succ_int top) s.fds_read s.fds_write s.fds_exp (timeval_of timeout)

-- What the poll does with the result of the system call.
abbrev pub answer :
    Effect → Select → (Ptr → Option Channel) → Cells → Selected → Memory → Run World ℤ
answer h s channels xs r m =
    if ltb_ℤ r.count (pos 0)
    then ok (if r.interrupted then pos 0 else r.count) m
    else if ltb_ℤ (pos 0) r.count
    then ok (pos (length xs)) (record m { user = serve h s channels xs m.user })
    else ok (pos 0) m

load_select-ok :
    (m : Memory) (eio : Ptr) (s : Select)
    → eio ≢ null
    → m.user.select_at eio ≡ some s
    → load_select eio m ≡ ok s m
unfolding load_select
load_select-ok m eio s ne at = rw (ne→== eio null ne, at) refl

module _ (fd_setsize : ℕ) (call : Ptr → Ptr → Prog ℤ) (eio : Ptr) (eio_ne : eio ≢ null)
    (s : Select) where
  copy_sets-run :
      (m : Memory)
      → m.user.select_at eio ≡ some s
      → (f : Ptr → Option Select) × (copy_sets fd_setsize call eio m ≡ ok tt (with_selects m f))
        × Changed m eio
            (record s {
              fds_read_back = s.fds_read;
              fds_write_back = s.fds_write;
              fds_exp_back = s.fds_exp;
            })
            f
  unfolding copy_sets
  copy_sets-run m at =
      let (f1, run1, c1) =
        modify_select-run m eio s (λ s. record s { fds_read_back = s.fds_read }) eio_ne at in
      let (f2, run2, c2) =
        modify_select-run (with_selects m f1) eio _ (λ s. record s { fds_write_back = s.fds_write })
          eio_ne c1.here in
      let (f3, run3, c3) =
        modify_select-run (with_selects m f2) eio _ (λ s. record s { fds_exp_back = s.fds_exp })
          eio_ne c2.here in
      (
        f3,
        rw (run1, run2) run3,
        record { here = c3.here; others = λ a k. c3.others a k ∙ c2.others a k ∙ c1.others a k },
      )

  refresh_max-run :
      (m : Memory) {map l : Ptr} {xs : Cells}
      → IsMap m map l xs
      → (fuel : ℕ) → length xs < fuel
      → m.user.select_at eio ≡ some s
      → (top : ℤ) × (f : Ptr → Option Select) × (refresh_max fd_setsize call fuel eio map m
          ≡ ok tt (with_selects m f))
        × Changed m eio (record s { max_fd = top; fds_is_dirty = false }) f
        × IsAsked m.user xs s top
  unfolding refresh_max
  refresh_max-run m {map} is fuel lt at = elim (Bool-cases s.fds_is_dirty) [
    | inl dirty ↦
        let (f1, run1, c1) =
          modify_select-run m eio s (λ s. record s { fds_is_dirty = false }) eio_ne at in
        let (top, max_run, low, most, attained) =
          event_channel_map_get_max_fd-max (with_selects m f1) fuel (selects-IsMap m f1 is) lt in
        let (f2, run2, c2) =
          modify_select-run (with_selects m f1) eio _ (λ s. record s { max_fd = top }) eio_ne
            c1.here in
        (
          top,
          f2,
          rw (load_select-ok m eio s eio_ne at, dirty, run1, max_run) run2,
          record { here = c2.here; others = λ a k. c2.others a k ∙ c1.others a k },
          inr (dirty, most, attained),
        )
    | inr clean ↦ (
      s.max_fd,
      m.user.select_at,
      rw (load_select-ok m eio s eio_ne at, clean) refl,
      record {
        here = at ∙ ap (λ b. some (record s { fds_is_dirty = b })) clean;
        others = λ a k. refl;
      },
      inl (clean, refl),
    )
  ]

module _ (fd_setsize : ℕ) {h : Effect} (quiet : IsQuiet h) {map l p i : Ptr} {ys : Cells} (fuel : ℕ)
    (lt : length ys + 1 < fuel) (eio : Ptr) (eio_ne : eio ≢ null) where
  handle_ready-run :
      (m : Memory) (s : Select) (channels : Ptr → Option Channel)
      → IsMap m map l ((p, i) ∷ ys)
      → Servable fd_setsize channels ((p, i) ∷ ys)
      → m.user.channel_at ≡ channels
      → m.user.select_at eio ≡ some s
      → (r : Selected)
      → handle_ready fd_setsize (callback h) r fuel eio map m
        ≡ answer h s channels ((p, i) ∷ ys) r m
  unfolding handle_ready event_channel_map_get_head
  handle_ready-run m s channels is a e at r = elim (Bool-cases (ltb_ℤ r.count (pos 0))) [
    | inl failed ↦ rw failed refl
    | inr fine ↦ elim (Bool-cases (ltb_ℤ (pos 0) r.count)) [
      | inl some_ready ↦
          let links = is.list.links in
          rw
            (
              fine,
              some_ready,
              load_map-ok m is.ne_null is.at_map,
              list_get_head-ok is.list,
              ne→== p null links.0,
              list_get_data-ok m p _ links.0 links.1,
              dispatch_loop-run quiet fd_setsize eio eio_ne s channels fuel m null p i ys 0 links a
                  e at lt,
            )
            (ap (λ n. ok (pos n) (record m { user = serve h s channels ((p, i) ∷ ys) m.user }))
              (omega arith))
      | inr none_ready ↦ rw (fine, none_ready) refl
    ]
  ]

  module _ (select : ℤ → FdSet → FdSet → FdSet → Timeval → Selected) (timeout : ℕ) where
    -- `event_io_poll` of a map with channels whose descriptors are in range, with more rounds than it
    -- has channels and callbacks that leave the channels, the maps and the backends alone: select is
    -- asked once about the three sets, up to the largest descriptor of the map if the sets have
    -- changed and up to the one kept otherwise. When it fails the result is its own, or 0 if it was
    -- interrupted, and no channel is served. When nothing is ready the result is 0. Otherwise each
    -- channel of the map is served once, in order, for the events that select left in the sets, and
    -- the result is the number of the channels. The sets that are watched are as they were.
    pub event_io_poll-answer :
        (m : Memory) (s : Select)
        → IsMap m map l ((p, i) ∷ ys)
        → Servable fd_setsize m.user.channel_at ((p, i) ∷ ys)
        → m.user.select_at eio ≡ some s
        → (top : ℤ) × (f : Ptr → Option Select) × (event_io_poll fd_setsize
              (callback h)
              select
              fuel
              eio
              map
              timeout
              m
            ≡ answer h
                (polled s top (reply select timeout s top))
                m.user.channel_at
                ((p, i) ∷ ys)
                (reply select timeout s top)
                (with_selects m f))
          × Changed m eio (polled s top (reply select timeout s top)) f
          × IsAsked m.user ((p, i) ∷ ys) s top
    unfolding event_io_poll
    event_io_poll-answer m s is a at =
        let (f1, run1, c1) = copy_sets-run fd_setsize (callback h) eio eio_ne s m at in
        let (top, f2, run2, c2, asked) =
          refresh_max-run fd_setsize (callback h) eio eio_ne _ (with_selects m f1)
            (selects-IsMap m f1 is) fuel (omega arith) c1.here in
        let r = reply select timeout s top in
        let (f3, run3, c3) =
          modify_select-run (with_selects m f2) eio _
            (λ s. record s {
              fds_read_back = r.ready_read;
              fds_write_back = r.ready_write;
              fds_exp_back = r.ready_exp;
            })
            eio_ne c2.here in
        (
          top,
          f3,
          rw
              (
                event_channel_map_get_length-run m is,
                ne→== (suc (length ys)) 0 (λ q. absurd (omega arith)),
                run1,
                run2,
                load_select-ok (with_selects m f2) eio _ eio_ne c2.here,
                run3,
              )
              (handle_ready-run (with_selects m f3) _ m.user.channel_at (selects-IsMap m f3 is) a
                refl c3.here r),
          record { here = c3.here; others = λ a k. c3.others a k ∙ c2.others a k ∙ c1.others a k },
          asked,
        )
