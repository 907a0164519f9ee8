-- ===== src/EventLoopPool/Loops.antt =====
-- The loops that `event_loop_create` of src/event_loop.c makes for a pool.
use eloop.Base.{ℕ, ◌≡◌, ◌≢◌, refl, if◌then◌else◌, minus_one, true, some, ◌==◌, ne→==, eq→==, pos}
use eloop.Memory.{Ptr, null, handle, ok, write, store_list}
use eloop.LinkedList.{list_create}
use eloop.World.{Loop, Memory, Prog, load_loop, store_loop, store_map, store_select}
use eloop.ChannelMap.{event_channel_map_create}
use eloop.EventIo.Select.{zeroed_select, event_io_create}
use eloop.EventLoop.LifeCycle.{
  Setup, zeroed_loop, modify_loop, event_loop_delete, create_failed, create_thread, create_fd,
  create_lists, event_loop_create,
}
use eloop.EventLoopPool.Create.{IsCreate}

-- Every call of `event_loop_create` that asks for memory or for a mutex gets it.
pub record Works (s : Setup) : Type 0 where
  pub timer_list : s.timer_list ≢ null
  pub job_list : s.job_list ≢ null
  pub fd_io : s.fd_io ≢ null
  pub ec_map : s.ec_map ≢ null
  pub channel_list : s.channel_list ≢ null
  pub mtx_attr : s.mtx_attr ≡ true
  pub mtx_attr_type : s.mtx_attr_type ≡ true
  pub cond_attr : s.cond_attr ≡ true
  pub timer_mtx : s.timer_mtx ≡ true
  pub job_mtx : s.job_mtx ≡ true
  pub fd_mtx : s.fd_mtx ≡ true
  pub proc_mtx : s.proc_mtx ≡ true
  pub proc_cond : s.proc_cond ≡ true
  pub thread : s.thread ≡ true

list_made :
    (l : Ptr) (m : Memory)
    → l ≢ null
    → list_create l m ≡ ok l (record m { list_at = write m.list_at l (some (handle null null 0)) })
unfolding list_create store_list
list_made l m ne = rw (ne→== l null ne) refl

-- `m'` is on the way from `m` to a memory with a new loop at `eloop`, which is `lp` so far.
record Stage (eloop : Ptr) (m m' : Memory) (lp : Loop) : Type 0 where
  pub here : m'.user.loop_at eloop ≡ some lp
  pub pools : m'.user.pool_at ≡ m.user.pool_at
  pub others : (a : Ptr) → a ≢ eloop → m'.user.loop_at a ≡ m.user.loop_at a

module _ (eloop : Ptr) (ne : eloop ≢ null) {m : Memory} where
  stored :
      (lp : Loop) → (m' : Memory) × (store_loop eloop (some lp) m ≡ ok tt m') × Stage eloop m m' lp
  unfolding store_loop
  stored lp = (
    _,
    refl,
    record {
      here = rw (eq→== eloop eloop refl) refl;
      pools = refl;
      others = λ a k. rw (ne→== a eloop k) refl;
    },
  )

  module _ {m1 : Memory} {lp : Loop} (at : Stage eloop m m1 lp) where
    modified :
        (g : Loop → Loop)
        → (m2 : Memory) × (modify_loop g eloop m1 ≡ ok tt m2) × Stage eloop m m2 (g lp)
    unfolding modify_loop load_loop store_loop
    modified g = (
      record m1 {
        user = record (m1.user) {
          loop_at = λ a. if a == eloop then some (g lp) else m1.user.loop_at a;
        };
      },
      rw (ne→== eloop null ne, at.here) refl,
      record {
        here = rw (eq→== eloop eloop refl) refl;
        pools = at.pools;
        others = λ a k. rw (ne→== a eloop k) (at.others a k);
      },
    )

    with_list :
        (l : Ptr) → l ≢ null → (m2 : Memory) × (list_create l m1 ≡ ok l m2) × Stage eloop m m2 lp
    with_list l l_ne = (
      record m1 { list_at = write m1.list_at l (some (handle null null 0)) },
      list_made l m1 l_ne,
      record { here = at.here; pools = at.pools; others = at.others },
    )

    with_io :
        (eio : Ptr)
        → eio ≢ null
        → (m2 : Memory) × (event_io_create eio m1 ≡ ok eio m2) × Stage eloop m m2 lp
    unfolding event_io_create store_select
    with_io eio eio_ne = (
      record m1 {
        user = record (m1.user) {
          select_at =
              write (write m1.user.select_at eio (some zeroed_select)) eio
                (some (record zeroed_select { max_fd = minus_one; fds_is_dirty = true }));
        };
      },
      rw (ne→== eio null eio_ne) refl,
      record { here = at.here; pools = at.pools; others = at.others },
    )

    with_map :
        (map l : Ptr)
        → map ≢ null
        → l ≢ null
        → (m2 : Memory) × (event_channel_map_create map l m1 ≡ ok map m2) × Stage eloop m m2 lp
    unfolding event_channel_map_create store_map
    with_map map l map_ne l_ne = (
      record m1 {
        list_at = write m1.list_at l (some (handle null null 0));
        user = record (m1.user) {
          map_at = write (write m1.user.map_at map (some null)) map (some l);
        };
      },
      rw
          (
            ne→== map null map_ne,
            list_made l
                (record m1 {
                  user = record (m1.user) { map_at = write m1.user.map_at map (some null) };
                })
                l_ne,
            ne→== l null l_ne,
          )
          refl,
      record { here = at.here; pools = at.pools; others = at.others },
    )

module _ (join : Ptr → Prog (Unit {0})) (s : Setup) where
  -- With everything at hand, the result is the new loop, with no id given to a timer yet.
  create-done :
      (m : Memory)
      → s.eloop ≢ null
      → Works s
      → (m' : Memory) × (lp : Loop) × (event_loop_create join s m ≡ ok s.eloop m')
        × (lp.tid ≡ pos 0)
        × Stage s.eloop m m' lp
  unfolding event_loop_create create_lists create_fd create_thread
  create-done m ne w =
      let (m1, run1, at1) = stored s.eloop ne zeroed_loop in
      let (m2, run2, at2) = with_list s.eloop ne at1 s.timer_list w.timer_list in
      let (m3, run3, at3) =
        modified s.eloop ne at2 (λ lp. record lp { timer_list = s.timer_list }) in
      let (m4, run4, at4) = with_list s.eloop ne at3 s.job_list w.job_list in
      let (m5, run5, at5) = modified s.eloop ne at4 (λ lp. record lp { job_list = s.job_list }) in
      let (m6, run6, at6) = with_io s.eloop ne at5 s.fd_io w.fd_io in
      let (m7, run7, at7) = modified s.eloop ne at6 (λ lp. record lp { fd_io = s.fd_io }) in
      let (m8, run8, at8) =
        with_map s.eloop ne at7 s.ec_map s.channel_list w.ec_map w.channel_list in
      let (m9, run9, at9) = modified s.eloop ne at8 (λ lp. record lp { ec_map = s.ec_map }) in
      let (m10, run10, at10) =
        modified s.eloop ne at9 (λ lp. record lp { is_thread_ready = true }) in
      (
        m10,
        _,
        rw
            (
              ne→== s.eloop null ne,
              run1,
              w.mtx_attr,
              w.mtx_attr_type,
              w.cond_attr,
              w.timer_mtx,
              run2,
              run3,
              w.job_mtx,
              run4,
              run5,
              w.fd_mtx,
              run6,
              run7,
              ne→== s.fd_io null w.fd_io,
              run8,
              run9,
              ne→== s.ec_map null w.ec_map,
              w.proc_mtx,
              w.proc_cond,
              w.thread,
              run10,
            )
            refl,
        refl,
        at10,
      )

  create-null : (m : Memory) → s.eloop ≡ null → event_loop_create join s m ≡ ok null m
  unfolding event_loop_create create_failed event_loop_delete
  create-null m e = rw (eq→== s.eloop null e) refl

-- Where calloc may refuse a loop its memory and all else works, `event_loop_create` makes loops as a
-- pool expects them.
pub event_loop_create-IsCreate :
    (join : Ptr → Prog (Unit {0})) (setups : ℕ → Setup)
    → ((i : ℕ) → (setups i).eloop ≢ null → Works (setups i))
    → IsCreate (λ i. event_loop_create join (setups i)) (λ i. (setups i).eloop)
event_loop_create-IsCreate join setups works = record {
  done = λ i m ne unused.
      let (m', lp, run, tid, at) = create-done join (setups i) m ne (works i ne) in
      (m', run, at.pools, (ne, lp, at.here, tid), at.others);
  failed = λ i m e. (m, create-null join (setups i) m e, refl, refl);
}
