-- ===== src/EventIo/Select/Dispatch.antt =====
-- The dispatch of `event_io_poll` in src/event_io_select.c, with callbacks that leave the channels,
-- the maps and the backends alone.
use eloop.Base.{
  ℕ, zero, suc, ◌+◌, ◌<◌, ◌≡◌, ◌≢◌, refl, sym, ap, ap₂, ◌∙◌, Bool, Bool-cases, inl, inr, true,
  false, Option, none, some, [], ◌∷◌, ◌==◌, ne→==, if◌then◌else◌, ℤ, pos, length, arith,
}
use eloop.Memory.{Ptr, null, ok, ◌>>◌}
use eloop.LinkedList.Links.{Cells, Links}
use eloop.LinkedList.Access.{list_get_next-ok, list_get_data-ok}
use eloop.World.{FdSet, Select, Channel, World, Memory, Prog, load_channel, load_select}
use eloop.EventChannel.{
  Event, proc_read, proc_write, proc_error, proc_of, on_event, event_channel_get_fd,
  event_channel_on_read, event_channel_on_write, event_channel_on_error,
}
use eloop.ChannelMap.{event_channel_map_get_next}
use eloop.EventIo.Select.{in_range, notify_if, dispatch_loop}

-- What a callback does to the world, with its address and the channel's.
abbrev pub Effect : Type 0
Effect = Ptr → Ptr → World → World

-- A callback neither changes nor frees a channel, a map's list or a backend.
pub record IsQuiet (h : Effect) : Type 0 where
  pub channels : (o i : Ptr) (w : World) → (h o i w).channel_at ≡ w.channel_at
  pub maps : (o i : Ptr) (w : World) → (h o i w).map_at ≡ w.map_at
  pub selects : (o i : Ptr) (w : World) → (h o i w).select_at ≡ w.select_at

abbrev pub callback : Effect → Ptr → Ptr → Prog ℤ
callback h o i m = ok (pos 0) (record m { user = h o i m.user })

module _ (h : Effect) where
  -- The callback `proc` of the channel at `i` is called if it is set and the event is there.
  abbrev pub notified : Bool → (proc i : Ptr) → World → World
  notified ready proc i w = if ready then (if proc == null then w else h proc i w) else w

  -- What a channel is told, in the order of the code.
  abbrev pub serve_one : Select → Channel → Ptr → World → World
  serve_one s c i w = notified (s.fds_exp_back c.fd) c.error_proc i (
      notified (s.fds_write_back c.fd) c.write_proc i
        (notified (s.fds_read_back c.fd) c.read_proc i w))

  -- Each channel of the cells is served once, in order.
  unfoldable pub serve : Select → (Ptr → Option Channel) → Cells → World → World
  serve s channels [] w = w
  serve s channels ((p, i) ∷ xs) w = elim (channels i) [
    | none ↦ w
    | some c ↦ serve s channels xs (serve_one s c i w)
  ]

module _ {h : Effect} (quiet : IsQuiet h) where
  -- What a callback keeps, a call that may not be made keeps too.
  notified-keeps :
      {A : Type 0} (field : World → A)
      → ((o i : Ptr) (w : World) → field (h o i w) ≡ field w)
      → (b : Bool) (proc i : Ptr) (w : World) → field (notified h b proc i w) ≡ field w
  notified-keeps field keeps true proc i w = elim (Bool-cases (proc == null)) [
    | inl k ↦ rw k refl
    | inr k ↦ rw k (keeps proc i w)
  ]
  notified-keeps field keeps false proc i w = refl

  pub serve_one-keeps :
      {A : Type 0} (field : World → A)
      → ((o i : Ptr) (w : World) → field (h o i w) ≡ field w)
      → (s : Select) (c : Channel) (i : Ptr) (w : World) → field (serve_one h s c i w) ≡ field w
  serve_one-keeps field keeps s c i w =
      notified-keeps field keeps (s.fds_exp_back c.fd) c.error_proc i _
      ∙ notified-keeps field keeps (s.fds_write_back c.fd) c.write_proc i _
      ∙ notified-keeps field keeps (s.fds_read_back c.fd) c.read_proc i w

  module _ (fd_setsize : ℕ) (eio : Ptr) (eio_ne : eio ≢ null) (s : Select) (i : Ptr)
      (i_ne : i ≢ null) (c : Channel) (range : in_range fd_setsize c.fd ≡ true) where
    notify_if-run :
        (m : Memory) (set : Select → FdSet) (event : Event)
        → m.user.channel_at i ≡ some c
        → m.user.select_at eio ≡ some s
        → notify_if fd_setsize (callback h) set (λ p. on_event (callback h) p event) c.fd eio i m
          ≡ ok tt (record m { user = notified h (set s c.fd) (proc_of c event) i m.user })
    unfolding notify_if on_event load_channel load_select
    notify_if-run m set event e at = elim (Bool-cases (set s c.fd)) [
      | inl b ↦ elim (Bool-cases (proc_of c event == null)) [
        | inl k ↦ rw (range, ne→== eio null eio_ne, at, b, ne→== i null i_ne, e, k) refl
        | inr k ↦ rw (range, ne→== eio null eio_ne, at, b, ne→== i null i_ne, e, k) refl
      ]
      | inr b ↦ rw (range, ne→== eio null eio_ne, at, b) refl
    ]

    abbrev Holds : World → Type 0
    Holds w = (w.channel_at i ≡ some c) × (w.select_at eio ≡ some s)

    notified-Holds : (b : Bool) (proc : Ptr) (w : World) → Holds w → Holds (notified h b proc i w)
    notified-Holds b proc w (e, at) = (
      ap (λ f. f i) (notified-keeps (λ w. w.channel_at) quiet.channels b proc i w) ∙ e,
      ap (λ f. f eio) (notified-keeps (λ w. w.select_at) quiet.selects b proc i w) ∙ at,
    )

    -- The three events of a channel, in the order of the code.
    notifies-run :
        {B : Type 0} (m : Memory) (rest : Prog B)
        → m.user.channel_at i ≡ some c
        → m.user.select_at eio ≡ some s
        → (do
          notify_if fd_setsize
              (callback h)
              (λ s. s.fds_read_back)
              (event_channel_on_read (callback h))
              c.fd
              eio
              i
          notify_if fd_setsize
              (callback h)
              (λ s. s.fds_write_back)
              (event_channel_on_write (callback h))
              c.fd
              eio
              i
          notify_if fd_setsize
              (callback h)
              (λ s. s.fds_exp_back)
              (event_channel_on_error (callback h))
              c.fd
              eio
              i
          rest)
            m
          ≡ rest (record m { user = serve_one h s c i m.user })
    unfolding event_channel_on_read event_channel_on_write event_channel_on_error
    notifies-run m rest e at =
        let w1 = notified h (s.fds_read_back c.fd) c.read_proc i m.user in
        let h1 = notified-Holds (s.fds_read_back c.fd) c.read_proc m.user (e, at) in
        let w2 = notified h (s.fds_write_back c.fd) c.write_proc i w1 in
        let h2 = notified-Holds (s.fds_write_back c.fd) c.write_proc w1 h1 in
        rw
          (
            notify_if-run m (λ s. s.fds_read_back) proc_read e at,
            notify_if-run (record m { user = w1 }) (λ s. s.fds_write_back) proc_write h1.0 h1.1,
            notify_if-run (record m { user = w2 }) (λ s. s.fds_exp_back) proc_error h2.0 h2.1,
          )
          refl

fd-ok :
    (m : Memory) (i : Ptr)
    → i ≢ null
    → (c : Channel) → m.user.channel_at i ≡ some c
    → event_channel_get_fd i m ≡ ok c.fd m
unfolding event_channel_get_fd load_channel
fd-ok m i ne c e = rw (ne→== i null ne, e) refl

-- Each of the cells holds a channel in use, whose descriptor the macros of fd_set take.
abbrev pub Servable : (fd_setsize : ℕ) → (Ptr → Option Channel) → Cells → Type 0
Servable fd_setsize channels [] = Unit {0}
Servable fd_setsize channels ((p, i) ∷ xs) =
    (i ≢ null)
    × ((c : Channel) × (channels i ≡ some c) × (in_range fd_setsize c.fd ≡ true))
    × Servable fd_setsize channels xs

serve_cons :
    (h : Effect) (s : Select) (channels : Ptr → Option Channel) (p i : Ptr) (c : Channel)
    (xs : Cells) (w : World)
    → channels i ≡ some c
    → serve h s channels ((p, i) ∷ xs) w ≡ serve h s channels xs (serve_one h s c i w)
unfolding serve
serve_cons h s channels p i c xs w e = rw (serve, e) refl

module _ {h : Effect} (quiet : IsQuiet h) (fd_setsize : ℕ) (eio : Ptr) (eio_ne : eio ≢ null)
    (s : Select) (channels : Ptr → Option Channel) where
  pub dispatch_loop-run :
      (fuel : ℕ) (m : Memory) (before p i : Ptr) (ys : Cells) (live_count : ℕ)
      → Links m.node_at before ((p, i) ∷ ys) null
      → Servable fd_setsize channels ((p, i) ∷ ys)
      → m.user.channel_at ≡ channels
      → m.user.select_at eio ≡ some s
      → length ys + 1 < fuel
      → dispatch_loop fd_setsize (callback h) fuel eio i p live_count m
        ≡ ok
            (live_count + (length ys + 1))
            (record m { user = serve h s channels ((p, i) ∷ ys) m.user })
  unfolding dispatch_loop serve event_channel_map_get_next
  dispatch_loop-run zero m before p i ys count links a e at lt = absurd (omega arith)
  dispatch_loop-run (suc zero) m before p i ys count links a e at lt = absurd (omega arith)
  dispatch_loop-run (suc (suc fuel)) m before p i [] count links (i_ne, (c, is_c, range), last) e at
        lt =
      rw
        (
          ne→== i null i_ne,
          ne→== p null links.0,
          fd-ok m i i_ne c (ap (λ f. f i) e ∙ is_c),
          list_get_next-ok m p _ links.0 links.1,
          notifies-run quiet fd_setsize eio eio_ne s i i_ne c range m _ (ap (λ f. f i) e ∙ is_c) at,
        )
        (ap (λ w. ok (count + 1) (record m { user = w }))
          (sym (serve_cons h s channels p i c [] m.user is_c)))
  dispatch_loop-run (suc (suc fuel)) m before p i ((q, j) ∷ ys) count links
        (i_ne, (c, is_c, range), more) e at lt =
      rw
        (
          ne→== i null i_ne,
          ne→== p null links.0,
          fd-ok m i i_ne c (ap (λ f. f i) e ∙ is_c),
          list_get_next-ok m p _ links.0 links.1,
          ne→== q null links.3.0,
          list_get_data-ok m q _ links.3.0 links.3.1,
          notifies-run quiet fd_setsize eio eio_ne s i i_ne c range m _ (ap (λ f. f i) e ∙ is_c) at,
          dispatch_loop-run (suc fuel) (record m { user = serve_one h s c i m.user }) p q j ys
              (count + 1) links.3 more
              (serve_one-keeps quiet (λ w. w.channel_at) quiet.channels s c i m.user ∙ e)
              (ap (λ f. f eio) (serve_one-keeps quiet (λ w. w.select_at) quiet.selects s c i m.user)
                ∙ at)
              (omega arith),
        )
        (ap₂ (λ n w. ok n (record m { user = w })) (omega arith)
          (sym (serve_cons h s channels p i c ((q, j) ∷ ys) m.user is_c)))
