-- ===== src/EventIo/Kqueue/Serve.antt =====
-- The loop of `event_io_poll` in src/event_io_kqueue.c, with callbacks that leave the channels alone.
use eloop.Base.{
  ◌≡◌, ◌≢◌, refl, sym, subst, ap, ◌∙◌, Bool-cases, inl, inr, Option, none, some, List, [], ◌∷◌,
  ◌==◌, ne→==, if◌then◌else◌,
}
use eloop.Memory.{Ptr, null, ok, pure, ◌>>◌}
use eloop.World.{
  Filter, unset, evfilt_read, evfilt_write, evfilt_except, Channel, World, Memory, load_channel,
}
use eloop.EventChannel.{
  Event, proc_read, proc_write, proc_error, proc_close, proc_of, on_event, event_channel_on_read,
  event_channel_on_write, event_channel_on_error, event_channel_on_close,
}
use eloop.EventLoop.Channels.Watches.{get_fd-run}
use eloop.EventIo.Select.Dispatch.{Effect, callback}
use eloop.EventIo.Kqueue.{Fired, serve_filter, serve_event, poll_loop}

-- The event that a filter stands for.
abbrev pub event_of_filter : Filter → Option Event
event_of_filter unset = none
event_of_filter evfilt_read = some proc_read
event_of_filter evfilt_write = some proc_write
event_of_filter evfilt_except = some proc_error

-- The one event that a channel is told: an error before the end of the file, and that before the
-- filter.
abbrev pub event_of : Fired → Option Event
event_of e =
    if e.is_error
    then some proc_error
    else if e.is_eof
    then some proc_close
    else event_of_filter e.filter

-- The world after the channel `c` at `i` is told of an event.
abbrev pub told : Effect → Channel → Ptr → Option Event → World → World
told h c i none w = w
told h c i (some e) w = if proc_of c e == null then w else h (proc_of c e) i w

-- Each entry is served once, in order.
abbrev pub served : Effect → (Ptr → Option Channel) → List Fired → World → World
served h channels [] w = w
served h channels (e ∷ es) w = elim (channels e.channel) [
  | none ↦ w
  | some c ↦ served h channels es (told h c e.channel (event_of e) w)
]

-- Every entry has a channel in use.
abbrev pub AllInUse : (Ptr → Option Channel) → List Fired → Type 0
AllInUse channels [] = Unit {0}
AllInUse channels (e ∷ es) =
    (e.channel ≢ null) × ((c : Channel) × (channels e.channel ≡ some c)) × AllInUse channels es

module _ (h : Effect) (quiet : (o i : Ptr) (w : World) → (h o i w).channel_at ≡ w.channel_at) where
  module _ (m : Memory) (i : Ptr) (c : Channel) (i_ne : i ≢ null)
      (e : m.user.channel_at i ≡ some c) where
    on_event-run :
        (event : Event)
        → (do on_event (callback h) i event; pure (tt {0})) m
          ≡ ok (tt {0}) (record m { user = told h c i (some event) m.user })
    unfolding on_event load_channel
    on_event-run event = elim (Bool-cases (proc_of c event == null)) [
      | inl z ↦ rw (ne→== i null i_ne, e, z) refl
      | inr z ↦ rw (ne→== i null i_ne, e, z) refl
    ]

    by_filter :
        (filter : Filter)
        → serve_filter (callback h) filter i m
          ≡ ok tt (record m { user = told h c i (event_of_filter filter) m.user })
    unfolding serve_filter event_channel_on_read event_channel_on_write event_channel_on_error
    by_filter unset = refl
    by_filter evfilt_read = on_event-run proc_read
    by_filter evfilt_write = on_event-run proc_write
    by_filter evfilt_except = on_event-run proc_error

    serve_event-run :
        (f : Fired)
        → f.channel ≡ i
        → serve_event (callback h) f m ≡ ok tt (record m { user = told h c i (event_of f) m.user })
    unfolding serve_event event_channel_on_error event_channel_on_close
    serve_event-run f at = rw at (elim (Bool-cases f.is_error) [
      | inl error ↦ rw (get_fd-run m i c i_ne e, error) (on_event-run proc_error)
      | inr fine ↦ elim (Bool-cases f.is_eof) [
        | inl eof ↦ rw (get_fd-run m i c i_ne e, fine, eof) (on_event-run proc_close)
        | inr more ↦ rw (get_fd-run m i c i_ne e, fine, more) (by_filter f.filter)
      ]
    ])

  told-channels :
      (c : Channel) (i : Ptr) (event : Option Event) (w : World)
      → (told h c i event w).channel_at ≡ w.channel_at
  told-channels c i none w = refl
  told-channels c i (some e) w = elim (Bool-cases (proc_of c e == null)) [
    | inl z ↦ rw z refl
    | inr z ↦ rw z (quiet (proc_of c e) i w)
  ]

  -- The loop of `event_io_poll` over entries whose channels are in use, with callbacks that leave the
  -- channels alone: each entry is served once, in order, for one event: an error if the entry has
  -- that flag, the end of the file if it has the other, and otherwise what its filter stands for.
  pub poll_loop-served :
      (es : List Fired) (m : Memory)
      → AllInUse m.user.channel_at es
      → poll_loop (callback h) es m
        ≡ ok tt (record m { user = served h m.user.channel_at es m.user })
  unfolding poll_loop
  poll_loop-served [] m a = refl
  poll_loop-served (e ∷ es) m (i_ne, (c, at), more) =
      let w = told h c e.channel (event_of e) m.user in
      let same = told-channels c e.channel (event_of e) m.user in
      rw (serve_event-run m e.channel c i_ne at e refl, at, served)
        (poll_loop-served es (record m { user = w }) (subst (λ g. AllInUse g es) (sym same) more)
          ∙ ap (λ g. ok tt (record m { user = served h g es w })) same)
