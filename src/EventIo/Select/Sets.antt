-- ===== src/EventIo/Select/Sets.antt =====
-- Runs of `event_io_add_fd` and `event_io_remove_fd` of src/event_io_select.c.
use eloop.Base.{
  ℕ, ◌≡◌, ◌≢◌, refl, ap, ◌∙◌, Bool-cases, inl, inr, true, Option, some, ne→==, eq→==, if◌then◌else◌,
  ℤ, pos,
}
use eloop.Memory.{Ptr, null, ok, write, pure, ◌>>◌}
use eloop.LinkedList.Links.{Cells}
use eloop.ChannelMap.Find.{IsMap}
use eloop.World.{FdSet, Select, Channel, Memory, load_channel, load_select, store_select}
use eloop.EventChannel.{
  fd_mask_read, fd_mask_write, fd_mask_error, is_exist_mask, event_channel_get_fd,
  event_channel_is_exist_mask,
}
use eloop.EventIo.Select.{
  fd_set, fd_clr, in_range, checked_fd, modify_select, change_if, event_io_add_fd,
  event_io_remove_fd,
}

-- The memory with other `struct event_io`s.
abbrev pub with_selects : Memory → (Ptr → Option Select) → Memory
with_selects m f = record m { user = record (m.user) { select_at = f } }

-- The structure after `event_io_add_fd` and `event_io_remove_fd` of a channel.
abbrev pub added : Channel → Select → Select
added c s = record s {
  fds_read = if is_exist_mask c fd_mask_read then fd_set c.fd s.fds_read else s.fds_read;
  fds_write = if is_exist_mask c fd_mask_write then fd_set c.fd s.fds_write else s.fds_write;
  fds_exp = if is_exist_mask c fd_mask_error then fd_set c.fd s.fds_exp else s.fds_exp;
  fds_is_dirty = true;
}

abbrev pub removed : Channel → Select → Select
removed c s = record s {
  fds_read = if is_exist_mask c fd_mask_read then fd_clr c.fd s.fds_read else s.fds_read;
  fds_write = if is_exist_mask c fd_mask_write then fd_clr c.fd s.fds_write else s.fds_write;
  fds_exp = if is_exist_mask c fd_mask_error then fd_clr c.fd s.fds_exp else s.fds_exp;
  fds_is_dirty = true;
}

-- The structure at `eio` is `s`, all others are as they were.
pub record Changed (m : Memory) (eio : Ptr) (s : Select) (f : Ptr → Option Select) : Type 0 where
  pub here : f eio ≡ some s
  pub others : (a : Ptr) → a ≢ eio → f a ≡ m.user.select_at a

pub selects-IsMap :
    (m : Memory) (f : Ptr → Option Select) {map l : Ptr} {xs : Cells}
    → IsMap m map l xs
    → IsMap (with_selects m f) map l xs
selects-IsMap m f is = record {
  ne_null = is.ne_null;
  at_map = is.at_map;
  list = record {
    ne_null = is.list.ne_null;
    unmapped = is.list.unmapped;
    header = is.list.header;
    links = is.list.links;
  };
  channels = is.channels;
}

pub modify_select-run :
    (m : Memory) (eio : Ptr) (s : Select) (g : Select → Select)
    → eio ≢ null
    → m.user.select_at eio ≡ some s
    → (f : Ptr → Option Select) × (modify_select g eio m ≡ ok tt (with_selects m f))
      × Changed m eio (g s) f
unfolding modify_select load_select store_select
modify_select-run m eio s g ne at = (
  write m.user.select_at eio (some (g s)),
  rw (ne→== eio null ne, at) refl,
  record { here = rw (eq→== eio eio refl) refl; others = λ a k. rw (ne→== a eio k) refl },
)

module _ (fd_setsize : ℕ) (i : Ptr) (c : Channel) (i_ne : i ≢ null)
    (range : in_range fd_setsize c.fd ≡ true) (eio : Ptr) (eio_ne : eio ≢ null) where
  module _ (m : Memory) (e : m.user.channel_at i ≡ some c) where
    checked_fd-run : checked_fd fd_setsize i m ≡ ok c.fd m
    unfolding checked_fd event_channel_get_fd load_channel
    checked_fd-run = rw (ne→== i null i_ne, e, range) refl

    is_exist-run : (mask : ℕ) → event_channel_is_exist_mask i mask m ≡ ok (is_exist_mask c mask) m
    unfolding event_channel_is_exist_mask load_channel
    is_exist-run mask = rw (ne→== i null i_ne, e) refl

    -- A line about one of the sets, which is `old` before and `new` where the channel has the bit.
    change_if-run :
        (s : Select) (mask : ℕ) (change : ℤ → Select → Select) (put : FdSet → Select)
        (old new : FdSet)
        → s ≡ put old
        → change c.fd s ≡ put new
        → m.user.select_at eio ≡ some s
        → (f : Ptr → Option Select) × (change_if fd_setsize mask change eio i m
            ≡ ok tt (with_selects m f))
          × Changed m eio (put (if is_exist_mask c mask then new else old)) f
    unfolding change_if
    change_if-run s mask change put old new kept changes at =
        elim (Bool-cases (is_exist_mask c mask)) [
          | inl set ↦
              let (f, run, changed) = modify_select-run m eio s (change c.fd) eio_ne at in
              (
                f,
                rw (is_exist-run mask, set, checked_fd-run, run) refl,
                rw set (record { here = changed.here ∙ ap some changes; others = changed.others }),
              )
          | inr clear ↦ (
            m.user.select_at,
            rw (is_exist-run mask, clear) refl,
            rw clear (record { here = at ∙ ap some kept; others = λ a k. refl }),
          )
        ]

  -- The three lines and the flag, with what each line does to its set.
  module _ (r w x : ℤ → FdSet → FdSet) (m : Memory) (e : m.user.channel_at i ≡ some c) (s : Select)
      (at : m.user.select_at eio ≡ some s) where
    abbrev read_set : FdSet
    read_set = if is_exist_mask c fd_mask_read then r c.fd s.fds_read else s.fds_read

    abbrev write_set : FdSet
    write_set = if is_exist_mask c fd_mask_write then w c.fd s.fds_write else s.fds_write

    abbrev exp_set : FdSet
    exp_set = if is_exist_mask c fd_mask_error then x c.fd s.fds_exp else s.fds_exp

    lines-run :
        (f : Ptr → Option Select) × ((do
          change_if fd_setsize fd_mask_read (λ fd s. record s { fds_read = r fd s.fds_read }) eio i
          change_if fd_setsize fd_mask_write
              (λ fd s. record s { fds_write = w fd s.fds_write })
              eio
              i
          change_if fd_setsize fd_mask_error (λ fd s. record s { fds_exp = x fd s.fds_exp }) eio i
          modify_select (λ s. record s { fds_is_dirty = true }) eio
          pure {A = ℤ} (pos 0))
            m
          ≡ ok (pos 0) (with_selects m f))
        × Changed m eio
            (record s {
              fds_read = read_set;
              fds_write = write_set;
              fds_exp = exp_set;
              fds_is_dirty = true;
            })
            f
    lines-run =
        let (f1, run1, c1) =
          change_if-run m e s fd_mask_read (λ fd s. record s { fds_read = r fd s.fds_read })
            (λ t. record s { fds_read = t }) s.fds_read (r c.fd s.fds_read) refl refl at in
        let s1 : Select = record s { fds_read = read_set } in
        let (f2, run2, c2) =
          change_if-run (with_selects m f1) e s1 fd_mask_write
            (λ fd s. record s { fds_write = w fd s.fds_write }) (λ t. record s1 { fds_write = t })
            s.fds_write (w c.fd s.fds_write) refl refl c1.here in
        let s2 : Select = record s1 { fds_write = write_set } in
        let (f3, run3, c3) =
          change_if-run (with_selects m f2) e s2 fd_mask_error
            (λ fd s. record s { fds_exp = x fd s.fds_exp }) (λ t. record s2 { fds_exp = t })
            s.fds_exp (x c.fd s.fds_exp) refl refl c2.here in
        let s3 : Select = record s2 { fds_exp = exp_set } in
        let (f4, run4, c4) =
          modify_select-run (with_selects m f3) eio s3 (λ s. record s { fds_is_dirty = true })
            eio_ne c3.here in
        (
          f4,
          rw (run1, run2, run3, run4) refl,
          record {
            here = c4.here;
            others = λ a k. c4.others a k ∙ c3.others a k ∙ c2.others a k ∙ c1.others a k;
          },
        )

  module _ (m : Memory) (e : m.user.channel_at i ≡ some c) (s : Select)
      (at : m.user.select_at eio ≡ some s) where
    pub event_io_add_fd-run :
        (f : Ptr → Option Select) × (event_io_add_fd fd_setsize eio i m
          ≡ ok (pos 0) (with_selects m f))
        × Changed m eio (added c s) f
    unfolding event_io_add_fd
    event_io_add_fd-run = lines-run fd_set fd_set fd_set m e s at

    pub event_io_remove_fd-run :
        (f : Ptr → Option Select) × (event_io_remove_fd fd_setsize eio i m
          ≡ ok (pos 0) (with_selects m f))
        × Changed m eio (removed c s) f
    unfolding event_io_remove_fd
    event_io_remove_fd-run = lines-run fd_clr fd_clr fd_clr m e s at
