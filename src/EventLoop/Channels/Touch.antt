-- ===== src/EventLoop/Channels/Touch.antt =====
-- A channel that changes while the loop polls it, other than in its descriptor: the sets of
-- src/event_io_select.c still hold what is waited for on all other descriptors.
use eloop.Base.{
  ℕ, ◌≡◌, refl, sym, ap, ap₂, ◌∙◌, Bool-cases, inl, inr, false, ◌&&◌, ◌||◌, some, [], ◌∷◌, ◌==◌,
  ne→==, ==→eq, ℤ, eqb_ℤ,
}
use eloop.Memory.{Ptr}
use eloop.LinkedList.Links.{Cells}
use eloop.World.{Channel, Loop, Memory, Select}
use eloop.ChannelMap.Find.{fd_at}
use eloop.EventIo.Select.InStep.{has_mask, wanted, InStep, InStepBut}
use eloop.EventLoop.Channels.Remove.{put_channel, AllChannels-kept}
use eloop.EventLoop.Channels.Watches.{IsPolled, written}

module _ (m : Memory) (i : Ptr) (c d : Channel) (e : m.user.channel_at i ≡ some c)
    (same : d.fd ≡ c.fd) where
  cell_other :
      (mask : ℕ) (fd : ℤ) (j : Ptr)
      → eqb_ℤ fd c.fd ≡ false
      → (eqb_ℤ fd (fd_at (put_channel m i d).user j) && has_mask (put_channel m i d).user mask j)
        ≡ (eqb_ℤ fd (fd_at m.user j) && has_mask m.user mask j)
  cell_other mask fd j other = elim (Bool-cases (j == i)) [
    | inl hit ↦
        let at : m.user.channel_at j ≡ some c = ap m.user.channel_at (==→eq j i hit) ∙ e in
        rw (fd_at, has_mask, hit, at, same, other) refl
    | inr miss ↦ rw (fd_at, has_mask, miss) refl
  ]

  wanted_other :
      (mask : ℕ) (fd : ℤ) (xs : Cells)
      → eqb_ℤ fd c.fd ≡ false
      → wanted (put_channel m i d).user mask xs fd ≡ wanted m.user mask xs fd
  wanted_other mask fd [] other = refl
  wanted_other mask fd ((p, j) ∷ xs) other =
      ap₂ (λ a b. a || b) (cell_other mask fd j other) (wanted_other mask fd xs other)

  pub touched-InStepBut :
      (xs : Cells) (s : Select)
      → InStepBut c.fd m.user xs s
      → InStepBut c.fd (put_channel m i d).user xs s
  touched-InStepBut xs s but = record {
    reads = λ fd other. but.reads fd other ∙ sym (wanted_other _ fd xs other);
    writes = λ fd other. but.writes fd other ∙ sym (wanted_other _ fd xs other);
    errors = λ fd other. but.errors fd other ∙ sym (wanted_other _ fd xs other);
  }

  pub touched-IsPolled :
      {eloop l : Ptr} {lp : Loop} (xs : Cells) (s : Select)
      → IsPolled m eloop lp l xs s
      → IsPolled (put_channel m i d) eloop lp l xs s
  touched-IsPolled xs s q = record {
    ne_null = q.ne_null;
    at_loop = q.at_loop;
    channels = record {
      ne_null = q.channels.ne_null;
      at_map = q.channels.at_map;
      list = record {
        ne_null = q.channels.list.ne_null;
        unmapped = q.channels.list.unmapped;
        header = q.channels.list.header;
        links = q.channels.list.links;
      };
      channels =
          AllChannels-kept m.user (put_channel m i d).user i c d e (written m i d)
            (λ a k. rw (ne→== a i k) refl) xs q.channels.channels;
    };
    io_ne_null = q.io_ne_null;
    at_io = q.at_io;
  }

-- Sets that hold what the channels wait for do so on all descriptors but one.
pub InStep-but :
    (m : Memory) (fd : ℤ) (xs : Cells) (s : Select) → InStep m.user xs s → InStepBut fd m.user xs s
InStep-but m fd xs s is = record {
  reads = λ a other. is.reads a;
  writes = λ a other. is.writes a;
  errors = λ a other. is.errors a;
}
