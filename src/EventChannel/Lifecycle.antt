-- ===== src/EventChannel/Lifecycle.antt =====
-- Creating, deleting and cloning a channel: what is allocated and what is given back.
use eloop.Base.{◌≡◌, ◌≢◌, refl, ◌⊎◌, inl, inr, some, none, ◌==◌, ne→==, eq→==, Bool-cases, arith}
use eloop.Memory.{Ptr, null, ok, Ensures, write}
use eloop.BufferPipe.{buffer_pipe_create}
use eloop.World.{Channel, World, Memory}
use eloop.EventChannel.{zeroed, event_channel_create}

-- Unused addresses, different ones for the two pipes (NULL is what a failed calloc returns).
pub record IsUnused (w : World) (fresh recv send : Ptr) : Type 0 where
  pub channel : w.channel_at fresh ≡ none
  pub pipe_recv : w.pipe_at recv ≡ none
  pub pipe_send : w.pipe_at send ≡ none
  pub apart : recv ≡ send → recv ≡ null

-- Both kinds of memory are as they were.
pub record IsSame (w w' : World) : Type 0 where
  pub pipes : (a : Ptr) → w'.pipe_at a ≡ w.pipe_at a
  pub channels : (a : Ptr) → w'.channel_at a ≡ w.channel_at a

abbrev pub fresh_channel : (recv send : Ptr) → Channel
fresh_channel recv send = record zeroed { pipe_recv = recv; pipe_send = send }

-- A channel at `fresh` with two empty pipes of its own; all else is as it was.
pub record IsCreated (w w' : World) (fresh recv send : Ptr) : Type 0 where
  pub channel : w'.channel_at fresh ≡ some (fresh_channel recv send)
  pub recv_pipe : w'.pipe_at recv ≡ some buffer_pipe_create
  pub send_pipe : w'.pipe_at send ≡ some buffer_pipe_create
  pub pipes : (a : Ptr) → a ≢ recv → a ≢ send → w'.pipe_at a ≡ w.pipe_at a
  pub channels : (a : Ptr) → a ≢ fresh → w'.channel_at a ≡ w.channel_at a

module _ (m : Memory) (fresh recv send : Ptr) where
  abbrev full : Memory
  full = record m {
    user = record (m.user) {
      pipe_at =
          write (write m.user.pipe_at recv (some buffer_pipe_create)) send
            (some buffer_pipe_create);
      channel_at =
          write
            (write (write m.user.channel_at fresh (some zeroed)) fresh
              (some (record zeroed { pipe_recv = recv })))
            fresh (some (fresh_channel recv send));
    };
  }

  event_channel_create-run :
      fresh ≢ null
      → recv ≢ null
      → send ≢ null
      → event_channel_create fresh recv send m ≡ ok fresh full
  unfolding event_channel_create
  event_channel_create-run f r s =
      let r' = ne→== recv null r in
      let s' = ne→== send null s in rw (ne→== fresh null f, r', s', r', s')

  full-IsCreated : IsUnused m.user fresh recv send → IsCreated m.user full.user fresh recv send
  full-IsCreated u = record {
    channel = ground arith;
    recv_pipe = ground (arith, u.apart);
    send_pipe = ground arith;
    pipes = λ a e f. ground arith;
    channels = λ a e. ground arith;
  }

  -- `event_channel_create` with three unused addresses: the call returns the new channel, with two
  -- empty pipes of its own, if none of the three is NULL.
  pub event_channel_create-IsCreated :
      IsUnused m.user fresh recv send
      → fresh ≢ null
      → recv ≢ null
      → send ≢ null
      → (m' : Memory) × (event_channel_create fresh recv send m ≡ ok fresh m')
        × IsCreated m.user m'.user fresh recv send
  event_channel_create-IsCreated u f r s = (full, event_channel_create-run f r s, full-IsCreated u)

  -- `event_channel_create` when one of its three allocations fails: the call returns NULL, and
  -- nothing stays allocated.
  pub event_channel_create-null :
      IsUnused m.user fresh recv send
      → (fresh ≡ null) ⊎ (recv ≡ null) ⊎ (send ≡ null)
      → Ensures
          (λ p m'. (p ≡ null) × IsSame m.user m'.user)
          (event_channel_create fresh recv send m)
  unfolding event_channel_create
  event_channel_create-null u h = elim (Bool-cases (fresh == null)) [
    | inl f ↦ rw f (refl, record { pipes = λ a. refl; channels = λ a. refl })
    | inr f ↦ elim (Bool-cases (recv == null)) [
      | inl r ↦ elim (Bool-cases (send == null)) [
        | inl s ↦
            rw (f, r, s, f, eq→== fresh fresh refl)
              (refl, record { pipes = λ a. refl; channels = λ a. ground arith })
        | inr s ↦
            rw (f, r, s, f, eq→== fresh fresh refl, s, eq→== send send refl, s)
              (refl, record { pipes = λ a. ground arith; channels = λ a. ground arith })
      ]
      | inr r ↦ elim (Bool-cases (send == null)) [
        | inl s ↦
            rw (f, r, s, r, f, eq→== fresh fresh refl, r, eq→== recv recv refl, r)
              (refl, record { pipes = λ a. ground arith; channels = λ a. ground arith })
        | inr s ↦ absurd (ground arith)
      ]
    ]
  ]
