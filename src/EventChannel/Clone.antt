-- ===== src/EventChannel/Clone.antt =====
-- Deleting a channel, and what a clone shares with its original.
use eloop.Base.{◌≡◌, ◌≢◌, sym, ap, ◌∙◌, some, none, ne→==, arith}
use eloop.Memory.{Ptr, null, ok, fault, ◌>>=◌, ◌>>◌, write}
use eloop.BufferPipe.{Pipe, buffer_pipe_create}
use eloop.World.{Channel, World, Memory, load_channel}
use eloop.EventChannel.{event_channel_delete, event_channel_copy, event_channel_clone}
use eloop.EventChannel.Lifecycle.{IsUnused, event_channel_create-IsCreated}

-- A channel at `p` with two pipes of its own.
pub record IsChannel (w : World) (p : Ptr) (c : Channel) : Type 0 where
  pub ne_null : p ≢ null
  pub channel : w.channel_at p ≡ some c
  pub recv_ne_null : c.pipe_recv ≢ null
  pub send_ne_null : c.pipe_send ≢ null
  pub apart : c.pipe_recv ≢ c.pipe_send
  pub recv : Pipe
  pub recv_pipe : w.pipe_at c.pipe_recv ≡ some recv
  pub send : Pipe
  pub send_pipe : w.pipe_at c.pipe_send ≡ some send

-- The channel and its two pipes are given back, and nothing else.
pub record IsDeleted (w w' : World) (p : Ptr) (c : Channel) : Type 0 where
  pub channel : w'.channel_at p ≡ none
  pub recv_pipe : w'.pipe_at c.pipe_recv ≡ none
  pub send_pipe : w'.pipe_at c.pipe_send ≡ none
  pub pipes : (a : Ptr) → a ≢ c.pipe_recv → a ≢ c.pipe_send → w'.pipe_at a ≡ w.pipe_at a
  pub channels : (a : Ptr) → a ≢ p → w'.channel_at a ≡ w.channel_at a

module _ (m : Memory) (p : Ptr) where
  load_channel-ok :
      (c : Channel) → p ≢ null → m.user.channel_at p ≡ some c → load_channel p m ≡ ok c m
  unfolding load_channel
  load_channel-ok c ne e = rw (ne→== p null ne, e)

  abbrev deleted : Channel → Memory
  deleted c = record m {
    user = record (m.user) {
      pipe_at = write (write m.user.pipe_at c.pipe_recv none) c.pipe_send none;
      channel_at =
          write
            (write (write m.user.channel_at p (some (record c { pipe_recv = null }))) p
              (some (record c { pipe_recv = null; pipe_send = null })))
            p none;
    };
  }

  -- `event_channel_delete` of a channel with two pipes: the caller's pointer becomes NULL, and the
  -- channel and its two pipes are given back, and nothing else.
  pub event_channel_delete-IsDeleted :
      {c : Channel}
      → IsChannel m.user p c
      → (m' : Memory) × (event_channel_delete p m ≡ ok null m') × IsDeleted m.user m'.user p c
  unfolding event_channel_delete
  event_channel_delete-IsDeleted {c} is = (
    deleted c,
    (let at_p = ne→== p null is.ne_null in
        let at_recv = ne→== c.pipe_recv null is.recv_ne_null in
        let at_send = ne→== c.pipe_send null is.send_ne_null in
        let other = ne→== c.pipe_send c.pipe_recv (λ e. is.apart (sym e)) in
        rw (
          at_p, at_p, is.channel, at_recv, at_recv, is.recv_pipe, at_send, at_send, other,
          is.send_pipe,
        )),
    record {
      channel = ground arith;
      recv_pipe = ground arith;
      send_pipe = ground arith;
      pipes = λ a e f. ground arith;
      channels = λ a e. ground arith;
    },
  )

  -- A channel whose pipe has been given back cannot be deleted.
  event_channel_delete-fault :
      {c : Channel}
      → p ≢ null
      → m.user.channel_at p ≡ some c
      → c.pipe_recv ≢ null
      → m.user.pipe_at c.pipe_recv ≡ none
      → event_channel_delete p m ≡ fault
  unfolding event_channel_delete
  event_channel_delete-fault {c} ne e ne' e' =
      let at_p = ne→== p null ne in
      let at_recv = ne→== c.pipe_recv null ne' in rw (at_p, at_p, e, at_recv, at_recv, e')

module _ (m : Memory) {p fresh recv send : Ptr} {c : Channel} (is : IsChannel m.user p c)
    (u : IsUnused m.user fresh recv send) (f : fresh ≢ null) (r : recv ≢ null)
    (s : send ≢ null) where
  p-ne-fresh : p ≢ fresh
  p-ne-fresh e = cc (is.channel, u.channel, ap m.user.channel_at e)

  recv-ne : c.pipe_recv ≢ recv
  recv-ne e = cc (is.recv_pipe, u.pipe_recv, ap m.user.pipe_at e)

  send-ne : c.pipe_send ≢ recv
  send-ne e = cc (is.send_pipe, u.pipe_recv, ap m.user.pipe_at e)

  recv-ne-send : c.pipe_recv ≢ send
  recv-ne-send e = cc (is.recv_pipe, u.pipe_send, ap m.user.pipe_at e)

  send-ne-send : c.pipe_send ≢ send
  send-ne-send e = cc (is.send_pipe, u.pipe_send, ap m.user.pipe_at e)

  -- What a clone leaves behind: both channels hold the same pipes, and the two new pipes stay
  -- allocated, though neither channel leads to them.
  pub record IsShared (w' : World) : Type 0 where
    pub original : IsChannel w' p c
    pub clone : IsChannel w' fresh c
    pub recv_leaked : w'.pipe_at recv ≡ some buffer_pipe_create
    pub send_leaked : w'.pipe_at send ≡ some buffer_pipe_create
    pub recv_unreached : (c.pipe_recv ≢ recv) × (c.pipe_send ≢ recv)
    pub send_unreached : (c.pipe_recv ≢ send) × (c.pipe_send ≢ send)

  event_channel_copy-run :
      (n : Memory) (d : Channel)
      → n.user.channel_at p ≡ some c
      → n.user.channel_at fresh ≡ some d
      → event_channel_copy fresh p n
        ≡ ok tt (record n {
          user = record (n.user) { channel_at = write n.user.channel_at fresh (some c) };
        })
  unfolding event_channel_copy
  event_channel_copy-run n d e e' =
      rw (load_channel-ok n p c is.ne_null e, load_channel-ok n fresh d f e')

  -- `event_channel_clone` of a channel with two pipes, when memory lasts: the call returns a channel
  -- that shares both pipes with its original, and the two pipes created for it are leaked.
  pub event_channel_clone-IsShared :
      (m' : Memory) × (event_channel_clone fresh recv send p m ≡ ok fresh m') × IsShared m'.user
  unfolding event_channel_clone
  event_channel_clone-IsShared =
      let (n, run, made) = event_channel_create-IsCreated m fresh recv send u f r s in
      let at_p = made.channels p p-ne-fresh ∙ is.channel in
      let recv_there = made.pipes c.pipe_recv recv-ne recv-ne-send ∙ is.recv_pipe in
      let send_there = made.pipes c.pipe_send send-ne send-ne-send ∙ is.send_pipe in
      (
        record n { user = record (n.user) { channel_at = write n.user.channel_at fresh (some c) } },
        rw (run, ne→== fresh null f, event_channel_copy-run n _ at_p made.channel),
        record {
          original = record {
            ne_null = is.ne_null;
            channel = ground (arith, ne→== p fresh p-ne-fresh, at_p);
            recv_ne_null = is.recv_ne_null;
            send_ne_null = is.send_ne_null;
            apart = is.apart;
            recv = is.recv;
            recv_pipe = recv_there;
            send = is.send;
            send_pipe = send_there;
          };
          clone = record {
            ne_null = f;
            channel = ground arith;
            recv_ne_null = is.recv_ne_null;
            send_ne_null = is.send_ne_null;
            apart = is.apart;
            recv = is.recv;
            recv_pipe = recv_there;
            send = is.send;
            send_pipe = send_there;
          };
          recv_leaked = made.recv_pipe;
          send_leaked = made.send_pipe;
          recv_unreached = (recv-ne, send-ne);
          send_unreached = (recv-ne-send, send-ne-send);
        },
      )

  -- So a clone and its original cannot both be deleted: when memory lasts, cloning a channel with
  -- two pipes, deleting the clone and then the original reads a pipe that was given back.
  pub clone-delete-delete :
      (do q ← event_channel_clone fresh recv send p; event_channel_delete q; event_channel_delete p)
        m
      ≡ fault
  clone-delete-delete =
      let (n, run, shared) = event_channel_clone-IsShared in
      let (n', run', gone) = event_channel_delete-IsDeleted n fresh shared.clone in
      rw (run, run')
        (event_channel_delete-fault n' p is.ne_null
          (gone.channels p p-ne-fresh ∙ shared.original.channel) is.recv_ne_null gone.recv_pipe)
