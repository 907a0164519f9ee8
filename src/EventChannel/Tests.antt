-- ===== src/EventChannel/Tests.antt =====
-- A channel with two pipes, and the calls of src/event_channel.c on it.
use eloop.Base.{
  [], ◌≡◌, ◌≢◌, refl, inr, none, some, ◌==◌, ◌&&◌, ◌||◌, not, if◌then◌else◌, pos, arith,
}
use eloop.Memory.{null, ok, fault, Ensures, ◌>>=◌, ◌>>◌}
use eloop.BufferPipe.{buffer_pipe_create}
use eloop.World.{Channel, Memory}
use eloop.EventChannel.{
  zeroed, add_mask, remove_mask, is_exist_mask, fd_mask_read, event_channel_create,
  event_channel_delete, event_channel_clone,
}
use eloop.EventChannel.Masks.{flag, covers, mask_flags}
use eloop.EventChannel.Lifecycle.{IsUnused, IsSame, event_channel_create-null}
use eloop.EventChannel.Clone.{
  IsChannel, IsDeleted, event_channel_delete-IsDeleted, clone-delete-delete,
}

abbrev reading : Channel
reading = record zeroed { fd = pos 5; mask = fd_mask_read; pipe_recv = 31; pipe_send = 32 }

-- The channel at 21 has its pipes at 31 and 32, and there is nothing else.
abbrev one : Memory
one = record {
  node_at = λ a. none;
  list_at = λ a. none;
  user = record {
    pipe_at = λ a. if (a == 31) || (a == 32) then some buffer_pipe_create else none;
    channel_at = λ a. if a == 21 then some reading else none;
    map_at = λ a. none;
    timer_at = λ a. none;
    job_at = λ a. none;
    loop_at = λ a. none;
    select_at = λ a. none;
    kqueue_at = λ a. none;
    connect_at = λ a. none;
    server_at = λ a. none;
    pool_at = λ a. none;
    closed = [];
    changes = [];
    sent = [];
  };
}

one-IsChannel : IsChannel one.user 21 reading
one-IsChannel = record {
  ne_null = ground arith;
  channel = refl;
  recv_ne_null = ground arith;
  send_ne_null = ground arith;
  apart = ground arith;
  recv = buffer_pipe_create;
  recv_pipe = refl;
  send = buffer_pipe_create;
  send_pipe = refl;
}

one-IsUnused : IsUnused one.user 22 33 34
one-IsUnused = record { channel = refl; pipe_recv = refl; pipe_send = refl; apart = ground arith }

channel_ne : 22 ≢ null
channel_ne = ground arith

recv_ne : 33 ≢ null
recv_ne = ground arith

send_ne : 34 ≢ null
send_ne = ground arith

no-send : IsUnused one.user 22 33 null
no-send = record { channel = refl; pipe_recv = refl; pipe_send = refl; apart = ground arith }

mask_flags_example :
    (flag 1 ((add_mask reading 6).mask) ≡ (flag 1 reading.mask || flag 1 6))
    × (flag 1 ((remove_mask reading 6).mask) ≡ (flag 1 reading.mask && not (flag 1 6)))
    × (is_exist_mask reading 6 ≡ covers reading.mask 6)
mask_flags_example = mask_flags reading 6 1 (omega arith) (omega arith) (omega arith)

event_channel_create-null_example :
    Ensures (λ p m'. (p ≡ null) × IsSame one.user m'.user) (event_channel_create 22 33 null one)
event_channel_create-null_example =
    event_channel_create-null one 22 33 null no-send (inr (inr refl))

event_channel_delete-IsDeleted_example :
    (m' : Memory) × (event_channel_delete 21 one ≡ ok null m')
    × IsDeleted one.user m'.user 21 reading
event_channel_delete-IsDeleted_example = event_channel_delete-IsDeleted one 21 one-IsChannel

clone-delete-delete_example :
    (do q ← event_channel_clone 22 33 34 21; event_channel_delete q; event_channel_delete 21) one
    ≡ fault
clone-delete-delete_example =
    clone-delete-delete one one-IsChannel one-IsUnused channel_ne recv_ne send_ne
