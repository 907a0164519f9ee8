-- ===== src/ChannelMap/Tests.antt =====
-- A map of two channels, and the calls of src/event_channel_map.c on it.
use eloop.Base.{◌≡◌, refl, none, some, ◌==◌, [], ◌∷◌, if◌then◌else◌, ℤ, pos, arith}
use eloop.Memory.{node, handle, ok}
use eloop.LinkedList.Links.{Cells}
use eloop.World.{Channel, Memory}
use eloop.EventChannel.{zeroed}
use eloop.ChannelMap.{event_channel_map_find, event_channel_map_remove}
use eloop.ChannelMap.Find.{IsMap, channel_of, event_channel_map_find-run}
use eloop.ChannelMap.Remove.{event_channel_map_remove-present, event_channel_map_remove-absent}

abbrev channel : ℤ → Channel
channel fd = record zeroed { fd = fd }

-- The map at 2 has its list at 1: the nodes 11 and 12 hold the channels 21 and 22, with the
-- descriptors 5 and 7. The channel 23 is in no map.
abbrev sockets : Memory
sockets = record {
  node_at =
      λ a. if a == 11 then some (node 0 12 21) else if a == 12 then some (node 11 0 22) else none;
  list_at = λ a. if a == 1 then some (handle 11 12 2) else none;
  user = record {
    pipe_at = λ a. none;
    channel_at = λ a.
        if a == 21
        then some (channel (pos 5))
        else if a == 22
        then some (channel (pos 7))
        else if a == 23
        then some (channel (pos 9))
        else none;
    map_at = λ a. if a == 2 then some 1 else none;
    timer_at = λ a. none;
    job_at = λ a. none;
    loop_at = λ a. none;
    select_at = λ a. none;
    kqueue_at = λ a. none;
    connect_at = λ a. none;
    server_at = λ a. none;
    pool_at = λ a. none;
    closed = [];
    changes = [];
    sent = [];
  };
}

abbrev cells : Cells
cells = (11, 21) ∷ (12, 22) ∷ []

sockets-IsMap : IsMap sockets 2 1 cells
sockets-IsMap = record {
  ne_null = ground arith;
  at_map = refl;
  list = record {
    ne_null = ground arith;
    unmapped = refl;
    header = refl;
    links = (ground arith, refl, refl, (ground arith, refl, refl, tt));
  };
  channels = (ground arith, (channel (pos 5), refl), (ground arith, (channel (pos 7), refl), tt));
}

event_channel_map_find-run_example :
    event_channel_map_find 3 2 (pos 7) sockets ≡ ok (channel_of sockets.user (pos 7) cells) sockets
event_channel_map_find-run_example =
    event_channel_map_find-run sockets sockets-IsMap 3 (pos 7) (omega arith)

event_channel_map_remove-present_example :
    (m' : Memory) × (event_channel_map_remove 3 2 (pos 5) sockets ≡ ok 1 m')
    × IsMap m' 2 1 ((12, 22) ∷ [])
    × (m'.user ≡ sockets.user)
event_channel_map_remove-present_example =
    event_channel_map_remove-present sockets 3 (pos 5) [] 11 21 ((12, 22) ∷ []) sockets-IsMap
      (omega arith) tt refl

event_channel_map_remove-absent_example :
    (m' : Memory) × (event_channel_map_remove 3 2 (pos 6) sockets ≡ ok 1 m')
    × IsMap m' 2 1 ((11, 21) ∷ [])
    × (m'.user ≡ sockets.user)
event_channel_map_remove-absent_example =
    event_channel_map_remove-absent sockets 3 (pos 6) ((11, 21) ∷ []) 12 22 sockets-IsMap
      (omega arith) (refl, (refl, tt))
