-- ===== src/Tests/Isolates.antt =====
-- The theorems on isolation, on the packets of a room and on the end of its alarms at concrete
-- inputs.
use easytier_wsrelay.Base.{[], ◌∷◌, none, some, false, codes, ◌≡◌, refl, arith, All, text_eq}
use easytier_wsrelay.Base.HashMap
use easytier_wsrelay.Base.BTreeSet.{contains, insert}
use easytier_wsrelay.Constants.{from_u8}
use easytier_wsrelay.Packet.{parse_header, packet_type_enum}
use easytier_wsrelay.Route.Group.{put_group, ensure_group}
use easytier_wsrelay.Route.Peers
use easytier_wsrelay.Route.Invariant.{IsWellFormed}
use easytier_wsrelay.PeerManager
use easytier_wsrelay.PeerManager.{new_global_state}
use easytier_wsrelay.Relay.Room.{Room, stored, store, slot_of}
use easytier_wsrelay.Relay.Broadcast.{forward_message, find_peer, is_foreign}
use easytier_wsrelay.Relay.Message.{websocket_message, binary, dispatch, forward, finish}
use easytier_wsrelay.Relay.Lifecycle.{
  new, restore_peers, websocket_close, has_other_connection, alarm,
}
use easytier_wsrelay.Relay.Members.{members}
use easytier_wsrelay.Relay.Reach.{lists, creates}
use easytier_wsrelay.Relay.Broadcast.{broadcast}
use easytier_wsrelay.Relay.Audience.{targets, targets-broadcast}
use easytier_wsrelay.Relay.Confined.{Reaches}
use easytier_wsrelay.Relay.Isolation.{websocket_message_isolated}
use easytier_wsrelay.Relay.Packets.{IsFramed}
use easytier_wsrelay.Relay.Framing.{room-IsFramed}
use easytier_wsrelay.Relay.Abandoned.{after_rings, alarms_end}
use easytier_wsrelay.Entry.Isolate.{
  Isolate, room_in, put_back, new_isolate, begins, runs, Reached-IsWellFormed, close_everywhere,
  members-isolate_history,
}
use easytier_wsrelay.Tests.Data.{
  runtime, ambient, one_group, net_key, sockets, member, meeting, data_message,
}

-- A room that wakes up with the socket of peer 5, in an isolate that has just begun.
abbrev waking : Room
waking = record {
  sockets = record { id = 1; slot = stored (member 5) } ∷ [];
  global = new_global_state;
  alarm = none;
}

abbrev woken : Isolate
woken = put_back (codes "blue") (new ambient waking) (put_back (codes "blue") waking new_isolate)

Reached-IsWellFormed_example :
    IsWellFormed (elim (HashMap.get net_key (new ambient waking).global.peer_manager.groups) [
      | none ↦ ensure_group ambient one_group net_key
      | some g ↦ g
    ])
unfolding HashMap.get new restore_peers contains Peers.get_peer_ids_in_group new_global_state
    PeerManager.add_peer Peers.bump_my_info_version put_group HashMap.insert Peers.add_peer
Reached-IsWellFormed_example =
    Reached-IsWellFormed woken
      (runs (put_back (codes "blue") waking new_isolate) (codes "blue") (new ambient waking)
        (runs new_isolate (codes "blue") waking begins (lists waking.sockets none))
        (creates runtime))
      net_key _ refl

-- Two rooms of an isolate, each with a socket of peer 5.
abbrev twins : Isolate
twins = record {
  global = meeting.global;
  places = λ id. record { sockets = waking.sockets; alarm = none };
}

close_everywhere_example :
    let r = websocket_close runtime (stored (member 5)) (room_in twins (codes "blue")) in
    (contains 5 (members (room_in (put_back (codes "blue") r.room twins) (codes "red")) net_key)
      ≡ false)
    × (targets r.effects ≡ [])
unfolding has_other_connection
close_everywhere_example =
    close_everywhere twins (codes "blue") (codes "red") runtime (stored (member 5)) (member 5) refl
      refl

members-isolate_history_example : members (room_in woken (codes "red")) net_key ≡ 5 ∷ []
unfolding insert contains
members-isolate_history_example =
    members-isolate_history woken
      (runs (put_back (codes "blue") waking new_isolate) (codes "blue") (new ambient waking)
        (runs new_isolate (codes "blue") waking begins (lists waking.sockets none))
        (creates runtime))
      (codes "red") net_key

targets-broadcast_example : targets (broadcast runtime net_key 5 1 sockets one_group).1 ≡ 3 ∷ []
targets-broadcast_example = targets-broadcast runtime net_key 5 1 sockets one_group

websocket_message_isolated_example :
    let r = websocket_message runtime 1 (binary data_message) meeting in
    (HashMap.get (codes "other") r.room.global.peer_manager.groups
      ≡ HashMap.get (codes "other") meeting.global.peer_manager.groups)
    × (HashMap.get (codes "other") r.room.global.peer_center_map
        ≡ HashMap.get (codes "other") meeting.global.peer_center_map)
    × (slot_of 3 r.room.sockets ≡ slot_of 3 sockets)
    × All (Reaches 1 net_key sockets) r.effects
unfolding websocket_message parse_header packet_type_enum from_u8 slot_of store dispatch forward
    forward_message find_peer is_foreign finish
websocket_message_isolated_example =
    websocket_message_isolated runtime 1 (binary data_message) meeting (codes "other") 3 refl refl
      (omega arith)

room-IsFramed_example :
    All
      (IsFramed (some data_message))
      (websocket_message runtime 1 (binary data_message) meeting).effects
    × All (IsFramed none) (websocket_close runtime (stored (member 5)) meeting).effects
    × All (IsFramed none) (alarm runtime meeting).effects
room-IsFramed_example = room-IsFramed runtime 1 (binary data_message) (stored (member 5)) meeting

alarms_end_example :
    (after_rings
      (λ k. runtime)
      (λ k. 5)
      (λ k r. r)
      0
      5
      (record waking { alarm = some 930000 })).alarm
    ≡ none
alarms_end_example =
    alarms_end (λ k. runtime) (λ k. 5) (λ k r. r) 900000 (λ k r h. h) (λ k r. refl) 0 4 930000
      (record waking { alarm = some 930000 }) (omega arith) refl ((omega arith, omega arith), tt)
