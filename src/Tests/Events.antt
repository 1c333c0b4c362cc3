-- ===== src/Tests/Events.antt =====
-- The theorems on the events of a room, and on the worker's entry point, at concrete inputs.
use easytier_wsrelay.Base.{
  Bool, ◌&&◌, Text, [], ◌∷◌, none, some, true, codes, ◌≡◌, refl, arith, List, text_eq,
}
use mathlib.Core.List.{Memᴰ}
use easytier_wsrelay.Base.HashMap
use easytier_wsrelay.Base.BTreeSet.{contains}
use easytier_wsrelay.Constants.{from_u8}
use easytier_wsrelay.Packet.{PacketHeader, parse_header, packet_type_enum}
use easytier_wsrelay.Http.{Request}
use easytier_wsrelay.PeerManager.{new_global_state}
use easytier_wsrelay.Handlers.{
  HandshakeOutcome, handle_handshake, response_packet, check_digest, group_key_of,
}
use easytier_wsrelay.Relay.Room.{Room, Effect, sent, closed, stored, store, slot_of}
use easytier_wsrelay.Relay.Lifecycle.{new, fetch}
use easytier_wsrelay.Relay.Message.{websocket_message, binary, with_manager}
use easytier_wsrelay.Relay.Reach.{empty_room}
use easytier_wsrelay.Relay.Presence.{IsPresent}
use easytier_wsrelay.Relay.Connected.{start, next, fetches, receives, Leads-IsPresent}
use easytier_wsrelay.Relay.Audience.{targets, audience}
use easytier_wsrelay.Relay.Members.{members}
use easytier_wsrelay.Relay.Broadcast.{forward_message, find_peer, is_foreign}
use easytier_wsrelay.Relay.Forwarding.{IsPassedOn, websocket_message_forwards}
use easytier_wsrelay.Relay.Joining.{websocket_message_joins}
use easytier_wsrelay.Relay.Alarms.{rings_of, silent_socket_is_closed}
use easytier_wsrelay.Relay.Errors.{websocket_message-ok}
use easytier_wsrelay.Entry.{Env, serve}
use easytier_wsrelay.Entry.Serving.{Served, serve_outcome}
use easytier_wsrelay.Tests.Data.{
  runtime, externals, ambient, net_key, sockets, member, meeting, data_message,
}

-- A room that wakes up with the socket of peer 5.
abbrev asleep : Room
asleep = record {
  sockets = record { id = 1; slot = stored (member 5) } ∷ [];
  global = new_global_state;
  alarm = some 930000;
}

abbrev data_header : PacketHeader
data_header = record {
  from_peer_id = 5;
  to_peer_id = 6;
  packet_type = 1;
  flags = 0;
  forward_counter = 1;
  reserved = 0;
  len = 1;
}

-- Another group has a peer of the same id, whose socket stands in front.
abbrev crowded : Room
crowded = record meeting {
  sockets =
      record { id = 4; slot = stored (record (member 6) { group_key = codes "other:b" }) }
      ∷ sockets;
}

websocket_message_forwards_example :
    (passed : Bool) × IsPassedOn runtime (member 5) 6 data_message crowded.sockets [] passed
    × (◌≡◌ {A = Bool} true (passed && true))
    × ((websocket_message runtime 1 (binary data_message) crowded).room ≡ record crowded {
      sockets = store 1 (record (member 5) { last_seen_ms = 1000000 }) crowded.sockets;
    })
unfolding websocket_message parse_header packet_type_enum from_u8 slot_of forward_message store
    find_peer is_foreign
websocket_message_forwards_example =
    websocket_message_forwards runtime 1 data_message crowded data_header (member 5) refl refl refl

-- A handshake of peer 5, whose socket has no peer yet.
abbrev handshake_message : Text
handshake_message = 5 ∷ 0 ∷ 0 ∷ 0 ∷ 0 ∷ 0 ∷ 0 ∷ 0 ∷ 2 ∷ 0 ∷ 1 ∷ 0 ∷ 1 ∷ 0 ∷ 0 ∷ 0 ∷ 7 ∷ []

abbrev welcomed : HandshakeOutcome
welcomed = record {
  peer_id = 5;
  group_key = net_key;
  domain_name = codes "net";
  response_bytes = response_packet externals 5;
}

abbrev arrival : Room
arrival = record {
  sockets = record { id = 1; slot = stored (record (member 0) { group_key = [] }) } ∷ [];
  global = new_global_state;
  alarm = none;
}

websocket_message_joins_example :
    let r = websocket_message runtime 1 (binary handshake_message) arrival in
    (contains 5 (members r.room net_key) ≡ true)
    × (slot_of 1 r.room.sockets
        ≡ stored (record (member 5) { server_session_id = 49 ∷ []; last_seen_ms = 1000000 }))
    × (rest : List Effect) × (r.effects ≡ sent 1 (response_packet externals 5) ∷ rest)
    × (targets rest ≡ audience runtime net_key 0 r.room.sockets)
unfolding parse_header packet_type_enum from_u8 slot_of handle_handshake check_digest group_key_of
    new_global_state HashMap.get HashMap.insert
websocket_message_joins_example =
    websocket_message_joins runtime 1 handshake_message arrival
      (record data_header { to_peer_id = 0; packet_type = 2 })
      (record (member 0) { group_key = [] }) welcomed refl refl refl refl refl refl refl

abbrev upgrade_request : Request
upgrade_request = record {
  url = some (record { path = codes "/ws/"; query_pairs = (codes "room", codes "blue") ∷ [] });
  upgrade = some (some (codes "websocket"));
}

-- Peer 5 connects and shakes hands.
abbrev connected : Room
connected = (fetch runtime (some 1) upgrade_request empty_room).0

Leads-IsPresent_example :
    IsPresent (websocket_message runtime 1 (binary handshake_message) connected).room
Leads-IsPresent_example =
    Leads-IsPresent (websocket_message runtime 1 (binary handshake_message) connected).room (
      next connected (websocket_message runtime 1 (binary handshake_message) connected).room
        (next empty_room connected start (fetches runtime (some 1) upgrade_request))
        (receives runtime 1 (binary handshake_message)))

silent_socket_is_closed_example :
    Memᴰ (closed 1) (rings_of (λ k. runtime) (λ k. 5) (λ k. new ambient) 0 5 asleep)
unfolding new with_manager
silent_socket_is_closed_example =
    silent_socket_is_closed (λ k. runtime) (λ k. 5) (λ k. new ambient)
      (record { id = 1; slot = stored (member 5) }) (member 5) refl (omega arith) (λ k. refl)
      (λ k r m. m) (λ k r. refl) 0 4 930000 asleep (omega arith) (omega arith) refl (Memᴰ.head refl)

websocket_message-ok_example :
    (websocket_message runtime 1 (binary handshake_message) meeting).ok ≡ true
unfolding slot_of parse_header
websocket_message-ok_example =
    websocket_message-ok runtime 1 (binary handshake_message) meeting (member 5) refl
      (refl, (refl, (refl, tt))) refl refl

abbrev worker_env : Env
worker_env = record { ws_path_var = none; has_room = λ id. true }

abbrev rooms : Text → Room
rooms id = empty_room

serve_outcome_example :
    Served worker_env runtime
      (some 7)
      upgrade_request
      rooms
      (serve worker_env runtime (some 7) upgrade_request rooms)
serve_outcome_example = serve_outcome worker_env runtime (some 7) upgrade_request rooms
