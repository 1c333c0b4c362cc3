-- ===== src/Tests/Rooms.antt =====
-- The theorems on the RPC handlers and the room at concrete inputs.
use easytier_wsrelay.Base.{
  Text, ◌<◌, ◌+◌, [], ◌∷◌, none, true, ◌≡◌, ◌⊎◌, ◌↔◌, refl, arith, All, text_eq,
}
use easytier_wsrelay.PeerManager.{new_global_state}
use easytier_wsrelay.Rpc.{handle_rpc_req, service_name, method_index, is_peer_center, is_ospf_route}
use easytier_wsrelay.Rpc.Exchange.{sync_response, reported}
use easytier_wsrelay.Rpc.Answers.{IsAnswer, handle_rpc_req-IsAnswer}
use easytier_wsrelay.Relay.Room.{slot_of, Room, closed, stored, socket_timeout_ms, elapsed_ms}
use easytier_wsrelay.Relay.Lifecycle.{sweep, is_dead}
use easytier_wsrelay.Relay.Timeouts.{is_dead_lem, sweep_lem}
use easytier_wsrelay.Constants.{from_u8}
use easytier_wsrelay.Packet.{PacketHeader, parse_header, packet_type_enum}
use easytier_wsrelay.Relay.Exchange.{IsExchange, own_update, rpc_state}
use easytier_wsrelay.Relay.Answering.{websocket_message_answers}
use easytier_wsrelay.Relay.Message.{websocket_message, binary}
use easytier_wsrelay.Relay.Initiator.{IsQuiet, websocket_message-IsQuiet}
use easytier_wsrelay.Tests.Data.{
  runtime, externals, ambient, client, net_key, sockets, member, rpc_packet, sync_request,
}

handle_rpc_req-IsAnswer_example :
    All (IsAnswer externals [] 5 net_key) (handle_rpc_req externals ambient [] client).1
handle_rpc_req-IsAnswer_example = handle_rpc_req-IsAnswer externals ambient [] client

is_dead_lem_example :
    (is_dead 1000000 (member 5) ≡ true)
    ↔ ((0 < 900000) × ((1000000 < 900000) ⊎ (900000 + socket_timeout_ms < 1000000)))
is_dead_lem_example = is_dead_lem 1000000 (member 5) (omega arith) (omega arith)

-- A room with the socket of peer 5, and a sync request of this peer to the server.
abbrev quiet_room : Room
quiet_room = record {
  sockets = record { id = 1; slot = stored (member 5) } ∷ [];
  global = new_global_state;
  alarm = none;
}

abbrev sync_message : Text
sync_message = 5 ∷ 0 ∷ 0 ∷ 0 ∷ 0 ∷ 0 ∷ 0 ∷ 0 ∷ 8 ∷ 0 ∷ 1 ∷ 0 ∷ 1 ∷ 0 ∷ 0 ∷ 0 ∷ 7 ∷ []

abbrev sync_header : PacketHeader
sync_header = record {
  from_peer_id = 5;
  to_peer_id = 0;
  packet_type = 8;
  flags = 0;
  forward_counter = 1;
  reserved = 0;
  len = 1;
}

websocket_message-IsQuiet_example :
    IsQuiet (websocket_message runtime 1 (binary sync_message) quiet_room).room.sockets
websocket_message-IsQuiet_example =
    websocket_message-IsQuiet runtime 1 (binary sync_message) quiet_room (refl, tt)

websocket_message_answers_example :
    let r = websocket_message runtime 1 (binary sync_message) quiet_room in
    let s = rpc_state runtime (member 5) quiet_room in
    let learnt = reported externals ambient rpc_packet sync_request s in
    let after = (handle_rpc_req externals ambient (7 ∷ []) s).0.peer_manager in
    (r.ok ≡ true)
    × IsExchange runtime 1 net_key 5 rpc_packet
        (sync_response ambient net_key 5 sync_request learnt)
        (own_update runtime (member 5) after)
        quiet_room.sockets
        r.effects
unfolding parse_header packet_type_enum from_u8 slot_of service_name method_index is_peer_center
    is_ospf_route
websocket_message_answers_example =
    websocket_message_answers runtime 1 sync_message quiet_room sync_header (member 5) rpc_packet
      sync_request refl refl refl refl refl refl
      (record {
        decodes = refl;
        for_routes = refl;
        not_center = refl;
        for_sync = refl;
        requests = refl;
      })

sweep_lem_example :
    ((sweep 1000000 sockets).effects ≡ closed 3 ∷ []) × ((sweep 1000000 sockets).alive_count ≡ 2)
unfolding is_dead elapsed_ms
sweep_lem_example = sweep_lem 1000000 sockets
