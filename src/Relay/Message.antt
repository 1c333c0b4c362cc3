-- ===== src/Relay/Message.antt =====
-- src/relay_room.rs: `websocket_message`.
use easytier_wsrelay.Base.{
  ℕ, ◌/◌, List, [], ◌∷◌, ◌++◌, Option, none, some, Bool, true, false, ◌||◌, ◌&&◌, Text, drop, ◌==◌,
  if◌then◌else◌,
}
use easytier_wsrelay.Constants.{
  PacketType, hand_shake, ping, rpc_req, rpc_resp, my_peer_id, header_size,
}
use easytier_wsrelay.Packet.{PacketHeader, parse_header, packet_type_enum}
use easytier_wsrelay.Codec.{encode_route_peer_info}
use easytier_wsrelay.Proto.{RoutePeerInfo, default_peer_info}
use easytier_wsrelay.Proto.Ambient.{Ambient}
use easytier_wsrelay.Route.Peers
use easytier_wsrelay.PeerManager.{GlobalState, PeerManager, WsPeerContext}
use easytier_wsrelay.PeerManager
use easytier_wsrelay.Handlers.{HandshakeOutcome, handle_handshake, handle_ping}
use easytier_wsrelay.Rpc.{
  RpcAction, send_to, push_route_update, broadcast_route_update, no_action, handle_rpc_req,
  handle_rpc_resp,
}
use easytier_wsrelay.Crypto.Wrap.{wrap_packet, default_crypto}
use easytier_wsrelay.Relay.Room.{
  WsAttachment, default_attachment, Slot, broken, vacant, stored, attachment, Room, Effect, sent,
  closed, Runtime, Outcome, attachment_to_ctx, store, slot_of,
}
use easytier_wsrelay.Relay.Broadcast.{broadcast, forward_message}

pub data Incoming : Type 0 where
  binary : Text → Incoming
  string : Text → Incoming

-- The info of a peer that has just shaken hands: version 1, so that its own report replaces it.
unfoldable pub joined_info : Ambient → ℕ → RoutePeerInfo
joined_info env peer_id = record default_peer_info {
  peer_id = peer_id;
  version = 1;
  last_update = some (record { seconds = env.now_ms / 1000; nanos = 0 });
  inst_id = some (record { part1 = 0; part2 = 0; part3 = 0; part4 = 0 });
  network_length = 24;
}

-- The second `with_global_state` of the handshake.
unfoldable pub join : Runtime → HandshakeOutcome → PeerManager → PeerManager
unfolding joined_info
join rt o pm =
    let pm₁ = PeerManager.add_peer rt.env o.group_key o.peer_id pm in
    let pm₂ =
      PeerManager.update_peer_info rt.ext rt.env o.group_key o.peer_id
        (encode_route_peer_info rt.ext (joined_info rt.env o.peer_id)) pm₁ in
    Peers.bump_my_info_version rt.env o.group_key pm₂.0

unfoldable pub with_manager : PeerManager → Room → Room
with_manager pm room = record room { global = record room.global { peer_manager = pm } }

-- What each arm leaves: the room, its effects, the attachment to store at the end, and whether
-- the handler goes on to store it.
pub record Handled : Type 0 where
  pub room : Room
  pub effects : List Effect
  pub att : WsAttachment
  pub ok : Bool

-- The route updates after a handshake: the new peer's own, which is built and dropped, and the
-- broadcast to the group.
unfoldable pub announce : Runtime → WsAttachment → Room → Room × List Effect
unfolding with_manager
announce rt att room =
    let own =
      PeerManager.build_route_update rt.ext rt.env (attachment_to_ctx (rt.env.session_id 0) att)
        att.peer_id true (rt.env.transaction 0) room.global.peer_manager in
    let all = broadcast rt att.group_key 0 1 room.sockets own.0 in (with_manager all.0 room, all.1)

unfoldable pub joined_attachment : HandshakeOutcome → WsAttachment → WsAttachment
joined_attachment o att = record att {
  peer_id = o.peer_id;
  group_key = o.group_key;
  domain_name = o.domain_name;
  we_are_initiator = false;
}

-- The arm of a successful handshake. Nothing has happened yet where the attachment cannot be stored.
unfoldable pub welcome : Runtime → ℕ → HandshakeOutcome → WsAttachment → Room → Handled
unfolding announce joined_attachment join with_manager
welcome rt ws o att room =
    let att' = joined_attachment o att in
    let stored_room = record room { sockets = store ws att' room.sockets } in
    let room' = with_manager (join rt o room.global.peer_manager) stored_room in
    let a = announce rt att' room' in
    if rt.storable att'
    then if rt.sendable ws
      then record { room = a.0; effects = sent ws o.response_bytes ∷ a.1; att = att'; ok = true }
      else record { room = room'; effects = []; att = att'; ok = false }
    else record { room = room; effects = []; att = att; ok = false }

unfoldable pub on_handshake : Runtime → ℕ → Text → WsAttachment → Room → Handled
unfolding welcome
on_handshake rt ws payload att room =
    let r = handle_handshake rt.ext payload room.global.network_digest_registry in
    let room' = record room { global = record room.global { network_digest_registry = r.0 } } in
    elim r.1 [
      | none ↦ record { room = room'; effects = closed ws ∷ []; att = att; ok = true }
      | some o ↦ welcome rt ws o att room'
    ]

-- A send that is given up at its first failure (`ws.send_with_bytes(..)?`).
unfoldable pub send : Runtime → ℕ → Option Text → List Effect × Bool
send rt ws none = ([], true)
send rt ws (some bytes) = if rt.sendable ws then (sent ws bytes ∷ [], true) else ([], false)

-- One action of `handle_rpc_req`. The draws 0 and, for a push, 1 are those of its contexts; the
-- broadcast begins with the next one.
unfoldable pub perform : Runtime → ℕ → WsAttachment → RpcAction → Room → Room × List Effect × Bool
unfolding send with_manager
perform rt ws att (send_to peer_id bytes) room =
    let s =
      send rt ws (wrap_packet rt.cipher [] my_peer_id att.peer_id rpc_resp bytes default_crypto) in
    (room, s.0, s.1)
perform rt ws att (push_route_update peer_id group_key) room =
    let r =
      PeerManager.build_route_update rt.ext rt.env (attachment_to_ctx (rt.env.session_id 1) att)
        peer_id true (rt.env.transaction 0) room.global.peer_manager in
    let s = send rt ws (wrap_packet rt.cipher [] my_peer_id peer_id rpc_req r.1 default_crypto) in
    (with_manager r.0 room, s.0, s.1)
perform rt ws att (broadcast_route_update group_key exclude) room =
    let r = broadcast rt group_key exclude 2 room.sockets room.global.peer_manager in
    (with_manager r.0 room, r.1, true)
perform rt ws att no_action room = (room, [], true)

unfoldable pub perform_all :
    Runtime → ℕ → WsAttachment → List RpcAction → Room → Room × List Effect × Bool
unfolding perform
perform_all rt ws att [] room = (room, [], true)
perform_all rt ws att (a ∷ as') room =
    let first = perform rt ws att a room in
    let rest = perform_all rt ws att as' first.0 in
    elim first.2 [ false ↦ first | true ↦ (rest.0, first.1 ++ rest.1, rest.2) ]

-- The packet is for the server itself.
abbrev pub is_local : PacketHeader → Bool
is_local h = h.to_peer_id == 0 || h.to_peer_id == my_peer_id

unfoldable pub forward : Runtime → ℕ → PacketHeader → Text → WsAttachment → Room → Handled
forward rt ws h bytes att room =
    let r =
      forward_message rt (attachment (slot_of ws room.sockets)) h.to_peer_id bytes room.sockets in
    record { room = room; effects = r.0; att = att; ok = r.1 }

-- The context is a copy: what the handler writes to it is dropped.
unfoldable pub local_rpc_req : Runtime → ℕ → Text → WsAttachment → Room → Handled
unfolding perform_all
local_rpc_req rt ws payload att room =
    let r = handle_rpc_req rt.ext rt.env payload (record {
      ctx = attachment_to_ctx (rt.env.session_id 0) att;
      peer_manager = room.global.peer_manager;
      peer_center_map = room.global.peer_center_map;
    }) in
    let room' = record room {
      global = record room.global {
        peer_manager = r.0.peer_manager;
        peer_center_map = r.0.peer_center_map;
      };
    } in
    let p = perform_all rt ws att r.1 room' in
    record { room = p.0; effects = p.1; att = att; ok = p.2 }

unfoldable pub local_rpc_resp : Runtime → PacketHeader → Text → WsAttachment → Room → Handled
unfolding with_manager
local_rpc_resp rt h payload att room = record {
  room =
      with_manager
        (handle_rpc_resp rt.ext rt.env (attachment_to_ctx (rt.env.session_id 0) att) h.from_peer_id
          payload room.global.peer_manager)
        room;
  effects = [];
  att = att;
  ok = true;
}

unfoldable pub on_ping : Runtime → ℕ → PacketHeader → Text → WsAttachment → Room → Handled
unfolding send
on_ping rt ws h payload att room =
    let s = send rt ws (some (handle_ping h.from_peer_id payload)) in
    record { room = room; effects = s.0; att = att; ok = s.1 }

-- The `match packet_type`.
unfoldable pub dispatch :
    Runtime → ℕ → PacketType → PacketHeader → Text → WsAttachment → Room → Handled
unfolding on_handshake on_ping local_rpc_req local_rpc_resp forward
dispatch rt ws hand_shake h bytes att room = on_handshake rt ws (drop header_size bytes) att room
dispatch rt ws ping h bytes att room = on_ping rt ws h (drop header_size bytes) att room
dispatch rt ws rpc_req h bytes att room =
    if is_local h
    then local_rpc_req rt ws (drop header_size bytes) att room
    else forward rt ws h bytes att room
dispatch rt ws rpc_resp h bytes att room =
    if is_local h
    then local_rpc_resp rt h (drop header_size bytes) att room
    else forward rt ws h bytes att room
dispatch rt ws t h bytes att room = forward rt ws h bytes att room

-- The attachment is stored once more where no send has failed; where that fails, the rest has
-- happened.
unfoldable pub finish : Runtime → ℕ → Handled → Outcome
finish rt ws r =
    if r.ok && rt.storable r.att
    then record {
      room = record r.room { sockets = store ws r.att r.room.sockets };
      effects = r.effects;
      ok = true;
    }
    else record { room = r.room; effects = r.effects; ok = false }

-- The attachment that the handler starts from, `none` where reading it is an `Err`.
abbrev pub current : Slot → Option WsAttachment
current broken = none
current vacant = some default_attachment
current (stored att) = some att

unfoldable pub websocket_message : Runtime → ℕ → Incoming → Room → Outcome
unfolding finish dispatch
websocket_message rt ws (string text) room = record { room = room; effects = []; ok = true }
websocket_message rt ws (binary bytes) room = elim (parse_header bytes) [
  | none ↦ record { room = room; effects = []; ok = true }
  | some h ↦ elim (current (slot_of ws room.sockets)) [
    | none ↦ record { room = room; effects = []; ok = false }
    | some att ↦ finish rt ws (
        dispatch rt ws (packet_type_enum h) h bytes (record att { last_seen_ms = rt.env.now_ms })
          room)
  ]
]
