-- ===== src/Relay/Answering.antt =====
-- A sync request to src/relay_room.rs is answered: what its sender receives, in this order.
use easytier_wsrelay.Base.{
  ℕ, List, [], ◌∷◌, some, Bool, true, false, Text, drop, if◌then◌else◌, ◌≡◌, refl, sym, ap, ◌∙◌,
  All, All-append, text_eq,
}
use mathlib.Core.Path.{subst}
use easytier_wsrelay.Constants.{PacketType, rpc_req, rpc_resp, my_peer_id, header_size}
use easytier_wsrelay.Packet.{PacketHeader, parse_header, packet_type_enum}
use easytier_wsrelay.Proto.{RpcPacket, SyncRouteInfoRequest, SyncRouteInfoResponse}
use easytier_wsrelay.Crypto.Wrap.{wrap_packet, default_crypto}
use easytier_wsrelay.Crypto.Frames.{wrap_packet-default}
use easytier_wsrelay.PeerManager.{PeerManager, build_route_update}
use easytier_wsrelay.Rpc.{
  RpcAction, send_to, push_route_update, broadcast_route_update, handle_rpc_req, sync_actions,
  build_rpc_response_bytes,
}
use easytier_wsrelay.Rpc.Exchange.{
  IsSyncRequest, sync_response, reported, handle_rpc_req-IsSyncAnswer,
}
use easytier_wsrelay.Relay.Room.{
  WsAttachment, stored, Room, Effect, sent, Runtime, attachment_to_ctx, slot_of,
}
use easytier_wsrelay.Relay.Errors.{local_rpc_req-ok}
use easytier_wsrelay.Relay.Delivery.{IsMember, IsSentTo, broadcast-IsSentTo}
use easytier_wsrelay.Relay.Message.{
  with_manager, binary, is_local, send, perform, perform_all, local_rpc_req, dispatch, finish,
  websocket_message,
}
use easytier_wsrelay.Relay.Exchange.{
  packet_to, build_rpc_response_bytes-IsResponse, build_route_update-IsUpdate, IsExchange,
  own_update, rpc_state,
}

module _ (rt : Runtime) (ws : ℕ) (can : rt.sendable ws ≡ true) where
  wrap-sent :
      (to : ℕ) (t : PacketType) (payload : Text)
      → send rt ws (wrap_packet rt.cipher [] my_peer_id to t payload default_crypto)
        ≡ (sent ws (packet_to to t payload) ∷ [], true)
  unfolding send
  wrap-sent to t payload =
      rw (wrap_packet-default rt.cipher [] my_peer_id to t payload) (rw can refl)

  perform_all-sent :
      (att : WsAttachment) (a : RpcAction) (more : List RpcAction) (room next : Room) (e : Effect)
      → perform rt ws att a room ≡ (next, e ∷ [], true)
      → (perform_all rt ws att (a ∷ more) room).1 ≡ e ∷ (perform_all rt ws att more next).1
  unfolding perform_all
  perform_all-sent att a more room next e h =
      rw (ap (λ (x : Room × List Effect × Bool). x.2) h, perform_all)
        (rw
          (
            ap (λ (x : Room × List Effect × Bool). x.1) h,
            ap (λ (x : Room × List Effect × Bool). x.0) h,
          )
          refl)

  perform-send_to :
      (att : WsAttachment) (p : ℕ) (bytes : Text) (room : Room)
      → perform rt ws att (send_to p bytes) room
        ≡ (room, sent ws (packet_to att.peer_id rpc_resp bytes) ∷ [], true)
  unfolding perform
  perform-send_to att p bytes room = rw (wrap-sent att.peer_id rpc_resp bytes) refl

  -- The route update that is pushed to a socket of the attachment.
  abbrev pushed : WsAttachment → ℕ → Room → PeerManager × Text
  pushed att p room =
      build_route_update rt.ext rt.env (attachment_to_ctx (rt.env.session_id 1) att) p true
        (rt.env.transaction 0) room.global.peer_manager

  perform-push :
      (att : WsAttachment) (p : ℕ) (key : Text) (room : Room)
      → perform rt ws att (push_route_update p key) room ≡ (
        with_manager (pushed att p room).0 room,
        sent ws (packet_to p rpc_req (pushed att p room).1) ∷ [],
        true,
      )
  unfolding perform
  perform-push att p key room = rw (wrap-sent p rpc_req (pushed att p room).1) refl

  told-IsSentTo :
      (att : WsAttachment) (changed : Bool) (room : Room)
      → let more = if changed then broadcast_route_update att.group_key att.peer_id ∷ [] else [] in
        All
          (IsSentTo (IsMember att.group_key att.peer_id) room.sockets)
          (perform_all rt ws att more room).1
  unfolding perform_all perform
  told-IsSentTo att false room = tt
  told-IsSentTo att true room =
      All-append (IsSentTo (IsMember att.group_key att.peer_id) room.sockets) _ []
        (broadcast-IsSentTo rt att.group_key att.peer_id 2 room.sockets room.global.peer_manager) tt

  perform_all-IsExchange :
      (att : WsAttachment) (packet : RpcPacket) (changed : Bool) (resp : SyncRouteInfoResponse)
      (room : Room)
      → let actions =
          sync_actions rt.ext packet att.group_key att.peer_id changed
            (rt.ext.sync_route_info_response.encode resp) in
        IsExchange rt ws att.group_key att.peer_id packet resp
          (own_update rt att room.global.peer_manager)
          room.sockets
          (perform_all rt ws att actions room).1
  unfolding sync_actions with_manager
  perform_all-IsExchange att packet changed resp room =
      let key = att.group_key in
      let p = att.peer_id in
      let bytes =
        build_rpc_response_bytes rt.ext packet (rt.ext.sync_route_info_response.encode resp) p in
      let more : List RpcAction = if changed then broadcast_route_update key p ∷ [] else [] in
      let next = with_manager (pushed att p room).0 room in
      record {
        reply = bytes;
        update = (pushed att p room).1;
        rest = (perform_all rt ws att more next).1;
        in_order =
            perform_all-sent att (send_to p bytes) (push_route_update p key ∷ more) room room _
              (perform-send_to att p bytes room)
            ∙ ap (◌∷◌ (sent ws (packet_to p rpc_resp bytes))) (
                perform_all-sent att (push_route_update p key) more room next _
                  (perform-push att p key room));
        replies = build_rpc_response_bytes-IsResponse rt.ext packet p resp;
        updates = build_route_update-IsUpdate rt _ p _ room.global.peer_manager;
        told = told-IsSentTo att changed next;
      }

  module _ (att : WsAttachment) (payload : Text) (packet : RpcPacket) (req : SyncRouteInfoRequest)
      (q : IsSyncRequest rt.ext payload packet req) where
    local_rpc_req-IsExchange :
        (room : Room)
        → let s = rpc_state rt att room in
          IsExchange rt ws att.group_key att.peer_id packet
            (sync_response rt.env att.group_key att.peer_id req
              (reported rt.ext rt.env packet req s))
            (own_update rt att (handle_rpc_req rt.ext rt.env payload s).0.peer_manager)
            room.sockets
            (local_rpc_req rt ws payload att room).effects
    unfolding local_rpc_req attachment_to_ctx
    local_rpc_req-IsExchange room =
        let s = rpc_state rt att room in
        let (changed, e) = handle_rpc_req-IsSyncAnswer rt.ext rt.env payload packet req s q in
        let r = handle_rpc_req rt.ext rt.env payload s in
        let resp =
          sync_response rt.env att.group_key att.peer_id req
            (reported rt.ext rt.env packet req s) in
        let answered = record room {
          global = record room.global {
            peer_manager = r.0.peer_manager;
            peer_center_map = r.0.peer_center_map;
          };
        } in
        subst
          (λ actions.
            IsExchange rt ws att.group_key att.peer_id packet resp
              (own_update rt att r.0.peer_manager) room.sockets
              (perform_all rt ws att actions answered).1)
          (sym e) (perform_all-IsExchange att packet changed resp answered)

-- A sync request of a listed client to the server itself, in an RPC packet for its route service
-- that decodes, over a socket that takes what it is sent and can store its attachment: the handler
-- succeeds. The client is sent the answer to its packet first: it holds the response that the route
-- state makes to the request, once what the request reports has been taken in. It is sent a route
-- update second: it holds the full update of its group as it is after the request. After these, only
-- other members of its group are sent anything.
pub websocket_message_answers :
    (rt : Runtime) (ws : ℕ) (bytes : Text) (room : Room) (h : PacketHeader) (att : WsAttachment)
    (packet : RpcPacket) (req : SyncRouteInfoRequest)
    → rt.sendable ws ≡ true
    → rt.storable (record att { last_seen_ms = rt.env.now_ms }) ≡ true
    → parse_header bytes ≡ some h
    → packet_type_enum h ≡ rpc_req
    → is_local h ≡ true
    → slot_of ws room.sockets ≡ stored att
    → IsSyncRequest rt.ext (drop header_size bytes) packet req
    → let r = websocket_message rt ws (binary bytes) room in
      let s = rpc_state rt att room in
      let learnt = reported rt.ext rt.env packet req s in
      let after = (handle_rpc_req rt.ext rt.env (drop header_size bytes) s).0.peer_manager in
      (r.ok ≡ true)
      × IsExchange rt ws att.group_key att.peer_id packet
          (sync_response rt.env att.group_key att.peer_id req learnt)
          (own_update rt att after)
          room.sockets
          r.effects
unfolding websocket_message dispatch finish attachment_to_ctx
websocket_message_answers rt ws bytes room h att packet req can fits p t l e q =
    let att' = record att { last_seen_ms = rt.env.now_ms } in
    let payload = drop header_size bytes in
    let done = local_rpc_req-ok rt ws can payload att' room in
    rw (p, websocket_message)
      (rw e (
        rw (t, l)
          (rw (done, fits, finish)
            (refl, local_rpc_req-IsExchange rt ws can att' payload packet req q room))))
