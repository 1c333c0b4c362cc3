-- ===== src/Relay/Quiet.antt =====
-- What the handlers of src/relay_room.rs do to the routes, for any property that is kept by the
-- calls behind them.
use easytier_wsrelay.Base.{
  ℕ, List, [], ◌∷◌, Bool, true, Text, drop, ◌==◌, Bool-cases, ◌≡◌, ◌+◌, inl, inr, text_eq,
}
use easytier_wsrelay.Constants.{header_size, PacketType, hand_shake}
use easytier_wsrelay.Packet.{PacketHeader}
use easytier_wsrelay.Route.Invariant.Reach.{Update, cleans}
use easytier_wsrelay.Route.Steps.{Steps, done, after}
use easytier_wsrelay.PeerManager.{PeerManager, WsPeerContext, build_route_update}
use easytier_wsrelay.Rpc.{
  RpcAction, send_to, push_route_update, broadcast_route_update, no_action, RpcState,
  handle_rpc_req, handle_rpc_resp,
}
use easytier_wsrelay.Rpc.Isolation.{handle_rpc_req-Steps, handle_rpc_resp-Steps}
use easytier_wsrelay.Relay.Room.{
  WsAttachment, Socket, Room, Runtime, attachment_to_ctx, stale_p2p_threshold_ms,
}
use easytier_wsrelay.Relay.Broadcast.{broadcast}
use easytier_wsrelay.Relay.Delivery.{broadcast-Steps, build_route_update-Steps}
use easytier_wsrelay.Relay.Dispatch.{dispatch_by}
use easytier_wsrelay.Relay.Message.{
  with_manager, announce, on_handshake, perform, perform_all, local_rpc_req, local_rpc_resp,
  on_ping, forward, dispatch,
}
use easytier_wsrelay.Relay.Lifecycle.{sweep, clean_groups, refresh_groups, alarm, count}

-- What one call on the routes keeps, the handlers keep, but for those by which a peer joins or
-- leaves. `P` is what is kept.
module _ (rt : Runtime) (P : PeerManager → Type 0)
    (keeps : (key : Text) (s t : PeerManager) → P s → Update rt.ext rt.env key s t → P t) where
  steps_keep : (key : Text) (s t : PeerManager) → P s → Steps rt.ext rt.env key s t → P t
  steps_keep key s t w done = w
  steps_keep key s t w (after u v p st) = keeps key u t (steps_keep key s u w p) st

  pub broadcast_keeps :
      (group_key : Text) (exclude n : ℕ) (sockets : List Socket) (pm : PeerManager)
      → P pm
      → P (broadcast rt group_key exclude n sockets pm).0
  broadcast_keeps group_key exclude n sockets pm w =
      steps_keep group_key pm _ w (broadcast-Steps rt group_key exclude n sockets pm)

  build_keeps :
      (ctx : WsPeerContext) (target : ℕ) (force : Bool) (draw : Text) (pm : PeerManager)
      → P pm
      → P (build_route_update rt.ext rt.env ctx target force draw pm).0
  build_keeps ctx target force draw pm w =
      steps_keep ctx.group_key pm _ w
        (build_route_update-Steps rt.ext rt.env ctx target force draw pm)

  perform_keeps :
      (ws : ℕ) (att : WsAttachment) (a : RpcAction) (room : Room)
      → P room.global.peer_manager
      → P (perform rt ws att a room).0.global.peer_manager
  unfolding perform with_manager
  perform_keeps ws att (send_to p bytes) room w = w
  perform_keeps ws att (push_route_update p k) room w = build_keeps _ p true _ _ w
  perform_keeps ws att (broadcast_route_update k p) room w =
      broadcast_keeps k p 2 room.sockets room.global.peer_manager w
  perform_keeps ws att no_action room w = w

  perform_all_keeps :
      (ws : ℕ) (att : WsAttachment) (actions : List RpcAction) (room : Room)
      → P room.global.peer_manager
      → P (perform_all rt ws att actions room).0.global.peer_manager
  unfolding perform_all
  perform_all_keeps ws att [] room w = w
  perform_all_keeps ws att (a ∷ more) room w =
      let v = perform_keeps ws att a room w in
      elim (Bool-cases (perform rt ws att a room).2) [
        | inl t ↦ rw (t, perform_all) (perform_all_keeps ws att more (perform rt ws att a room).0 v)
        | inr f ↦ rw (f, perform_all) v
      ]

  rpc_resp_keeps :
      (ctx : WsPeerContext) (from : ℕ) (payload : Text) (pm : PeerManager)
      → P pm
      → P (handle_rpc_resp rt.ext rt.env ctx from payload pm)
  rpc_resp_keeps ctx from payload pm w =
      steps_keep ctx.group_key pm _ w (handle_rpc_resp-Steps rt.ext rt.env ctx from payload pm)

  pub announce_keeps :
      (att : WsAttachment) (room : Room)
      → P room.global.peer_manager
      → P (announce rt att room).0.global.peer_manager
  unfolding announce with_manager
  announce_keeps att room w = broadcast_keeps att.group_key 0 1 room.sockets _ (
      build_keeps (attachment_to_ctx (rt.env.session_id 0) att) att.peer_id true
        (rt.env.transaction 0) room.global.peer_manager w)

  pub clean_keeps : (keys : List Text) (pm : PeerManager) → P pm → P (clean_groups rt.env keys pm)
  unfolding clean_groups
  clean_keeps [] pm w = w
  clean_keeps (k ∷ ks) pm w = clean_keeps ks _ (keeps k _ _ w (cleans stale_p2p_threshold_ms))

  refresh_keeps :
      (stride n : ℕ) (keys : List Text) (sockets : List Socket) (pm : PeerManager)
      → P pm
      → P (refresh_groups rt stride n keys sockets pm).0
  unfolding refresh_groups
  refresh_keeps stride n [] sockets pm w = w
  refresh_keeps stride n (k ∷ ks) sockets pm w =
      refresh_keeps stride (n + stride) ks sockets _ (broadcast_keeps k 0 n sockets pm w)

  pub alarm_keeps :
      (room : Room) → P room.global.peer_manager → P (alarm rt room).room.global.peer_manager
  unfolding alarm with_manager
  alarm_keeps room w =
      let keys = (sweep rt.env.now_ms room.sockets).group_keys in
      elim (Bool-cases ((sweep rt.env.now_ms room.sockets).alive_count == 0)) [
        | inl t ↦ rw (t, alarm) w
        | inr f ↦
            rw (f, alarm)
              (refresh_keeps (count room.sockets) 0 keys room.sockets _
                (clean_keeps keys room.global.peer_manager w))
      ]

  local_rpc_req_keeps :
      (ws : ℕ) (payload : Text) (att : WsAttachment) (room : Room)
      → P room.global.peer_manager
      → P (local_rpc_req rt ws payload att room).room.global.peer_manager
  unfolding local_rpc_req
  local_rpc_req_keeps ws payload att room w =
      let s : RpcState = record {
        ctx = attachment_to_ctx (rt.env.session_id 0) att;
        peer_manager = room.global.peer_manager;
        peer_center_map = room.global.peer_center_map;
      } in
      let r = handle_rpc_req rt.ext rt.env payload s in
      let room' = record room {
        global = record room.global {
          peer_manager = r.0.peer_manager;
          peer_center_map = r.0.peer_center_map;
        };
      } in
      perform_all_keeps ws att r.1 room' (
        steps_keep s.ctx.group_key s.peer_manager r.0.peer_manager w
          (handle_rpc_req-Steps rt.ext rt.env payload s))

  pub dispatch_keeps :
      (ws : ℕ) (t : PacketType) (h : PacketHeader) (bytes : Text) (att : WsAttachment) (room : Room)
      → (t ≡ hand_shake
          → P (on_handshake rt ws (drop header_size bytes) att room).room.global.peer_manager)
      → P room.global.peer_manager
      → P (dispatch rt ws t h bytes att room).room.global.peer_manager
  unfolding forward on_ping local_rpc_resp with_manager
  dispatch_keeps ws t h bytes att room shakes w =
      dispatch_by rt ws h bytes att room (λ r. P r.room.global.peer_manager) w
        (local_rpc_req_keeps ws (drop header_size bytes) att room w)
        (rpc_resp_keeps _ h.from_peer_id (drop header_size bytes) _ w) w t shakes
