-- ===== src/Relay/Exchange.antt =====
-- What a client of src/relay_room.rs receives for a sync request: the packets with their bodies.
use easytier_wsrelay.Base.{
  ℕ, List, ◌∷◌, ◌++◌, none, unwrap_or, true, false, Text, length, codes, ◌≡◌, refl, All, text_eq,
}
use easytier_wsrelay.Base.Words.{wrap32}
use easytier_wsrelay.Constants.{PacketType, rpc_req, rpc_resp, my_peer_id}
use easytier_wsrelay.Packet.{create_header}
use easytier_wsrelay.Proto.{RpcPacket, SyncRouteInfoRequest, SyncRouteInfoResponse, Externals}
use easytier_wsrelay.PeerManager.{
  PeerManager, WsPeerContext, build_route_update, route_update_packet,
}
use easytier_wsrelay.Rpc.{RpcState, response_packet, build_rpc_response_bytes, service_name}
use easytier_wsrelay.Route.Group.{ensure_group}
use easytier_wsrelay.Route.Sync.{group_build_sync, build_sync_route_info_request}
use easytier_wsrelay.Relay.Room.{
  WsAttachment, Socket, Room, Effect, sent, Runtime, attachment_to_ctx,
}
use easytier_wsrelay.Relay.Delivery.{IsMember, IsSentTo}

-- A packet of the server.
abbrev pub packet_to : ℕ → PacketType → Text → Text
packet_to to t payload = create_header my_peer_id to t (wrap32 (length payload)) ++ payload

-- The encoding of the answer to a request of a peer, with the response in its body.
abbrev pub IsResponse : Externals → RpcPacket → ℕ → SyncRouteInfoResponse → Text → Type 0
IsResponse ext request peer_id response bytes =
    (p : RpcPacket) × (bytes ≡ ext.rpc_packet.encode p)
    × (p.from_peer ≡ my_peer_id)
    × (p.to_peer ≡ peer_id)
    × (p.is_request ≡ false)
    × (p.transaction_id ≡ request.transaction_id)
    × (p.trace_id ≡ request.trace_id)
    × (p.descriptor ≡ request.descriptor)
    × (p.body
        ≡ ext.rpc_response.encode (record {
          response = ext.sync_route_info_response.encode response;
          error = none;
          runtime_us = 0;
        }))

-- The encoding of a request of the server's own to the route service of a peer, with the route
-- update in its body.
abbrev pub IsUpdate : Externals → ℕ → SyncRouteInfoRequest → Text → Type 0
IsUpdate ext peer_id update bytes =
    (p : RpcPacket) × (bytes ≡ ext.rpc_packet.encode p)
    × (p.from_peer ≡ my_peer_id)
    × (p.to_peer ≡ peer_id)
    × (p.is_request ≡ true)
    × (service_name p ≡ codes "OspfRouteRpc")
    × (p.body
        ≡ ext.rpc_request.encode (record {
          descriptor = none;
          request = ext.sync_route_info_request.encode update;
          timeout_ms = 5000;
        }))

pub build_rpc_response_bytes-IsResponse :
    (ext : Externals) (request : RpcPacket) (peer_id : ℕ) (response : SyncRouteInfoResponse)
    → IsResponse ext request peer_id response (
        build_rpc_response_bytes ext request (ext.sync_route_info_response.encode response) peer_id)
unfolding build_rpc_response_bytes response_packet
build_rpc_response_bytes-IsResponse ext request peer_id response = (
  response_packet ext request (ext.sync_route_info_response.encode response) peer_id,
  refl,
  refl,
  refl,
  refl,
  refl,
  refl,
  refl,
  refl,
)

-- The full update of a group for a peer, from the context of its socket.
abbrev pub full_update : Runtime → WsPeerContext → ℕ → PeerManager → SyncRouteInfoRequest
full_update rt ctx target pm =
    (group_build_sync rt.ext rt.env target (unwrap_or (rt.ext.parse_u64 ctx.server_session_id) 0)
      ctx.we_are_initiator true (ensure_group rt.env pm ctx.group_key)).1

pub build_route_update-IsUpdate :
    (rt : Runtime) (ctx : WsPeerContext) (target : ℕ) (draw : Text) (pm : PeerManager)
    → IsUpdate rt.ext target
        (full_update rt ctx target pm)
        (build_route_update rt.ext rt.env ctx target true draw pm).1
unfolding build_route_update route_update_packet service_name build_sync_route_info_request
build_route_update-IsUpdate rt ctx target draw pm = (_, refl, refl, refl, refl, refl, refl)

-- The response first, then the route update, both to the sender; then only route updates to the
-- other members of the group.
pub record IsExchange (rt : Runtime) (ws : ℕ) (key : Text) (p : ℕ) (request : RpcPacket)
    (response : SyncRouteInfoResponse) (routes : SyncRouteInfoRequest) (sockets : List Socket)
    (effects : List Effect) : Type 0 where
  pub reply : Text
  pub update : Text
  pub rest : List Effect
  pub in_order :
      effects ≡ sent ws (packet_to p rpc_resp reply) ∷ sent ws (packet_to p rpc_req update) ∷ rest
  pub replies : IsResponse rt.ext request p response reply
  pub updates : IsUpdate rt.ext p routes update
  pub told : All (IsSentTo (IsMember key p) sockets) rest

-- The route update to the socket of an attachment.
abbrev pub own_update : Runtime → WsAttachment → PeerManager → SyncRouteInfoRequest
own_update rt att pm = full_update rt (attachment_to_ctx (rt.env.session_id 1) att) att.peer_id pm

-- What the RPC handlers start from.
abbrev pub rpc_state : Runtime → WsAttachment → Room → RpcState
rpc_state rt att room = record {
  ctx = attachment_to_ctx (rt.env.session_id 0) att;
  peer_manager = room.global.peer_manager;
  peer_center_map = room.global.peer_center_map;
}
