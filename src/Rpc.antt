-- ===== src/Rpc.antt =====
-- src/rpc_handler.rs: the RPC requests and responses of a client.
pub mod Services
pub mod Isolation
pub mod Answers
pub mod Exchange
pub mod Learning
use easytier_wsrelay.Base.{
  ℕ, List, [], ◌∷◌, Option, none, some, Bool, false, not, ◌||◌, Text, codes, unwrap_or, option_map,
  ltb, ◌==◌, if◌then◌else◌, text_eq, text_beq,
}
use easytier_wsrelay.Base.HashMap
use easytier_wsrelay.Base.HashMap.{HashMap}
use easytier_wsrelay.Compress.{gunzip_maybe}
use easytier_wsrelay.Constants.{my_peer_id}
use easytier_wsrelay.Codec.{
  decode_rpc_packet, decode_rpc_request, decode_rpc_response, decode_sync_route_info_request,
  decode_sync_route_info_response, encode_rpc_packet, encode_rpc_response,
}
use easytier_wsrelay.Proto.{
  RpcPacket, RpcRequest, RpcResponse, RpcDescriptor, SyncRouteInfoRequest, Externals,
}
use easytier_wsrelay.Proto.Ambient.{Ambient}
use easytier_wsrelay.PeerCenter
use easytier_wsrelay.PeerCenter.{PeerCenter}
use easytier_wsrelay.PeerManager
use easytier_wsrelay.PeerManager.{PeerManager, WsPeerContext}

pub data RpcAction : Type 0 where
  send_to : ℕ → Text → RpcAction
  push_route_update : ℕ → Text → RpcAction
  broadcast_route_update : Text → ℕ → RpcAction
  no_action : RpcAction

-- `build_rpc_response_bytes`.
unfoldable pub response_packet : Externals → RpcPacket → Text → ℕ → RpcPacket
response_packet ext req response_body to_peer_id = record {
  from_peer = my_peer_id;
  to_peer = to_peer_id;
  transaction_id = req.transaction_id;
  descriptor = req.descriptor;
  body =
      encode_rpc_response ext (record { response = response_body; error = none; runtime_us = 0 });
  is_request = false;
  total_pieces = 1;
  piece_idx = 0;
  trace_id = req.trace_id;
  compression_info = some (record { algo = 1; accepted_algo = 1 });
}

unfoldable pub build_rpc_response_bytes : Externals → RpcPacket → Text → ℕ → Text
unfolding response_packet
build_rpc_response_bytes ext req response_body to_peer_id =
    encode_rpc_packet ext (response_packet ext req response_body to_peer_id)

-- The body of a packet, decompressed where the packet says so.
unfoldable pub rpc_body : Externals → RpcPacket → Text
rpc_body ext p = elim p.compression_info [
  | none ↦ p.body
  | some comp ↦ if ltb 1 comp.algo then gunzip_maybe ext p.body else p.body
]

unfoldable pub inner_req_body : Externals → RpcPacket → Text
inner_req_body ext p =
    let body = rpc_body ext p in
    if p.is_request
    then unwrap_or (option_map (λ (r : RpcRequest). r.request) (decode_rpc_request ext body)) body
    else body

unfoldable pub service_name : RpcPacket → Text
service_name p = unwrap_or (option_map (λ (d : RpcDescriptor). d.service_name) p.descriptor) []

unfoldable pub method_index : RpcPacket → ℕ
method_index p = unwrap_or (option_map (λ (d : RpcDescriptor). d.method_index) p.descriptor) 0

unfoldable pub is_peer_center : Text → Bool
is_peer_center name =
    text_beq name (codes "peer_rpc.PeerCenterRpc") || text_beq name (codes "PeerCenterRpc")

unfoldable pub is_ospf_route : Text → Bool
is_ospf_route name =
    text_beq name (codes "peer_rpc.OspfRouteRpc") || text_beq name (codes "OspfRouteRpc")

-- What a handler may change: the context, the routes and the peer centers of the groups.
pub record RpcState : Type 0 where
  pub ctx : WsPeerContext
  pub peer_manager : PeerManager
  pub peer_center_map : HashMap Text PeerCenter

-- The response of the peer center, sent to the client; nothing where its handler failed.
unfoldable pub center_reply :
    Externals
    → RpcPacket
    → RpcState
    → PeerCenter
    → Option (PeerCenter × Text)
    → RpcState × List RpcAction
center_reply ext packet s pc none =
    (record s { peer_center_map = HashMap.insert s.ctx.group_key pc s.peer_center_map }, [])
center_reply ext packet s pc (some (pc', resp)) = (
  record s { peer_center_map = HashMap.insert s.ctx.group_key pc' s.peer_center_map },
  send_to s.ctx.peer_id (build_rpc_response_bytes ext packet resp s.ctx.peer_id) ∷ [],
)

unfoldable pub handle_peer_center :
    Externals → Ambient → RpcPacket → RpcState → RpcState × List RpcAction
unfolding center_reply
handle_peer_center ext env packet s =
    let key = s.ctx.group_key in
    let pc = unwrap_or (HashMap.get key s.peer_center_map) PeerCenter.new in
    let body = inner_req_body ext packet in
    if method_index packet == 0
    then center_reply ext packet s pc (PeerCenter.report_peers ext env key body pc)
    else if method_index packet == 1
    then center_reply ext packet s pc (PeerCenter.get_global_peer_map ext key body pc)
    else center_reply ext packet s pc none

-- The first part of `handle_sync_route_info`: the session id, and what a decoded request changes.
-- The flag says whether the other peers are to learn of it.
unfoldable pub ensure_session_id : Ambient → WsPeerContext → WsPeerContext
ensure_session_id env ctx =
    if text_beq ctx.server_session_id []
    then record ctx { server_session_id = env.session_id 0 }
    else ctx

unfoldable pub absorb :
    Externals
    → Ambient
    → Text
    → Text
    → SyncRouteInfoRequest
    → WsPeerContext
    → PeerManager
    → WsPeerContext × PeerManager × Bool
absorb ext env group_key body req ctx pm =
    let ctx' = record ctx { we_are_initiator = not req.is_initiator } in
    let pm₁ =
      PeerManager.on_route_session_ack env group_key ctx'.peer_id req.my_session_id
        ctx'.we_are_initiator pm in
    let infos =
      unwrap_or (PeerManager.process_incoming_peer_infos ext env group_key body pm₁) (pm₁, false) in
    let conns =
      PeerManager.process_incoming_conn_info ext env group_key ctx'.peer_id body infos.0 in
    (ctx', conns.0, conns.1 || infos.1)

-- The second part: the answer, with its actions. `none` is a request that does not decode.
unfoldable pub sync_actions : Externals → RpcPacket → Text → ℕ → Bool → Text → List RpcAction
sync_actions ext packet group_key peer_id changed resp =
    send_to peer_id (build_rpc_response_bytes ext packet resp peer_id)
    ∷ push_route_update peer_id group_key
    ∷ (if changed then broadcast_route_update group_key peer_id ∷ [] else [])

unfoldable pub answer_sync :
    Externals
    → Ambient
    → RpcPacket
    → Text
    → Text
    → Bool
    → WsPeerContext
    → PeerManager
    → PeerManager × List RpcAction
answer_sync ext env packet body group_key changed ctx pm =
    elim (PeerManager.handle_sync_route_info ext env group_key ctx.peer_id body pm) [
      | none ↦ (pm, [])
      | some (pm', resp) ↦ (pm', sync_actions ext packet group_key ctx.peer_id changed resp)
    ]

unfoldable pub handle_sync_route_info :
    Externals
    → Ambient
    → RpcPacket
    → Text
    → Text
    → WsPeerContext
    → PeerManager
    → WsPeerContext × PeerManager × List RpcAction
unfolding absorb answer_sync ensure_session_id
handle_sync_route_info ext env packet body group_key ctx pm =
    let ctx₀ = ensure_session_id env ctx in
    let a : WsPeerContext × PeerManager × Bool = elim (decode_sync_route_info_request ext body) [
      | none ↦ (ctx₀, pm, false)
      | some req ↦ absorb ext env group_key body req ctx₀ pm
    ] in
    let r = answer_sync ext env packet body group_key a.2 a.0 a.1 in (a.0, r.0, r.1)

unfoldable pub handle_ospf_route :
    Externals → Ambient → RpcPacket → RpcState → RpcState × List RpcAction
unfolding handle_sync_route_info
handle_ospf_route ext env packet s =
    let r =
      handle_sync_route_info ext env packet (inner_req_body ext packet) s.ctx.group_key s.ctx
        s.peer_manager in
    if method_index packet == 0 || method_index packet == 1
    then (record s { ctx = r.0; peer_manager = r.1 }, r.2)
    else (s, [])

unfoldable pub handle_rpc_req : Externals → Ambient → Text → RpcState → RpcState × List RpcAction
handle_rpc_req ext env payload s = elim (decode_rpc_packet ext payload) [
  | none ↦ (s, [])
  | some packet ↦
      if is_peer_center (service_name packet)
      then handle_peer_center ext env packet s
      else if is_ospf_route (service_name packet)
      then handle_ospf_route ext env packet s
      else (s, [])
]

unfoldable pub service_resp_bytes : Externals → RpcPacket → Text
service_resp_bytes ext p =
    let body = rpc_body ext p in
    if p.is_request
    then body
    else unwrap_or (option_map (λ (r : RpcResponse). r.response) (decode_rpc_response ext body))
        body

-- Every path of `handle_rpc_resp` returns `None`, so only the routes are returned here.
unfoldable pub handle_rpc_resp :
    Externals → Ambient → WsPeerContext → ℕ → Text → PeerManager → PeerManager
handle_rpc_resp ext env ctx from payload pm = elim (decode_rpc_packet ext payload) [
  | none ↦ pm
  | some packet ↦
      if is_ospf_route (service_name packet)
      then elim (decode_sync_route_info_response ext (service_resp_bytes ext packet)) [
        | none ↦ pm
        | some resp ↦
            if resp.session_id == 0
            then pm
            else PeerManager.on_route_session_ack env ctx.group_key from resp.session_id
                ctx.we_are_initiator pm
      ]
      else pm
]
