-- ===== src/PeerManager.antt =====
-- src/peer_manager.rs: the route state behind the RPC messages, and the global state.
use easytier_wsrelay.Base.{
  ℕ, List, [], ◌∷◌, Option, none, some, Bool, true, false, not, ◌||◌, ◌&&◌, Text, codes, unwrap_or,
  ◌==◌, if◌then◌else◌, ◌>>=◌,
}
use easytier_wsrelay.Base.HashMap.{HashMap}
use easytier_wsrelay.Base.Words.{wrap32}
use easytier_wsrelay.Constants.{my_peer_id}
use easytier_wsrelay.Codec.{encode_route_peer_info, encode_rpc_packet, encode_rpc_request}
use easytier_wsrelay.Proto.{RoutePeerInfo, RpcPacket, Externals}
use easytier_wsrelay.Proto.Ambient.{Ambient}
use easytier_wsrelay.Route.Group.{RouteState}
use easytier_wsrelay.Route.Group
use easytier_wsrelay.Route.Peers
use easytier_wsrelay.Route.ConnInfo
use easytier_wsrelay.Route.Sync
use easytier_wsrelay.PeerCenter.{PeerCenter}

pub record WsPeerContext : Type 0 where
  pub peer_id : ℕ
  pub group_key : Text
  pub domain_name : Text
  pub server_session_id : Text
  pub we_are_initiator : Bool

-- `WsPeerContext::default()`; `draw` is its random session id.
abbrev pub default_context : Text → WsPeerContext
default_context draw = record {
  peer_id = 0;
  group_key = [];
  domain_name = codes "public_server";
  server_session_id = draw;
  we_are_initiator = false;
}

-- `PeerManager` is its one field, `route_state`.
abbrev pub PeerManager : Type 0
PeerManager = RouteState

unfoldable pub new : PeerManager
unfolding Group.new
new = Group.new

unfoldable pub add_peer : Ambient → Text → ℕ → PeerManager → PeerManager
add_peer env group_key peer_id pm =
    Peers.bump_my_info_version env group_key (Peers.add_peer env group_key peer_id pm)

abbrev pub cleanup_stale_peer_connections : Ambient → Text → ℕ → PeerManager → PeerManager
cleanup_stale_peer_connections env group_key threshold pm =
    ConnInfo.cleanup_stale_peer_connections env group_key threshold pm

unfoldable pub remove_peer : Ambient → WsPeerContext → PeerManager → PeerManager × Bool
remove_peer env ctx pm =
    if ctx.peer_id == 0
    then (pm, false)
    else (Peers.remove_peer env ctx.group_key ctx.peer_id pm, true)

abbrev pub list_peer_ids_in_group : Text → PeerManager → List ℕ
list_peer_ids_in_group group_key pm = Peers.get_peer_ids_in_group group_key pm

-- A refused decoding leaves the state and reports no change.
unfoldable pub update_peer_info :
    Externals → Ambient → Text → ℕ → Text → PeerManager → PeerManager × Bool
update_peer_info ext env group_key peer_id info_bytes pm =
    unwrap_or (Peers.update_peer_info ext env group_key peer_id info_bytes pm) (pm, false)

abbrev pub get_peer_conn_version : Text → ℕ → PeerManager → ℕ
get_peer_conn_version group_key peer_id pm = Peers.get_peer_conn_version group_key peer_id pm

abbrev pub on_route_session_ack : Ambient → Text → ℕ → ℕ → Bool → PeerManager → PeerManager
on_route_session_ack env group_key peer_id their_session_id we_are_initiator pm =
    Peers.on_route_session_ack env group_key peer_id their_session_id we_are_initiator pm

ospf_route_rpc : Text
ospf_route_rpc = codes "OspfRouteRpc"

-- The packet around an encoded route update. The transaction id is a random `u64` cut to 32 bits.
unfoldable pub route_update_packet : Externals → WsPeerContext → ℕ → Text → Text → RpcPacket
unfolding ospf_route_rpc
route_update_packet ext ctx target draw req_bytes = record {
  from_peer = my_peer_id;
  to_peer = target;
  transaction_id = wrap32 (unwrap_or (ext.parse_u64 draw) 0);
  descriptor = some (record {
    domain_name = ctx.domain_name;
    proto_name = ospf_route_rpc;
    service_name = ospf_route_rpc;
    method_index = 1;
  });
  body =
      encode_rpc_request ext (record { descriptor = none; request = req_bytes; timeout_ms = 5000 });
  is_request = true;
  total_pieces = 1;
  piece_idx = 0;
  trace_id = 0;
  compression_info = some (record { algo = 1; accepted_algo = 1 });
}

-- `build_route_update`; `draw` is its random transaction id. `build_sync_route_info_request` has
-- no failing path, so neither has this.
unfoldable pub build_route_update :
    Externals → Ambient → WsPeerContext → ℕ → Bool → Text → PeerManager → PeerManager × Text
build_route_update ext env ctx target force_full draw pm =
    let server_session_id = unwrap_or (ext.parse_u64 ctx.server_session_id) 0 in
    let r =
      Sync.build_sync_route_info_request ext env ctx.group_key target server_session_id
        ctx.we_are_initiator force_full pm in
    (r.0, encode_rpc_packet ext (route_update_packet ext ctx target draw r.1))

-- `none` is the `Err` of a refused decoding.
abbrev pub handle_sync_route_info :
    Externals → Ambient → Text → ℕ → Text → PeerManager → Option (PeerManager × Text)
handle_sync_route_info ext env group_key from request_bytes pm =
    Sync.handle_sync_route_info_request ext env group_key from request_bytes pm

abbrev pub process_incoming_conn_info :
    Externals → Ambient → Text → ℕ → Text → PeerManager → PeerManager × Bool
process_incoming_conn_info ext env group_key from request_bytes pm =
    ConnInfo.update_peer_connections_from_conn_info ext env group_key from request_bytes pm

-- The loop of `process_incoming_peer_infos`. An info of the server itself never counts as a
-- change.
unfoldable pub update_infos :
    Externals → Ambient → Text → List RoutePeerInfo → PeerManager → PeerManager × Bool
update_infos ext env group_key [] pm = (pm, false)
update_infos ext env group_key (info ∷ infos) pm =
    let r = update_peer_info ext env group_key info.peer_id (encode_route_peer_info ext info) pm in
    let rest = update_infos ext env group_key infos r.0 in
    (rest.0, (r.1 && not (info.peer_id == my_peer_id)) || rest.1)

-- `none` is the `Err` of a refused decoding.
unfoldable pub process_incoming_peer_infos :
    Externals → Ambient → Text → Text → PeerManager → Option (PeerManager × Bool)
process_incoming_peer_infos ext env group_key request_bytes pm = do
  req ← ext.sync_route_info_request.decode request_bytes
  some (update_infos ext env group_key (unwrap_or req.peer_infos []) pm)

pub record GlobalState : Type 0 where
  pub peer_manager : PeerManager
  pub peer_center_map : HashMap Text PeerCenter
  pub network_digest_registry : HashMap Text Text

-- The state that `with_global_state` creates on first use.
unfoldable pub new_global_state : GlobalState
unfolding new
new_global_state = record { peer_manager = new; peer_center_map = []; network_digest_registry = [] }
