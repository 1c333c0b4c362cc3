-- ===== src/Codec.antt =====
-- src/codec.rs: the coding of each message, by prost's own. A refused decoding is `none`: its text is
-- only logged.
use easytier_wsrelay.Base.{Option, Text}
use easytier_wsrelay.Proto.{
  Codec, Externals, HandshakeRequest, RpcPacket, RpcRequest, RpcResponse, SyncRouteInfoRequest,
  SyncRouteInfoResponse, ReportPeersRequest, ReportPeersResponse, GetGlobalPeerMapRequest,
  GetGlobalPeerMapResponse, RoutePeerInfo,
}

-- What the macros `prost_decode_fn` and `prost_encode_fn` make of a message type.
abbrev pub prost_decode : {A : Type 0} → Codec A → Text → Option A
prost_decode codec bytes = codec.decode bytes

abbrev pub prost_encode : {A : Type 0} → Codec A → A → Text
prost_encode codec msg = codec.encode msg

abbrev pub decode_handshake_request : Externals → Text → Option HandshakeRequest
decode_handshake_request ext bytes = prost_decode ext.handshake_request bytes

abbrev pub encode_handshake_request : Externals → HandshakeRequest → Text
encode_handshake_request ext msg = prost_encode ext.handshake_request msg

abbrev pub decode_rpc_packet : Externals → Text → Option RpcPacket
decode_rpc_packet ext bytes = prost_decode ext.rpc_packet bytes

abbrev pub encode_rpc_packet : Externals → RpcPacket → Text
encode_rpc_packet ext msg = prost_encode ext.rpc_packet msg

abbrev pub decode_rpc_request : Externals → Text → Option RpcRequest
decode_rpc_request ext bytes = prost_decode ext.rpc_request bytes

abbrev pub encode_rpc_request : Externals → RpcRequest → Text
encode_rpc_request ext msg = prost_encode ext.rpc_request msg

abbrev pub decode_rpc_response : Externals → Text → Option RpcResponse
decode_rpc_response ext bytes = prost_decode ext.rpc_response bytes

abbrev pub encode_rpc_response : Externals → RpcResponse → Text
encode_rpc_response ext msg = prost_encode ext.rpc_response msg

abbrev pub decode_sync_route_info_request : Externals → Text → Option SyncRouteInfoRequest
decode_sync_route_info_request ext bytes = prost_decode ext.sync_route_info_request bytes

abbrev pub encode_sync_route_info_request : Externals → SyncRouteInfoRequest → Text
encode_sync_route_info_request ext msg = prost_encode ext.sync_route_info_request msg

abbrev pub decode_sync_route_info_response : Externals → Text → Option SyncRouteInfoResponse
decode_sync_route_info_response ext bytes = prost_decode ext.sync_route_info_response bytes

abbrev pub encode_sync_route_info_response : Externals → SyncRouteInfoResponse → Text
encode_sync_route_info_response ext msg = prost_encode ext.sync_route_info_response msg

abbrev pub decode_report_peers_request : Externals → Text → Option ReportPeersRequest
decode_report_peers_request ext bytes = prost_decode ext.report_peers_request bytes

abbrev pub encode_report_peers_request : Externals → ReportPeersRequest → Text
encode_report_peers_request ext msg = prost_encode ext.report_peers_request msg

abbrev pub decode_report_peers_response : Externals → Text → Option ReportPeersResponse
decode_report_peers_response ext bytes = prost_decode ext.report_peers_response bytes

abbrev pub encode_report_peers_response : Externals → ReportPeersResponse → Text
encode_report_peers_response ext msg = prost_encode ext.report_peers_response msg

abbrev pub decode_get_global_peer_map_request : Externals → Text → Option GetGlobalPeerMapRequest
decode_get_global_peer_map_request ext bytes = prost_decode ext.get_global_peer_map_request bytes

abbrev pub encode_get_global_peer_map_request : Externals → GetGlobalPeerMapRequest → Text
encode_get_global_peer_map_request ext msg = prost_encode ext.get_global_peer_map_request msg

abbrev pub decode_get_global_peer_map_response : Externals → Text → Option GetGlobalPeerMapResponse
decode_get_global_peer_map_response ext bytes = prost_decode ext.get_global_peer_map_response bytes

abbrev pub encode_get_global_peer_map_response : Externals → GetGlobalPeerMapResponse → Text
encode_get_global_peer_map_response ext msg = prost_encode ext.get_global_peer_map_response msg

abbrev pub decode_route_peer_info : Externals → Text → Option RoutePeerInfo
decode_route_peer_info ext bytes = prost_decode ext.route_peer_info bytes

abbrev pub encode_route_peer_info : Externals → RoutePeerInfo → Text
encode_route_peer_info ext msg = prost_encode ext.route_peer_info msg
