-- ===== src/Proto.antt =====
-- The messages of src/proto.rs and of the generated peer_rpc.rs and common.rs, with the fields
-- that the source names. `others` stands for the fields of a message that it leaves at their
-- default or copies along: they are kept in encoded form and never looked into. The protobuf
-- codec (prost), gzip (flate2), `hex::encode` and the standard library's `DefaultHasher` are not
-- in the repository, so they are the fields of `Externals`, a parameter of what uses them.
pub mod Ambient
use easytier_wsrelay.Base.{ℕ, List, [], Option, none, some, Bool, false, Text}
use easytier_wsrelay.Base.BTreeMap.{BTreeMap}

pub record Timestamp : Type 0 where
  pub seconds : ℕ
  pub nanos : ℕ

pub record Uuid : Type 0 where
  pub part1 : ℕ
  pub part2 : ℕ
  pub part3 : ℕ
  pub part4 : ℕ

pub record PeerFeatureFlag : Type 0 where
  pub is_public_server : Bool
  pub avoid_relay_data : Bool
  pub kcp_input : Bool
  pub no_relay_kcp : Bool
  pub support_conn_list_sync : Bool
  pub quic_input : Bool
  pub no_relay_quic : Bool
  pub is_credential_peer : Bool
  pub need_p2p : Bool
  pub disable_p2p : Bool
  pub ipv6_public_addr_provider : Bool

pub record RoutePeerInfo : Type 0 where
  pub peer_id : ℕ
  pub inst_id : Option Uuid
  pub cost : ℕ
  pub ipv4_addr : Option ℕ
  pub hostname : Option Text
  pub last_update : Option Timestamp
  pub version : ℕ
  pub easytier_version : Text
  pub feature_flag : Option PeerFeatureFlag
  pub peer_route_id : ℕ
  pub network_length : ℕ
  pub others : Text

-- `RoutePeerInfo::default()`.
abbrev pub default_peer_info : RoutePeerInfo
default_peer_info = record {
  peer_id = 0;
  inst_id = none;
  cost = 0;
  ipv4_addr = none;
  hostname = none;
  last_update = none;
  version = 0;
  easytier_version = [];
  feature_flag = none;
  peer_route_id = 0;
  network_length = 0;
  others = [];
}

pub record PeerIdVersion : Type 0 where
  pub peer_id : ℕ
  pub version : ℕ

pub record RouteConnBitmap : Type 0 where
  pub peer_ids : List PeerIdVersion
  pub bitmap : Text

pub record PeerConnInfo : Type 0 where
  pub peer_id : Option PeerIdVersion
  pub connected_peer_ids : List ℕ

pub data ConnInfo : Type 0 where
  conn_bitmap : RouteConnBitmap → ConnInfo
  conn_peer_list : List PeerConnInfo → ConnInfo

pub record ForeignNetworkRouteInfoKey : Type 0 where
  pub peer_id : ℕ
  pub network_name : Text

pub record ForeignNetworkRouteInfoEntry : Type 0 where
  pub foreign_peer_ids : List ℕ
  pub last_update : Option Timestamp
  pub version : ℕ
  pub network_secret_digest : Text
  pub my_peer_id_for_this_network : ℕ

pub record ForeignInfo : Type 0 where
  pub key : Option ForeignNetworkRouteInfoKey
  pub value : Option ForeignNetworkRouteInfoEntry

-- `RoutePeerInfos` and `RouteForeignNetworkInfos` are their lists.
pub record SyncRouteInfoRequest : Type 0 where
  pub my_peer_id : ℕ
  pub my_session_id : ℕ
  pub is_initiator : Bool
  pub peer_infos : Option (List RoutePeerInfo)
  pub conn_info : Option ConnInfo
  pub foreign_network_infos : Option (List ForeignInfo)

pub record SyncRouteInfoResponse : Type 0 where
  pub is_initiator : Bool
  pub session_id : ℕ
  pub error : Option Text

pub record RpcDescriptor : Type 0 where
  pub domain_name : Text
  pub proto_name : Text
  pub service_name : Text
  pub method_index : ℕ

pub record RpcCompressionInfo : Type 0 where
  pub algo : ℕ
  pub accepted_algo : ℕ

pub record RpcPacket : Type 0 where
  pub from_peer : ℕ
  pub to_peer : ℕ
  pub transaction_id : ℕ
  pub descriptor : Option RpcDescriptor
  pub body : Text
  pub is_request : Bool
  pub total_pieces : ℕ
  pub piece_idx : ℕ
  pub trace_id : ℕ
  pub compression_info : Option RpcCompressionInfo

pub record RpcRequest : Type 0 where
  pub descriptor : Option RpcDescriptor
  pub request : Text
  pub timeout_ms : ℕ

pub record RpcResponse : Type 0 where
  pub response : Text
  pub error : Option Text
  pub runtime_us : ℕ

pub record HandshakeRequest : Type 0 where
  pub magic : ℕ
  pub my_peer_id : ℕ
  pub version : ℕ
  pub features : List Text
  pub network_name : Text
  pub network_secret_digest : Text
  pub others : Text

-- A `DirectConnectedPeerInfo` is stored and copied in its encoded form.
abbrev pub DirectConnectedPeerInfo : Type 0
DirectConnectedPeerInfo = Text

-- `PeerInfoForGlobalMap` is its one field, `direct_peers`.
abbrev pub PeerInfoForGlobalMap : Type 0
PeerInfoForGlobalMap = BTreeMap DirectConnectedPeerInfo

pub record ReportPeersRequest : Type 0 where
  pub my_peer_id : ℕ
  pub peer_infos : Option PeerInfoForGlobalMap

pub record ReportPeersResponse : Type 0 where

pub record GetGlobalPeerMapRequest : Type 0 where
  pub digest : ℕ

pub record GetGlobalPeerMapResponse : Type 0 where
  pub global_peer_map : BTreeMap PeerInfoForGlobalMap
  pub digest : Option ℕ

-- prost's `encode_to_vec` and `decode` for one message type.
pub record Codec (A : Type 0) : Type 0 where
  pub encode : A → Text
  pub decode : Text → Option A

pub record Externals : Type 0 where
  pub handshake_request : Codec HandshakeRequest
  pub rpc_packet : Codec RpcPacket
  pub rpc_request : Codec RpcRequest
  pub rpc_response : Codec RpcResponse
  pub sync_route_info_request : Codec SyncRouteInfoRequest
  pub sync_route_info_response : Codec SyncRouteInfoResponse
  pub report_peers_request : Codec ReportPeersRequest
  pub report_peers_response : Codec ReportPeersResponse
  pub get_global_peer_map_request : Codec GetGlobalPeerMapRequest
  pub get_global_peer_map_response : Codec GetGlobalPeerMapResponse
  pub route_peer_info : Codec RoutePeerInfo
  -- `GzEncoder::write_all` with `finish`, of which either may fail.
  pub gzip : Text → Option Text
  -- `GzDecoder::read_to_end`, which may fail.
  pub gunzip : Text → Option Text
  -- `hex::encode`.
  pub hex : Text → Text
  -- `to_string` of an unsigned number, and `parse` into `u64` and `u32`.
  pub decimal : ℕ → Text
  pub parse_u64 : Text → Option ℕ
  pub parse_u32 : Text → Option ℕ
  -- `DefaultHasher` over the fields of the source and destination pairs, in order.
  pub hash_pairs : List (ℕ × ℕ) → ℕ
