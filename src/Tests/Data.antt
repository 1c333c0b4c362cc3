-- ===== src/Tests/Data.antt =====
-- Test data: codecs that decode every text to one message, groups, sockets and a runtime.
use easytier_wsrelay.Base.{
  ℕ, ◌+◌, ◌-◌, List, [], ◌∷◌, ◌++◌, none, some, true, false, Text, codes, length, take, replicate,
  map,
}
use easytier_wsrelay.Constants.{magic}
use easytier_wsrelay.Proto.{
  default_peer_info, RoutePeerInfo, Codec, Externals, HandshakeRequest, SyncRouteInfoRequest,
  RpcPacket, conn_peer_list,
}
use easytier_wsrelay.Proto.Ambient.{Ambient}
use easytier_wsrelay.Route.Group.{RouteGroupData, RouteState, default_session}
use easytier_wsrelay.Crypto.Wrap.{Cipher}
use easytier_wsrelay.PeerCenter.{PeerCenterGroupData}
use easytier_wsrelay.Rpc.{RpcState}
use easytier_wsrelay.PeerManager.{new_global_state}
use easytier_wsrelay.Relay.Room.{WsAttachment, Room, Socket, stored, vacant, Runtime}

abbrev pub constant : {A : Type 0} → A → Codec A
constant a = record { encode = λ m. 7 ∷ []; decode = λ bytes. some a }

abbrev pub info_5 : RoutePeerInfo
info_5 = record default_peer_info { peer_id = 5; version = 3 }

abbrev pub info_6 : RoutePeerInfo
info_6 = record default_peer_info { peer_id = 6; version = 9 }

abbrev pub handshake : HandshakeRequest
handshake = record {
  magic = magic;
  my_peer_id = 5;
  version = 1;
  features = [];
  network_name = codes "net";
  network_secret_digest = 1 ∷ [];
  others = [];
}

abbrev pub sync_request : SyncRouteInfoRequest
sync_request = record {
  my_peer_id = 5;
  my_session_id = 77;
  is_initiator = true;
  peer_infos = some (info_5 ∷ info_6 ∷ []);
  conn_info = some (conn_peer_list []);
  foreign_network_infos = none;
}

abbrev pub rpc_packet : RpcPacket
rpc_packet = record {
  from_peer = 5;
  to_peer = 10000001;
  transaction_id = 1;
  descriptor = some (record {
    domain_name = codes "net";
    proto_name = codes "OspfRouteRpc";
    service_name = codes "OspfRouteRpc";
    method_index = 1;
  });
  body = 7 ∷ [];
  is_request = true;
  total_pieces = 1;
  piece_idx = 0;
  trace_id = 0;
  compression_info = none;
}

abbrev pub externals : Externals
externals = record {
  handshake_request = constant handshake;
  rpc_packet = constant rpc_packet;
  rpc_request = constant (record { descriptor = none; request = 7 ∷ []; timeout_ms = 5000 });
  rpc_response = constant (record { response = 7 ∷ []; error = none; runtime_us = 0 });
  sync_route_info_request = constant sync_request;
  sync_route_info_response =
      constant (record { is_initiator = false; session_id = 4; error = none });
  report_peers_request = constant (record { my_peer_id = 5; peer_infos = none });
  report_peers_response = constant (record {});
  get_global_peer_map_request = constant (record { digest = 0 });
  get_global_peer_map_response = constant (record { global_peer_map = []; digest = none });
  route_peer_info = constant info_5;
  gzip = λ bytes. none;
  gunzip = λ bytes. none;
  hex = λ bytes. map (λ b. 97 + b) bytes;
  decimal = λ n. (48 + n) ∷ [];
  parse_u64 = λ bytes. some (length bytes);
  parse_u32 = λ bytes. some (length bytes);
  hash_pairs = λ pairs. 1 + length pairs;
}

abbrev pub ambient : Ambient
ambient = record {
  now_ms = 1000000;
  group_uuid = λ key. record { part1 = 1; part2 = 2; part3 = 3; part4 = 4 };
  group_route_id = λ key. 9;
  session_id = λ n. (49 + n) ∷ [];
  transaction = λ n. (49 + n) ∷ [];
}

-- Peers 5 and 6 are online; 5 has an info and reports a connection to 6.
abbrev pub two_peers : RouteGroupData
two_peers = record {
  peers = 5 ∷ 6 ∷ [];
  peer_infos = (5, info_5) ∷ [];
  sessions = [];
  peer_conn_versions = (5, 4) ∷ [];
  my_info = record default_peer_info { peer_id = 10000001; version = 1 };
  my_info_version = 1;
  peer_connections = (5, 6 ∷ []) ∷ [];
  peer_removed_at = [];
}

-- Peer 5 has acknowledged its session, and been sent the version 4 of its own info.
abbrev pub acknowledged : RouteGroupData
acknowledged = record two_peers {
  sessions =
      (5, record default_session { dst_session_id = some 4; peer_info_ver_map = (5, 4) ∷ [] }) ∷ [];
}

abbrev pub net_key : Text
net_key = codes "net:b"

abbrev pub one_group : RouteState
one_group = record { groups = (net_key, two_peers) ∷ [] }

abbrev pub member : ℕ → WsAttachment
member p = record {
  peer_id = p;
  group_key = net_key;
  domain_name = codes "net";
  server_session_id = (49 + p) ∷ [];
  we_are_initiator = false;
  last_seen_ms = 900000;
}

abbrev pub sockets : List Socket
sockets =
    record { id = 1; slot = stored (member 5) }
    ∷ record { id = 2; slot = vacant }
    ∷ record { id = 3; slot = stored (record (member 6) { last_seen_ms = 10 }) }
    ∷ []

-- A cipher that appends sixteen zero bytes.
abbrev pub padding_cipher : Cipher
padding_cipher = record {
  import_key = λ bytes. some (length bytes);
  seal = λ nonce key plain. some (plain ++ replicate 16 0);
  open_sealed = λ nonce key sealed. some (take (length sealed - 16) sealed);
}

abbrev pub runtime : Runtime
runtime = record {
  ext = externals;
  cipher = padding_cipher;
  env = ambient;
  sendable = λ ws. true;
  storable = λ att. true;
  storage_works = true;
}

abbrev pub client : RpcState
client = record {
  ctx = record {
    peer_id = 5;
    group_key = net_key;
    domain_name = codes "net";
    server_session_id = 49 ∷ [];
    we_are_initiator = false;
  };
  peer_manager = one_group;
  peer_center_map = [];
}

abbrev pub reports_of_5 : PeerCenterGroupData
reports_of_5 = record {
  global_peer_map =
      ((5, 6), record { info = 1 ∷ []; update_time_ms = 100 })
      ∷ ((6, 5), record { info = 2 ∷ []; update_time_ms = 999000 })
      ∷ [];
  peer_report_time = [];
  digest = 3;
}

-- A room with the sockets of the peers 5 and 6, and a data packet from the one to the other.
abbrev pub meeting : Room
meeting = record {
  sockets = sockets;
  global = record new_global_state { peer_manager = one_group };
  alarm = none;
}

abbrev pub data_message : Text
data_message = 5 ∷ 0 ∷ 0 ∷ 0 ∷ 6 ∷ 0 ∷ 0 ∷ 0 ∷ 1 ∷ 0 ∷ 1 ∷ 0 ∷ 1 ∷ 0 ∷ 0 ∷ 0 ∷ 7 ∷ []
