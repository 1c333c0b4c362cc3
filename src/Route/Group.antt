-- ===== src/Route/Group.antt =====
-- The data of src/route_state.rs, the creation of a group, and the connection versions.
use easytier_wsrelay.Base.{
  ℕ, ◌+◌, List, [], ◌∷◌, ◌++◌, Option, none, some, Bool, true, false, Text, codes, unwrap_or,
  nat_eq, text_eq, ◌≡◌,
}
use easytier_wsrelay.Base.HashMap
use easytier_wsrelay.Base.HashMap.{HashMap}
use easytier_wsrelay.Base.BTreeSet
use easytier_wsrelay.Base.BTreeSet.{BTreeSet}
use easytier_wsrelay.Base.Words.{wrap32}
use easytier_wsrelay.Constants.{my_peer_id}
use easytier_wsrelay.Proto.{RoutePeerInfo, PeerFeatureFlag, default_peer_info}
use easytier_wsrelay.Proto.Ambient.{Ambient}

pub record SessionState : Type 0 where
  pub my_session_id : Option ℕ
  pub dst_session_id : Option ℕ
  pub we_are_initiator : Bool
  pub peer_info_ver_map : HashMap ℕ ℕ
  pub conn_bitmap_ver_map : HashMap ℕ ℕ
  pub foreign_net_ver : ℕ
  pub last_touch_ms : ℕ
  pub last_conn_bitmap_sig : Option Text

pub record RouteGroupData : Type 0 where
  pub peers : BTreeSet
  pub peer_infos : HashMap ℕ RoutePeerInfo
  pub sessions : HashMap ℕ SessionState
  pub peer_conn_versions : HashMap ℕ ℕ
  pub my_info : RoutePeerInfo
  pub my_info_version : ℕ
  pub peer_connections : HashMap ℕ BTreeSet
  pub peer_removed_at : HashMap ℕ ℕ

pub record RouteState : Type 0 where
  pub groups : HashMap Text RouteGroupData

-- `RouteState::new`.
unfoldable pub new : RouteState
new = record { groups = [] }

-- `SessionState::default()`.
abbrev pub default_session : SessionState
default_session = record {
  my_session_id = none;
  dst_session_id = none;
  we_are_initiator = false;
  peer_info_ver_map = [];
  conn_bitmap_ver_map = [];
  foreign_net_ver = 0;
  last_touch_ms = 0;
  last_conn_bitmap_sig = none;
}

server_feature_flag : PeerFeatureFlag
server_feature_flag = record {
  is_public_server = true;
  avoid_relay_data = true;
  kcp_input = false;
  no_relay_kcp = false;
  support_conn_list_sync = false;
  quic_input = false;
  no_relay_quic = false;
  is_credential_peer = false;
  need_p2p = true;
  disable_p2p = false;
  ipv6_public_addr_provider = false;
}

-- The closure of `or_insert_with` in `ensure_group`.
unfoldable pub new_group : Ambient → Text → RouteGroupData
unfolding server_feature_flag
new_group env group_key = record {
  peers = [];
  peer_infos = [];
  sessions = [];
  peer_conn_versions = [];
  my_info = record default_peer_info {
    peer_id = my_peer_id;
    inst_id = some (env.group_uuid group_key);
    cost = 1;
    version = 1;
    network_length = 24;
    easytier_version = codes "cf-easytier-wsrelay";
    hostname = some (codes "cf-easytier-wsrelay");
    peer_route_id = env.group_route_id group_key;
    feature_flag = some server_feature_flag;
  };
  my_info_version = 1;
  peer_connections = [];
  peer_removed_at = [];
}

-- The group that `ensure_group` returns a reference to; `put_group` is the write through it, and
-- creates the group where it is new.
unfoldable pub ensure_group : Ambient → RouteState → Text → RouteGroupData
ensure_group env s group_key = unwrap_or (HashMap.get group_key s.groups) (new_group env group_key)

unfoldable pub put_group : Text → RouteGroupData → RouteState → RouteState
put_group group_key g s = record { groups = HashMap.insert group_key g s.groups }

-- `sessions.entry(peer_id).or_default()`.
unfoldable pub session_of : RouteGroupData → ℕ → SessionState
session_of g peer_id = unwrap_or (HashMap.get peer_id g.sessions) default_session

-- One round of the loop of `bump_all_conn_versions`.
unfoldable pub bump_conn_version : ℕ → HashMap ℕ ℕ → HashMap ℕ ℕ
bump_conn_version pid m = HashMap.insert pid (wrap32 (unwrap_or (HashMap.get pid m) 1 + 1)) m

unfoldable pub bump_each : List ℕ → HashMap ℕ ℕ → HashMap ℕ ℕ
bump_each [] m = m
bump_each (pid ∷ pids) m = bump_each pids (bump_conn_version pid m)

-- `entry(MY_PEER_ID).and_modify(|v| *v += 1).or_insert(2)`.
unfoldable pub bump_server : HashMap ℕ ℕ → HashMap ℕ ℕ
bump_server m = elim (HashMap.get my_peer_id m) [
  | some v ↦ HashMap.insert my_peer_id (wrap32 (v + 1)) m
  | none ↦ HashMap.insert my_peer_id 2 m
]

unfoldable pub bump_all_conn_versions : RouteGroupData → RouteGroupData
bump_all_conn_versions g = record g {
  peer_conn_versions =
      bump_server
        (bump_each (BTreeSet.collect (g.peers ++ HashMap.keys g.peer_infos)) g.peer_conn_versions);
}

-- What is written through `ensure_group` is read back through it.
pub ensure-put :
    (env : Ambient) (key : Text) (g : RouteGroupData) (s : RouteState)
    → ensure_group env (put_group key g s) key ≡ g
unfolding ensure_group put_group
ensure-put env key g s = rw (HashMap.get-insert_self key g s.groups)
