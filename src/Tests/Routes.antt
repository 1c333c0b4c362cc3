-- ===== src/Tests/Routes.antt =====
-- The theorems on the routes at concrete inputs.
use easytier_wsrelay.Base.{
  [], ◌∷◌, none, some, true, false, ◌≡◌, refl, arith, nat_eq, text_eq, ◌&&◌, map,
}
use easytier_wsrelay.Base.HashMap
use easytier_wsrelay.Base.HashMap.{get-insert_self}
use easytier_wsrelay.Base.BTreeSet
use easytier_wsrelay.Base.BTreeSet.{contains}
use easytier_wsrelay.Route.Group.{bump_all_conn_versions}
use easytier_wsrelay.Route.Peers.{
  add_peer, remove_peer, get_peer_conn_version, group_update_peer_info,
}
use easytier_wsrelay.Route.Bitmap.{
  build_conn_bitmap, bitmap_bytes, versions_of, get_connected_peers_from_bitmap,
}
use easytier_wsrelay.Route.BitmapCells.{cell}
use easytier_wsrelay.Route.BitmapLaws.{linked, cell-bitmap_bytes}
use easytier_wsrelay.Route.Index.{position}
use easytier_wsrelay.Route.Versions.{conn_version, conn_version-bump_all, reconnect_version}
use easytier_wsrelay.Route.Infos.{info_at, newer, update_peer_info_lem, stamped, last_info}
use easytier_wsrelay.Route.Sync.{
  all_peers, is_full, make_stub_peer_info, relevant_peers, touch_session, pick_infos, pick_info,
  with_stub,
}
use easytier_wsrelay.Route.Carried.{
  drawn, info_or_stub, is_news, group_build_sync-linked, group_build_sync-news,
}
use easytier_wsrelay.Route.Sync.{group_build_sync}
use easytier_wsrelay.Route.Group.{session_of, ensure_group, RouteState}
use easytier_wsrelay.Route.Quiescence.{group_build_sync_twice}
use easytier_wsrelay.Route.ConnInfo.{group_update_connections, group_cleanup, find_entry}
use easytier_wsrelay.Route.Connections.{
  has_connection, group_update_connections_lem, group_cleanup_lem,
}
use easytier_wsrelay.Proto.{conn_peer_list, PeerIdVersion, SyncRouteInfoRequest, Externals}
use easytier_wsrelay.Rpc.{handle_sync_route_info}
use easytier_wsrelay.Rpc.Learning.{handle_sync-learns}
use easytier_wsrelay.Tests.Data.{
  constant, client, rpc_packet, externals, ambient, two_peers, one_group, acknowledged, net_key,
  info_5, info_6, sync_request,
}

cell-bitmap_bytes_example :
    cell 3 (bitmap_bytes (5 ∷ 6 ∷ 10000001 ∷ []) two_peers.peer_connections) 1 0
    ≡ linked two_peers.peer_connections 6 5
unfolding position contains
cell-bitmap_bytes_example =
    cell-bitmap_bytes (5 ∷ 6 ∷ 10000001 ∷ []) two_peers.peer_connections (ground arith) refl 1 0 6 5
      refl refl

-- Peer 5 has reported a connection to 6.
group_build_sync-linked_example :
    let b = drawn two_peers (5 ∷ 6 ∷ 10000001 ∷ []) in
    (map (λ (v : PeerIdVersion). v.peer_id) b.peer_ids ≡ all_peers two_peers 6)
    × (contains 5 (get_connected_peers_from_bitmap b 1)
        ≡ (contains 5 (all_peers two_peers 6) && linked two_peers.peer_connections 6 5))
unfolding position all_peers group_build_sync build_conn_bitmap relevant_peers BTreeSet.insert
    touch_session session_of HashMap.get pick_infos HashMap.insert pick_info with_stub
    HashMap.contains_key versions_of
group_build_sync-linked_example =
    group_build_sync-linked externals ambient 6 2 false false two_peers
      (drawn two_peers (5 ∷ 6 ∷ 10000001 ∷ [])) 1 6 5 (ground arith) refl refl

-- Peer 6 has no info, and 5 has been sent a later version than its own.
group_build_sync-news_example :
    (group_build_sync externals ambient 5 2 false false acknowledged).1.peer_infos
    ≡ some (make_stub_peer_info ambient 6 1 ∷ acknowledged.my_info ∷ [])
unfolding info_or_stub is_news is_full session_of all_peers HashMap.get BTreeSet.insert
    make_stub_peer_info
group_build_sync-news_example =
    group_build_sync-news externals ambient 5 2 false false acknowledged (ground arith)

conn_version-bump_all_example : conn_version (bump_all_conn_versions two_peers) 5 ≡ 5
unfolding contains HashMap.get
conn_version-bump_all_example = conn_version-bump_all two_peers 5

reconnect_version_example :
    get_peer_conn_version net_key 5
      (add_peer ambient net_key 5 (remove_peer ambient net_key 5 one_group))
    ≡ 2
reconnect_version_example = reconnect_version ambient ambient net_key 5 one_group (ground arith)

update_peer_info_lem_example :
    (info_at (group_update_peer_info 6 info_6 two_peers).0 6 ≡ some info_6)
    × ((group_update_peer_info 6 info_6 two_peers).1 ≡ true)
unfolding HashMap.get newer
update_peer_info_lem_example = update_peer_info_lem 6 6 info_6 two_peers

-- An older info of peer 5 is reported than the one that is stored.
abbrev reported : SyncRouteInfoRequest
reported = record sync_request { peer_infos = some (info_5 ∷ []) }

abbrev reporting : Externals
reporting = record externals { sync_route_info_request = constant reported }

abbrev newer_stored : RouteState
newer_stored = record {
  groups =
      (net_key, record two_peers { peer_infos = (5, record info_5 { version = 7 }) ∷ [] }) ∷ [];
}

handle_sync-learns_example :
    info_at
      (ensure_group ambient
        (handle_sync_route_info reporting ambient rpc_packet [] net_key client.ctx newer_stored).1
        net_key)
      5
    ≡ some (stamped ambient info_5)
unfolding HashMap.get ensure_group contains last_info
handle_sync-learns_example =
    handle_sync-learns reporting ambient net_key [] reported (info_5 ∷ []) refl refl (refl, tt)
      rpc_packet client.ctx 5 newer_stored

group_build_sync_twice_example :
    let second =
      group_build_sync externals ambient 5 3 false false
        (group_build_sync externals ambient 5 2 false true acknowledged).0 in
    (second.1.peer_infos ≡ none) × (second.1.conn_info ≡ none)
unfolding session_of HashMap.get
group_build_sync_twice_example =
    group_build_sync_twice externals ambient ambient 5 2 3 false false true acknowledged refl

-- Peer 6 reports connections to 5, to itself and to a peer that is not online.
group_update_connections_lem_example :
    let c = conn_peer_list (
      record {
        peer_id = some (record { peer_id = 6; version = 1 });
        connected_peer_ids = 5 ∷ 6 ∷ 9 ∷ [];
      }
      ∷ []) in
    has_connection 6 5 (group_update_connections 6 (some c) two_peers).0 ≡ true
unfolding contains find_entry
group_update_connections_lem_example =
    group_update_connections_lem 6 6 5
      (conn_peer_list (
        record {
          peer_id = some (record { peer_id = 6; version = 1 });
          connected_peer_ids = 5 ∷ 6 ∷ 9 ∷ [];
        }
        ∷ []))
      two_peers

-- Peer 6 went away long ago.
group_cleanup_lem_example :
    let h = group_cleanup ambient 600000 (record two_peers { peer_removed_at = (6, 10) ∷ [] }) in
    (has_connection 5 6 h ≡ false) × (HashMap.get 5 h.peer_removed_at ≡ none)
unfolding HashMap.get contains
group_cleanup_lem_example =
    group_cleanup_lem ambient 600000 5 6 (record two_peers { peer_removed_at = (6, 10) ∷ [] })
      (refl, tt)
