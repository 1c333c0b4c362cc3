-- ===== src/Route/ConnInfo.antt =====
-- src/route_state.rs: the peer-to-peer connections that clients report, and the removal of the
-- stale ones.
use easytier_wsrelay.Base.{
  ℕ, suc, ◌-◌, List, [], ◌∷◌, Option, none, some, Bool, true, false, not, ◌&&◌, Text, option_map,
  is_some, ltb, ◌==◌, if◌then◌else◌, nat_eq, text_eq, text_beq, keep,
}
use easytier_wsrelay.Base.HashMap
use easytier_wsrelay.Base.HashMap.{HashMap}
use easytier_wsrelay.Base.BTreeSet
use easytier_wsrelay.Base.BTreeSet.{BTreeSet}
use easytier_wsrelay.Constants.{my_peer_id}
use easytier_wsrelay.Proto.{
  PeerIdVersion, PeerConnInfo, ConnInfo, conn_bitmap, conn_peer_list, Externals,
}
use easytier_wsrelay.Proto.Ambient.{Ambient}
use easytier_wsrelay.Route.Group.{
  RouteGroupData, RouteState, ensure_group, put_group, bump_all_conn_versions,
}
use easytier_wsrelay.Route.Bitmap.{get_connected_peers_from_bitmap}

-- `bitmap.peer_ids.iter().position(|p| p.peer_id == from_peer_id)`.
unfoldable pub position_of : ℕ → List PeerIdVersion → Option ℕ
position_of p [] = none
position_of p (x ∷ xs) = if x.peer_id == p then some 0 else option_map suc (position_of p xs)

-- `info.peer_id.as_ref().map(|p| p.peer_id) == Some(from_peer_id)`.
abbrev pub is_entry_of : ℕ → Option PeerIdVersion → Bool
is_entry_of p none = false
is_entry_of p (some x) = x.peer_id == p

unfoldable pub find_entry : ℕ → List PeerConnInfo → Option PeerConnInfo
find_entry p [] = none
find_entry p (x ∷ xs) = if is_entry_of p x.peer_id then some x else find_entry p xs

-- The filter of both arms: neither the server nor the sender, and online in the group.
unfoldable pub is_p2p : RouteGroupData → ℕ → ℕ → Bool
is_p2p g from p = not (p == my_peer_id) && (not (p == from) && BTreeSet.contains p g.peers)

-- The connections that a report states for its sender; `none` is the heartbeat without any.
unfoldable pub p2p_connections : RouteGroupData → ℕ → Option ConnInfo → Option BTreeSet
p2p_connections g from none = none
p2p_connections g from (some (conn_bitmap bitmap)) = some (elim (position_of from bitmap.peer_ids) [
  | none ↦ []
  | some peer_idx ↦
      BTreeSet.collect (keep (is_p2p g from) (get_connected_peers_from_bitmap bitmap peer_idx))
])
p2p_connections g from (some (conn_peer_list list)) = some (elim (find_entry from list) [
  | none ↦ []
  | some info ↦ BTreeSet.collect (keep (is_p2p g from) info.connected_peer_ids)
])

abbrev pub is_empty_set : BTreeSet → Bool
is_empty_set [] = true
is_empty_set (x ∷ xs) = false

abbrev pub differs : Option BTreeSet → BTreeSet → Bool
differs none s = true
differs (some old) s = not (text_beq old s)

-- `set_connections` is the end of `update_peer_connections_from_conn_info`, from `let changed`.
unfoldable pub set_connections : ℕ → BTreeSet → RouteGroupData → RouteGroupData × Bool
set_connections from conns g =
    let old = HashMap.get from g.peer_connections in
    let changed = if is_empty_set conns then is_some old else differs old conns in
    let g' = record g {
      peer_connections =
          if is_empty_set conns
          then HashMap.remove from g.peer_connections
          else HashMap.insert from conns g.peer_connections;
    } in
    (if changed then bump_all_conn_versions g' else g', changed)

unfoldable pub group_update_connections :
    ℕ → Option ConnInfo → RouteGroupData → RouteGroupData × Bool
group_update_connections from conn_info g = elim (p2p_connections g from conn_info) [
  | none ↦ (g, false)
  | some conns ↦ set_connections from conns g
]

unfoldable pub update_peer_connections_from_conn_info :
    Externals → Ambient → Text → ℕ → Text → RouteState → RouteState × Bool
update_peer_connections_from_conn_info ext env group_key from request_bytes s =
    elim (ext.sync_route_info_request.decode request_bytes) [
      | none ↦ (s, false)
      | some req ↦
          let r = group_update_connections from req.conn_info (ensure_group env s group_key) in
          (put_group group_key r.0 s, r.1)
    ]

-- The peers that `cleanup_stale_peer_connections` collects. `saturating_sub` is `-` on ℕ.
unfoldable pub stale_peers : ℕ → ℕ → HashMap ℕ ℕ → List ℕ
stale_peers now threshold [] = []
stale_peers now threshold ((peer_id, removed_at) ∷ m) =
    let rest = stale_peers now threshold m in
    if ltb threshold (now - removed_at) then peer_id ∷ rest else rest

-- The body of its second loop.
unfoldable pub forget_peer : ℕ → RouteGroupData → RouteGroupData
forget_peer peer_id g = record g {
  peer_connections =
      HashMap.map_values (BTreeSet.remove peer_id) (HashMap.remove peer_id g.peer_connections);
  peer_removed_at = HashMap.remove peer_id g.peer_removed_at;
}

unfoldable pub forget_peers : List ℕ → RouteGroupData → RouteGroupData
forget_peers [] g = g
forget_peers (p ∷ ps) g = forget_peers ps (forget_peer p g)

unfoldable pub group_cleanup : Ambient → ℕ → RouteGroupData → RouteGroupData
group_cleanup env threshold g = forget_peers (stale_peers env.now_ms threshold g.peer_removed_at) g

unfoldable pub cleanup_stale_peer_connections : Ambient → Text → ℕ → RouteState → RouteState
cleanup_stale_peer_connections env group_key threshold s =
    put_group group_key (group_cleanup env threshold (ensure_group env s group_key)) s
