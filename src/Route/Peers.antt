-- ===== src/Route/Peers.antt =====
-- src/route_state.rs: the peers of a group, their infos, their sessions and the server's own info.
use easytier_wsrelay.Base.{
  ℕ, ◌+◌, List, [], Option, none, some, Bool, true, false, not, Text, codes, unwrap_or, option_map,
  is_some, ltb, ◌==◌, if◌then◌else◌, ◌>>=◌, nat_eq, text_eq, text_beq,
}
use easytier_wsrelay.Base.HashMap
use easytier_wsrelay.Base.HashMap.{HashMap}
use easytier_wsrelay.Base.BTreeSet
use easytier_wsrelay.Base.BTreeSet.{BTreeSet}
use easytier_wsrelay.Base.Words.{wrap32}
use easytier_wsrelay.Proto.{RoutePeerInfo, Externals}
use easytier_wsrelay.Proto.Ambient.{Ambient}
use easytier_wsrelay.Route.Group.{
  SessionState, RouteGroupData, RouteState, ensure_group, put_group, session_of,
  bump_all_conn_versions,
}

-- The body of `add_peer` on its group. `insert` of a set returns whether the element is new.
unfoldable pub group_add_peer : ℕ → RouteGroupData → RouteGroupData
group_add_peer peer_id g =
    let is_new = not (BTreeSet.contains peer_id g.peers) in
    let g' = record g {
      peers = BTreeSet.insert peer_id g.peers;
      peer_removed_at = HashMap.remove peer_id g.peer_removed_at;
    } in
    if is_new then bump_all_conn_versions g' else g'

unfoldable pub add_peer : Ambient → Text → ℕ → RouteState → RouteState
add_peer env group_key peer_id s =
    put_group group_key (group_add_peer peer_id (ensure_group env s group_key)) s

-- The body of `remove_peer` on its group.
unfoldable pub group_remove_peer : Ambient → ℕ → RouteGroupData → RouteGroupData
group_remove_peer env peer_id g =
    let was_present = BTreeSet.contains peer_id g.peers in
    let g' = record g {
      peers = BTreeSet.remove peer_id g.peers;
      peer_infos = HashMap.remove peer_id g.peer_infos;
      sessions = HashMap.remove peer_id g.sessions;
      peer_conn_versions = HashMap.remove peer_id g.peer_conn_versions;
      peer_removed_at = HashMap.insert peer_id env.now_ms g.peer_removed_at;
    } in
    if was_present then bump_all_conn_versions g' else g'

unfoldable pub remove_peer : Ambient → Text → ℕ → RouteState → RouteState
remove_peer env group_key peer_id s =
    put_group group_key (group_remove_peer env peer_id (ensure_group env s group_key)) s

-- The body of `update_peer_info` on its group, with the decoded info: the new group, and whether
-- the info is new or of a higher version.
unfoldable pub group_update_peer_info : ℕ → RoutePeerInfo → RouteGroupData → RouteGroupData × Bool
group_update_peer_info peer_id info g =
    let old_version =
      option_map (λ (i : RoutePeerInfo). i.version) (HashMap.get peer_id g.peer_infos) in
    let is_new = not (is_some old_version) in
    let changed : Bool = elim old_version [ none ↦ true | some old ↦ ltb old info.version ] in
    let g' = record g { peer_infos = HashMap.insert peer_id info g.peer_infos } in
    (if changed then (if is_new then bump_all_conn_versions g' else g') else g, changed)

-- `none` is the `Err` of a refused decoding, which leaves the state alone.
unfoldable pub update_peer_info :
    Externals → Ambient → Text → ℕ → Text → RouteState → Option (RouteState × Bool)
update_peer_info ext env group_key peer_id info_bytes s = do
  info ← ext.route_peer_info.decode info_bytes
  let r = group_update_peer_info peer_id info (ensure_group env s group_key)
  some (put_group group_key r.0 s, r.1)

abbrev pub is_session : Option ℕ → ℕ → Bool
is_session none sid = false
is_session (some d) sid = d == sid

-- What both handlers do when the other side starts a new session: everything that was sent in
-- the old one is forgotten.
unfoldable pub start_session : ℕ → SessionState → SessionState
start_session sid s = record s' { dst_session_id = some sid }
  where
    s' : SessionState
    s' = if is_session s.dst_session_id sid then s else record s {
      peer_info_ver_map = [];
      conn_bitmap_ver_map = [];
      foreign_net_ver = 0;
      last_conn_bitmap_sig = none;
    }

unfoldable pub group_session_ack : Ambient → ℕ → ℕ → Bool → RouteGroupData → RouteGroupData
group_session_ack env peer_id their_session_id we_are_initiator g = record g {
  sessions =
      HashMap.insert peer_id
        (record (start_session their_session_id (session_of g peer_id)) {
          we_are_initiator = we_are_initiator;
          last_touch_ms = env.now_ms;
        })
        g.sessions;
}

unfoldable pub on_route_session_ack : Ambient → Text → ℕ → ℕ → Bool → RouteState → RouteState
on_route_session_ack env group_key peer_id their_session_id we_are_initiator s =
    put_group group_key
      (group_session_ack env peer_id their_session_id we_are_initiator
        (ensure_group env s group_key))
      s

unfoldable pub get_peer_conn_version : Text → ℕ → RouteState → ℕ
get_peer_conn_version group_key peer_id s =
    unwrap_or (HashMap.get group_key s.groups >>= λ g. HashMap.get peer_id g.peer_conn_versions) 1

unfoldable pub get_peer_ids_in_group : Text → RouteState → List ℕ
get_peer_ids_in_group group_key s =
    unwrap_or (option_map (λ (g : RouteGroupData). g.peers) (HashMap.get group_key s.groups)) []

unfoldable pub group_bump_my_info : RouteGroupData → RouteGroupData
group_bump_my_info g = record g {
  my_info_version = wrap32 (g.my_info_version + 1);
  my_info = record g.my_info { version = wrap32 (g.my_info_version + 1) };
}

unfoldable pub bump_my_info_version : Ambient → Text → RouteState → RouteState
bump_my_info_version env group_key s =
    put_group group_key (group_bump_my_info (ensure_group env s group_key)) s

unfoldable pub hostname_field : Text
hostname_field = codes "hostname"

unfoldable pub network_length_field : Text
network_length_field = codes "network_length"

unfoldable pub ipv4_addr_field : Text
ipv4_addr_field = codes "ipv4_addr"

-- The `match field` of `set_my_info_field`; `none` is an `Err`.
unfoldable pub write_field : Externals → Text → Text → RoutePeerInfo → Option RoutePeerInfo
unfolding hostname_field network_length_field ipv4_addr_field
write_field ext field value info =
    if text_beq field hostname_field
    then some (record info { hostname = some value })
    else if text_beq field network_length_field
    then option_map (λ n. record info { network_length = n }) (ext.parse_u32 value)
    else if text_beq field ipv4_addr_field
    then option_map (λ n. record info { ipv4_addr = some n }) (ext.parse_u32 value)
    else none

-- An `Err` is returned before the version moves; the group is created all the same.
unfoldable pub set_my_info_field :
    Externals → Ambient → Text → Text → Text → RouteState → RouteState × Bool
unfolding write_field
set_my_info_field ext env group_key field value s =
    let g = ensure_group env s group_key in
    elim (write_field ext field value g.my_info) [
      | none ↦ (put_group group_key g s, false)
      | some info ↦ (put_group group_key (group_bump_my_info (record g { my_info = info })) s, true)
    ]
