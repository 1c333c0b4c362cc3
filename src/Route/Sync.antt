-- ===== src/Route/Sync.antt =====
-- src/route_state.rs: the route updates that the server sends, and its answer to a client's.
use Prim.Native.Nat.{max}
use easytier_wsrelay.Base.{
  ℕ, ◌+◌, ◌/◌, List, [], ◌∷◌, Option, none, some, Bool, false, not, ◌||◌, ◌&&◌, Text, codes,
  unwrap_or, option_map, is_some, ltb, leb, ◌==◌, if◌then◌else◌, nat_eq, text_eq, keep, replicate,
  ◌>>=◌,
}
use easytier_wsrelay.Base.HashMap
use easytier_wsrelay.Base.HashMap.{HashMap}
use easytier_wsrelay.Base.BTreeSet
use easytier_wsrelay.Base.BTreeSet.{BTreeSet}
use easytier_wsrelay.Base.Words.{wrap32}
use easytier_wsrelay.Constants.{my_peer_id}
use easytier_wsrelay.Proto.{
  RoutePeerInfo, conn_bitmap, ForeignInfo, SyncRouteInfoRequest, SyncRouteInfoResponse, Externals,
  default_peer_info,
}
use easytier_wsrelay.Proto.Ambient.{Ambient}
use easytier_wsrelay.Route.Group.{
  SessionState, RouteGroupData, RouteState, ensure_group, put_group, session_of,
  bump_all_conn_versions,
}
use easytier_wsrelay.Route.Peers.{start_session}
use easytier_wsrelay.Route.Bitmap.{build_conn_bitmap}

unfoldable pub make_stub_peer_info : Ambient → ℕ → ℕ → RoutePeerInfo
make_stub_peer_info env peer_id network_length = record default_peer_info {
  peer_id = peer_id;
  version = 1;
  last_update = some (record { seconds = env.now_ms / 1000; nanos = 0 });
  inst_id = some (record { part1 = 0; part2 = 0; part3 = 0; part4 = 0 });
  cost = 1;
  hostname = none;
  easytier_version = codes "cf-2.6";
  feature_flag = none;
  network_length = network_length;
  peer_route_id = 0;
}

-- `relevant_peers.sort()`.
unfoldable pub insert_sorted : ℕ → List ℕ → List ℕ
insert_sorted a [] = a ∷ []
insert_sorted a (x ∷ xs) = if leb a x then a ∷ x ∷ xs else x ∷ insert_sorted a xs

unfoldable pub sort : List ℕ → List ℕ
unfolding insert_sorted
sort [] = []
sort (x ∷ xs) = insert_sorted x (sort xs)

unfoldable pub all_peers : RouteGroupData → ℕ → BTreeSet
all_peers g target = BTreeSet.insert target (BTreeSet.insert my_peer_id g.peers)

unfoldable pub relevant_peers : RouteGroupData → ℕ → List ℕ
unfolding sort
relevant_peers g target = sort (my_peer_id ∷ keep (λ p. not (p == my_peer_id)) (all_peers g target))

-- What the loop over the relevant peers changes: the infos to send, the stored infos and the
-- versions that the session has been sent.
pub record Picked : Type 0 where
  pub items : List RoutePeerInfo
  pub peer_infos : HashMap ℕ RoutePeerInfo
  pub peer_info_ver_map : HashMap ℕ ℕ

-- A peer without an info gets a stub.
unfoldable pub with_stub : Ambient → ℕ → ℕ → HashMap ℕ RoutePeerInfo → HashMap ℕ RoutePeerInfo
with_stub env net_len pid infos =
    if not (pid == my_peer_id) && not (HashMap.contains_key pid infos)
    then HashMap.insert pid (make_stub_peer_info env pid net_len) infos
    else infos

unfoldable pub info_of : RoutePeerInfo → HashMap ℕ RoutePeerInfo → ℕ → RoutePeerInfo
info_of my_info infos pid =
    if pid == my_peer_id then my_info else unwrap_or (HashMap.get pid infos) default_peer_info

unfoldable pub pick_info :
    Ambient → Bool → ℕ → RoutePeerInfo → HashMap ℕ RoutePeerInfo → HashMap ℕ ℕ → List ℕ → Picked
pick_info env force net_len my_info infos vers [] = record {
  items = [];
  peer_infos = infos;
  peer_info_ver_map = vers;
}
pick_info env force net_len my_info infos vers (pid ∷ pids) =
    let infos' = with_stub env net_len pid infos in
    let info = info_of my_info infos' pid in
    let version = max info.version 1 in
    let prev : ℕ = if force then 0 else unwrap_or (HashMap.get pid vers) 0 in
    let send = force || ltb prev version in
    let rest =
      pick_info env force net_len my_info infos'
        (if send then HashMap.insert pid version vers else vers) pids in
    record rest { items = if send then info ∷ rest.items else rest.items }

foreign_network_name : Text
foreign_network_name = codes "dev-websocket-relay"

unfoldable pub foreign_info : Ambient → BTreeSet → ℕ → ForeignInfo
unfolding foreign_network_name
foreign_info env peers version = record {
  key = some (record { peer_id = my_peer_id; network_name = foreign_network_name });
  value = some (record {
    foreign_peer_ids = peers;
    last_update = some (record { seconds = env.now_ms / 1000; nanos = 0 });
    version = version;
    network_secret_digest = replicate 32 0;
    my_peer_id_for_this_network = my_peer_id;
  });
}

abbrev pub put_session : ℕ → SessionState → RouteGroupData → RouteGroupData
put_session peer_id session g = record g { sessions = HashMap.insert peer_id session g.sessions }

-- The first block: the session is touched, and created where it is new.
unfoldable pub touch_session : Ambient → ℕ → ℕ → RouteGroupData → RouteGroupData
touch_session env target server_session_id g =
    put_session target
      (record (session_of g target) {
        my_session_id = some server_session_id;
        last_touch_ms = env.now_ms;
      })
      g

-- `force_full_local`: the session exists by now.
unfoldable pub is_full : Bool → RouteGroupData → ℕ → Bool
is_full force_full g target = force_full || not (is_some (session_of g target).dst_session_id)

-- The loop over the relevant peers, on the group.
unfoldable pub pick_infos :
    Ambient → Bool → ℕ → RouteGroupData → RouteGroupData × List RoutePeerInfo
pick_infos env force target g =
    let session = session_of g target in
    let r =
      pick_info env force (max g.my_info.network_length 1) g.my_info g.peer_infos
        session.peer_info_ver_map (relevant_peers g target) in
    (
      record g {
        peer_infos = r.peer_infos;
        sessions =
            HashMap.insert target (record session { peer_info_ver_map = r.peer_info_ver_map })
              g.sessions;
      },
      r.items,
    )

-- The version of the foreign network's entry moves with every update.
unfoldable pub bump_foreign : ℕ → RouteGroupData → RouteGroupData × ℕ
bump_foreign target g =
    let session = session_of g target in
    let version = wrap32 (session.foreign_net_ver + 1) in
    (put_session target (record session { foreign_net_ver = version }) g, version)

abbrev pub non_empty : List RoutePeerInfo → Option (List RoutePeerInfo)
non_empty [] = none
non_empty (i ∷ is) = some (i ∷ is)

-- `build_sync_route_info_request` on its group, up to the encoding of the request.
unfoldable pub group_build_sync :
    Externals
    → Ambient
    → ℕ
    → ℕ
    → Bool
    → Bool
    → RouteGroupData
    → RouteGroupData × SyncRouteInfoRequest
group_build_sync ext env target server_session_id we_are_initiator force_full g =
    let g₁ = touch_session env target server_session_id g in
    let picked = pick_infos env (is_full force_full g₁ target) target g₁ in
    let built = build_conn_bitmap ext (relevant_peers g₁ target) target picked.0 in
    let foreign = bump_foreign target built.0 in
    (
      foreign.0,
      record {
        my_peer_id = my_peer_id;
        my_session_id = server_session_id;
        is_initiator = we_are_initiator;
        peer_infos = non_empty picked.1;
        conn_info = option_map conn_bitmap built.1;
        foreign_network_infos = some (foreign_info env (all_peers g₁ target) foreign.1 ∷ []);
      },
    )

unfoldable pub build_sync_route_info_request :
    Externals → Ambient → Text → ℕ → ℕ → Bool → Bool → RouteState → RouteState × Text
build_sync_route_info_request ext env group_key target server_session_id we_are_initiator force_full
      s =
    let r =
      group_build_sync ext env target server_session_id we_are_initiator force_full
        (ensure_group env s group_key) in
    (put_group group_key r.0 s, ext.sync_route_info_request.encode r.1)

-- The loop of `handle_sync_route_info_request` over the infos, with the flag `need_bump`.
unfoldable pub store_infos :
    Ambient
    → ℕ
    → BTreeSet
    → List RoutePeerInfo
    → HashMap ℕ RoutePeerInfo
    → HashMap ℕ RoutePeerInfo × Bool
store_infos env from peers [] infos = (infos, false)
store_infos env from peers (info ∷ rest) infos =
    let is_connected = BTreeSet.contains info.peer_id peers || info.peer_id == from in
    let is_new = not (HashMap.contains_key info.peer_id infos) in
    let stamped = record info {
      last_update = some (record { seconds = env.now_ms / 1000; nanos = 0 });
    } in
    let r =
      store_infos env from peers rest
        (if is_connected then HashMap.insert info.peer_id stamped infos else infos) in
    (r.0, (is_connected && is_new) || r.1)

-- The first block: the session of the sender.
unfoldable pub receive_session : Ambient → ℕ → ℕ → Bool → RouteGroupData → RouteGroupData
receive_session env from sid is_initiator g =
    let session = start_session sid (session_of g from) in
    put_session from
      (record session {
        last_touch_ms = env.now_ms;
        we_are_initiator = if is_initiator then false else session.we_are_initiator;
      })
      g

unfoldable pub receive_infos :
    Ambient → ℕ → Option (List RoutePeerInfo) → RouteGroupData → RouteGroupData
receive_infos env from none g = g
receive_infos env from (some items) g =
    let r = store_infos env from g.peers items g.peer_infos in
    let g' = record g { peer_infos = r.0 } in if r.1 then bump_all_conn_versions g' else g'

unfoldable pub group_handle_sync :
    Ambient → ℕ → SyncRouteInfoRequest → RouteGroupData → RouteGroupData × SyncRouteInfoResponse
group_handle_sync env from req g =
    let g₁ = receive_session env from req.my_session_id req.is_initiator g in
    let g₂ = receive_infos env from req.peer_infos g₁ in
    (
      g₂,
      record {
        is_initiator = not req.is_initiator;
        session_id =
            unwrap_or (HashMap.get from g₂.sessions >>= λ (s : SessionState). s.my_session_id) 1;
        error = none;
      },
    )

unfoldable pub handle_sync_route_info_request :
    Externals → Ambient → Text → ℕ → Text → RouteState → Option (RouteState × Text)
handle_sync_route_info_request ext env group_key from request_bytes s = do
  req ← ext.sync_route_info_request.decode request_bytes
  let r = group_handle_sync env from req (ensure_group env s group_key)
  some (put_group group_key r.0 s, ext.sync_route_info_response.encode r.1)
