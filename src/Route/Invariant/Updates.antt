-- ===== src/Route/Invariant/Updates.antt =====
-- The operations of src/route_state.rs on sessions, infos and connections keep the invariant.
use easytier_wsrelay.Base.{
  ℕ, List, [], ◌∷◌, Option, none, some, Bool, true, false, Text, ◌≡◌, refl, arith, All,
  if◌then◌else◌, Option-cases, Bool-cases, inl, inr, nat_eq, keep,
}
use easytier_wsrelay.Base.HashMap
use easytier_wsrelay.Base.HashMap.{HashMap, get-insert, get-remove, All-insert, All-remove}
use easytier_wsrelay.Base.BTreeSet
use easytier_wsrelay.Base.BTreeSet.{
  BTreeSet, contains, contains-remove, contains-collect, contains-keep,
}
use easytier_wsrelay.Constants.{my_peer_id}
use easytier_wsrelay.Proto.{
  RoutePeerInfo, ConnInfo, conn_bitmap, conn_peer_list, SyncRouteInfoRequest, Externals,
}
use easytier_wsrelay.Proto.Ambient.{Ambient}
use easytier_wsrelay.Route.Group.{RouteGroupData, bump_all_conn_versions}
use easytier_wsrelay.Route.Peers.{group_session_ack, group_bump_my_info, write_field}
use easytier_wsrelay.Route.ConnInfo.{
  is_p2p, p2p_connections, set_connections, group_update_connections, forget_peer, forget_peers,
  group_cleanup, position_of, find_entry, is_empty_set,
}
use easytier_wsrelay.Route.Bitmap.{
  build_conn_bitmap, is_signature, signature, versions_of, bitmap_bytes,
  get_connected_peers_from_bitmap,
}
use easytier_wsrelay.Route.Group.{session_of}
use easytier_wsrelay.Route.Sync.{
  touch_session, pick_infos, bump_foreign, group_build_sync, receive_session, receive_infos,
  store_infos, group_handle_sync, relevant_peers, is_full,
}
use easytier_wsrelay.Route.Invariant.{
  IsP2p, IsWellFormed, SameCore, bump-IsWellFormed, if-IsWellFormed,
}

pub session_ack-SameCore :
    (env : Ambient) (p sid : ℕ) (b : Bool) (g : RouteGroupData)
    → SameCore g (group_session_ack env p sid b g)
unfolding group_session_ack
session_ack-SameCore env p sid b g = ground arith

pub bump_my_info-IsWellFormed :
    (g : RouteGroupData) → IsWellFormed g → IsWellFormed (group_bump_my_info g)
unfolding group_bump_my_info
bump_my_info-IsWellFormed g w = record {
  ascending = w.ascending;
  server_id = w.server_id;
  server_version = refl;
  online = w.online;
  p2p = w.p2p;
}

-- Writing a field keeps the server's id, and the version is set by the bump that follows.
pub write_field-IsWellFormed :
    (ext : Externals) (field value : Text) (g : RouteGroupData) (info : RoutePeerInfo)
    → write_field ext field value g.my_info ≡ some info
    → IsWellFormed g
    → IsWellFormed (group_bump_my_info (record g { my_info = info }))
unfolding group_bump_my_info write_field
write_field-IsWellFormed ext field value g info e w = record {
  ascending = w.ascending;
  server_id = ground (arith, w.server_id);
  server_version = refl;
  online = w.online;
  p2p = w.p2p;
}

-- The filter leaves out the sender and the server.
filtered-IsP2p :
    (g : RouteGroupData) (from : ℕ) (xs : List ℕ)
    → IsP2p from (BTreeSet.collect (keep (is_p2p g from) xs))
unfolding is_p2p
filtered-IsP2p g from xs = (
  ground (
    arith,
    contains-collect from (keep (is_p2p g from) xs),
    contains-keep (is_p2p g from) from xs,
  ),
  ground (
    arith,
    contains-collect my_peer_id (keep (is_p2p g from) xs),
    contains-keep (is_p2p g from) my_peer_id xs,
  ),
)

p2p_connections-IsP2p :
    (g : RouteGroupData) (from : ℕ) (c : Option ConnInfo) (conns : BTreeSet)
    → p2p_connections g from c ≡ some conns
    → IsP2p from conns
unfolding p2p_connections contains
p2p_connections-IsP2p g from none conns e = absurd (ground arith)
p2p_connections-IsP2p g from (some (conn_bitmap b)) conns e =
    elim (Option-cases (position_of from b.peer_ids)) [
      | inl n ↦ ground (arith, n)
      | inr (i, s) ↦ ground (arith, s, filtered-IsP2p g from (get_connected_peers_from_bitmap b i))
    ]
p2p_connections-IsP2p g from (some (conn_peer_list l)) conns e =
    elim (Option-cases (find_entry from l)) [
      | inl n ↦ ground (arith, n)
      | inr (i, s) ↦ ground (arith, s, filtered-IsP2p g from i.connected_peer_ids)
    ]

set_connections-IsWellFormed :
    (from : ℕ) (conns : BTreeSet) (g : RouteGroupData)
    → IsP2p from conns
    → IsWellFormed g
    → IsWellFormed (set_connections from conns g).0
unfolding set_connections
set_connections-IsWellFormed from conns g c w =
    if-IsWellFormed _ _ _ (bump-IsWellFormed _ changed_fits) changed_fits
  where
    changed_fits : IsWellFormed (record g {
      peer_connections =
          if is_empty_set conns
          then HashMap.remove from g.peer_connections
          else HashMap.insert from conns g.peer_connections;
    })
    changed_fits = record {
      ascending = w.ascending;
      server_id = w.server_id;
      server_version = w.server_version;
      online = w.online;
      p2p = pick (is_empty_set conns);
    }
      where
        pick :
            (b : Bool)
            → All
                (λ e. IsP2p e.0 e.1)
                (if b
                  then HashMap.remove from g.peer_connections
                  else HashMap.insert from conns g.peer_connections)
        pick true = All-remove _ from g.peer_connections w.p2p
        pick false = All-insert _ from conns g.peer_connections c w.p2p

pub update_connections-IsWellFormed :
    (from : ℕ) (c : Option ConnInfo) (g : RouteGroupData)
    → IsWellFormed g
    → IsWellFormed (group_update_connections from c g).0
unfolding group_update_connections
update_connections-IsWellFormed from c g w = elim (Option-cases (p2p_connections g from c)) [
  | inl n ↦ rw (n, group_update_connections) w
  | inr (conns, e) ↦
      rw (e, group_update_connections)
        (set_connections-IsWellFormed from conns g (p2p_connections-IsP2p g from c conns e) w)
]

removed-IsP2p :
    (p : ℕ) (m : HashMap ℕ BTreeSet)
    → All (λ e. IsP2p e.0 e.1) m
    → All (λ e. IsP2p e.0 e.1) (HashMap.map_values (BTreeSet.remove p) m)
removed-IsP2p p [] a = tt
removed-IsP2p p ((k, conns) ∷ m) a = (
  (
    ground (arith, contains-remove p k conns, a.0),
    ground (arith, contains-remove p my_peer_id conns, a.0),
  ),
  removed-IsP2p p m a.1,
)

forget_peer-IsWellFormed :
    (p : ℕ) (g : RouteGroupData) → IsWellFormed g → IsWellFormed (forget_peer p g)
unfolding forget_peer
forget_peer-IsWellFormed p g w = record {
  ascending = w.ascending;
  server_id = w.server_id;
  server_version = w.server_version;
  online = λ q h. ground (arith, get-remove p q g.peer_removed_at, w.online q);
  p2p = removed-IsP2p p _ (All-remove _ p g.peer_connections w.p2p);
}

forget_peers-IsWellFormed :
    (ps : List ℕ) (g : RouteGroupData) → IsWellFormed g → IsWellFormed (forget_peers ps g)
unfolding forget_peers
forget_peers-IsWellFormed [] g w = w
forget_peers-IsWellFormed (p ∷ ps) g w =
    forget_peers-IsWellFormed ps (forget_peer p g) (forget_peer-IsWellFormed p g w)

pub cleanup-IsWellFormed :
    (env : Ambient) (t : ℕ) (g : RouteGroupData)
    → IsWellFormed g
    → IsWellFormed (group_cleanup env t g)
unfolding group_cleanup
cleanup-IsWellFormed env t g w = forget_peers-IsWellFormed _ g w

-- The bitmap's record of what was sent is in the sessions.
pub build_conn_bitmap-SameCore :
    (ext : Externals) (ps : List ℕ) (t : ℕ) (g : RouteGroupData)
    → SameCore g (build_conn_bitmap ext ps t g).0
unfolding build_conn_bitmap
build_conn_bitmap-SameCore ext [] t g = ground arith
build_conn_bitmap-SameCore ext (p ∷ ps) t g =
    elim (Bool-cases (
      is_signature (session_of g t).last_conn_bitmap_sig
        (signature ext (versions_of g (p ∷ ps)) (bitmap_bytes (p ∷ ps) g.peer_connections)))) [
          | inl e ↦ rw (e) (ground arith)
          | inr e ↦ rw (e) (ground arith)
        ]

pub build_sync-SameCore :
    (ext : Externals) (env : Ambient) (t sid : ℕ) (init force : Bool) (g : RouteGroupData)
    → SameCore g (group_build_sync ext env t sid init force g).0
unfolding group_build_sync touch_session pick_infos bump_foreign
build_sync-SameCore ext env t sid init force g = ground (
  arith,
  build_conn_bitmap-SameCore ext (relevant_peers (touch_session env t sid g) t) t
      (pick_infos env (is_full force (touch_session env t sid g) t) t
        (touch_session env t sid g)).0,
)

receive_infos-SameCore :
    (env : Ambient) (from : ℕ) (items : Option (List RoutePeerInfo)) (g : RouteGroupData)
    → SameCore g (receive_infos env from items g)
unfolding receive_infos bump_all_conn_versions
receive_infos-SameCore env from none g = ground arith
receive_infos-SameCore env from (some items) g =
    elim (Bool-cases (store_infos env from g.peers items g.peer_infos).1) [
      | inl e ↦ rw e (ground arith)
      | inr e ↦ rw e (ground arith)
    ]

pub handle_sync-SameCore :
    (env : Ambient) (from : ℕ) (req : SyncRouteInfoRequest) (g : RouteGroupData)
    → SameCore g (group_handle_sync env from req g).0
unfolding group_handle_sync receive_session
handle_sync-SameCore env from req g = ground (
  arith,
  receive_infos-SameCore env from req.peer_infos
      (receive_session env from req.my_session_id req.is_initiator g),
)
