-- ===== src/Route/Infos.antt =====
-- The peer infos of src/route_state.rs: which of two versions is kept.
use easytier_wsrelay.Base.{
  ℕ, ◌/◌, List, [], ◌∷◌, Option, none, some, true, ◌||◌, ◌==◌, ◌≡◌, arith, if◌then◌else◌,
  Option-cases, Bool-cases, inl, inr, nat_eq, ltb, ◌∙◌,
}
use easytier_wsrelay.Base.HashMap
use easytier_wsrelay.Base.HashMap.{HashMap, get-insert}
use easytier_wsrelay.Base.BTreeSet.{BTreeSet, contains}
use easytier_wsrelay.Proto.{RoutePeerInfo, SyncRouteInfoRequest}
use easytier_wsrelay.Proto.Ambient.{Ambient}
use easytier_wsrelay.Route.Group.{RouteGroupData, bump_all_conn_versions}
use easytier_wsrelay.Route.Peers.{group_update_peer_info}
use easytier_wsrelay.Route.Sync.{store_infos, receive_infos, receive_session, group_handle_sync}

abbrev pub info_at : RouteGroupData → ℕ → Option RoutePeerInfo
info_at g p = HashMap.get p g.peer_infos

-- The info of the higher version, the stored one at equal versions.
unfoldable pub newer : Option RoutePeerInfo → RoutePeerInfo → RoutePeerInfo
newer none info = info
newer (some old) info = if ltb old.version info.version then info else old

-- `update_peer_info` keeps the newer of the stored and the reported info of its peer, leaves every
-- other info, and reports a change exactly if the reported one is kept because the peer is new or
-- its version higher.
pub update_peer_info_lem :
    (p q : ℕ) (info : RoutePeerInfo) (g : RouteGroupData)
    → (info_at (group_update_peer_info p info g).0 q
        ≡ (if p == q then some (newer (info_at g p) info) else info_at g q))
      × ((group_update_peer_info p info g).1
          ≡ elim (info_at g p) [ none ↦ true | some old ↦ ltb old.version info.version ])
unfolding group_update_peer_info newer bump_all_conn_versions
update_peer_info_lem p q info g = elim (Option-cases (HashMap.get p g.peer_infos)) [
  | inl e ↦ ground (arith, e, get-insert p q info g.peer_infos)
  | inr (old, e) ↦ ground (arith, e, get-insert p q info g.peer_infos)
]

-- An info as `handle_sync_route_info_request` stores it.
abbrev pub stamped : Ambient → RoutePeerInfo → RoutePeerInfo
stamped env info = record info {
  last_update = some (record { seconds = env.now_ms / 1000; nanos = 0 });
}

-- The last info of a peer in a report.
unfoldable pub last_info : ℕ → List RoutePeerInfo → Option RoutePeerInfo
last_info p [] = none
last_info p (i ∷ is) = elim (last_info p is) [
  | none ↦ if i.peer_id == p then some i else none
  | some j ↦ some j
]

-- A reported info replaces the stored one.
abbrev pub overwritten :
    Ambient → Option RoutePeerInfo → Option RoutePeerInfo → Option RoutePeerInfo
overwritten env none old = old
overwritten env (some i) old = some (stamped env i)

get-store_infos :
    (env : Ambient) (from p : ℕ) (peers : BTreeSet) (items : List RoutePeerInfo)
    (infos : HashMap ℕ RoutePeerInfo)
    → HashMap.get p (store_infos env from peers items infos).0 ≡ (
        if contains p peers || p == from
        then overwritten env (last_info p items) (HashMap.get p infos)
        else HashMap.get p infos)
unfolding store_infos last_info
get-store_infos env from p peers [] infos = ground arith
get-store_infos env from p peers (i ∷ is) infos =
    elim (Bool-cases (contains i.peer_id peers || i.peer_id == from)) [
      | inl t ↦ rw t (
          get-store_infos env from p peers is (HashMap.insert i.peer_id (stamped env i) infos)
          ∙ ground (arith, t, get-insert i.peer_id p (stamped env i) infos))
      | inr f ↦ rw f (get-store_infos env from p peers is infos ∙ ground (arith, f))
    ]

receive_infos_at :
    (env : Ambient) (from p : ℕ) (items : List RoutePeerInfo) (g : RouteGroupData)
    → info_at (receive_infos env from (some items) g) p
      ≡ HashMap.get p (store_infos env from g.peers items g.peer_infos).0
unfolding receive_infos bump_all_conn_versions
receive_infos_at env from p items g =
    elim (Bool-cases (store_infos env from g.peers items g.peer_infos).1) [
      | inl e ↦ rw e
      | inr e ↦ rw e
    ]

-- The answer to a request with infos stores the last reported info of each peer that is online or
-- the sender, whatever version is stored already, and leaves every other info.
pub handle_sync_overwrites :
    (env : Ambient) (from p : ℕ) (req : SyncRouteInfoRequest) (items : List RoutePeerInfo)
    (g : RouteGroupData)
    → req.peer_infos ≡ some items
    → info_at (group_handle_sync env from req g).0 p ≡ (
        if contains p g.peers || p == from
        then overwritten env (last_info p items) (info_at g p)
        else info_at g p)
unfolding group_handle_sync receive_session
handle_sync_overwrites env from p req items g e = rw e (
    receive_infos_at env from p items
      (receive_session env from req.my_session_id req.is_initiator g)
    ∙ get-store_infos env from p g.peers items g.peer_infos)
