-- ===== src/Route/SameAt.antt =====
-- What leaves the peers of a group of src/route_state.rs and the info of one of them.
use easytier_wsrelay.Base.{
  ℕ, Option, Bool, ◌≡◌, refl, arith, Option-cases, inl, inr, text_eq, nat_eq,
}
use easytier_wsrelay.Base.BTreeSet.{BTreeSet}
use easytier_wsrelay.Proto.{RoutePeerInfo, ConnInfo}
use easytier_wsrelay.Proto.Ambient.{Ambient}
use easytier_wsrelay.Route.Group.{RouteGroupData, bump_all_conn_versions}
use easytier_wsrelay.Route.Peers.{group_update_peer_info, group_session_ack}
use easytier_wsrelay.Route.ConnInfo.{group_update_connections, p2p_connections, set_connections}
use easytier_wsrelay.Route.Infos.{info_at}

-- The same peers are online, and this peer has the same info.
pub record SameAt (p : ℕ) (g h : RouteGroupData) : Type 0 where
  pub online : h.peers ≡ g.peers
  pub info : info_at h p ≡ info_at g p

pub ack-SameAt :
    (env : Ambient) (q sid : ℕ) (b : Bool) (p : ℕ) (g : RouteGroupData)
    → SameAt p g (group_session_ack env q sid b g)
unfolding group_session_ack
ack-SameAt env q sid b p g = record { online = refl; info = refl }

set_connections-SameAt :
    (from : ℕ) (conns : BTreeSet) (p : ℕ) (g : RouteGroupData)
    → SameAt p g (set_connections from conns g).0
unfolding set_connections bump_all_conn_versions
set_connections-SameAt from conns p g = record { online = ground arith; info = ground arith }

pub connections-SameAt :
    (from : ℕ) (c : Option ConnInfo) (p : ℕ) (g : RouteGroupData)
    → SameAt p g (group_update_connections from c g).0
unfolding group_update_connections
connections-SameAt from c p g = elim (Option-cases (p2p_connections g from c)) [
  | inl e ↦ rw (e, group_update_connections) (record { online = refl; info = refl })
  | inr (conns, e) ↦ rw (e, group_update_connections) (set_connections-SameAt from conns p g)
]

pub peers-update_peer_info :
    (q : ℕ) (i : RoutePeerInfo) (g : RouteGroupData)
    → (group_update_peer_info q i g).0.peers ≡ g.peers
unfolding group_update_peer_info bump_all_conn_versions
peers-update_peer_info q i g = ground arith
