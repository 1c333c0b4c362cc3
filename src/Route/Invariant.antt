-- ===== src/Route/Invariant.antt =====
-- What holds of every group of src/route_state.rs, whatever operations it has been through.
pub mod Updates
pub mod Reach
use easytier_wsrelay.Base.{
  ℕ, ◌<◌, List, [], ◌∷◌, Option, none, some, Bool, true, false, not, ◌||◌, ◌&&◌, Text, ◌==◌, ◌≡◌,
  ◌≢◌, refl, sym, ap, arith, All, if◌then◌else◌, Option-cases, Bool-cases, inl, inr, nat_eq,
  text_eq, text_beq, text_beq_iff, keep, unwrap_or, All-keep, All-imp,
}
use easytier_wsrelay.Base.HashMap
use easytier_wsrelay.Base.HashMap.{HashMap, get-insert, get-remove, All-insert, All-remove}
use easytier_wsrelay.Base.BTreeSet
use easytier_wsrelay.Base.BTreeSet.{
  BTreeSet, contains, IsAscending, insert-IsAscending, remove-IsAscending, contains-insert,
  contains-remove, contains-collect, contains-keep,
}
use easytier_wsrelay.Constants.{my_peer_id}
use easytier_wsrelay.Proto.{
  RoutePeerInfo, ConnInfo, conn_bitmap, conn_peer_list, SyncRouteInfoRequest, Externals,
}
use easytier_wsrelay.Proto.Ambient.{Ambient}
use easytier_wsrelay.Route.Group.{RouteGroupData, new_group, bump_all_conn_versions}
use easytier_wsrelay.Route.Peers.{
  group_add_peer, group_remove_peer, group_update_peer_info, group_session_ack, group_bump_my_info,
  write_field,
}
use easytier_wsrelay.Route.ConnInfo.{
  is_p2p, p2p_connections, set_connections, group_update_connections, forget_peer, forget_peers,
  group_cleanup, is_empty_set,
}
use easytier_wsrelay.Route.Bitmap.{
  build_conn_bitmap, is_signature, signature, versions_of, bitmap_bytes,
}
use easytier_wsrelay.Route.Group.{session_of}
use easytier_wsrelay.Route.Sync.{
  touch_session, pick_infos, bump_foreign, group_build_sync, receive_session, receive_infos,
  store_infos, group_handle_sync, relevant_peers, is_full,
}

-- A peer's connections name neither the peer itself nor the server.
abbrev pub IsP2p : ℕ → BTreeSet → Type 0
IsP2p p conns = (contains p conns ≡ false) × (contains my_peer_id conns ≡ false)

pub record IsWellFormed (g : RouteGroupData) : Type 0 where
  -- The set of peers is a set.
  pub ascending : IsAscending g.peers
  -- The server's own info is the server's, at the version that the group counts.
  pub server_id : g.my_info.peer_id ≡ my_peer_id
  pub server_version : g.my_info.version ≡ g.my_info_version
  -- A peer that is online is not on its way to be forgotten.
  pub online : (p : ℕ) → contains p g.peers ≡ true → HashMap.get p g.peer_removed_at ≡ none
  pub p2p : All (λ e. IsP2p e.0 e.1) g.peer_connections

-- The operations on versions, infos and sessions leave these parts alone.
pub record SameCore (g h : RouteGroupData) : Type 0 where
  pub peers : h.peers ≡ g.peers
  pub my_info : h.my_info ≡ g.my_info
  pub my_info_version : h.my_info_version ≡ g.my_info_version
  pub peer_removed_at : h.peer_removed_at ≡ g.peer_removed_at
  pub peer_connections : h.peer_connections ≡ g.peer_connections

pub SameCore-trans : {g h k : RouteGroupData} → SameCore g h → SameCore h k → SameCore g k
SameCore-trans a b = ground (arith, a, b)

pub SameCore-IsWellFormed : (g h : RouteGroupData) → SameCore g h → IsWellFormed g → IsWellFormed h
SameCore-IsWellFormed g h c w = record {
  ascending = rw c.peers w.ascending;
  server_id = rw c.my_info w.server_id;
  server_version = rw (c.my_info, c.my_info_version) w.server_version;
  online = rw (c.peers, c.peer_removed_at) w.online;
  p2p = rw c.peer_connections w.p2p;
}

pub new_group-IsWellFormed : (env : Ambient) (key : Text) → IsWellFormed (new_group env key)
unfolding new_group contains HashMap.get
new_group-IsWellFormed env key = record {
  ascending = tt;
  server_id = refl;
  server_version = refl;
  online = λ p h. refl;
  p2p = tt;
}

pub bump-SameCore : (g : RouteGroupData) → SameCore g (bump_all_conn_versions g)
unfolding bump_all_conn_versions
bump-SameCore g = record {
  peers = refl;
  my_info = refl;
  my_info_version = refl;
  peer_removed_at = refl;
  peer_connections = refl;
}

pub bump-IsWellFormed :
    (g : RouteGroupData) → IsWellFormed g → IsWellFormed (bump_all_conn_versions g)
bump-IsWellFormed g w = SameCore-IsWellFormed g _ (bump-SameCore g) w

-- A group that an operation bumps or not.
pub if-IsWellFormed :
    (b : Bool) (g h : RouteGroupData)
    → IsWellFormed g
    → IsWellFormed h
    → IsWellFormed (if b then g else h)
if-IsWellFormed true g h v w = v
if-IsWellFormed false g h v w = w

pub add_peer-IsWellFormed :
    (p : ℕ) (g : RouteGroupData) → IsWellFormed g → IsWellFormed (group_add_peer p g)
unfolding group_add_peer
add_peer-IsWellFormed p g w =
    if-IsWellFormed _ _ _ (bump-IsWellFormed joined joined_fits) joined_fits
  where
    joined : RouteGroupData
    joined = record g {
      peers = BTreeSet.insert p g.peers;
      peer_removed_at = HashMap.remove p g.peer_removed_at;
    }

    joined_fits : IsWellFormed joined
    joined_fits = record {
      ascending = insert-IsAscending p g.peers w.ascending;
      server_id = w.server_id;
      server_version = w.server_version;
      online = λ q h.
          ground (arith, contains-insert p q g.peers, get-remove p q g.peer_removed_at, w.online q);
      p2p = w.p2p;
    }

pub remove_peer-IsWellFormed :
    (env : Ambient) (p : ℕ) (g : RouteGroupData)
    → IsWellFormed g
    → IsWellFormed (group_remove_peer env p g)
unfolding group_remove_peer
remove_peer-IsWellFormed env p g w =
    if-IsWellFormed _ _ _ (bump-IsWellFormed left left_fits) left_fits
  where
    left : RouteGroupData
    left = record g {
      peers = BTreeSet.remove p g.peers;
      peer_infos = HashMap.remove p g.peer_infos;
      sessions = HashMap.remove p g.sessions;
      peer_conn_versions = HashMap.remove p g.peer_conn_versions;
      peer_removed_at = HashMap.insert p env.now_ms g.peer_removed_at;
    }

    left_fits : IsWellFormed left
    left_fits = record {
      ascending = remove-IsAscending p g.peers w.ascending;
      server_id = w.server_id;
      server_version = w.server_version;
      online = λ q h. ground (
        arith,
        contains-remove p q g.peers,
        get-insert p q env.now_ms g.peer_removed_at,
        w.online q,
      );
      p2p = w.p2p;
    }

pub update_info-IsWellFormed :
    (p : ℕ) (info : RoutePeerInfo) (g : RouteGroupData)
    → IsWellFormed g
    → IsWellFormed (group_update_peer_info p info g).0
unfolding group_update_peer_info
update_info-IsWellFormed p info g w =
    if-IsWellFormed _ _ _ (if-IsWellFormed _ _ _ (bump-IsWellFormed stored stored_fits) stored_fits)
      w
  where
    stored : RouteGroupData
    stored = record g { peer_infos = HashMap.insert p info g.peer_infos }

    stored_fits : IsWellFormed stored
    stored_fits =
        SameCore-IsWellFormed g stored
          (record {
            peers = refl;
            my_info = refl;
            my_info_version = refl;
            peer_removed_at = refl;
            peer_connections = refl;
          })
          w
