-- ===== src/Route/Versions.antt =====
-- The connection versions of src/route_state.rs.
use easytier_wsrelay.Base.{
  ℕ, ◌+◌, [], ◌∷◌, ◌++◌, Bool, false, not, ◌||◌, ◌&&◌, Text, ◌==◌, ◌≡◌, ◌≢◌, refl, arith,
  if◌then◌else◌, Option-cases, inl, inr, nat_eq, text_eq, unwrap_or, is_some,
}
use easytier_wsrelay.Base.HashMap
use easytier_wsrelay.Base.HashMap.{
  HashMap, get-insert, get-insert_self, get-remove, get-remove_self,
}
use easytier_wsrelay.Base.BTreeSet
use easytier_wsrelay.Base.BTreeSet.{
  BTreeSet, contains, IsAscending, contains-Above, Above-IsAscending, contains-append,
  contains-collect, contains-remove, contains-insert, collect-IsAscending,
}
use easytier_wsrelay.Base.Words.{wrap32}
use easytier_wsrelay.Constants.{my_peer_id}
use easytier_wsrelay.Proto.Ambient.{Ambient}
use easytier_wsrelay.Route.Group.{
  RouteGroupData, RouteState, bump_each, bump_conn_version, bump_server, bump_all_conn_versions,
  ensure_group, put_group, ensure-put,
}
use easytier_wsrelay.Route.Peers.{
  group_add_peer, group_remove_peer, add_peer, remove_peer, get_peer_conn_version,
}

-- The version that is sent for a peer, 1 where none is stored.
abbrev version_in : ℕ → HashMap ℕ ℕ → ℕ
version_in p m = unwrap_or (HashMap.get p m) 1

abbrev pub conn_version : RouteGroupData → ℕ → ℕ
conn_version g p = version_in p g.peer_conn_versions

-- The peers that `bump_all_conn_versions` goes through.
abbrev pub is_known : RouteGroupData → ℕ → Bool
is_known g p = contains p g.peers || is_some (HashMap.get p g.peer_infos)

contains-keys {ℓ} :
    {V : Type ℓ} (p : ℕ) (m : HashMap ℕ V) → contains p (HashMap.keys m) ≡ is_some (HashMap.get p m)
unfolding contains HashMap.get
contains-keys p [] = refl
contains-keys p ((k, v) ∷ m) = ground (arith, contains-keys p m)

version-bump_each :
    (p : ℕ) (ps : BTreeSet) (m : HashMap ℕ ℕ)
    → IsAscending ps
    → version_in p (bump_each ps m)
      ≡ (if contains p ps then wrap32 (version_in p m + 1) else version_in p m)
unfolding bump_each bump_conn_version contains
version-bump_each p [] m a = refl
version-bump_each p (x ∷ xs) m a = ground (
  arith,
  version-bump_each p xs (bump_conn_version x m) (Above-IsAscending x xs a),
  get-insert x p (wrap32 (version_in x m + 1)) m,
  contains-Above x xs a,
)

version-bump_server :
    (p : ℕ) (m : HashMap ℕ ℕ)
    → version_in p (bump_server m)
      ≡ (if p == my_peer_id then wrap32 (version_in p m + 1) else version_in p m)
unfolding bump_server
version-bump_server p m = elim (Option-cases (HashMap.get my_peer_id m)) [
  | inl e ↦ rw (e, bump_server) (ground (arith, get-insert my_peer_id p 2 m, e))
  | inr (v, e) ↦ rw (e, bump_server) (ground (arith, get-insert my_peer_id p (wrap32 (v + 1)) m, e))
]

-- A bump raises the version of every peer that is online or has an info by one, that of the
-- server by one more, and no other, in 32 bits.
pub conn_version-bump_all :
    (g : RouteGroupData) (p : ℕ)
    → conn_version (bump_all_conn_versions g) p ≡ (
        let bumped = if is_known g p then wrap32 (conn_version g p + 1) else conn_version g p in
        if p == my_peer_id then wrap32 (bumped + 1) else bumped)
unfolding bump_all_conn_versions
conn_version-bump_all g p = ground (
  arith,
  version-bump_server p
      (bump_each (BTreeSet.collect (g.peers ++ HashMap.keys g.peer_infos)) g.peer_conn_versions),
  version-bump_each p (BTreeSet.collect (g.peers ++ HashMap.keys g.peer_infos)) g.peer_conn_versions
      (collect-IsAscending (g.peers ++ HashMap.keys g.peer_infos)),
  contains-collect p (g.peers ++ HashMap.keys g.peer_infos),
  contains-append p g.peers (HashMap.keys g.peer_infos),
  contains-keys p g.peer_infos,
)

removed : Ambient → ℕ → RouteGroupData → RouteGroupData
removed env p g = record g {
  peers = BTreeSet.remove p g.peers;
  peer_infos = HashMap.remove p g.peer_infos;
  sessions = HashMap.remove p g.sessions;
  peer_conn_versions = HashMap.remove p g.peer_conn_versions;
  peer_removed_at = HashMap.insert p env.now_ms g.peer_removed_at;
}

removed_version :
    (env : Ambient) (p : ℕ) (g : RouteGroupData)
    → p ≢ my_peer_id
    → conn_version (group_remove_peer env p g) p ≡ 1
unfolding group_remove_peer removed
removed_version env p g ne = ground (
  arith,
  conn_version-bump_all (removed env p g) p,
  get-remove_self p g.peer_conn_versions,
  get-remove_self p g.peer_infos,
  contains-remove p p g.peers,
)

pub removed_peers :
    (env : Ambient) (p q : ℕ) (g : RouteGroupData)
    → contains q (group_remove_peer env p g).peers ≡ (not (p == q) && contains q g.peers)
unfolding group_remove_peer bump_all_conn_versions
removed_peers env p q g = ground (arith, contains-remove p q g.peers)

joined : ℕ → RouteGroupData → RouteGroupData
joined p g = record g {
  peers = BTreeSet.insert p g.peers;
  peer_removed_at = HashMap.remove p g.peer_removed_at;
}

-- A peer that is new to the group gets the next version.
added_version :
    (p : ℕ) (g : RouteGroupData)
    → p ≢ my_peer_id
    → contains p g.peers ≡ false
    → conn_version (group_add_peer p g) p ≡ wrap32 (conn_version g p + 1)
unfolding group_add_peer joined
added_version p g ne new =
    ground (arith, conn_version-bump_all (joined p g) p, contains-insert p p g.peers)

version-put :
    (key : Text) (p : ℕ) (g : RouteGroupData) (s : RouteState)
    → get_peer_conn_version key p (put_group key g s) ≡ conn_version g p
unfolding get_peer_conn_version put_group
version-put key p g s = rw (get-insert_self key g s.groups)

-- Whatever version a peer other than the server had, adding it again after `remove_peer` starts it
-- at 2: its version does not grow from one connection to the next.
pub reconnect_version :
    (env env' : Ambient) (key : Text) (p : ℕ) (s : RouteState)
    → p ≢ my_peer_id
    → get_peer_conn_version key p (add_peer env' key p (remove_peer env key p s)) ≡ 2
unfolding add_peer remove_peer
reconnect_version env env' key p s ne = rw (
  version-put,
  ensure-put,
  added_version p (group_remove_peer env p (ensure_group env s key)) ne gone,
  removed_version env p (ensure_group env s key) ne,
)
  where
    gone : contains p (group_remove_peer env p (ensure_group env s key)).peers ≡ false
    gone = ground (arith, removed_peers env p p (ensure_group env s key))
