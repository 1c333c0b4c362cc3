-- ===== src/Route/Connections.antt =====
-- The peer-to-peer connections of src/route_state.rs: what a report stores, and what the clean-up
-- leaves.
use easytier_wsrelay.Base.{
  ℕ, ◌-◌, List, [], ◌∷◌, Option, none, some, Bool, false, not, ◌&&◌, ◌==◌, ◌≡◌, ◌≢◌, refl, ◌∙◌,
  arith, if◌then◌else◌, nat_eq, ltb, keep, Option-cases, Bool-cases, inl, inr,
}
use easytier_wsrelay.Base.HashMap
use easytier_wsrelay.Base.HashMap.{HashMap, IsMap, get-insert, get-remove, get-map_values}
use easytier_wsrelay.Base.BTreeSet
use easytier_wsrelay.Base.BTreeSet.{
  BTreeSet, contains, contains-remove, contains-collect, contains-keep,
}
use easytier_wsrelay.Constants.{my_peer_id}
use easytier_wsrelay.Proto.{ConnInfo, conn_bitmap, conn_peer_list}
use easytier_wsrelay.Proto.Ambient.{Ambient}
use easytier_wsrelay.Route.Group.{RouteGroupData, bump_all_conn_versions}
use easytier_wsrelay.Route.Bitmap.{get_connected_peers_from_bitmap}
use easytier_wsrelay.Route.ConnInfo.{
  is_p2p, p2p_connections, set_connections, group_update_connections, stale_peers, forget_peer,
  forget_peers, group_cleanup, position_of, find_entry,
}

-- The connections that a group has stored for a peer.
abbrev pub stored_for : ℕ → RouteGroupData → Option BTreeSet
stored_for p g = HashMap.get p g.peer_connections

abbrev contains_in : Option BTreeSet → ℕ → Bool
contains_in none q = false
contains_in (some s) q = contains q s

-- The group has a connection from `p` to `q` on record.
abbrev pub has_connection : ℕ → ℕ → RouteGroupData → Bool
has_connection p q g = contains_in (stored_for p g) q

-- The connection from the sender to `q` is in what it reports.
abbrev pub reports_connection : ℕ → ConnInfo → ℕ → Bool
reports_connection from (conn_bitmap bitmap) q = elim (position_of from bitmap.peer_ids) [
  | none ↦ false
  | some idx ↦ contains q (get_connected_peers_from_bitmap bitmap idx)
]
reports_connection from (conn_peer_list list) q = elim (find_entry from list) [
  | none ↦ false
  | some info ↦ contains q info.connected_peer_ids
]

filtered :
    (g : RouteGroupData) (from q : ℕ) (ps : List ℕ)
    → contains q (BTreeSet.collect (keep (is_p2p g from) ps)) ≡ (contains q ps && is_p2p g from q)
filtered g from q ps =
    ground (arith, contains-collect q (keep (is_p2p g from) ps), contains-keep (is_p2p g from) q ps)

p2p_connections_lem :
    (from q : ℕ) (c : ConnInfo) (g : RouteGroupData)
    → contains_in (p2p_connections g from (some c)) q
      ≡ (reports_connection from c q && is_p2p g from q)
unfolding p2p_connections contains
p2p_connections_lem from q (conn_bitmap b) g = elim (Option-cases (position_of from b.peer_ids)) [
  | inl e ↦ rw (e, reports_connection) refl
  | inr (i, e) ↦
      rw (e, reports_connection) (filtered g from q (get_connected_peers_from_bitmap b i))
]
p2p_connections_lem from q (conn_peer_list list) g = elim (Option-cases (find_entry from list)) [
  | inl e ↦ rw (e, reports_connection) refl
  | inr (info, e) ↦ rw (e, reports_connection) (filtered g from q info.connected_peer_ids)
]

abbrev kept_set : BTreeSet → Option BTreeSet
kept_set [] = none
kept_set (x ∷ xs) = some (x ∷ xs)

contains-kept_set : (q : ℕ) (conns : BTreeSet) → contains_in (kept_set conns) q ≡ contains q conns
unfolding contains
contains-kept_set q [] = refl
contains-kept_set q (x ∷ xs) = refl

stored_for-set_connections :
    (from p : ℕ) (conns : BTreeSet) (g : RouteGroupData)
    → stored_for p (set_connections from conns g).0
      ≡ (if from == p then kept_set conns else stored_for p g)
unfolding set_connections bump_all_conn_versions
stored_for-set_connections from p [] g = ground (arith, get-remove from p g.peer_connections)
stored_for-set_connections from p (x ∷ xs) g =
    ground (arith, get-insert from p (x ∷ xs) g.peer_connections)

p2p_connections_reported :
    (from : ℕ) (c : ConnInfo) (g : RouteGroupData) → p2p_connections g from (some c) ≢ none
unfolding p2p_connections
p2p_connections_reported from (conn_bitmap b) g e = absurd (ground (arith, e))
p2p_connections_reported from (conn_peer_list list) g e = absurd (ground (arith, e))

-- A report with connections replaces those of its sender by the reported ones that are to a peer
-- of the group other than the server and the sender, and leaves those of every other peer.
pub group_update_connections_lem :
    (from p q : ℕ) (c : ConnInfo) (g : RouteGroupData)
    → has_connection p q (group_update_connections from (some c) g).0 ≡ (
        if from == p
        then reports_connection from c q
          && (not (q == my_peer_id) && (not (q == from) && contains q g.peers))
        else has_connection p q g)
unfolding group_update_connections is_p2p
group_update_connections_lem from p q c g = elim (Option-cases (p2p_connections g from (some c))) [
  | inl e ↦ absurd (p2p_connections_reported from c g e)
  | inr (conns, e) ↦
      rw (e, group_update_connections, stored_for-set_connections from p conns g)
        (ground (arith, contains-kept_set q conns, (rw e at (p2p_connections_lem from q c g))))
]

-- The clean-up.
has_connection-forget_peer :
    (p a b : ℕ) (g : RouteGroupData)
    → has_connection a b (forget_peer p g)
      ≡ (not (p == a) && (not (p == b) && has_connection a b g))
unfolding forget_peer
has_connection-forget_peer p a b g =
    rw
      (
        get-map_values (BTreeSet.remove p) a (HashMap.remove p g.peer_connections),
        get-remove p a g.peer_connections,
      )
      (elim (Bool-cases (p == a)) [
        | inl t ↦ rw t refl
        | inr f ↦ rw f (elim (Option-cases (stored_for a g)) [
          | inl e ↦ rw e (ground arith)
          | inr (s, e) ↦ rw e (contains-remove p b s)
        ])
      ])

has_connection-forget_peers :
    (ps : List ℕ) (a b : ℕ) (g : RouteGroupData)
    → has_connection a b (forget_peers ps g)
      ≡ (not (contains a ps) && (not (contains b ps) && has_connection a b g))
unfolding forget_peers contains
has_connection-forget_peers [] a b g = refl
has_connection-forget_peers (p ∷ ps) a b g = ground (
  arith,
  has_connection-forget_peers ps a b (forget_peer p g),
  has_connection-forget_peer p a b g,
)

removed_at-forget_peers :
    (ps : List ℕ) (a : ℕ) (g : RouteGroupData)
    → HashMap.get a (forget_peers ps g).peer_removed_at
      ≡ (if contains a ps then none else HashMap.get a g.peer_removed_at)
unfolding forget_peers forget_peer contains
removed_at-forget_peers [] a g = refl
removed_at-forget_peers (p ∷ ps) a g =
    ground (arith, removed_at-forget_peers ps a (forget_peer p g), get-remove p a g.peer_removed_at)

-- The peer went away more than the threshold ago.
abbrev pub is_stale : ℕ → ℕ → Option ℕ → Bool
is_stale now threshold none = false
is_stale now threshold (some removed_at) = ltb threshold (now - removed_at)

contains-stale_peers :
    (now threshold a : ℕ) (m : HashMap ℕ ℕ)
    → IsMap m
    → contains a (stale_peers now threshold m) ≡ is_stale now threshold (HashMap.get a m)
unfolding stale_peers contains HashMap.get
contains-stale_peers now threshold a [] h = refl
contains-stale_peers now threshold a ((p, t) ∷ m) h =
    ground (arith, contains-stale_peers now threshold a m h.1, h.0)

-- Where no peer has two removal times, a clean-up keeps exactly the connections between peers that
-- did not go away longer ago than the threshold, and exactly their removal times.
pub group_cleanup_lem :
    (env : Ambient) (threshold a b : ℕ) (g : RouteGroupData)
    → IsMap g.peer_removed_at
    → let stale : ℕ → Bool = λ p. is_stale env.now_ms threshold (HashMap.get p g.peer_removed_at) in
      let h = group_cleanup env threshold g in
      (has_connection a b h ≡ (not (stale a) && (not (stale b) && has_connection a b g)))
      × (HashMap.get a h.peer_removed_at
          ≡ (if stale a then none else HashMap.get a g.peer_removed_at))
unfolding group_cleanup
group_cleanup_lem env threshold a b g m =
    let ps = stale_peers env.now_ms threshold g.peer_removed_at in
    let old = λ (p : ℕ). contains-stale_peers env.now_ms threshold p g.peer_removed_at m in
    (
      has_connection-forget_peers ps a b g ∙ rw (old a, old b) refl,
      removed_at-forget_peers ps a g ∙ rw (old a) refl,
    )
