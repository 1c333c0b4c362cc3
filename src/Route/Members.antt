-- ===== src/Route/Members.antt =====
-- Who is online in the groups of src/route_state.rs, and which operations change that.
use easytier_wsrelay.Base.{
  ℕ, List, [], ◌∷◌, Option, Text, ◌≡◌, refl, ◌∙◌, text_beq, text_beq_iff, text_eq, false, arith,
  unwrap_or, if◌then◌else◌, Option-cases, Bool-cases, inl, inr,
}
use mathlib.Core.Path.{subst}
use easytier_wsrelay.Base.HashMap
use easytier_wsrelay.Base.HashMap.{get-insert}
use easytier_wsrelay.Base.BTreeSet
use easytier_wsrelay.Base.BTreeSet.{BTreeSet}
use easytier_wsrelay.Proto.{Externals, ConnInfo}
use easytier_wsrelay.Proto.Ambient.{Ambient}
use easytier_wsrelay.Route.Group.{
  RouteGroupData, RouteState, ensure_group, put_group, new_group, bump_all_conn_versions,
}
use easytier_wsrelay.Route.Peers.{
  get_peer_ids_in_group, add_peer, remove_peer, group_add_peer, group_remove_peer, update_peer_info,
  group_update_peer_info, on_route_session_ack, group_session_ack, bump_my_info_version,
  group_bump_my_info, set_my_info_field, write_field,
}
use easytier_wsrelay.Route.ConnInfo.{
  update_peer_connections_from_conn_info, group_update_connections, cleanup_stale_peer_connections,
  group_cleanup, set_connections, p2p_connections, forget_peers, forget_peer,
}
use easytier_wsrelay.Route.Sync.{build_sync_route_info_request, handle_sync_route_info_request}
use easytier_wsrelay.Route.Invariant.Reach.{
  Update, updates, acks, bumps, sets, connects, builds, handles, cleans,
}
use easytier_wsrelay.Route.Invariant.Updates.{build_sync-SameCore, handle_sync-SameCore}

peers-put :
    (key other : Text) (g : RouteGroupData) (s : RouteState)
    → get_peer_ids_in_group other (put_group key g s)
      ≡ (if text_beq key other then g.peers else get_peer_ids_in_group other s)
unfolding get_peer_ids_in_group put_group
peers-put key other g s = ground (arith, get-insert key other g s.groups)

peers-ensure :
    (env : Ambient) (s : RouteState) (key : Text)
    → (ensure_group env s key).peers ≡ get_peer_ids_in_group key s
unfolding get_peer_ids_in_group ensure_group new_group
peers-ensure env s key = elim (Option-cases (HashMap.get key s.groups)) [
  | inl e ↦ rw e refl
  | inr (g, e) ↦ rw e refl
]

peers-group_update_connections :
    (from : ℕ) (conn_info : Option ConnInfo) (g : RouteGroupData)
    → (group_update_connections from conn_info g).0.peers ≡ g.peers
unfolding group_update_connections set_connections bump_all_conn_versions
peers-group_update_connections from conn_info g =
    elim (Option-cases (p2p_connections g from conn_info)) [
      | inl e ↦ rw (e, group_update_connections) refl
      | inr (conns, e) ↦ rw (e, group_update_connections) (ground arith)
    ]

peers-forget_peers : (ps : List ℕ) (g : RouteGroupData) → (forget_peers ps g).peers ≡ g.peers
unfolding forget_peers forget_peer
peers-forget_peers [] g = refl
peers-forget_peers (p ∷ ps) g = peers-forget_peers ps (forget_peer p g)

-- A group that is written back with the peers it had.
module _ (env : Ambient) (key : Text) (s : RouteState) (other : Text) where
  peers-rewrite :
      (g : RouteGroupData)
      → g.peers ≡ (ensure_group env s key).peers
      → get_peer_ids_in_group other (put_group key g s) ≡ get_peer_ids_in_group other s
  peers-rewrite g h = elim (Bool-cases (text_beq key other)) [
    | inl t ↦
        rw (peers-put key other g s, t)
          (h
            ∙ subst (λ k. (ensure_group env s key).peers ≡ get_peer_ids_in_group k s)
                ((text_beq_iff key other).0 t) (peers-ensure env s key))
    | inr f ↦ rw (peers-put key other g s, f) refl
  ]

  -- Adding a peer puts it into its group and changes no other,
  pub peers-add_peer :
      (p : ℕ)
      → get_peer_ids_in_group other (add_peer env key p s) ≡ (
          if text_beq key other
          then BTreeSet.insert p (get_peer_ids_in_group key s)
          else get_peer_ids_in_group other s)
  unfolding add_peer group_add_peer bump_all_conn_versions
  peers-add_peer p =
      rw (peers-put key other (group_add_peer p (ensure_group env s key)) s)
        (ground (arith, peers-ensure env s key))

  -- removing one takes it out,
  pub peers-remove_peer :
      (p : ℕ)
      → get_peer_ids_in_group other (remove_peer env key p s) ≡ (
          if text_beq key other
          then BTreeSet.remove p (get_peer_ids_in_group key s)
          else get_peer_ids_in_group other s)
  unfolding remove_peer group_remove_peer bump_all_conn_versions
  peers-remove_peer p =
      rw (peers-put key other (group_remove_peer env p (ensure_group env s key)) s)
        (ground (arith, peers-ensure env s key))

  updates-peers :
      (ext : Externals) (p : ℕ) (bytes : Text)
      → get_peer_ids_in_group other
          (unwrap_or (update_peer_info ext env key p bytes s) (s, false)).0
        ≡ get_peer_ids_in_group other s
  unfolding update_peer_info group_update_peer_info bump_all_conn_versions
  updates-peers ext p bytes = elim (Option-cases (ext.route_peer_info.decode bytes)) [
    | inl e ↦ rw e refl
    | inr (info, e) ↦ rw e (peers-rewrite _ (ground arith))
  ]

  sets-peers :
      (ext : Externals) (field value : Text)
      → get_peer_ids_in_group other (set_my_info_field ext env key field value s).0
        ≡ get_peer_ids_in_group other s
  unfolding set_my_info_field group_bump_my_info
  sets-peers ext field value =
      elim (Option-cases (write_field ext field value (ensure_group env s key).my_info)) [
        | inl e ↦ rw (e, set_my_info_field) (peers-rewrite _ refl)
        | inr (info, e) ↦ rw (e, set_my_info_field) (peers-rewrite _ refl)
      ]

  connects-peers :
      (ext : Externals) (p : ℕ) (bytes : Text)
      → get_peer_ids_in_group other (update_peer_connections_from_conn_info ext env key p bytes s).0
        ≡ get_peer_ids_in_group other s
  unfolding update_peer_connections_from_conn_info group_update_connections bump_all_conn_versions
  connects-peers ext p bytes = elim (Option-cases (ext.sync_route_info_request.decode bytes)) [
    | inl e ↦ rw (e, update_peer_connections_from_conn_info) refl
    | inr (req, e) ↦
        rw (e, update_peer_connections_from_conn_info)
          (peers-rewrite _ (peers-group_update_connections p req.conn_info _))
  ]

  handles-peers :
      (ext : Externals) (p : ℕ) (bytes : Text)
      → get_peer_ids_in_group other
          (unwrap_or (handle_sync_route_info_request ext env key p bytes s) (s, [])).0
        ≡ get_peer_ids_in_group other s
  unfolding handle_sync_route_info_request
  handles-peers ext p bytes = elim (Option-cases (ext.sync_route_info_request.decode bytes)) [
    | inl e ↦ rw e refl
    | inr (req, e) ↦ rw e (peers-rewrite _ (handle_sync-SameCore env p req _).peers)
  ]

  -- and no other operation changes who is online.
  pub Update-peers :
      (ext : Externals) (t : RouteState)
      → Update ext env key s t
      → get_peer_ids_in_group other t ≡ get_peer_ids_in_group other s
  unfolding on_route_session_ack group_session_ack bump_my_info_version group_bump_my_info
      build_sync_route_info_request cleanup_stale_peer_connections group_cleanup
  Update-peers ext t (updates p bytes) = updates-peers ext p bytes
  Update-peers ext t (acks p sid init) = peers-rewrite _ refl
  Update-peers ext t bumps = peers-rewrite _ refl
  Update-peers ext t (sets field value) = sets-peers ext field value
  Update-peers ext t (connects p bytes) = connects-peers ext p bytes
  Update-peers ext t (builds p sid init force) =
      peers-rewrite _ (build_sync-SameCore ext env p sid init force _).peers
  Update-peers ext t (handles p bytes) = handles-peers ext p bytes
  Update-peers ext t (cleans n) = peers-rewrite _ (peers-forget_peers _ _)
