-- ===== src/Rpc/Learning.antt =====
-- What the server knows of the peers after a sync request of src/rpc_handler.rs.
use easytier_wsrelay.Base.{
  ℕ, List, [], ◌∷◌, Option, none, some, Bool, false, not, ◌||◌, Text, ◌==◌, ◌≡◌, refl, ap, ◌∙◌,
  arith, All, unwrap_or, if◌then◌else◌, Option-cases, inl, inr, text_eq, nat_eq,
}
use easytier_wsrelay.Base.HashMap.{get-insert_self}
use easytier_wsrelay.Base.BTreeSet.{contains}
use easytier_wsrelay.Proto.{RoutePeerInfo, RpcPacket, SyncRouteInfoRequest, Externals}
use easytier_wsrelay.Proto.Ambient.{Ambient}
use easytier_wsrelay.Route.Group.{RouteGroupData, ensure_group, put_group}
use easytier_wsrelay.Route.Peers.{group_update_peer_info, group_session_ack, on_route_session_ack}
use easytier_wsrelay.Route.Peers as Peers
use easytier_wsrelay.Route.ConnInfo.{
  group_update_connections, update_peer_connections_from_conn_info,
}
use easytier_wsrelay.Route.Sync.{group_handle_sync}
use easytier_wsrelay.Route.SameAt.{SameAt, ack-SameAt, connections-SameAt, peers-update_peer_info}
use easytier_wsrelay.Route.Infos.{
  info_at, newer, update_peer_info_lem, overwritten, last_info, handle_sync_overwrites,
}
use easytier_wsrelay.PeerManager.{
  PeerManager, WsPeerContext, update_infos, update_peer_info, process_incoming_peer_infos,
}
use easytier_wsrelay.Rpc.{handle_sync_route_info, absorb, answer_sync, ensure_session_id}
use easytier_wsrelay.Rpc.Answers.{peer_id-ensure_session_id}
use easytier_wsrelay.Rpc.Exchange.{synced}

-- The newest info of a peer, of the one that is stored and those of a report, the first of equals.
unfoldable pub newest : ℕ → List RoutePeerInfo → Option RoutePeerInfo → Option RoutePeerInfo
newest p [] old = old
newest p (i ∷ is) old = newest p is (if i.peer_id == p then some (newer old i) else old)

ensure-put :
    (env : Ambient) (key : Text) (g : RouteGroupData) (pm : PeerManager)
    → ensure_group env (put_group key g pm) key ≡ g
unfolding ensure_group put_group
ensure-put env key g pm = rw (get-insert_self key g pm.groups) refl

module _ (ext : Externals) (env : Ambient) (key : Text) where
  update_peer_info-put :
      (i : RoutePeerInfo) (pm : PeerManager)
      → ext.route_peer_info.decode (ext.route_peer_info.encode i) ≡ some i
      → (update_peer_info ext env key i.peer_id (ext.route_peer_info.encode i) pm).0
        ≡ put_group key (group_update_peer_info i.peer_id i (ensure_group env pm key)).0 pm
  unfolding update_peer_info Peers.update_peer_info
  update_peer_info-put i pm a = rw a refl

  -- The infos are reported, one after the other.
  update_infos-newest :
      (p : ℕ) (items : List RoutePeerInfo) (pm : PeerManager)
      → All (λ i. ext.route_peer_info.decode (ext.route_peer_info.encode i) ≡ some i) items
      → let g = ensure_group env pm key in
        let h = ensure_group env (update_infos ext env key items pm).0 key in
        (h.peers ≡ g.peers) × (info_at h p ≡ newest p items (info_at g p))
  unfolding update_infos newest
  update_infos-newest p [] pm a = (refl, refl)
  update_infos-newest p (i ∷ is) pm a =
      let g = ensure_group env pm key in
      let g' = (group_update_peer_info i.peer_id i g).0 in
      let rest =
        rw (update_peer_info-put i pm a.0, ensure-put env key g' pm) at
          (update_infos-newest p is
            (update_peer_info ext env key i.peer_id (ext.route_peer_info.encode i) pm).0 a.1) in
      let told : info_at g' p
          ≡ (if i.peer_id == p then some (newer (info_at g p) i) else info_at g p) =
        ground (arith, update_peer_info_lem i.peer_id p i g) in
      rw (update_peer_info-put i pm a.0)
        (rest.0 ∙ peers-update_peer_info i.peer_id i g, rest.1 ∙ ap (newest p is) told)

  newest-absent :
      (p : ℕ) (items : List RoutePeerInfo) (old : Option RoutePeerInfo)
      → last_info p items ≡ none
      → newest p items old ≡ old
  unfolding newest last_info
  newest-absent p [] old e = refl
  newest-absent p (i ∷ is) old e = elim (Option-cases (last_info p is)) [
    | inl n ↦ ground (arith, e, n, newest-absent p is old n)
    | inr (j, n) ↦ absurd (ground (arith, e, n))
  ]

  -- What overwrites an info does not depend on it.
  overwritten-newest :
      (p : ℕ) (items : List RoutePeerInfo) (old : Option RoutePeerInfo)
      → overwritten env (last_info p items) (newest p items old)
        ≡ overwritten env (last_info p items) old
  overwritten-newest p items old = elim (Option-cases (last_info p items)) [
    | inl n ↦ rw n (newest-absent p items old n)
    | inr (j, n) ↦ rw n refl
  ]

  module _ (body : Text) (req : SyncRouteInfoRequest) (items : List RoutePeerInfo)
      (decodes : ext.sync_route_info_request.decode body ≡ some req)
      (reports : req.peer_infos ≡ some items)
      (codec : All
        (λ i. ext.route_peer_info.decode (ext.route_peer_info.encode i) ≡ some i)
        items) where
    -- The first part of the handler: the acknowledgement, the infos, and the connections of the
    -- group that they leave.
    abbrev acked : WsPeerContext → PeerManager → PeerManager
    acked ctx pm =
        on_route_session_ack env key ctx.peer_id req.my_session_id (not req.is_initiator) pm

    abbrev told : WsPeerContext → PeerManager → PeerManager
    told ctx pm = (update_infos ext env key items (acked ctx pm)).0

    infos-told :
        (pm : PeerManager)
        → unwrap_or (process_incoming_peer_infos ext env key body pm) (pm, false)
          ≡ update_infos ext env key items pm
    unfolding process_incoming_peer_infos
    infos-told pm = rw (decodes, reports) refl

    connections-put :
        (from : ℕ) (pm : PeerManager)
        → (update_peer_connections_from_conn_info ext env key from body pm).0
          ≡ put_group key
              (group_update_connections from req.conn_info (ensure_group env pm key)).0
              pm
    unfolding update_peer_connections_from_conn_info
    connections-put from pm = rw (decodes, update_peer_connections_from_conn_info) refl

    absorb-put :
        (ctx : WsPeerContext) (pm : PeerManager)
        → let g = ensure_group env (told ctx pm) key in
          (absorb ext env key body req ctx pm).1
          ≡ put_group key (group_update_connections ctx.peer_id req.conn_info g).0 (told ctx pm)
    unfolding absorb
    absorb-put ctx pm = rw (infos-told (acked ctx pm)) (connections-put ctx.peer_id (told ctx pm))

    answer-put :
        (packet : RpcPacket) (changed : Bool) (ctx : WsPeerContext) (pm : PeerManager)
        → (answer_sync ext env packet body key changed ctx pm).0
          ≡ put_group key (group_handle_sync env ctx.peer_id req (ensure_group env pm key)).0 pm
    unfolding answer_sync
    answer-put packet changed ctx pm =
        rw (synced ext env packet key body req decodes ctx.peer_id pm, answer_sync) refl

    acked-SameAt :
        (ctx : WsPeerContext) (p : ℕ) (pm : PeerManager)
        → SameAt p (ensure_group env pm key) (ensure_group env (acked ctx pm) key)
    unfolding on_route_session_ack
    acked-SameAt ctx p pm =
        let g = ensure_group env pm key in
        let init = not req.is_initiator in
        rw (ensure-put env key (group_session_ack env ctx.peer_id req.my_session_id init g) pm)
          (ack-SameAt env ctx.peer_id req.my_session_id init p g)

    absorb-newest :
        (ctx : WsPeerContext) (p : ℕ) (pm : PeerManager)
        → let g = ensure_group env pm key in
          let h = ensure_group env (absorb ext env key body req ctx pm).1 key in
          (h.peers ≡ g.peers) × (info_at h p ≡ newest p items (info_at g p))
    absorb-newest ctx p pm =
        let g₂ = ensure_group env (told ctx pm) key in
        let g₃ = (group_update_connections ctx.peer_id req.conn_info g₂).0 in
        let first = acked-SameAt ctx p pm in
        let learnt = update_infos-newest p items (acked ctx pm) codec in
        let last = connections-SameAt ctx.peer_id req.conn_info p g₂ in
        rw (absorb-put ctx pm) (
          rw (ensure-put env key g₃ (told ctx pm)) (
            last.online ∙ learnt.0 ∙ first.online,
            last.info ∙ learnt.1 ∙ ap (newest p items) first.info,
          ))

    stored-newest :
        (ctx : WsPeerContext) (from p : ℕ) (pm : PeerManager)
        → ctx.peer_id ≡ from
        → let g = ensure_group env pm key in
          let h = ensure_group env (absorb ext env key body req ctx pm).1 key in
          info_at (group_handle_sync env ctx.peer_id req h).0 p ≡ (
            if contains p g.peers || p == from
            then overwritten env (last_info p items) (info_at g p)
            else newest p items (info_at g p))
    stored-newest ctx from p pm same =
        let g = ensure_group env pm key in
        let h = ensure_group env (absorb ext env key body req ctx pm).1 key in
        let learnt = absorb-newest ctx p pm in
        handle_sync_overwrites env ctx.peer_id p req items h reports
        ∙ rw (learnt.0, learnt.1, overwritten-newest p items (info_at g p), same) refl

    -- pending
    -- After a sync request with infos, each of which its codec reads back, the info of a peer that
    -- is online or the sender is the last reported one with the time of the request, whatever
    -- version was stored, and as before where none is reported. The info of any other peer is the
    -- newest of the stored and the reported ones, of equal versions the first.
    pub handle_sync-learns :
        (packet : RpcPacket) (ctx : WsPeerContext) (p : ℕ) (pm : PeerManager)
        → let g = ensure_group env pm key in
          let h = ensure_group env (handle_sync_route_info ext env packet body key ctx pm).1 key in
          info_at h p ≡ (
            if contains p g.peers || p == ctx.peer_id
            then overwritten env (last_info p items) (info_at g p)
            else newest p items (info_at g p))
    unfolding handle_sync_route_info
    handle_sync-learns packet ctx p pm =
        let ctx₀ = ensure_session_id env ctx in
        let a = absorb ext env key body req ctx₀ pm in
        let g₁ = ensure_group env a.1 key in
        let answer = (group_handle_sync env a.0.peer_id req g₁).0 in
        rw (decodes, handle_sync_route_info)
          (rw (answer-put packet a.2 a.0 a.1) (
            rw (ensure-put env key answer a.1)
              (stored-newest ctx₀ ctx.peer_id p pm (peer_id-ensure_session_id env ctx))))
