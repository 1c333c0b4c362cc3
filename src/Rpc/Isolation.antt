-- ===== src/Rpc/Isolation.antt =====
-- The RPC handlers of src/rpc_handler.rs stay in the group of the client.
use easytier_wsrelay.Base.{
  ℕ, List, [], ◌∷◌, Option, none, some, Bool, ◌==◌, Bool-cases, false, not, Text, unwrap_or, ◌≡◌,
  refl, text_beq, text_eq, nat_eq, Option-cases, inl, inr,
}
use easytier_wsrelay.Base.HashMap
use easytier_wsrelay.Base.HashMap.{HashMap, get-insert}
use easytier_wsrelay.Proto.{RpcPacket, SyncRouteInfoRequest, RoutePeerInfo, Externals}
use easytier_wsrelay.Proto.Ambient.{Ambient}
use easytier_wsrelay.Route.Group.{RouteState}
use easytier_wsrelay.Route.Invariant.Reach.{Update, updates, acks, connects, handles}
use easytier_wsrelay.Route.Steps.{
  Steps, done, after, append-Steps, Steps-Stays, SameBut, SameBut-insert,
}
use easytier_wsrelay.Route.Peers
use easytier_wsrelay.Route.Sync as RouteSync
use easytier_wsrelay.PeerCenter.{PeerCenter}
use easytier_wsrelay.PeerManager
use easytier_wsrelay.PeerManager.{PeerManager, WsPeerContext}
use easytier_wsrelay.Rpc.Services.{by_service}
use easytier_wsrelay.Rpc.{
  handle_rpc_resp, service_resp_bytes, is_ospf_route, service_name, RpcState, handle_rpc_req,
  handle_sync_route_info, absorb, answer_sync, center_reply, ensure_session_id,
}

module _ (ext : Externals) (env : Ambient) (key : Text) where
  update_infos-Steps :
      (infos : List RoutePeerInfo) (s : RouteState)
      → Steps ext env key s (PeerManager.update_infos ext env key infos s).0
  unfolding PeerManager.update_infos PeerManager.update_peer_info
  update_infos-Steps [] s = done
  update_infos-Steps (i ∷ is) s =
      let t =
        (PeerManager.update_peer_info ext env key i.peer_id (ext.route_peer_info.encode i) s).0 in
      append-Steps ext env key s t _
        (after s t done (updates i.peer_id (ext.route_peer_info.encode i)))
        (update_infos-Steps is t)

  process_infos-Steps :
      (bytes : Text) (s : RouteState)
      → Steps ext env key s
          (unwrap_or (PeerManager.process_incoming_peer_infos ext env key bytes s) (s, false)).0
  unfolding PeerManager.process_incoming_peer_infos
  process_infos-Steps bytes s = elim (Option-cases (ext.sync_route_info_request.decode bytes)) [
    | inl e ↦ rw e done
    | inr (req, e) ↦ rw e (update_infos-Steps (unwrap_or req.peer_infos []) s)
  ]

  absorb-Steps :
      (body : Text) (req : SyncRouteInfoRequest) (ctx : WsPeerContext) (s : RouteState)
      → Steps ext env key s (absorb ext env key body req ctx s).1
  unfolding absorb
  absorb-Steps body req ctx s =
      let t =
        Peers.on_route_session_ack env key ctx.peer_id req.my_session_id (not req.is_initiator) s in
      let u =
        (unwrap_or (PeerManager.process_incoming_peer_infos ext env key body t) (t, false)).0 in
      after u _
        (append-Steps ext env key s t u
          (after s t done (acks ctx.peer_id req.my_session_id (not req.is_initiator)))
          (process_infos-Steps body t))
        (connects ctx.peer_id body)

  answer_sync-Steps :
      (packet : RpcPacket) (body : Text) (changed : Bool) (ctx : WsPeerContext) (s : RouteState)
      → Steps ext env key s (answer_sync ext env packet body key changed ctx s).0
  unfolding answer_sync
  answer_sync-Steps packet body changed ctx s =
      let st : Update ext env key s _ = handles ctx.peer_id body in
      elim (Option-cases
        (RouteSync.handle_sync_route_info_request ext env key ctx.peer_id body s)) [
          | inl e ↦ rw (e, answer_sync) done
          | inr (r, e) ↦ rw (e, answer_sync) (after s r.0 done (rw e at st))
        ]

  handle_sync-Steps :
      (packet : RpcPacket) (body : Text) (ctx : WsPeerContext) (s : RouteState)
      → Steps ext env key s (handle_sync_route_info ext env packet body key ctx s).1
  unfolding handle_sync_route_info
  handle_sync-Steps packet body ctx s =
      elim (Option-cases (ext.sync_route_info_request.decode body)) [
        | inl e ↦
            rw (e, handle_sync_route_info)
              (answer_sync-Steps packet body false (ensure_session_id env ctx) s)
        | inr (req, e) ↦
            let a = absorb ext env key body req (ensure_session_id env ctx) s in
            rw (e, handle_sync_route_info)
              (append-Steps ext env key s a.1 _
                (absorb-Steps body req (ensure_session_id env ctx) s)
                (answer_sync-Steps packet body a.2 a.0 a.1))
      ]

center_reply-pm :
    (ext : Externals) (packet : RpcPacket) (s : RpcState) (pc : PeerCenter)
    (r : Option (PeerCenter × Text))
    → (center_reply ext packet s pc r).0.peer_manager ≡ s.peer_manager
unfolding center_reply
center_reply-pm ext packet s pc none = refl
center_reply-pm ext packet s pc (some r) = refl

center_reply-center :
    (ext : Externals) (packet : RpcPacket) (s : RpcState) (pc : PeerCenter)
    (r : Option (PeerCenter × Text))
    → SameBut s.ctx.group_key s.peer_center_map (center_reply ext packet s pc r).0.peer_center_map
unfolding center_reply
center_reply-center ext packet s pc none = SameBut-insert s.ctx.group_key pc s.peer_center_map
center_reply-center ext packet s pc (some r) = SameBut-insert s.ctx.group_key r.0 s.peer_center_map

-- What a request changes in the routes is a sequence of calls on the group of the client.
pub handle_rpc_req-Steps :
    (ext : Externals) (env : Ambient) (payload : Text) (s : RpcState)
    → Steps ext env s.ctx.group_key s.peer_manager (handle_rpc_req ext env payload s).0.peer_manager
handle_rpc_req-Steps ext env payload s =
    by_service ext env s (λ r. Steps ext env s.ctx.group_key s.peer_manager r.0.peer_manager) done
      payload (λ packet d pc r. rw (center_reply-pm ext packet s pc r) done)
      (λ packet d body. handle_sync-Steps ext env s.ctx.group_key packet body s.ctx s.peer_manager)

-- What a request changes in the peer centers is that of the group of the client.
pub handle_rpc_req-center :
    (ext : Externals) (env : Ambient) (payload : Text) (s : RpcState)
    → SameBut s.ctx.group_key s.peer_center_map (handle_rpc_req ext env payload s).0.peer_center_map
handle_rpc_req-center ext env payload s =
    by_service ext env s (λ r. SameBut s.ctx.group_key s.peer_center_map r.0.peer_center_map)
      (λ other o. refl) payload (λ packet d pc r. center_reply-center ext packet s pc r)
      (λ packet d body other o. refl)

-- What a response changes is a sequence of calls on the group of the context.
pub handle_rpc_resp-Steps :
    (ext : Externals) (env : Ambient) (ctx : WsPeerContext) (from : ℕ) (payload : Text)
    (pm : PeerManager)
    → Steps ext env ctx.group_key pm (handle_rpc_resp ext env ctx from payload pm)
unfolding handle_rpc_resp
handle_rpc_resp-Steps ext env ctx from payload pm =
    elim (Option-cases (ext.rpc_packet.decode payload)) [
      | inl e ↦ rw (e, handle_rpc_resp) done
      | inr (p, e) ↦
          rw (e, handle_rpc_resp)
            (elim (Bool-cases (is_ospf_route (service_name p))) [
              | inr f ↦ rw f done
              | inl f ↦
                  rw f
                    (elim (Option-cases
                      (ext.sync_route_info_response.decode (service_resp_bytes ext p))) [
                        | inl d ↦ rw d done
                        | inr (r, d) ↦ rw d (elim (Bool-cases (r.session_id == 0)) [
                          | inl z ↦ rw z done
                          | inr z ↦
                              rw z (after pm _ done (acks from r.session_id ctx.we_are_initiator))
                        ])
                      ])
            ])
    ]

-- A request changes nothing of any group whose key is not the one of the client, neither its
-- routes nor its peer center.
handle_rpc_req_elsewhere :
    (ext : Externals) (env : Ambient) (payload : Text) (s : RpcState) (other : Text)
    → text_beq s.ctx.group_key other ≡ false
    → (HashMap.get other (handle_rpc_req ext env payload s).0.peer_manager.groups
        ≡ HashMap.get other s.peer_manager.groups)
      × (HashMap.get other (handle_rpc_req ext env payload s).0.peer_center_map
          ≡ HashMap.get other s.peer_center_map)
handle_rpc_req_elsewhere ext env payload s other h = (
  Steps-Stays ext env s.ctx.group_key _ _ (handle_rpc_req-Steps ext env payload s) other h,
  handle_rpc_req-center ext env payload s other h,
)
