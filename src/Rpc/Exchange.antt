-- ===== src/Rpc/Exchange.antt =====
-- What src/rpc_handler.rs does in return for a sync request that decodes.
use easytier_wsrelay.Base.{
  ℕ, List, some, Bool, true, false, ◌||◌, Text, ◌==◌, ◌≡◌, refl, text_eq, nat_eq,
}
use mathlib.Core.Path.{subst}
use easytier_wsrelay.Proto.{RpcPacket, SyncRouteInfoRequest, SyncRouteInfoResponse, Externals}
use easytier_wsrelay.Proto.Ambient.{Ambient}
use easytier_wsrelay.Route.Group.{ensure_group, put_group}
use easytier_wsrelay.Route.Sync as RouteSync
use easytier_wsrelay.Route.Sync.{group_handle_sync}
use easytier_wsrelay.PeerManager.{PeerManager, WsPeerContext}
use easytier_wsrelay.Rpc.{
  RpcAction, RpcState, handle_rpc_req, handle_ospf_route, handle_sync_route_info, absorb,
  answer_sync, sync_actions, ensure_session_id, is_peer_center, is_ospf_route, service_name,
  method_index, inner_req_body,
}
use easytier_wsrelay.Rpc.Answers.{peer_id-ensure_session_id}

-- The payload of an RPC packet for the route service, with a sync request that decodes.
pub record IsSyncRequest (ext : Externals) (payload : Text) (packet : RpcPacket)
    (req : SyncRouteInfoRequest) : Type 0 where
  pub decodes : ext.rpc_packet.decode payload ≡ some packet
  pub for_routes : is_ospf_route (service_name packet) ≡ true
  pub not_center : is_peer_center (service_name packet) ≡ false
  pub for_sync : (method_index packet == 0 || method_index packet == 1) ≡ true
  pub requests : ext.sync_route_info_request.decode (inner_req_body ext packet) ≡ some req

-- The response of the route state to a request of a peer.
abbrev pub sync_response :
    Ambient → Text → ℕ → SyncRouteInfoRequest → PeerManager → SyncRouteInfoResponse
sync_response env key p req pm = (group_handle_sync env p req (ensure_group env pm key)).1

-- The actions are those of an answer to the peer, with that response.
abbrev pub IsSyncAnswer :
    Externals
    → Ambient
    → RpcPacket
    → Text
    → ℕ
    → SyncRouteInfoRequest
    → PeerManager
    → List RpcAction
    → Type 0
IsSyncAnswer ext env packet key p req pm actions =
    (changed : Bool) × (actions
      ≡ sync_actions ext packet key p changed
          (ext.sync_route_info_response.encode (sync_response env key p req pm)))

-- The routes after the first part of the handler, which takes in what a request reports.
abbrev pub reported :
    Externals → Ambient → RpcPacket → SyncRouteInfoRequest → RpcState → PeerManager
reported ext env packet req s =
    (absorb ext env s.ctx.group_key (inner_req_body ext packet) req (ensure_session_id env s.ctx)
      s.peer_manager).1

module _ (ext : Externals) (env : Ambient) (packet : RpcPacket) (key : Text) where
  module _ (body : Text) (req : SyncRouteInfoRequest)
      (e : ext.sync_route_info_request.decode body ≡ some req) where
    pub synced :
        (from : ℕ) (pm : PeerManager)
        → let r = group_handle_sync env from req (ensure_group env pm key) in
          RouteSync.handle_sync_route_info_request ext env key from body pm
          ≡ some (put_group key r.0 pm, ext.sync_route_info_response.encode r.1)
    unfolding RouteSync.handle_sync_route_info_request
    synced from pm = rw e refl

    answer_sync-IsSyncAnswer :
        (changed : Bool) (ctx : WsPeerContext) (pm : PeerManager)
        → IsSyncAnswer ext env packet key ctx.peer_id req pm
            (answer_sync ext env packet body key changed ctx pm).1
    unfolding answer_sync
    answer_sync-IsSyncAnswer changed ctx pm =
        rw (synced ctx.peer_id pm, answer_sync) (changed, refl)

    handle_sync-IsSyncAnswer :
        (ctx : WsPeerContext) (pm : PeerManager)
        → IsSyncAnswer ext env packet key ctx.peer_id req
            (absorb ext env key body req (ensure_session_id env ctx) pm).1
            (handle_sync_route_info ext env packet body key ctx pm).2
    unfolding handle_sync_route_info
    handle_sync-IsSyncAnswer ctx pm =
        let ctx' = ensure_session_id env ctx in
        let a = absorb ext env key body req ctx' pm in
        rw (e, handle_sync_route_info)
          (subst
            (λ p.
              IsSyncAnswer ext env packet key p req a.1
                (answer_sync ext env packet body key a.2 a.0 a.1).1)
            (peer_id-ensure_session_id env ctx) (answer_sync-IsSyncAnswer a.2 a.0 a.1))

-- A sync request that decodes is always answered.
pub handle_rpc_req-IsSyncAnswer :
    (ext : Externals) (env : Ambient) (payload : Text) (packet : RpcPacket)
    (req : SyncRouteInfoRequest) (s : RpcState)
    → IsSyncRequest ext payload packet req
    → IsSyncAnswer ext env packet s.ctx.group_key s.ctx.peer_id req
        (reported ext env packet req s)
        (handle_rpc_req ext env payload s).1
unfolding handle_rpc_req handle_ospf_route
handle_rpc_req-IsSyncAnswer ext env payload packet req s q =
    rw (q.decodes, handle_rpc_req)
      (rw (q.not_center, q.for_routes)
        (rw q.for_sync (
          handle_sync-IsSyncAnswer ext env packet s.ctx.group_key (inner_req_body ext packet) req
            q.requests s.ctx s.peer_manager)))
