-- ===== src/Rpc/Answers.antt =====
-- Whom the RPC handlers of src/rpc_handler.rs answer, and with what.
use easytier_wsrelay.Base.{
  ℕ, Option, none, some, Bool, true, false, Text, ◌≡◌, refl, text_eq, nat_eq, arith, All,
  Option-cases, inl, inr,
}
use mathlib.Core.Path.{subst}
use easytier_wsrelay.Proto.{RpcPacket, Externals}
use easytier_wsrelay.Proto.Ambient.{Ambient}
use easytier_wsrelay.Route.Sync as RouteSync
use easytier_wsrelay.PeerCenter.{PeerCenter}
use easytier_wsrelay.PeerManager.{PeerManager, WsPeerContext}
use easytier_wsrelay.Rpc.{
  RpcAction, send_to, push_route_update, broadcast_route_update, no_action, RpcState,
  handle_rpc_req, handle_sync_route_info, absorb, answer_sync, sync_actions, center_reply,
  ensure_session_id, build_rpc_response_bytes, response_packet,
}
use easytier_wsrelay.Rpc.Services.{by_service}
use easytier_wsrelay.Constants.{my_peer_id}

pub peer_id-ensure_session_id :
    (env : Ambient) (ctx : WsPeerContext) → (ensure_session_id env ctx).peer_id ≡ ctx.peer_id
unfolding ensure_session_id
peer_id-ensure_session_id env ctx = ground arith

-- The bytes of a packet that answers the request `payload`: it goes from the server to the client,
-- is no request, and has the request's transaction, trace and service.
abbrev pub IsReply : Externals → Text → ℕ → Text → Type 0
IsReply ext payload peer_id bytes =
    (req : RpcPacket) × (reply : RpcPacket) × (ext.rpc_packet.decode payload ≡ some req)
    × (bytes ≡ ext.rpc_packet.encode reply)
    × (reply.from_peer ≡ my_peer_id)
    × (reply.to_peer ≡ peer_id)
    × (reply.is_request ≡ false)
    × (reply.transaction_id ≡ req.transaction_id)
    × (reply.trace_id ≡ req.trace_id)
    × (reply.descriptor ≡ req.descriptor)

-- An action that answers the request of a peer, or tells the others of its group.
abbrev pub IsAnswer : Externals → Text → ℕ → Text → RpcAction → Type 0
IsAnswer ext payload peer_id group_key (send_to p bytes) =
    (p ≡ peer_id) × IsReply ext payload peer_id bytes
IsAnswer ext payload peer_id group_key (push_route_update p k) = (p ≡ peer_id) × (k ≡ group_key)
IsAnswer ext payload peer_id group_key (broadcast_route_update k p) =
    (p ≡ peer_id) × (k ≡ group_key)
IsAnswer ext payload peer_id group_key no_action = Unit

module _ (ext : Externals) (payload : Text) (packet : RpcPacket)
    (decoded : ext.rpc_packet.decode payload ≡ some packet) where
  pub build_rpc_response_bytes-IsReply :
      (response : Text) (peer_id : ℕ)
      → IsReply ext payload peer_id (build_rpc_response_bytes ext packet response peer_id)
  unfolding build_rpc_response_bytes response_packet
  build_rpc_response_bytes-IsReply response peer_id = (
    packet,
    response_packet ext packet response peer_id,
    decoded,
    refl,
    refl,
    refl,
    refl,
    refl,
    refl,
    refl,
  )

  center_reply-IsAnswer :
      (s : RpcState) (pc : PeerCenter) (r : Option (PeerCenter × Text))
      → All (IsAnswer ext payload s.ctx.peer_id s.ctx.group_key) (center_reply ext packet s pc r).1
  unfolding center_reply
  center_reply-IsAnswer s pc none = tt
  center_reply-IsAnswer s pc (some r) =
      ((refl, build_rpc_response_bytes-IsReply r.1 s.ctx.peer_id), tt)

  sync_actions-IsAnswer :
      (key : Text) (p : ℕ) (changed : Bool) (resp : Text)
      → All (IsAnswer ext payload p key) (sync_actions ext packet key p changed resp)
  unfolding sync_actions
  sync_actions-IsAnswer key p true resp =
      ((refl, build_rpc_response_bytes-IsReply resp p), ((refl, refl), ((refl, refl), tt)))
  sync_actions-IsAnswer key p false resp =
      ((refl, build_rpc_response_bytes-IsReply resp p), ((refl, refl), tt))

  module _ (env : Ambient) (body key : Text) where
    answer_sync-IsAnswer :
        (changed : Bool) (ctx : WsPeerContext) (pm : PeerManager)
        → All
            (IsAnswer ext payload ctx.peer_id key)
            (answer_sync ext env packet body key changed ctx pm).1
    unfolding answer_sync
    answer_sync-IsAnswer changed ctx pm =
        elim (Option-cases
          (RouteSync.handle_sync_route_info_request ext env key ctx.peer_id body pm)) [
            | inl e ↦ rw (e, answer_sync) tt
            | inr (r, e) ↦ rw (e, answer_sync) (sync_actions-IsAnswer key ctx.peer_id changed r.1)
          ]

    handle_sync-IsAnswer :
        (ctx : WsPeerContext) (pm : PeerManager)
        → All
            (IsAnswer ext payload ctx.peer_id key)
            (handle_sync_route_info ext env packet body key ctx pm).2
    unfolding handle_sync_route_info
    handle_sync-IsAnswer ctx pm =
        let ctx' = ensure_session_id env ctx in
        let same : ctx'.peer_id ≡ ctx.peer_id = peer_id-ensure_session_id env ctx in
        elim (Option-cases (ext.sync_route_info_request.decode body)) [
          | inl e ↦
              rw (e, handle_sync_route_info)
                (subst
                  (λ p.
                    All (IsAnswer ext payload p key)
                      (answer_sync ext env packet body key false ctx' pm).1)
                  same (answer_sync-IsAnswer false ctx' pm))
          | inr (req, e) ↦
              let a = absorb ext env key body req ctx' pm in
              rw (e, handle_sync_route_info)
                (subst
                  (λ p.
                    All (IsAnswer ext payload p key)
                      (answer_sync ext env packet body key a.2 a.0 a.1).1)
                  same (answer_sync-IsAnswer a.2 a.0 a.1))
        ]

-- Whatever a request holds, its answers go to the client that sent it: each is the encoding of a
-- packet from the server to that client that is no request and has the transaction, the trace and
-- the service of the decoded request. Its route updates go to that client and the others of its
-- group.
pub handle_rpc_req-IsAnswer :
    (ext : Externals) (env : Ambient) (payload : Text) (s : RpcState)
    → All (IsAnswer ext payload s.ctx.peer_id s.ctx.group_key) (handle_rpc_req ext env payload s).1
handle_rpc_req-IsAnswer ext env payload s =
    by_service ext env s (λ r. All (IsAnswer ext payload s.ctx.peer_id s.ctx.group_key) r.1) tt
      payload (λ packet e pc r. center_reply-IsAnswer ext payload packet e s pc r)
      (λ packet e body.
        handle_sync-IsAnswer ext payload packet e env body s.ctx.group_key s.ctx s.peer_manager)
