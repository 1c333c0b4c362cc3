-- ===== src/Rpc/Services.antt =====
-- The services that an RPC request of src/rpc_handler.rs may be for.
use easytier_wsrelay.Base.{
  List, [], Option, none, some, ◌||◌, Text, unwrap_or, ◌==◌, ◌≡◌, text_eq, nat_eq, Bool-cases,
  Option-cases, inl, inr,
}
use easytier_wsrelay.Base.HashMap
use easytier_wsrelay.Base.HashMap.{HashMap, get-insert}
use easytier_wsrelay.Proto.{RpcPacket, Externals}
use easytier_wsrelay.Proto.Ambient.{Ambient}
use easytier_wsrelay.PeerCenter
use easytier_wsrelay.PeerCenter.{PeerCenter}
use easytier_wsrelay.Rpc.{
  RpcAction, RpcState, handle_rpc_req, handle_peer_center, handle_ospf_route,
  handle_sync_route_info, center_reply, is_peer_center, is_ospf_route, service_name, method_index,
}

-- A property of what a request leads to, from that of each of its outcomes.
module _ {ℓ} (ext : Externals) (env : Ambient) (s : RpcState)
    (P : RpcState × List RpcAction → Type ℓ) (ignored : P (s, [])) (payload : Text)
    (center : (packet : RpcPacket)
      → ext.rpc_packet.decode payload ≡ some packet
      → (pc : PeerCenter) (r : Option (PeerCenter × Text)) → P (center_reply ext packet s pc r))
    (routes : (packet : RpcPacket)
      → ext.rpc_packet.decode payload ≡ some packet
      → (body : Text)
      → let r = handle_sync_route_info ext env packet body s.ctx.group_key s.ctx s.peer_manager in
        P (record s { ctx = r.0; peer_manager = r.1 }, r.2)) where
  by_method :
      (packet : RpcPacket)
      → ext.rpc_packet.decode payload ≡ some packet
      → P (handle_peer_center ext env packet s)
  unfolding handle_peer_center
  by_method packet d = elim (Bool-cases (method_index packet == 0)) [
    | inl e ↦ rw e (center packet d _ _)
    | inr e ↦ rw e (elim (Bool-cases (method_index packet == 1)) [
      | inl f ↦ rw f (center packet d _ _)
      | inr f ↦ rw f (
          center packet d (unwrap_or (HashMap.get s.ctx.group_key s.peer_center_map) PeerCenter.new)
            none)
    ])
  ]

  by_route :
      (packet : RpcPacket)
      → ext.rpc_packet.decode payload ≡ some packet
      → P (handle_ospf_route ext env packet s)
  unfolding handle_ospf_route
  by_route packet d = elim (Bool-cases (method_index packet == 0 || method_index packet == 1)) [
    | inl e ↦ rw e (routes packet d _)
    | inr e ↦ rw e ignored
  ]

  pub by_service : P (handle_rpc_req ext env payload s)
  unfolding handle_rpc_req
  by_service = elim (Option-cases (ext.rpc_packet.decode payload)) [
    | inl e ↦ rw (e, handle_rpc_req) ignored
    | inr (packet, e) ↦
        rw (e, handle_rpc_req)
          (elim (Bool-cases (is_peer_center (service_name packet))) [
            | inl f ↦ rw f (by_method packet e)
            | inr f ↦ rw f (elim (Bool-cases (is_ospf_route (service_name packet))) [
              | inl g ↦ rw g (by_route packet e)
              | inr g ↦ rw g ignored
            ])
          ])
  ]
