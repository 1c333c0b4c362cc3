-- ===== src/Relay/Dispatch.antt =====
-- The cases of a message in src/relay_room.rs, by the type of its packet.
use easytier_wsrelay.Base.{ℕ, Text, drop, ◌≡◌, refl, Bool-cases, inl, inr}
use easytier_wsrelay.Constants.{
  header_size, PacketType, hand_shake, ping, rpc_req, rpc_resp, invalid, data_packet, route_packet,
  pong, ta_rpc, route, foreign_network_packet, kcp_src, kcp_dst, noise_handshake_msg1,
  noise_handshake_msg2, noise_handshake_msg3, quic_src, quic_dst, relay_handshake,
  relay_handshake_ack,
}
use easytier_wsrelay.Packet.{PacketHeader}
use easytier_wsrelay.Relay.Room.{WsAttachment, Room, Runtime}
use easytier_wsrelay.Relay.Message.{
  Handled, on_handshake, on_ping, local_rpc_req, local_rpc_resp, forward, dispatch, is_local,
}

-- A property of what a packet leads to, from that of each handler.
module _ (rt : Runtime) (ws : ℕ) (h : PacketHeader) (bytes : Text) (att : WsAttachment)
    (room : Room) (P : Handled → Type 0)
    (pings : P (on_ping rt ws h (drop header_size bytes) att room))
    (requests : P (local_rpc_req rt ws (drop header_size bytes) att room))
    (responds : P (local_rpc_resp rt h (drop header_size bytes) att room))
    (passes : P (forward rt ws h bytes att room)) where
  pub dispatch_by :
      (t : PacketType)
      → (t ≡ hand_shake → P (on_handshake rt ws (drop header_size bytes) att room))
      → P (dispatch rt ws t h bytes att room)
  unfolding dispatch
  dispatch_by hand_shake shakes = shakes refl
  dispatch_by ping shakes = pings
  dispatch_by rpc_req shakes = elim (Bool-cases (is_local h)) [
    | inl t ↦ rw (t, dispatch) requests
    | inr f ↦ rw (f, dispatch) passes
  ]
  dispatch_by rpc_resp shakes = elim (Bool-cases (is_local h)) [
    | inl t ↦ rw (t, dispatch) responds
    | inr f ↦ rw (f, dispatch) passes
  ]
  dispatch_by invalid shakes = passes
  dispatch_by data_packet shakes = passes
  dispatch_by route_packet shakes = passes
  dispatch_by pong shakes = passes
  dispatch_by ta_rpc shakes = passes
  dispatch_by route shakes = passes
  dispatch_by foreign_network_packet shakes = passes
  dispatch_by kcp_src shakes = passes
  dispatch_by kcp_dst shakes = passes
  dispatch_by noise_handshake_msg1 shakes = passes
  dispatch_by noise_handshake_msg2 shakes = passes
  dispatch_by noise_handshake_msg3 shakes = passes
  dispatch_by quic_src shakes = passes
  dispatch_by quic_dst shakes = passes
  dispatch_by relay_handshake shakes = passes
  dispatch_by relay_handshake_ack shakes = passes
