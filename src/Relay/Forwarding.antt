-- ===== src/Relay/Forwarding.antt =====
-- A packet for another peer reaches it (`websocket_message` of src/relay_room.rs).
use easytier_wsrelay.Base.{
  ◌&&◌, if◌then◌else◌, text_beq_iff, sym, ℕ, List, [], ◌∷◌, Option, some, Bool, true, false, not,
  Text, ◌≡◌, ◌≢◌, refl, ap, arith, All, text_eq, Bool-cases, inl, inr,
}
use mathlib.Core.Option.{some-injective}
use easytier_wsrelay.Constants.{
  PacketType, hand_shake, ping, rpc_req, rpc_resp, invalid, data_packet, route_packet, pong, ta_rpc,
  route, foreign_network_packet, kcp_src, kcp_dst, noise_handshake_msg1, noise_handshake_msg2,
  noise_handshake_msg3, quic_src, quic_dst, relay_handshake, relay_handshake_ack,
}
use easytier_wsrelay.Packet.{PacketHeader, parse_header, packet_type_enum}
use easytier_wsrelay.Relay.Room.{
  WsAttachment, Slot, stored, vacant, broken, attachment, Socket, Room, Effect, sent, Runtime,
  store, slot_of,
}
use easytier_wsrelay.Relay.Broadcast.{find_peer, is_foreign, forward_message}
use easytier_wsrelay.Relay.Found.{is_other, IsFirst, Found, nobody, first, find_peer-Found}
use easytier_wsrelay.Relay.Message.{
  current, binary, is_local, forward, dispatch, finish, websocket_message,
}

-- The packets that the server passes on: all but handshakes and pings, and RPC packets only where
-- they are for another peer.
abbrev pub is_forwarded : PacketType → PacketHeader → Bool
is_forwarded hand_shake h = false
is_forwarded ping h = false
is_forwarded rpc_req h = not (is_local h)
is_forwarded rpc_resp h = not (is_local h)
is_forwarded t h = true

-- The two are of groups that are known and not the same.
abbrev pub AreApart : WsAttachment → WsAttachment → Type 0
AreApart src dst = (src.group_key ≢ []) × ((dst.group_key ≢ []) × (src.group_key ≢ dst.group_key))

-- What becomes of a packet that is passed on: what is sent, and whether that succeeds.
pub data IsPassedOn (rt : Runtime) (src : WsAttachment) (target : ℕ) (bytes : Text)
    (sockets : List Socket) : List Effect → Bool → Type 0 where
  absent :
      All (λ (x : Socket). is_other target (attachment x.slot) ≡ true) sockets
      → IsPassedOn rt src target bytes sockets [] true
  barred :
      (s : Socket) (dst : WsAttachment)
      → IsFirst target s dst sockets
      → AreApart src dst
      → IsPassedOn rt src target bytes sockets [] true
  arrives :
      (s : Socket) (dst : WsAttachment)
      → IsFirst target s dst sockets
      → ¬ AreApart src dst
      → rt.sendable s.id ≡ true
      → IsPassedOn rt src target bytes sockets (sent s.id bytes ∷ []) true
  refused :
      (s : Socket) (dst : WsAttachment)
      → IsFirst target s dst sockets
      → ¬ AreApart src dst
      → rt.sendable s.id ≡ false
      → IsPassedOn rt src target bytes sockets [] false

is_foreign-current :
    (slot : Slot) (src dst : WsAttachment)
    → current slot ≡ some src
    → is_foreign (attachment slot) dst ≡ is_foreign (some src) dst
unfolding is_foreign
is_foreign-current broken src dst e = absurd (ground (arith, e))
is_foreign-current vacant src dst e = rw (sym (some-injective _ _ e)) refl
is_foreign-current (stored att) src dst e = ap (λ a. is_foreign a dst) e

is_foreign-AreApart : (src dst : WsAttachment) → is_foreign (some src) dst ≡ true → AreApart src dst
unfolding is_foreign
is_foreign-AreApart src dst e = (
  λ q. absurd (ground (arith, e, q)),
  (
    λ q. absurd (ground (arith, e, q)),
    λ q. absurd (ground (arith, e, text_beq_iff src.group_key dst.group_key, q)),
  ),
)

AreApart-is_foreign :
    (src dst : WsAttachment) → is_foreign (some src) dst ≡ false → ¬ AreApart src dst
unfolding is_foreign
AreApart-is_foreign src dst e a = ground (
  arith,
  e,
  a,
  text_beq_iff src.group_key [],
  text_beq_iff dst.group_key [],
  text_beq_iff src.group_key dst.group_key,
)

dispatch-forward :
    (rt : Runtime) (ws : ℕ) (t : PacketType) (h : PacketHeader) (bytes : Text) (att : WsAttachment)
    (room : Room)
    → is_forwarded t h ≡ true
    → dispatch rt ws t h bytes att room ≡ forward rt ws h bytes att room
unfolding dispatch
dispatch-forward rt ws hand_shake h bytes att room f = absurd (ground (arith, f))
dispatch-forward rt ws ping h bytes att room f = absurd (ground (arith, f))
dispatch-forward rt ws rpc_req h bytes att room f = elim (Bool-cases (is_local h)) [
  | inl t ↦ absurd (ground (arith, f, t))
  | inr n ↦ rw n refl
]
dispatch-forward rt ws rpc_resp h bytes att room f = elim (Bool-cases (is_local h)) [
  | inl t ↦ absurd (ground (arith, f, t))
  | inr n ↦ rw n refl
]
dispatch-forward rt ws invalid h bytes att room f = refl
dispatch-forward rt ws data_packet h bytes att room f = refl
dispatch-forward rt ws route_packet h bytes att room f = refl
dispatch-forward rt ws pong h bytes att room f = refl
dispatch-forward rt ws ta_rpc h bytes att room f = refl
dispatch-forward rt ws route h bytes att room f = refl
dispatch-forward rt ws foreign_network_packet h bytes att room f = refl
dispatch-forward rt ws kcp_src h bytes att room f = refl
dispatch-forward rt ws kcp_dst h bytes att room f = refl
dispatch-forward rt ws noise_handshake_msg1 h bytes att room f = refl
dispatch-forward rt ws noise_handshake_msg2 h bytes att room f = refl
dispatch-forward rt ws noise_handshake_msg3 h bytes att room f = refl
dispatch-forward rt ws quic_src h bytes att room f = refl
dispatch-forward rt ws quic_dst h bytes att room f = refl
dispatch-forward rt ws relay_handshake h bytes att room f = refl
dispatch-forward rt ws relay_handshake_ack h bytes att room f = refl

forward_message-IsPassedOn :
    (rt : Runtime) (slot : Slot) (src : WsAttachment) (target : ℕ) (bytes : Text)
    (sockets : List Socket) (o : Option (ℕ × WsAttachment))
    → current slot ≡ some src
    → find_peer target sockets ≡ o
    → Found target sockets o
    → let r = forward_message rt (attachment slot) target bytes sockets in
      IsPassedOn rt src target bytes sockets r.0 r.1
unfolding forward_message
forward_message-IsPassedOn rt slot src target bytes sockets _ e o (nobody all) =
    rw (o, forward_message) (absent all)
forward_message-IsPassedOn rt slot src target bytes sockets _ e o (first s dst f) =
    rw (o, forward_message)
      (rw (is_foreign-current slot src dst e) (elim (Bool-cases (is_foreign (some src) dst)) [
        | inl t ↦ rw t (barred s dst f (is_foreign-AreApart src dst t))
        | inr n ↦ rw n (elim (Bool-cases (rt.sendable s.id)) [
          | inl u ↦ rw u (arrives s dst f (AreApart-is_foreign src dst n) u)
          | inr u ↦ rw u (refused s dst f (AreApart-is_foreign src dst n) u)
        ])
      ]))

forward-IsPassedOn :
    (rt : Runtime) (ws : ℕ) (h : PacketHeader) (bytes : Text) (att src : WsAttachment) (room : Room)
    → current (slot_of ws room.sockets) ≡ some src
    → let r = forward rt ws h bytes att room in
      IsPassedOn rt src h.to_peer_id bytes room.sockets r.effects r.ok
unfolding forward
forward-IsPassedOn rt ws h bytes att src room e =
    forward_message-IsPassedOn rt (slot_of ws room.sockets) src h.to_peer_id bytes room.sockets _ e
      refl (find_peer-Found h.to_peer_id room.sockets)

finish-outcome :
    (rt : Runtime) (ws : ℕ) (h : PacketHeader) (bytes : Text) (att : WsAttachment) (room : Room)
    → let r = forward rt ws h bytes att room in
      let out = finish rt ws r in
      (out.effects ≡ r.effects)
      × ((out.ok ≡ (r.ok && rt.storable att))
          × (out.room ≡ record room {
            sockets = if out.ok then store ws att room.sockets else room.sockets;
          }))
unfolding finish forward
finish-outcome rt ws h bytes att room = ground arith

-- A packet that is to be passed on, from a socket whose attachment can be read, is decided
-- by the first socket of the target peer and by no later one. It is sent as it is to that socket,
-- unless both groups are known and differ: then it is dropped, as it is where the peer has no
-- socket. The handler fails where the socket does not take it, or the sender's attachment cannot be
-- stored with the time of the packet; otherwise it is stored. Nothing else is sent or closed, and
-- the routes and the other attachments stay.
pub websocket_message_forwards :
    (rt : Runtime) (ws : ℕ) (bytes : Text) (room : Room) (h : PacketHeader) (src : WsAttachment)
    → parse_header bytes ≡ some h
    → is_forwarded (packet_type_enum h) h ≡ true
    → current (slot_of ws room.sockets) ≡ some src
    → let r = websocket_message rt ws (binary bytes) room in
      let now = record src { last_seen_ms = rt.env.now_ms } in
      (passed : Bool) × IsPassedOn rt src h.to_peer_id bytes room.sockets r.effects passed
      × (r.ok ≡ (passed && rt.storable now))
      × (r.room
          ≡ record room { sockets = if r.ok then store ws now room.sockets else room.sockets })
unfolding websocket_message
websocket_message_forwards rt ws bytes room h src p f q =
    let now = record src { last_seen_ms = rt.env.now_ms } in
    let out = finish-outcome rt ws h bytes now room in
    rw (p, websocket_message)
      (rw q (
        rw (dispatch-forward rt ws (packet_type_enum h) h bytes now room f)
          (_, rw out.0 (forward-IsPassedOn rt ws h bytes now src room q), out.1.0, out.1.1)))
