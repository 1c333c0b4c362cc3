-- ===== src/Relay/Framing.antt =====
-- What src/relay_room.rs sends, event by event: packets of its own, and messages passed on.
use easytier_wsrelay.Base.{
  ℕ, ◌+◌, List, [], ◌∷◌, Option, none, some, ◌||◌, ◌&&◌, Text, drop, ◌==◌, refl, All, All-append,
  text_eq, Bool-cases, Option-cases, inl, inr,
}
use easytier_wsrelay.Constants.{PacketType, pong, header_size}
use easytier_wsrelay.Packet.{PacketHeader, parse_header, packet_type_enum}
use easytier_wsrelay.Relay.Lifecycle.{
  has_other_connection, websocket_close, is_dead, sweep, refresh_groups, count, alarm,
}
use easytier_wsrelay.PeerManager.{PeerManager}
use easytier_wsrelay.Handlers.{handle_ping}
use easytier_wsrelay.Relay.Room.{WsAttachment, Slot, attachment, Socket, Room, Runtime, slot_of}
use easytier_wsrelay.Relay.Delivery.{forward_message-IsSentTo}
use easytier_wsrelay.Relay.Dispatch.{dispatch_by}
use easytier_wsrelay.Relay.Message.{
  Incoming, binary, string, local_rpc_resp, on_ping, forward, dispatch, finish, current,
  websocket_message,
}
use easytier_wsrelay.Relay.Packets.{
  IsFramed, create_header-IsServerPacket, broadcast-IsFramed, send-IsFramed, local_rpc_req-IsFramed,
  on_handshake-IsFramed,
}

module _ (rt : Runtime) (bytes : Text) (ws : ℕ) where
  dispatch-IsFramed :
      (t : PacketType) (h : PacketHeader) (att : WsAttachment) (room : Room)
      → All (IsFramed (some bytes)) (dispatch rt ws t h bytes att room).effects
  unfolding on_ping local_rpc_resp forward handle_ping
  dispatch-IsFramed t h att room =
      let payload = drop header_size bytes in
      dispatch_by rt ws h bytes att room (λ r. All (IsFramed (some bytes)) r.effects)
        (send-IsFramed rt (some bytes) ws (handle_ping h.from_peer_id payload)
          (create_header-IsServerPacket h.from_peer_id pong payload refl))
        (local_rpc_req-IsFramed rt (some bytes) ws payload att room) tt
        (elim (forward_message-IsSentTo rt (attachment (slot_of ws room.sockets)) h.to_peer_id bytes
          room.sockets) [ inl e ↦ rw e tt | inr (w, e, found) ↦ rw e (inr refl, tt) ])
        t (λ e. on_handshake-IsFramed rt (some bytes) ws payload att room)

  message-IsFramed :
      (room : Room)
      → All (IsFramed (some bytes)) (websocket_message rt ws (binary bytes) room).effects
  unfolding websocket_message finish
  message-IsFramed room = elim (Option-cases (parse_header bytes)) [
    | inl e ↦ rw (e, websocket_message) tt
    | inr (h, e) ↦
        rw (e, websocket_message)
          (elim (Option-cases (current (slot_of ws room.sockets))) [
            | inl n ↦ rw n tt
            | inr (att, n) ↦
                let att' = record att { last_seen_ms = rt.env.now_ms } in
                let t = packet_type_enum h in
                let framed = dispatch-IsFramed t h att' room in
                let r = dispatch rt ws t h bytes att' room in
                rw n (elim (Bool-cases (r.ok && rt.storable r.att)) [
                  | inl ok ↦ rw (ok, finish) framed
                  | inr bad ↦ rw (bad, finish) framed
                ])
          ])
  ]

module _ (rt : Runtime) where
  close-IsFramed :
      (slot : Slot) (room : Room) → All (IsFramed none) (websocket_close rt slot room).effects
  unfolding websocket_close
  close-IsFramed slot room = elim (Option-cases (attachment slot)) [
    | inl e ↦ rw (e, websocket_close) tt
    | inr (att, e) ↦
        rw (e, websocket_close)
          (elim (Bool-cases (att.peer_id == 0 || has_other_connection att room.sockets)) [
            | inl t ↦ rw t tt
            | inr f ↦ rw f (broadcast-IsFramed rt none att.group_key att.peer_id 1 room.sockets _)
          ])
  ]

  refresh-IsFramed :
      (stride n : ℕ) (keys : List Text) (sockets : List Socket) (pm : PeerManager)
      → All (IsFramed none) (refresh_groups rt stride n keys sockets pm).1
  unfolding refresh_groups
  refresh-IsFramed stride n [] sockets pm = tt
  refresh-IsFramed stride n (k ∷ ks) sockets pm =
      All-append (IsFramed none) _ _ (broadcast-IsFramed rt none k 0 n sockets pm)
        (refresh-IsFramed stride (n + stride) ks sockets _)

  sweep-IsFramed :
      (now : ℕ) (sockets : List Socket) → All (IsFramed none) (sweep now sockets).effects
  unfolding sweep
  sweep-IsFramed now [] = tt
  sweep-IsFramed now (s ∷ ss) = elim (Option-cases (attachment s.slot)) [
    | inl e ↦ rw (e, sweep) (sweep-IsFramed now ss)
    | inr (att, e) ↦
        rw (e, sweep)
          (elim (Bool-cases (is_dead now att)) [
            | inl t ↦ rw t (tt, sweep-IsFramed now ss)
            | inr f ↦ rw f (sweep-IsFramed now ss)
          ])
  ]

  alarm-IsFramed : (room : Room) → All (IsFramed none) (alarm rt room).effects
  unfolding alarm
  alarm-IsFramed room =
      let swept = sweep-IsFramed rt.env.now_ms room.sockets in
      elim (Bool-cases ((sweep rt.env.now_ms room.sockets).alive_count == 0)) [
        | inl t ↦ rw (t, alarm) swept
        | inr f ↦
            rw (f, alarm)
              (All-append (IsFramed none) _ _ swept
                (refresh-IsFramed (count room.sockets) 0 _ room.sockets _))
      ]

-- What a message holds, where it is binary.
abbrev content : Incoming → Option Text
content (binary bytes) = some bytes
content (string text) = none

-- Whatever a client sends, each message that a room sends in return is the client's own,
-- unchanged, or a packet of the server: its header parses, names the server as the sender and one
-- of the types that the server makes, has no flags, and gives the length of what follows it in 32
-- bits. What a room sends when a socket closes or an alarm rings is of the second kind.
pub room-IsFramed :
    (rt : Runtime) (ws : ℕ) (message : Incoming) (slot : Slot) (room : Room)
    → All (IsFramed (content message)) (websocket_message rt ws message room).effects
      × All (IsFramed none) (websocket_close rt slot room).effects
      × All (IsFramed none) (alarm rt room).effects
unfolding websocket_message
room-IsFramed rt ws (string text) slot room =
    (tt, close-IsFramed rt slot room, alarm-IsFramed rt room)
room-IsFramed rt ws (binary bytes) slot room =
    (message-IsFramed rt bytes ws room, close-IsFramed rt slot room, alarm-IsFramed rt room)
