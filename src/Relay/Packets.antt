-- ===== src/Relay/Packets.antt =====
-- The packets that src/relay_room.rs makes have a header that fits them.
use easytier_wsrelay.Base.{
  ℕ, suc, List, [], ◌∷◌, ◌++◌, Option, none, some, Bool, true, false, Text, length, drop, ◌≡◌, ◌⊎◌,
  refl, sym, ap, ◌∙◌, arith, All, All-append, text_eq, Bool-cases, Option-cases, inl, inr,
}
use mathlib.Core.Path.{subst}
use easytier_wsrelay.Base.Words.{wrap32, to_le_bytes}
use easytier_wsrelay.Constants.{
  PacketType, hand_shake, pong, rpc_req, rpc_resp, my_peer_id, header_size,
}
use easytier_wsrelay.Packet.{PacketHeader, parse_header, packet_type_enum, create_header, to_bytes}
use easytier_wsrelay.Packet.Header.{parse_header-create_header}
use easytier_wsrelay.Crypto.Wrap.{wrap_packet, default_crypto}
use easytier_wsrelay.Crypto.Frames.{wrap_packet-default}
use easytier_wsrelay.Proto.{Externals}
use easytier_wsrelay.Handlers.Handshake.{response_bytes-handle_handshake}
use easytier_wsrelay.PeerManager.{PeerManager}
use easytier_wsrelay.Handlers.{HandshakeOutcome, handle_handshake, response_packet}
use easytier_wsrelay.Rpc.{
  RpcAction, send_to, push_route_update, broadcast_route_update, no_action, handle_rpc_req,
}
use easytier_wsrelay.Relay.Room.{
  WsAttachment, attachment, Socket, Room, Effect, sent, closed, Runtime, attachment_to_ctx,
}
use easytier_wsrelay.Relay.Broadcast.{broadcast, is_addressed, update_packet}
use easytier_wsrelay.Relay.Message.{
  announce, joined_attachment, welcome, on_handshake, send, perform, perform_all, local_rpc_req,
}

-- The types of the packets that the server makes.
abbrev pub is_server_type : PacketType → Bool
is_server_type hand_shake = true
is_server_type pong = true
is_server_type rpc_req = true
is_server_type rpc_resp = true
is_server_type t = false

-- A packet of the server: its header parses, names the server and one of its types, has no flags,
-- and gives the length of what follows it.
abbrev pub IsServerPacket : Text → Type 0
IsServerPacket bytes =
    (h : PacketHeader) × (parse_header bytes ≡ some h)
    × (h.from_peer_id ≡ my_peer_id)
    × (is_server_type (packet_type_enum h) ≡ true)
    × (h.flags ≡ 0)
    × (h.len ≡ wrap32 (length (drop header_size bytes)))

-- A message that is passed on, unchanged.
abbrev pub IsPassedOn : Option Text → Text → Type 0
IsPassedOn none message = ⊥
IsPassedOn (some bytes) message = message ≡ bytes

-- A message that is sent is a packet of the server, or the given one, if there is one.
abbrev pub IsFramed : Option Text → Effect → Type 0
IsFramed from (sent w message) = IsServerPacket message ⊎ IsPassedOn from message
IsFramed from (closed w) = Unit

create_header-wrap32 :
    (from to payload_len : ℕ) (t : PacketType)
    → create_header from (wrap32 to) t payload_len ≡ create_header from to t payload_len
unfolding create_header to_bytes to_le_bytes
create_header-wrap32 from to payload_len t = ground arith

pub create_header-IsServerPacket :
    (to : ℕ) (t : PacketType) (payload : Text)
    → is_server_type t ≡ true
    → IsServerPacket (create_header my_peer_id to t (wrap32 (length payload)) ++ payload)
create_header-IsServerPacket to t payload s =
    let n = wrap32 (length payload) in
    let (h, parsed, from, dest, len, flags, is_type) =
      parse_header-create_header my_peer_id (wrap32 to) n t payload (omega arith) (omega arith)
        (omega arith) in
    (
      h,
      subst (λ x. parse_header (x ++ payload) ≡ some h) (create_header-wrap32 my_peer_id to n t)
          parsed,
      from,
      rw is_type s,
      flags,
      len ∙ ap (λ x. wrap32 (length x)) (rest to n),
    )
  where
    rest : (d n : ℕ) → payload ≡ drop header_size (create_header my_peer_id d t n ++ payload)
    rest d n = unfold create_header to_bytes to_le_bytes in refl

response-IsServerPacket :
    (ext : Externals) (peer_id : ℕ) → IsServerPacket (response_packet ext peer_id)
unfolding response_packet
response-IsServerPacket ext peer_id = create_header-IsServerPacket peer_id hand_shake _ refl

-- All that a socket is sent by one of the server's sends.
module _ (rt : Runtime) (from : Option Text) where
  pub broadcast-IsFramed :
      (key : Text) (exclude n : ℕ) (sockets : List Socket) (pm : PeerManager)
      → All (IsFramed from) (broadcast rt key exclude n sockets pm).1
  unfolding broadcast update_packet
  broadcast-IsFramed key exclude n [] pm = tt
  broadcast-IsFramed key exclude n (s ∷ ss) pm = elim (Option-cases (attachment s.slot)) [
    | inl e ↦ rw (e, broadcast) (broadcast-IsFramed key exclude (suc n) ss pm)
    | inr (att, e) ↦
        rw (e, broadcast)
          (elim (Bool-cases (is_addressed key exclude att)) [
            | inr f ↦ rw f (broadcast-IsFramed key exclude (suc n) ss pm)
            | inl t ↦ rw t (elim (Bool-cases (rt.sendable s.id)) [
              | inr u ↦ rw u (broadcast-IsFramed key exclude (suc n) ss _)
              | inl u ↦ rw u (
                inl (create_header-IsServerPacket att.peer_id rpc_req _ refl),
                broadcast-IsFramed key exclude (suc n) ss _,
              )
            ])
          ])
  ]

  module _ (ws : ℕ) where
    pub send-IsFramed :
        (message : Text)
        → IsServerPacket message
        → All (IsFramed from) (send rt ws (some message)).0
    unfolding send
    send-IsFramed message p = elim (Bool-cases (rt.sendable ws)) [
      | inl t ↦ rw t (inl p, tt)
      | inr f ↦ rw f tt
    ]

    wrap-IsFramed :
        (to : ℕ) (t : PacketType) (payload : Text)
        → is_server_type t ≡ true
        → All
            (IsFramed from)
            (send rt ws (wrap_packet rt.cipher [] my_peer_id to t payload default_crypto)).0
    wrap-IsFramed to t payload s =
        rw (wrap_packet-default rt.cipher [] my_peer_id to t payload)
          (send-IsFramed _ (create_header-IsServerPacket to t payload s))

    perform-IsFramed :
        (att : WsAttachment) (a : RpcAction) (room : Room)
        → All (IsFramed from) (perform rt ws att a room).1
    unfolding perform
    perform-IsFramed att (send_to p body) room = wrap-IsFramed att.peer_id rpc_resp body refl
    perform-IsFramed att (push_route_update p k) room = wrap-IsFramed p rpc_req _ refl
    perform-IsFramed att (broadcast_route_update k p) room =
        broadcast-IsFramed k p 2 room.sockets room.global.peer_manager
    perform-IsFramed att no_action room = tt

    perform_all-IsFramed :
        (att : WsAttachment) (actions : List RpcAction) (room : Room)
        → All (IsFramed from) (perform_all rt ws att actions room).1
    unfolding perform_all
    perform_all-IsFramed att [] room = tt
    perform_all-IsFramed att (a ∷ more) room =
        let one = perform rt ws att a room in
        elim (Bool-cases one.2) [
          | inr f ↦ rw (f, perform_all) (perform-IsFramed att a room)
          | inl t ↦
              rw (t, perform_all)
                (All-append (IsFramed from) one.1 _ (perform-IsFramed att a room)
                  (perform_all-IsFramed att more one.0))
        ]

    welcome-IsFramed :
        (o : HandshakeOutcome) (att : WsAttachment) (room : Room)
        → IsServerPacket o.response_bytes
        → All (IsFramed from) (welcome rt ws o att room).effects
    unfolding welcome announce
    welcome-IsFramed o att room p = elim (Bool-cases (rt.storable (joined_attachment o att))) [
      | inr n ↦ rw (n, welcome) tt
      | inl s ↦ elim (Bool-cases (rt.sendable ws)) [
        | inl t ↦ rw (s, t, welcome) (inl p, broadcast-IsFramed o.group_key 0 1 _ _)
        | inr f ↦ rw (s, f, welcome) tt
      ]
    ]

    pub on_handshake-IsFramed :
        (payload : Text) (att : WsAttachment) (room : Room)
        → All (IsFramed from) (on_handshake rt ws payload att room).effects
    unfolding on_handshake
    on_handshake-IsFramed payload att room =
        elim (Option-cases
          (handle_handshake rt.ext payload room.global.network_digest_registry).1) [
            | inl e ↦ rw (e, on_handshake) (tt, tt)
            | inr (o, e) ↦
                rw (e, on_handshake)
                  (welcome-IsFramed o att _ (
                    subst IsServerPacket
                      (sym (response_bytes-handle_handshake rt.ext payload _ o e))
                      (response-IsServerPacket rt.ext o.peer_id)))
          ]

    pub local_rpc_req-IsFramed :
        (payload : Text) (att : WsAttachment) (room : Room)
        → All (IsFramed from) (local_rpc_req rt ws payload att room).effects
    unfolding local_rpc_req
    local_rpc_req-IsFramed payload att room =
        let r = handle_rpc_req rt.ext rt.env payload (record {
          ctx = attachment_to_ctx (rt.env.session_id 0) att;
          peer_manager = room.global.peer_manager;
          peer_center_map = room.global.peer_center_map;
        }) in
        perform_all-IsFramed att r.1 (record room {
          global = record room.global {
            peer_manager = r.0.peer_manager;
            peer_center_map = r.0.peer_center_map;
          };
        })
