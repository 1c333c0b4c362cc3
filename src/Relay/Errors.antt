-- ===== src/Relay/Errors.antt =====
-- When the message handler of src/relay_room.rs returns an `Err`.
use easytier_wsrelay.Base.{
  ℕ, List, [], ◌∷◌, Option, none, some, true, false, if◌then◌else◌, Text, drop, ◌==◌, ◌≡◌, refl,
  arith, All, text_eq, Option-cases, Bool-cases, inl, inr,
}
use easytier_wsrelay.Constants.{header_size, hand_shake, PacketType}
use easytier_wsrelay.Packet.{PacketHeader, parse_header, packet_type_enum}
use easytier_wsrelay.Handlers.{HandshakeOutcome, handle_handshake, handle_ping}
use easytier_wsrelay.Rpc.{
  RpcAction, send_to, push_route_update, broadcast_route_update, no_action, handle_rpc_req,
}
use easytier_wsrelay.Relay.Room.{
  WsAttachment, attachment, Socket, Room, Runtime, attachment_to_ctx, slot_of,
}
use easytier_wsrelay.Relay.Broadcast.{find_peer, is_foreign, forward_message}
use easytier_wsrelay.Relay.Members.{is_hand_shake}
use easytier_wsrelay.Relay.Dispatch.{dispatch_by}
use easytier_wsrelay.Relay.Message.{
  Handled, joined_attachment, Incoming, binary, string, welcome, on_handshake, send, perform,
  perform_all, local_rpc_req, local_rpc_resp, on_ping, forward, dispatch, finish, current,
  websocket_message,
}

-- Every listed socket takes a message.
abbrev pub AllSendable : Runtime → List Socket → Type 0
AllSendable rt = All (λ (s : Socket). rt.sendable s.id ≡ true)

find_peer-sendable :
    (rt : Runtime) (target : ℕ) (sockets : List Socket) (found : ℕ × WsAttachment)
    → AllSendable rt sockets
    → find_peer target sockets ≡ some found
    → rt.sendable found.0 ≡ true
unfolding find_peer
find_peer-sendable rt target [] found a e = absurd (ground (arith, e))
find_peer-sendable rt target (s ∷ ss) found a e = elim (Option-cases (attachment s.slot)) [
  | inl n ↦ find_peer-sendable rt target ss found a.1 (rw (n, find_peer) at e)
  | inr (att, n) ↦ elim (Bool-cases (att.peer_id == target)) [
    | inr f ↦ find_peer-sendable rt target ss found a.1 (rw (n, find_peer, f) at e)
    | inl t ↦ ground (arith, a.0, (rw (n, find_peer, t) at e))
  ]
]

forward_message-ok :
    (rt : Runtime) (src : Option WsAttachment) (target : ℕ) (bytes : Text) (sockets : List Socket)
    → AllSendable rt sockets
    → (forward_message rt src target bytes sockets).1 ≡ true
unfolding forward_message
forward_message-ok rt src target bytes sockets a = elim (Option-cases (find_peer target sockets)) [
  | inl e ↦ rw (e, forward_message) refl
  | inr (found, e) ↦
      rw (e, forward_message)
        (elim (Bool-cases (is_foreign src found.1)) [
          | inl f ↦ rw f refl
          | inr f ↦ rw f (rw (find_peer-sendable rt target sockets found a e) refl)
        ])
]

-- The attachment after a handshake.
abbrev pub named : WsAttachment → Option HandshakeOutcome → WsAttachment
named att none = att
named att (some o) = record att {
  peer_id = o.peer_id;
  group_key = o.group_key;
  domain_name = o.domain_name;
  we_are_initiator = false;
}

-- The attachment that a packet leaves.
abbrev pub written : Runtime → PacketType → Text → WsAttachment → Room → WsAttachment
written rt t payload att room =
    if is_hand_shake t
    then named att (handle_handshake rt.ext payload room.global.network_digest_registry).1
    else att

-- No send has failed, and the attachment can be stored.
abbrev Succeeds : Runtime → Handled → Type 0
Succeeds rt r = (r.ok ≡ true) × (rt.storable r.att ≡ true)

module _ (rt : Runtime) (ws : ℕ) (can : rt.sendable ws ≡ true) where
  send-ok : (bytes : Option Text) → (send rt ws bytes).1 ≡ true
  unfolding send
  send-ok none = refl
  send-ok (some bytes) = rw can refl

  perform-ok :
      (att : WsAttachment) (a : RpcAction) (room : Room) → (perform rt ws att a room).2 ≡ true
  unfolding perform
  perform-ok att (send_to p bytes) room = send-ok _
  perform-ok att (push_route_update p k) room = send-ok _
  perform-ok att (broadcast_route_update k p) room = refl
  perform-ok att no_action room = refl

  perform_all-ok :
      (att : WsAttachment) (actions : List RpcAction) (room : Room)
      → (perform_all rt ws att actions room).2 ≡ true
  unfolding perform_all
  perform_all-ok att [] room = refl
  perform_all-ok att (a ∷ more) room =
      rw (perform-ok att a room, perform_all) (perform_all-ok att more (perform rt ws att a room).0)

  on_handshake-Succeeds :
      (payload : Text) (att : WsAttachment) (room : Room)
      → rt.storable
          (named att (handle_handshake rt.ext payload room.global.network_digest_registry).1)
        ≡ true
      → Succeeds rt (on_handshake rt ws payload att room)
  unfolding on_handshake welcome joined_attachment
  on_handshake-Succeeds payload att room fits =
      elim (Option-cases (handle_handshake rt.ext payload room.global.network_digest_registry).1) [
        | inl e ↦ rw (e, on_handshake) (refl, rw e at fits)
        | inr (o, e) ↦
            let fits' : rt.storable (joined_attachment o att) ≡ true = rw e at fits in
            rw (e, on_handshake) (rw (fits', can, welcome) (refl, fits'))
      ]

  pub local_rpc_req-ok :
      (payload : Text) (att : WsAttachment) (room : Room)
      → (local_rpc_req rt ws payload att room).ok ≡ true
  unfolding local_rpc_req
  local_rpc_req-ok payload att room =
      let r = handle_rpc_req rt.ext rt.env payload (record {
        ctx = attachment_to_ctx (rt.env.session_id 0) att;
        peer_manager = room.global.peer_manager;
        peer_center_map = room.global.peer_center_map;
      }) in
      perform_all-ok att r.1 (record room {
        global = record room.global {
          peer_manager = r.0.peer_manager;
          peer_center_map = r.0.peer_center_map;
        };
      })

  module _ (h : PacketHeader) (bytes : Text) (att : WsAttachment) (room : Room)
      (a : AllSendable rt room.sockets) where
    forward-ok : (forward rt ws h bytes att room).ok ≡ true
    unfolding forward
    forward-ok = forward_message-ok rt _ h.to_peer_id bytes room.sockets a

    dispatch-Succeeds :
        (t : PacketType)
        → rt.storable (written rt t (drop header_size bytes) att room) ≡ true
        → Succeeds rt (dispatch rt ws t h bytes att room)
    unfolding dispatch on_ping local_rpc_resp local_rpc_req forward
    dispatch-Succeeds t fits = elim (Bool-cases (is_hand_shake t)) [
      | inl shakes ↦
          let is_one : t ≡ hand_shake = ground (arith, shakes) in
          rw (is_one, dispatch)
            (on_handshake-Succeeds (drop header_size bytes) att room (rw shakes at fits))
      | inr other ↦
          let fits' : rt.storable att ≡ true = rw other at fits in
          dispatch_by rt ws h bytes att room (Succeeds rt)
            (send-ok (some (handle_ping h.from_peer_id (drop header_size bytes))), fits')
            (local_rpc_req-ok (drop header_size bytes) att room, fits') (refl, fits')
            (forward-ok, fits') t (λ e. absurd (ground (arith, e, other)))
    ]

-- The attachment that the sender has after the message, `none` where the message has no header.
abbrev pub next_attachment : Runtime → Incoming → WsAttachment → Room → Option WsAttachment
next_attachment rt (string text) att room = none
next_attachment rt (binary bytes) att room = elim (parse_header bytes) [
  | none ↦ none
  | some h ↦ some (
      written rt (packet_type_enum h) (drop header_size bytes)
        (record att { last_seen_ms = rt.env.now_ms }) room)
]

abbrev pub CanStore : Runtime → Option WsAttachment → Type 0
CanStore rt none = Unit
CanStore rt (some att) = rt.storable att ≡ true

-- Where the sender's socket and every listed one take what is sent to them, the sender's attachment
-- can be read, and the one that is to be stored can be, no message makes the handler return an
-- `Err`, whatever it holds. The one that is to be stored has the time of the message, and after a
-- handshake that is let in the peer and the network of that.
pub websocket_message-ok :
    (rt : Runtime) (ws : ℕ) (message : Incoming) (room : Room) (att : WsAttachment)
    → rt.sendable ws ≡ true
    → AllSendable rt room.sockets
    → current (slot_of ws room.sockets) ≡ some att
    → CanStore rt (next_attachment rt message att room)
    → (websocket_message rt ws message room).ok ≡ true
unfolding websocket_message finish
websocket_message-ok rt ws (string text) room att can a c fits = refl
websocket_message-ok rt ws (binary bytes) room att can a c fits =
    elim (Option-cases (parse_header bytes)) [
      | inl e ↦ rw (e, websocket_message) refl
      | inr (h, e) ↦
          let att' = record att { last_seen_ms = rt.env.now_ms } in
          let done =
            dispatch-Succeeds rt ws can h bytes att' room a (packet_type_enum h)
              (rw (e, next_attachment, CanStore) at fits) in
          rw (e, websocket_message) (rw c (rw (done.0, done.1, finish) refl))
    ]
