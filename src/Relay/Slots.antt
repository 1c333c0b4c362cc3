-- ===== src/Relay/Slots.antt =====
-- What a message does to the attachments of the sockets of src/relay_room.rs.
use mathlib.Core.Path.{subst}
use easytier_wsrelay.Base.{
  All, true, ◌&&◌, ◌≡◌, refl, sym, Option, none, some, ◌∙◌, ℕ, List, [], ◌∷◌, Text, drop, ◌==◌,
  Bool-cases, Option-cases, inl, inr, text_eq,
}
use easytier_wsrelay.Constants.{header_size, PacketType, hand_shake}
use easytier_wsrelay.Packet.{PacketHeader, parse_header, packet_type_enum}
use easytier_wsrelay.Handlers.{HandshakeOutcome, handle_handshake}
use easytier_wsrelay.Rpc.{
  RpcAction, send_to, push_route_update, broadcast_route_update, no_action, RpcState,
  handle_rpc_req,
}
use easytier_wsrelay.Relay.Room.{
  WsAttachment, default_attachment, Slot, broken, vacant, stored, attachment, Socket, Room, Runtime,
  attachment_to_ctx, default_attachment, slot_of, store,
}
use easytier_wsrelay.Relay.Members.{admitted}
use easytier_wsrelay.Relay.Dispatch.{dispatch_by}
use easytier_wsrelay.Relay.Message.{
  Incoming, binary, string, with_manager, joined_attachment, announce, welcome, on_handshake,
  perform, perform_all, local_rpc_req, local_rpc_resp, on_ping, forward, dispatch, finish, current,
  Handled, websocket_message,
}

-- What holds of every attachment.
abbrev pub HoldsIn : (WsAttachment → Type 0) → Option WsAttachment → Type 0
HoldsIn Q none = Unit
HoldsIn Q (some att) = Q att

abbrev pub AllSlots : (WsAttachment → Type 0) → List Socket → Type 0
AllSlots Q = All (λ s. HoldsIn Q (attachment s.slot))

module _ (rt : Runtime) where
  pub sockets-perform :
      (ws : ℕ) (att : WsAttachment) (a : RpcAction) (room : Room)
      → (perform rt ws att a room).0.sockets ≡ room.sockets
  unfolding perform with_manager
  sockets-perform ws att (send_to p bytes) room = refl
  sockets-perform ws att (push_route_update p k) room = refl
  sockets-perform ws att (broadcast_route_update k p) room = refl
  sockets-perform ws att no_action room = refl

  pub sockets-perform_all :
      (ws : ℕ) (att : WsAttachment) (actions : List RpcAction) (room : Room)
      → (perform_all rt ws att actions room).0.sockets ≡ room.sockets
  unfolding perform_all
  sockets-perform_all ws att [] room = refl
  sockets-perform_all ws att (a ∷ more) room = elim (Bool-cases (perform rt ws att a room).2) [
    | inl t ↦
        rw (t, perform_all)
          (sockets-perform_all ws att more (perform rt ws att a room).0
            ∙ sockets-perform ws att a room)
    | inr f ↦ rw (f, perform_all) (sockets-perform ws att a room)
  ]

-- A property of attachments that does not depend on when a socket was last heard of, and that the
-- attachment of a new socket has.
module _ (Q : WsAttachment → Type 0) (blank : Q default_attachment)
    (heard : (att : WsAttachment) (now : ℕ) → Q att → Q (record att { last_seen_ms = now })) where
  store-AllSlots :
      (ws : ℕ) (att : WsAttachment) (sockets : List Socket)
      → Q att
      → AllSlots Q sockets
      → AllSlots Q (store ws att sockets)
  unfolding store
  store-AllSlots ws att [] q h = tt
  store-AllSlots ws att (s ∷ ss) q h = elim (Bool-cases (s.id == ws)) [
    | inl t ↦ rw t (q, store-AllSlots ws att ss q h.1)
    | inr f ↦ rw f (h.0, store-AllSlots ws att ss q h.1)
  ]

  HoldsIn-current : (slot : Slot) → HoldsIn Q (attachment slot) → HoldsIn Q (current slot)
  HoldsIn-current broken h = tt
  HoldsIn-current vacant h = blank
  HoldsIn-current (stored att) h = h

  current-AllSlots :
      (ws : ℕ) (sockets : List Socket)
      → AllSlots Q sockets
      → HoldsIn Q (current (slot_of ws sockets))
  unfolding slot_of
  current-AllSlots ws [] h = blank
  current-AllSlots ws (s ∷ ss) h = elim (Bool-cases (s.id == ws)) [
    | inl t ↦ rw t (HoldsIn-current s.slot h.0)
    | inr f ↦ rw f (current-AllSlots ws ss h.1)
  ]

  module _ (rt : Runtime) where
    abbrev AllHandled : Handled → Type 0
    AllHandled r = AllSlots Q r.room.sockets × Q r.att

    welcome-AllSlots :
        (ws : ℕ) (o : HandshakeOutcome) (att : WsAttachment) (room : Room)
        → (rt.storable (joined_attachment o att) ≡ true → Q (joined_attachment o att))
        → AllSlots Q room.sockets
        → Q att
        → AllHandled (welcome rt ws o att room)
    unfolding welcome announce with_manager
    welcome-AllSlots ws o att room j h q =
        elim (Bool-cases (rt.storable (joined_attachment o att))) [
          | inr n ↦ rw (n, welcome) (h, q)
          | inl s ↦
              let v = store-AllSlots ws (joined_attachment o att) room.sockets (j s) h in
              elim (Bool-cases (rt.sendable ws)) [
                | inl t ↦ rw (s, t, welcome) (v, j s)
                | inr f ↦ rw (s, f, welcome) (v, j s)
              ]
        ]

    on_handshake-AllSlots :
        (ws : ℕ) (payload : Text) (att : WsAttachment) (room : Room)
        → ((o : HandshakeOutcome)
            → (handle_handshake rt.ext payload room.global.network_digest_registry).1 ≡ some o
            → rt.storable (joined_attachment o att) ≡ true
            → Q (joined_attachment o att))
        → AllSlots Q room.sockets
        → Q att
        → AllHandled (on_handshake rt ws payload att room)
    unfolding on_handshake
    on_handshake-AllSlots ws payload att room j h q =
        elim (Option-cases
          (handle_handshake rt.ext payload room.global.network_digest_registry).1) [
            | inl e ↦ rw (e, on_handshake) (h, q)
            | inr (o, e) ↦ rw (e, on_handshake) (welcome-AllSlots ws o att _ (j o e) h q)
          ]

    local_rpc_req-AllSlots :
        (ws : ℕ) (payload : Text) (att : WsAttachment) (room : Room)
        → AllSlots Q room.sockets
        → Q att
        → AllHandled (local_rpc_req rt ws payload att room)
    unfolding local_rpc_req
    local_rpc_req-AllSlots ws payload att room h q =
        let s : RpcState = record {
          ctx = attachment_to_ctx (rt.env.session_id 0) att;
          peer_manager = room.global.peer_manager;
          peer_center_map = room.global.peer_center_map;
        } in
        let r = handle_rpc_req rt.ext rt.env payload s in
        let room' = record room {
          global = record room.global {
            peer_manager = r.0.peer_manager;
            peer_center_map = r.0.peer_center_map;
          };
        } in
        (subst (AllSlots Q) (sym (sockets-perform_all rt ws att r.1 room')) h, q)

    dispatch-AllSlots :
        (ws : ℕ) (t : PacketType) (h : PacketHeader) (bytes : Text) (att : WsAttachment)
        (room : Room)
        → (t ≡ hand_shake
            → (o : HandshakeOutcome)
            → (handle_handshake rt.ext
                (drop header_size bytes)
                room.global.network_digest_registry).1
              ≡ some o
            → rt.storable (joined_attachment o att) ≡ true
            → Q (joined_attachment o att))
        → AllSlots Q room.sockets
        → Q att
        → AllHandled (dispatch rt ws t h bytes att room)
    unfolding forward on_ping local_rpc_resp with_manager
    dispatch-AllSlots ws t h bytes att room j w q =
        dispatch_by rt ws h bytes att room AllHandled (w, q)
          (local_rpc_req-AllSlots ws (drop header_size bytes) att room w q) (w, q) (w, q) t
          (λ e. on_handshake-AllSlots ws (drop header_size bytes) att room (j e) w q)

    finish-AllSlots :
        (ws : ℕ) (r : Handled) → AllHandled r → AllSlots Q (finish rt ws r).room.sockets
    unfolding finish
    finish-AllSlots ws r h = elim (Bool-cases (r.ok && rt.storable r.att)) [
      | inl t ↦ rw (t, finish) (store-AllSlots ws r.att r.room.sockets h.1 h.0)
      | inr f ↦ rw (f, finish) h.0
    ]

    -- Where the attachment of a socket that a handshake lets in has the property too, every attachment
    -- has it after a message.
    pub websocket_message-AllSlots :
        (ws : ℕ) (message : Incoming) (room : Room)
        → ((o : HandshakeOutcome) (att : WsAttachment)
            → admitted rt ws message room ≡ some (o.group_key, o.peer_id)
            → Q (joined_attachment o att))
        → AllSlots Q room.sockets
        → AllSlots Q (websocket_message rt ws message room).room.sockets
    unfolding websocket_message
    websocket_message-AllSlots ws (string text) room j w = w
    websocket_message-AllSlots ws (binary bytes) room j w =
        elim (Option-cases (parse_header bytes)) [
          | inl e ↦ rw (e, websocket_message) w
          | inr (h, e) ↦
              rw (e, websocket_message)
                (elim (Option-cases (current (slot_of ws room.sockets))) [
                  | inl n ↦ rw n w
                  | inr (att, n) ↦
                      let att' = record att { last_seen_ms = rt.env.now_ms } in
                      let q : Q att = subst (HoldsIn Q) n (current-AllSlots ws room.sockets w) in
                      rw n (
                        finish-AllSlots ws (dispatch rt ws (packet_type_enum h) h bytes att' room) (
                          dispatch-AllSlots ws (packet_type_enum h) h bytes att' room
                            (λ te o oe s. j o att' (rw e (rw n (rw te (rw oe (rw s refl)))))) w
                            (heard att rt.env.now_ms q)))
                ])
        ]
