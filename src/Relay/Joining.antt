-- ===== src/Relay/Joining.antt =====
-- A client joins its group: a handshake that is let in (`websocket_message` of src/relay_room.rs).
use easytier_wsrelay.Base.{
  ℕ, List, [], ◌∷◌, some, Bool, true, false, ◌||◌, Text, drop, ◌==◌, ◌≡◌, refl, sym, ap, ◌∙◌, arith,
  text_eq, text_beq_refl, Bool-cases, inl, inr,
}
use easytier_wsrelay.Base.BTreeSet.{contains, contains-insert}
use easytier_wsrelay.Constants.{header_size, hand_shake}
use easytier_wsrelay.Packet.{PacketHeader, parse_header, packet_type_enum}
use easytier_wsrelay.Handlers.{HandshakeOutcome, handle_handshake}
use easytier_wsrelay.Relay.Room.{
  WsAttachment, stored, Socket, Room, Effect, sent, Runtime, store, slot_of,
}
use easytier_wsrelay.Relay.Message.{
  binary, joined_attachment, announce, welcome, on_handshake, dispatch, finish, current,
  websocket_message, with_manager, Handled,
}
use easytier_wsrelay.Relay.Audience.{targets, audience, targets-broadcast, store_twice}
use easytier_wsrelay.Relay.Members.{members}
use easytier_wsrelay.Relay.Refinement.Message.{message-members}

abbrev pub is_listed : ℕ → List Socket → Bool
is_listed ws [] = false
is_listed ws (s ∷ ss) = s.id == ws || is_listed ws ss

pub slot_of-store :
    (ws : ℕ) (att : WsAttachment) (sockets : List Socket)
    → is_listed ws sockets ≡ true
    → slot_of ws (store ws att sockets) ≡ stored att
unfolding slot_of store
slot_of-store ws att [] h = absurd (ground (arith, h))
slot_of-store ws att (s ∷ ss) h = ground (arith, h, slot_of-store ws att ss)

pub is_listed-store :
    (ws : ℕ) (att : WsAttachment) (sockets : List Socket)
    → is_listed ws (store ws att sockets) ≡ is_listed ws sockets
unfolding store
is_listed-store ws att [] = refl
is_listed-store ws att (s ∷ ss) = ground (arith, is_listed-store ws att ss)

-- What a welcome leaves: the attachment in the socket's slot, the response sent first, and then a
-- route update to each socket of the group.
record Welcomed (rt : Runtime) (ws : ℕ) (o : HandshakeOutcome) (att : WsAttachment) (room : Room)
    (r : Handled) : Type 0 where
  ok : r.ok ≡ true
  joined : r.att ≡ joined_attachment o att
  rest : List Effect
  answers : r.effects ≡ sent ws o.response_bytes ∷ rest
  tells : targets rest ≡ audience rt o.group_key 0 (store ws (joined_attachment o att) room.sockets)
  listed : r.room.sockets ≡ store ws (joined_attachment o att) room.sockets

module _ (rt : Runtime) (ws : ℕ) (o : HandshakeOutcome) (att : WsAttachment) where
  welcome-Welcomed :
      (room : Room)
      → rt.sendable ws ≡ true
      → rt.storable (joined_attachment o att) ≡ true
      → Welcomed rt ws o att room (welcome rt ws o att room)
  unfolding welcome announce with_manager
  welcome-Welcomed room can fits =
      rw (fits, can, welcome)
        (record {
          ok = refl;
          joined = refl;
          rest = _;
          answers = refl;
          tells = targets-broadcast rt o.group_key 0 1 _ _;
          listed = refl;
        })

  pub listed-welcome :
      (room : Room)
      → is_listed ws (welcome rt ws o att room).room.sockets ≡ is_listed ws room.sockets
  unfolding welcome announce with_manager
  listed-welcome room = elim (Bool-cases (rt.storable (joined_attachment o att))) [
    | inr n ↦ rw (n, welcome) refl
    | inl s ↦ elim (Bool-cases (rt.sendable ws)) [
      | inl t ↦ rw (s, t, welcome) (is_listed-store ws (joined_attachment o att) room.sockets)
      | inr f ↦ rw (s, f, welcome) (is_listed-store ws (joined_attachment o att) room.sockets)
    ]
  ]

  finish-welcome :
      (room : Room)
      → rt.sendable ws ≡ true
      → rt.storable (joined_attachment o att) ≡ true
      → is_listed ws room.sockets ≡ true
      → let r = finish rt ws (welcome rt ws o att room) in
        (slot_of ws r.room.sockets ≡ stored (joined_attachment o att))
        × (rest : List Effect) × (r.effects ≡ sent ws o.response_bytes ∷ rest)
        × (targets rest ≡ audience rt o.group_key 0 r.room.sockets)
  unfolding finish
  finish-welcome room can fits listed =
      let w = welcome-Welcomed room can fits in
      rw (w.ok, ap rt.storable w.joined ∙ fits, finish)
        (
          (slot_of-store ws _ _ (listed-welcome room ∙ listed)) ∙ ap stored w.joined,
          w.rest,
          w.answers,
          w.tells
              ∙ ap (audience rt o.group_key 0) (
                  sym (
                    ap (store ws _) w.listed
                    ∙ ap (λ a. store ws a (store ws (joined_attachment o att) room.sockets))
                        w.joined
                    ∙ store_twice ws (joined_attachment o att) room.sockets)),
        )

module _ (rt : Runtime) (ws : ℕ) (bytes : Text) (room : Room) (h : PacketHeader)
    (att : WsAttachment) (o : HandshakeOutcome) (p : parse_header bytes ≡ some h)
    (t : packet_type_enum h ≡ hand_shake) (c : current (slot_of ws room.sockets) ≡ some att)
    (e : (handle_handshake rt.ext (drop header_size bytes) room.global.network_digest_registry).1
      ≡ some o) where
  registered : Room
  registered = record room {
    global = record room.global {
      network_digest_registry =
          (handle_handshake rt.ext (drop header_size bytes) room.global.network_digest_registry).0;
    };
  }

  heard : WsAttachment
  heard = record att { last_seen_ms = rt.env.now_ms }

  message-welcome :
      websocket_message rt ws (binary bytes) room ≡ finish rt ws (welcome rt ws o heard registered)
  unfolding websocket_message dispatch on_handshake registered heard
  message-welcome = rw (p, websocket_message) (rw c (rw t (rw (e, on_handshake) refl)))

  -- A handshake that is let in, from a listed socket that takes the response and can store the
  -- attachment: the peer is online in its group, the socket's attachment names the peer, the group
  -- and the time, and the response is the first thing that is sent. After it, each listed socket, the
  -- new one included, whose attachment is of the group and of another peer than 0, and that takes
  -- what it is sent, is sent one message, and no other socket is sent anything.
  pub websocket_message_joins :
      let named = record att {
        peer_id = o.peer_id;
        group_key = o.group_key;
        domain_name = o.domain_name;
        we_are_initiator = false;
        last_seen_ms = rt.env.now_ms;
      } in
      rt.sendable ws ≡ true
      → rt.storable named ≡ true
      → is_listed ws room.sockets ≡ true
      → let r = websocket_message rt ws (binary bytes) room in
        (contains o.peer_id (members r.room o.group_key) ≡ true)
        × (slot_of ws r.room.sockets ≡ stored named)
        × (rest : List Effect) × (r.effects ≡ sent ws o.response_bytes ∷ rest)
        × (targets rest ≡ audience rt o.group_key 0 r.room.sockets)
  unfolding registered heard joined_attachment
  websocket_message_joins can fits listed =
      let w = finish-welcome rt ws o heard registered can fits listed in
      (
        rw (message-members rt o.group_key ws (binary bytes) room) (
            rw p (
              rw c (
                rw t (
                  rw (e, fits, text_beq_refl o.group_key)
                    (ground
                      (arith, contains-insert o.peer_id o.peer_id (members room o.group_key))))))),
        rw message-welcome w.0,
        w.1,
        rw message-welcome w.2,
        rw message-welcome w.3,
      )
