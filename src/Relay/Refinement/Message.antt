-- ===== src/Relay/Refinement/Message.antt =====
-- What a message does to the peers of a group of a room (src/relay_room.rs).
use easytier_wsrelay.Base.{
  ℕ, List, none, some, ◌&&◌, true, false, Text, drop, ◌≡◌, refl, ◌∙◌, text_eq, arith, if◌then◌else◌,
  option_map, Option-cases, Bool-cases, inl, inr,
}
use easytier_wsrelay.Constants.{PacketType, hand_shake, header_size}
use easytier_wsrelay.Packet.{parse_header, packet_type_enum, PacketHeader}
use easytier_wsrelay.Route.Peers
use easytier_wsrelay.Route.Peers.{get_peer_ids_in_group}
use easytier_wsrelay.Route.Invariant.Reach.{Update, updates, bumps}
use easytier_wsrelay.Route.Members.{Update-peers, peers-add_peer, peers-remove_peer}
use easytier_wsrelay.PeerManager.{PeerManager, GlobalState, new_global_state}
use easytier_wsrelay.PeerManager
use easytier_wsrelay.Handlers.{HandshakeOutcome, handle_handshake}
use easytier_wsrelay.Relay.Room.{WsAttachment, Socket, Room, Runtime, slot_of, store}
use easytier_wsrelay.Relay.Broadcast.{broadcast}
use easytier_wsrelay.Relay.Message.{
  Incoming, binary, string, join, with_manager, joined_attachment, welcome, on_handshake, dispatch,
  finish, current, websocket_message,
}
use easytier_wsrelay.Relay.Quiet.{broadcast_keeps, announce_keeps, dispatch_keeps}
use easytier_wsrelay.Relay.Members.{
  enters, departs, is_hand_shake, recorded, admitted, members, admits,
}

-- The peers of one group are those of an earlier state.
abbrev pub HasPeersOf : Text → PeerManager → PeerManager → Type 0
HasPeersOf other before pm = get_peer_ids_in_group other pm ≡ get_peer_ids_in_group other before

module _ (rt : Runtime) (other : Text) where
  pub HasPeersOf-Update :
      (before : PeerManager) (key : Text) (s t : PeerManager)
      → HasPeersOf other before s
      → Update rt.ext rt.env key s t
      → HasPeersOf other before t
  HasPeersOf-Update before key s t w st = Update-peers rt.env key s other rt.ext t st ∙ w

  pub enter-members :
      (key : Text) (p : ℕ) (pm : PeerManager)
      → get_peer_ids_in_group other (PeerManager.add_peer rt.env key p pm)
        ≡ enters key p (λ k. get_peer_ids_in_group k pm) other
  unfolding PeerManager.add_peer
  enter-members key p pm =
      Update-peers rt.env key _ other rt.ext _ bumps ∙ peers-add_peer rt.env key pm other p

  join-members :
      (o : HandshakeOutcome) (pm : PeerManager)
      → get_peer_ids_in_group other (join rt o pm)
        ≡ enters o.group_key o.peer_id (λ k. get_peer_ids_in_group k pm) other
  unfolding join PeerManager.update_peer_info
  join-members o pm =
      Update-peers rt.env o.group_key _ other rt.ext _ bumps
      ∙ Update-peers rt.env o.group_key _ other rt.ext _ (updates o.peer_id _)
      ∙ enter-members o.group_key o.peer_id pm

  welcome-members :
      (ws : ℕ) (o : HandshakeOutcome) (att : WsAttachment) (room : Room)
      → members (welcome rt ws o att room).room other
        ≡ admits
            (option_map
              (λ (o : HandshakeOutcome). (o.group_key, o.peer_id))
              (recorded rt att (some o)))
            (members room)
            other
  unfolding welcome with_manager
  welcome-members ws o att room =
      let pm = join rt o room.global.peer_manager in
      let att' = joined_attachment o att in
      let room' = with_manager pm (record room { sockets = store ws att' room.sockets }) in
      elim (Bool-cases (rt.storable att')) [
        | inr n ↦ rw (n, welcome) refl
        | inl s ↦ elim (Bool-cases (rt.sendable ws)) [
          | inl t ↦
              rw (s, t, welcome)
                (announce_keeps rt (HasPeersOf other pm) (HasPeersOf-Update pm) att' room' refl
                  ∙ join-members o room.global.peer_manager)
          | inr f ↦ rw (s, f, welcome) (join-members o room.global.peer_manager)
        ]
      ]

  pub leave-members :
      (key : Text) (exclude p : ℕ) (sockets : List Socket) (pm : PeerManager)
      → get_peer_ids_in_group other
          (broadcast rt key exclude 1 sockets (Peers.remove_peer rt.env key p pm)).0
        ≡ departs key p (λ k. get_peer_ids_in_group k pm) other
  leave-members key exclude p sockets pm =
      let left = Peers.remove_peer rt.env key p pm in
      broadcast_keeps rt (HasPeersOf other left) (HasPeersOf-Update left) key exclude 1 sockets left
        refl
      ∙ peers-remove_peer rt.env key pm other p

  on_handshake-members :
      (ws : ℕ) (payload : Text) (att : WsAttachment) (room : Room)
      → members (on_handshake rt ws payload att room).room other
        ≡ admits
            (option_map
              (λ (o : HandshakeOutcome). (o.group_key, o.peer_id))
              (recorded rt att
                (handle_handshake rt.ext payload room.global.network_digest_registry).1))
            (members room)
            other
  unfolding on_handshake
  on_handshake-members ws payload att room =
      elim (Option-cases (handle_handshake rt.ext payload room.global.network_digest_registry).1) [
        | inl e ↦ rw (e, on_handshake) refl
        | inr (o, e) ↦ rw (e, on_handshake) (welcome-members ws o att _)
      ]

  quiet-members :
      (ws : ℕ) (t : PacketType) (h : PacketHeader) (bytes : Text) (att : WsAttachment) (room : Room)
      → is_hand_shake t ≡ false
      → members (dispatch rt ws t h bytes att room).room other ≡ members room other
  quiet-members ws t h bytes att room f =
      dispatch_keeps rt (HasPeersOf other room.global.peer_manager)
        (HasPeersOf-Update room.global.peer_manager) ws t h bytes att room
        (λ e. absurd (ground (arith, e, f))) refl

  is_hand_shake_lem : (t : PacketType) → is_hand_shake t ≡ true → t ≡ hand_shake
  is_hand_shake_lem t e = ground arith

  dispatch-members :
      (ws : ℕ) (t : PacketType) (h : PacketHeader) (bytes : Text) (att : WsAttachment) (room : Room)
      → members (dispatch rt ws t h bytes att room).room other
        ≡ admits
            (option_map
              (λ (o : HandshakeOutcome). (o.group_key, o.peer_id))
              (if is_hand_shake t
                then recorded rt att
                    (handle_handshake rt.ext
                      (drop header_size bytes)
                      room.global.network_digest_registry).1
                else none))
            (members room)
            other
  unfolding dispatch
  dispatch-members ws t h bytes att room = elim (Bool-cases (is_hand_shake t)) [
    | inl e ↦ rw (is_hand_shake_lem t e) (on_handshake-members ws (drop header_size bytes) att room)
    | inr f ↦ rw (f, dispatch) (quiet-members ws t h bytes att room f)
  ]

  pub message-members :
      (ws : ℕ) (message : Incoming) (room : Room)
      → members (websocket_message rt ws message room).room other
        ≡ admits (admitted rt ws message room) (members room) other
  unfolding websocket_message finish
  message-members ws (string text) room = refl
  message-members ws (binary bytes) room = elim (Option-cases (parse_header bytes)) [
    | inl e ↦ rw (e, websocket_message) refl
    | inr (h, e) ↦
        rw (e, websocket_message)
          (elim (Option-cases (current (slot_of ws room.sockets))) [
            | inl n ↦ rw n refl
            | inr (att, n) ↦
                let att' = record att { last_seen_ms = rt.env.now_ms } in
                let v = dispatch-members ws (packet_type_enum h) h bytes att' room in
                let r = dispatch rt ws (packet_type_enum h) h bytes att' room in
                rw n (elim (Bool-cases (r.ok && rt.storable r.att)) [
                  | inl t ↦ rw (t, finish) v
                  | inr f ↦ rw (f, finish) v
                ])
          ])
  ]
