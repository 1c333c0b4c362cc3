-- ===== src/Relay/Sound.antt =====
-- The handlers of src/relay_room.rs keep the routes of every group well formed.
pub mod Lifecycle
use easytier_wsrelay.Base.{ℕ, Text, ◌&&◌, drop, Bool-cases, Option-cases, inl, inr, text_eq}
use easytier_wsrelay.Constants.{header_size}
use easytier_wsrelay.Packet.{parse_header, packet_type_enum}
use easytier_wsrelay.Route.Group.{RouteState}
use easytier_wsrelay.Route.Invariant.Reach.{
  AllWellFormed, Update-AllWellFormed, Step-AllWellFormed, Update, Step, adds, changes, updates,
  bumps,
}
use easytier_wsrelay.PeerManager.{PeerManager}
use easytier_wsrelay.PeerManager
use easytier_wsrelay.Handlers.{HandshakeOutcome, handle_handshake}
use easytier_wsrelay.Relay.Room.{WsAttachment, Room, Runtime, slot_of, store}
use easytier_wsrelay.Relay.Message.{
  Incoming, binary, string, join, with_manager, joined_attachment, welcome, on_handshake, dispatch,
  finish, current, websocket_message,
}
use easytier_wsrelay.Relay.Quiet.{announce_keeps, dispatch_keeps}

-- The routes of a room are well formed in every group.
abbrev pub IsSound : Room → Type 0
IsSound room = AllWellFormed room.global.peer_manager

module _ (rt : Runtime) where
  pub keeps_all :
      (key : Text) (s t : RouteState)
      → AllWellFormed s
      → Update rt.ext rt.env key s t
      → AllWellFormed t
  keeps_all key s t w st = Update-AllWellFormed rt.ext rt.env key s w t st

  pub one_call :
      (key : Text) (s t : RouteState)
      → AllWellFormed s
      → Step rt.ext rt.env key s t
      → AllWellFormed t
  one_call key s t w st = Step-AllWellFormed rt.ext rt.env key s w t st

  join-AllWellFormed :
      (o : HandshakeOutcome) (pm : PeerManager) → AllWellFormed pm → AllWellFormed (join rt o pm)
  unfolding join PeerManager.add_peer PeerManager.update_peer_info
  join-AllWellFormed o pm w =
      one_call o.group_key _ _
        (one_call o.group_key _ _
          (one_call o.group_key _ _ (one_call o.group_key _ _ w (adds o.peer_id)) (changes _ bumps))
          (changes _ (updates o.peer_id _)))
        (changes _ bumps)

  welcome-IsSound :
      (ws : ℕ) (o : HandshakeOutcome) (att : WsAttachment) (room : Room)
      → IsSound room
      → IsSound (welcome rt ws o att room).room
  unfolding welcome with_manager
  welcome-IsSound ws o att room w =
      let v = join-AllWellFormed o room.global.peer_manager w in
      let att' = joined_attachment o att in
      let room' =
        with_manager (join rt o room.global.peer_manager)
          (record room { sockets = store ws att' room.sockets }) in
      elim (Bool-cases (rt.storable att')) [
        | inr n ↦ rw (n, welcome) w
        | inl s ↦ elim (Bool-cases (rt.sendable ws)) [
          | inl t ↦ rw (s, t, welcome) (announce_keeps rt AllWellFormed keeps_all att' room' v)
          | inr f ↦ rw (s, f, welcome) v
        ]
      ]

  on_handshake-IsSound :
      (ws : ℕ) (payload : Text) (att : WsAttachment) (room : Room)
      → IsSound room
      → IsSound (on_handshake rt ws payload att room).room
  unfolding on_handshake
  on_handshake-IsSound ws payload att room w =
      elim (Option-cases (handle_handshake rt.ext payload room.global.network_digest_registry).1) [
        | inl e ↦ rw (e, on_handshake) w
        | inr (o, e) ↦ rw (e, on_handshake) (welcome-IsSound ws o att _ w)
      ]

  pub websocket_message-IsSound :
      (ws : ℕ) (message : Incoming) (room : Room)
      → IsSound room
      → IsSound (websocket_message rt ws message room).room
  unfolding websocket_message finish
  websocket_message-IsSound ws (string text) room w = w
  websocket_message-IsSound ws (binary bytes) room w = elim (Option-cases (parse_header bytes)) [
    | inl e ↦ rw (e, websocket_message) w
    | inr (h, e) ↦
        rw (e, websocket_message)
          (elim (Option-cases (current (slot_of ws room.sockets))) [
            | inl n ↦ rw n w
            | inr (att, n) ↦
                let att' = record att { last_seen_ms = rt.env.now_ms } in
                let v =
                  dispatch_keeps rt AllWellFormed keeps_all ws (packet_type_enum h) h bytes att'
                    room (λ e. on_handshake-IsSound ws (drop header_size bytes) att' room w) w in
                let r = dispatch rt ws (packet_type_enum h) h bytes att' room in
                rw n (elim (Bool-cases (r.ok && rt.storable r.att)) [
                  | inl t ↦ rw (t, finish) v
                  | inr f ↦ rw (f, finish) v
                ])
          ])
  ]
