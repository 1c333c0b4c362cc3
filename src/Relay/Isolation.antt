-- ===== src/Relay/Isolation.antt =====
-- A message to src/relay_room.rs stays in the group of its sender.
use easytier_wsrelay.Base.{
  ℕ, [], ◌∷◌, some, true, false, ◌&&◌, Text, drop, ◌≡◌, ◌≢◌, refl, ◌∙◌, arith, All, text_beq,
  text_eq, Bool-cases, Option-cases, inl, inr,
}
use mathlib.Core.Path.{subst}
use easytier_wsrelay.Base.HashMap
use easytier_wsrelay.Constants.{header_size, PacketType}
use easytier_wsrelay.Packet.{PacketHeader, parse_header, packet_type_enum}
use easytier_wsrelay.Handlers.{handle_handshake}
use mathlib.Core.Option.{some-injective}
use easytier_wsrelay.Relay.Contained.{
  group_of, IsContained, slot_of-store_other, still-IsContained, local_rpc_req-IsContained,
  local_rpc_resp-IsContained, on_ping-IsContained, forward-IsContained, welcome-IsContained,
}
use easytier_wsrelay.Relay.Room.{
  Outcome, WsAttachment, Slot, broken, vacant, stored, attachment, Room, closed, Runtime, slot_of,
}
use easytier_wsrelay.Relay.Delivery.{IsNear}
use easytier_wsrelay.Relay.Dispatch.{dispatch_by}
use easytier_wsrelay.Relay.Joining.{is_listed, slot_of-store}
use easytier_wsrelay.Relay.Message.{
  Incoming, binary, string, Handled, on_handshake, dispatch, finish, current, websocket_message,
}
use easytier_wsrelay.Relay.Confined.{IsNearKey, Reaches, Confined, still-Confined}

-- The sender's attachment does not matter to what is near a socket without one.
near-current :
    (slot : Slot) (att x : WsAttachment)
    → current slot ≡ some att
    → IsNear (attachment slot) x
    → IsNearKey att.group_key x
near-current broken att x e h = absurd (ground (arith, e))
near-current vacant att x e h = inl (ground (arith, e))
near-current (stored src) att x e h =
    subst (λ (a : WsAttachment). IsNearKey a.group_key x) (some-injective _ _ e) h

group-current :
    (slot : Slot) (att : WsAttachment) → current slot ≡ some att → group_of slot ≡ att.group_key
group-current broken att e = absurd (ground (arith, e))
group-current vacant att e = ground (arith, e)
group-current (stored src) att e = ground (arith, e)

module _ (rt : Runtime) (ws : ℕ) where
  on_handshake-IsContained :
      (payload : Text) (att : WsAttachment) (room : Room)
      → group_of (slot_of ws room.sockets) ≡ att.group_key
      → is_listed ws room.sockets ≡ true
      → IsContained ws room (on_handshake rt ws payload att room)
  unfolding on_handshake
  on_handshake-IsContained payload att room g l =
      let r = handle_handshake rt.ext payload room.global.network_digest_registry in
      let registered = record room {
        global = record room.global { network_digest_registry = r.0 };
      } in
      elim (Option-cases r.1) [
        | inl e ↦
            rw (e, on_handshake)
              (still-IsContained rt ws room registered att (closed ws ∷ []) true refl g l (record {
                routes = λ other o. refl;
                centers = λ other o. refl;
                others = λ w n. refl;
                reached = (refl, tt);
              }))
        | inr (o, e) ↦
            let c = welcome-IsContained rt ws o att registered g l in
            rw (e, on_handshake)
              (record {
                confined = record {
                  routes = c.confined.routes;
                  centers = c.confined.centers;
                  others = c.confined.others;
                  reached = c.confined.reached;
                };
                named = c.named;
                listed = c.listed;
              })
      ]

  dispatch-IsContained :
      (t : PacketType) (h : PacketHeader) (bytes : Text) (att : WsAttachment) (room : Room)
      → group_of (slot_of ws room.sockets) ≡ att.group_key
      → is_listed ws room.sockets ≡ true
      → ((x : WsAttachment)
          → IsNear (attachment (slot_of ws room.sockets)) x
          → IsNearKey att.group_key x)
      → IsContained ws room (dispatch rt ws t h bytes att room)
  dispatch-IsContained t h bytes att room g l near =
      let payload = drop header_size bytes in
      dispatch_by rt ws h bytes att room (IsContained ws room)
        (on_ping-IsContained rt ws att room g l h payload)
        (local_rpc_req-IsContained rt ws att room g l payload)
        (local_rpc_resp-IsContained rt ws att room g l h payload)
        (forward-IsContained rt ws att room g l h bytes near) t
        (λ e. on_handshake-IsContained payload att room g l)

-- After a message, the outcome is confined to the group that the sender's attachment then names.
abbrev IsWithin : ℕ → Room → Outcome → Type 0
IsWithin ws room r = Confined ws (group_of (slot_of ws r.room.sockets)) room r.room r.effects

finish-IsWithin :
    (rt : Runtime) (ws : ℕ) (room : Room) (r : Handled)
    → IsContained ws room r
    → IsWithin ws room (finish rt ws r)
unfolding finish
finish-IsWithin rt ws room r c = elim (Bool-cases (r.ok && rt.storable r.att)) [
  | inr f ↦ rw (f, finish) (rw c.named c.confined)
  | inl t ↦
      rw (t, finish, slot_of-store ws r.att r.room.sockets c.listed)
        (record {
          routes = c.confined.routes;
          centers = c.confined.centers;
          others = λ w n. slot_of-store_other ws w r.att r.room.sockets n ∙ c.confined.others w n;
          reached = c.confined.reached;
        })
]

websocket_message-IsWithin :
    (rt : Runtime) (ws : ℕ) (message : Incoming) (room : Room)
    → is_listed ws room.sockets ≡ true
    → IsWithin ws room (websocket_message rt ws message room)
unfolding websocket_message
websocket_message-IsWithin rt ws (string text) room l = still-Confined ws _ room [] tt
websocket_message-IsWithin rt ws (binary bytes) room l = elim (Option-cases (parse_header bytes)) [
  | inl e ↦ rw (e, websocket_message) (still-Confined ws _ room [] tt)
  | inr (h, e) ↦
      rw (e, websocket_message)
        (elim (Option-cases (current (slot_of ws room.sockets))) [
          | inl n ↦ rw n (still-Confined ws _ room [] tt)
          | inr (att, n) ↦
              let att' = record att { last_seen_ms = rt.env.now_ms } in
              let slot = slot_of ws room.sockets in
              rw n (
                finish-IsWithin rt ws room (dispatch rt ws (packet_type_enum h) h bytes att' room) (
                  dispatch-IsContained rt ws (packet_type_enum h) h bytes att' room
                    (group-current slot att n) l (λ x. near-current slot att x n)))
        ])
]

-- Whatever a listed socket sends, no group but the one that the socket's attachment names
-- afterwards has its routes or its peer center changed, and no other socket its attachment. No other
-- socket is closed, and what another one is sent goes to one that is not of another known group.
pub websocket_message_isolated :
    (rt : Runtime) (ws : ℕ) (message : Incoming) (room : Room) (other : Text) (w : ℕ)
    → is_listed ws room.sockets ≡ true
    → let r = websocket_message rt ws message room in
      let key = group_of (slot_of ws r.room.sockets) in
      text_beq key other ≡ false
      → w ≢ ws
      → (HashMap.get other r.room.global.peer_manager.groups
          ≡ HashMap.get other room.global.peer_manager.groups)
        × (HashMap.get other r.room.global.peer_center_map
            ≡ HashMap.get other room.global.peer_center_map)
        × (slot_of w r.room.sockets ≡ slot_of w room.sockets)
        × All (Reaches ws key room.sockets) r.effects
websocket_message_isolated rt ws message room other w l o n =
    let c = websocket_message-IsWithin rt ws message room l in
    (c.routes other o, c.centers other o, c.others w n, c.reached)
