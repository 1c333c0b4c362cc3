-- ===== src/Relay/Initiator.antt =====
-- The flag `we_are_initiator` of the attachments in src/relay_room.rs.
use easytier_wsrelay.Base.{ℕ, List, false, ◌≡◌, refl}
use easytier_wsrelay.Relay.Room.{Socket, Room, Runtime}
use easytier_wsrelay.Relay.Message.{Incoming, joined_attachment, websocket_message}
use easytier_wsrelay.Relay.Slots.{AllSlots, websocket_message-AllSlots}

-- No attachment says that the server is the initiator of a session.
abbrev pub IsQuiet : List Socket → Type 0
IsQuiet = AllSlots (λ att. att.we_are_initiator ≡ false)

-- Where no attachment says that the server is the initiator, none does after any message: what a
-- sync request writes to the flag is not stored.
pub websocket_message-IsQuiet :
    (rt : Runtime) (ws : ℕ) (message : Incoming) (room : Room)
    → IsQuiet room.sockets
    → IsQuiet (websocket_message rt ws message room).room.sockets
unfolding joined_attachment
websocket_message-IsQuiet rt ws message room h =
    websocket_message-AllSlots (λ att. att.we_are_initiator ≡ false) refl (λ att now q. q) rt ws
      message room (λ o att e. refl) h
