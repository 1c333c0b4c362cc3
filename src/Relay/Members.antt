-- ===== src/Relay/Members.antt =====
-- Who is online in the groups of a room of src/relay_room.rs: an abstract register of the peers of
-- each group, and what each event means for it.
use easytier_wsrelay.Base.{
  ℕ, List, [], ◌∷◌, Option, none, some, Bool, true, false, not, ◌||◌, ◌&&◌, Text, drop, ◌==◌,
  text_beq, text_eq, if◌then◌else◌, option_map, ◌>>=◌,
}
use easytier_wsrelay.Base.BTreeSet
use easytier_wsrelay.Base.BTreeSet.{BTreeSet, contains}
use easytier_wsrelay.Constants.{PacketType, hand_shake, header_size}
use easytier_wsrelay.Packet.{parse_header, packet_type_enum}
use easytier_wsrelay.Route.Peers.{get_peer_ids_in_group}
use easytier_wsrelay.Handlers.{HandshakeOutcome, handle_handshake}
use easytier_wsrelay.Relay.Room.{WsAttachment, Slot, attachment, Socket, Room, Runtime, slot_of}
use easytier_wsrelay.Relay.Message.{Incoming, binary, string, current, joined_attachment}
use easytier_wsrelay.Relay.Lifecycle.{has_other_connection, alarm}
use easytier_wsrelay.Relay.Reach.{Event, creates, fetches, receives, closes, rings, lists}

-- The register: the peers that are online under each group key.
abbrev pub Members : Type 0
Members = Text → BTreeSet

abbrev pub enters : Text → ℕ → Members → Members
enters key p m other = if text_beq key other then BTreeSet.insert p (m key) else m other

abbrev pub departs : Text → ℕ → Members → Members
departs key p m other = if text_beq key other then BTreeSet.remove p (m key) else m other

abbrev pub enters_at : Option WsAttachment → Members → Members
enters_at none m = m
enters_at (some att) m =
    if not (att.peer_id == 0) && not (contains att.peer_id (m att.group_key))
    then enters att.group_key att.peer_id m
    else m

-- Every socket with a peer has that peer in the register.
abbrev pub enters_all : List Socket → Members → Members
enters_all [] m = m
enters_all (s ∷ ss) m = enters_all ss (enters_at (attachment s.slot) m)

-- Only the handshake lets a peer in.
abbrev pub is_hand_shake : PacketType → Bool
is_hand_shake hand_shake = true
is_hand_shake t = false

-- A handshake that is let in counts where the attachment that names its peer can be stored.
abbrev pub recorded : Runtime → WsAttachment → Option HandshakeOutcome → Option HandshakeOutcome
recorded rt att none = none
recorded rt att (some o) = if rt.storable (joined_attachment o att) then some o else none

-- The group and the peer that a message lets in.
abbrev pub admitted : Runtime → ℕ → Incoming → Room → Option (Text × ℕ)
admitted rt ws (string text) room = none
admitted rt ws (binary bytes) room = do
  h ← parse_header bytes
  att ← current (slot_of ws room.sockets)
  option_map (λ (o : HandshakeOutcome). (o.group_key, o.peer_id))
      (if is_hand_shake (packet_type_enum h)
        then recorded rt (record att { last_seen_ms = rt.env.now_ms })
            (handle_handshake rt.ext (drop header_size bytes) room.global.network_digest_registry).1
        else none)

-- The group and the peer that a closed socket takes with it.
abbrev pub departed : Slot → Room → Option (Text × ℕ)
departed slot room = do
  att ← attachment slot
  (if att.peer_id == 0 || has_other_connection att room.sockets
      then none
      else some (att.group_key, att.peer_id))

abbrev pub admits : Option (Text × ℕ) → Members → Members
admits none m = m
admits (some (key, p)) m = enters key p m

abbrev pub dismisses : Option (Text × ℕ) → Members → Members
dismisses none m = m
dismisses (some (key, p)) m = departs key p m

-- What an event means for the register.
abbrev pub registers : (r t : Room) → Event r t → Members → Members
registers r t (creates rt) m = enters_all r.sockets m
registers r t (fetches rt pair req) m = m
registers r t (receives rt ws message) m = admits (admitted rt ws message r) m
registers r t (closes rt slot) m = dismisses (departed slot r) m
registers r t (rings rt) m = m
registers r t (lists sockets alarm) m = m

-- The register that a room implements.
abbrev pub members : Room → Members
members room key = get_peer_ids_in_group key room.global.peer_manager
