-- ===== src/Relay/Leaving.antt =====
-- The peer of a closed socket leaves its group (src/relay_room.rs).
use easytier_wsrelay.Base.{some, false, ◌==◌, ◌≡◌, text_beq_refl, text_eq, arith}
use easytier_wsrelay.Base.BTreeSet.{contains, contains-remove}
use easytier_wsrelay.Route.Peers.{get_peer_ids_in_group}
use easytier_wsrelay.Relay.Room.{WsAttachment, Slot, attachment, Room, Runtime}
use easytier_wsrelay.Relay.Lifecycle.{websocket_close, has_other_connection}
use easytier_wsrelay.Relay.Members.{members}
use easytier_wsrelay.Relay.Refinement.{close-members}

-- Where the closed socket's peer has no other socket, the peer is not among the peers of its group
-- after the handler, the broadcast to the others included.
websocket_close_leaves :
    (rt : Runtime) (slot : Slot) (att : WsAttachment) (room : Room)
    → attachment slot ≡ some att
    → (att.peer_id == 0) ≡ false
    → has_other_connection att room.sockets ≡ false
    → contains att.peer_id (
        get_peer_ids_in_group att.group_key (websocket_close rt slot room).room.global.peer_manager)
      ≡ false
websocket_close_leaves rt slot att room e f h = rw (close-members rt att.group_key slot room) (
    rw (e, f, h, text_beq_refl att.group_key)
      (ground (arith, contains-remove att.peer_id att.peer_id (members room att.group_key))))
