-- ===== src/Entry/Isolate.antt =====
-- The rooms of one isolate share the global state, a thread-local of src/peer_manager.rs
-- (`with_global_state`). Each room has sockets and an alarm of its own.
use easytier_wsrelay.Base.{
  refl, List, [], ℕ, List, [], Option, none, some, false, ◌||◌, Text, ◌==◌, ◌≡◌, arith, text_beq,
  text_beq_refl, text_eq, if◌then◌else◌,
}
use easytier_wsrelay.Base.HashMap
use easytier_wsrelay.Base.BTreeSet.{contains, contains-remove}
use easytier_wsrelay.Route.Group.{RouteGroupData}
use easytier_wsrelay.Route.Group
use easytier_wsrelay.Route.Peers.{get_peer_ids_in_group}
use easytier_wsrelay.PeerManager
use easytier_wsrelay.Route.Invariant.{IsWellFormed}
use easytier_wsrelay.PeerManager.{GlobalState, new_global_state}
use easytier_wsrelay.Relay.Room.{WsAttachment, Slot, attachment, Socket, Room, Runtime}
use easytier_wsrelay.Relay.Lifecycle.{has_other_connection, websocket_close}
use easytier_wsrelay.Relay.Reach.{Event, lists, RoomReach, start, next, RoomReach-IsWellFormed}
use easytier_wsrelay.Relay.Audience.{targets, audience, targets-broadcast}
use easytier_wsrelay.Relay.Members.{Members, members, registers}
use easytier_wsrelay.Relay.Refinement.{close-members, Event-registers}

-- What a room has of its own.
pub record Place : Type 0 where
  pub sockets : List Socket
  pub alarm : Option ℕ

pub record Isolate : Type 0 where
  pub global : GlobalState
  pub places : Text → Place

-- The room of a name, as its handlers see it.
abbrev pub room_in : Isolate → Text → Room
room_in i id = record {
  sockets = (i.places id).sockets;
  global = i.global;
  alarm = (i.places id).alarm;
}

abbrev pub put_back : Text → Room → Isolate → Isolate
put_back id room i = record {
  global = room.global;
  places = λ other.
      if text_beq id other
      then record { sockets = room.sockets; alarm = room.alarm }
      else i.places other;
}

abbrev pub new_isolate : Isolate
new_isolate = record {
  global = new_global_state;
  places = λ id. record { sockets = []; alarm = none };
}

-- What the rooms of an isolate go through: one event of one room after the other.
pub data Reached : Isolate → Type 0 where
  begins : Reached new_isolate
  runs :
      (i : Isolate) (id : Text) (room : Room)
      → Reached i
      → Event (room_in i id) room
      → Reached (put_back id room i)

-- To each room, what the others do to the global state is as if its own events did it.
Reached-RoomReach : (i : Isolate) → Reached i → (id : Text) → RoomReach (room_in i id)
Reached-RoomReach i begins id = start
Reached-RoomReach i (runs j changed room before event) id =
    let place = (put_back changed room j).places id in
    next room _ (next (room_in j changed) room (Reached-RoomReach j before changed) event)
      (lists place.sockets place.alarm)

-- Whatever messages, closings, alarms, wake-ups and new sockets the rooms of an isolate go through,
-- in any order among all rooms, with any clock, draws and send failures, every group of the routes
-- that they share is well formed: its peers ascend, the server's own info carries the server's id
-- and the version that the group counts, no peer that is online has a removal time, and no stored
-- connection joins a peer to itself or to the server.
pub Reached-IsWellFormed :
    (i : Isolate)
    → Reached i
    → (key : Text) (g : RouteGroupData) → HashMap.get key i.global.peer_manager.groups ≡ some g
    → IsWellFormed g
Reached-IsWellFormed i r key g e =
    RoomReach-IsWellFormed (room_in i []) (Reached-RoomReach i r []) key g e

-- The register after the events of all rooms.
abbrev pub isolate_history : (i : Isolate) → Reached i → Members
isolate_history i begins = λ key. []
isolate_history i (runs j id room before event) =
    registers (room_in j id) room event (isolate_history j before)

-- The peers that are online in each group, the same for every room of an isolate, are those of one
-- abstract register after the events of all its rooms: the register is empty at the start, a
-- handshake that is let in and whose attachment can be stored enters its peer into its group and no
-- other message changes anything, a closed socket takes its peer out of its group where the peer
-- has no other socket in the same room, a wake-up enters the peers of the room's sockets, and
-- neither new sockets nor the alarm change who is online.
pub members-isolate_history :
    (i : Isolate) (r : Reached i) (id key : Text)
    → members (room_in i id) key ≡ isolate_history i r key
unfolding new_global_state PeerManager.new Group.new get_peer_ids_in_group HashMap.get
members-isolate_history i begins id key = refl
members-isolate_history i (runs j changed room before event) id key =
    Event-registers (room_in j changed) room event (isolate_history j before)
      (members-isolate_history j before changed) key

-- The handler's broadcast reaches the group of the closed socket.
targets-websocket_close :
    (rt : Runtime) (slot : Slot) (att : WsAttachment) (room : Room)
    → attachment slot ≡ some att
    → (att.peer_id == 0 || has_other_connection att room.sockets) ≡ false
    → targets (websocket_close rt slot room).effects
      ≡ audience rt att.group_key att.peer_id room.sockets
unfolding websocket_close
targets-websocket_close rt slot att room e last =
    rw (e, websocket_close) (rw last (targets-broadcast rt att.group_key att.peer_id 1 _ _))

-- Where the last socket of a peer in one room closes, the peer is offline in its group for every
-- room of the isolate, whatever sockets of the peer another room lists. In the room itself, each
-- listed socket whose attachment is of the group and of another peer, and that takes what it is
-- sent, is sent one message, and no other socket is sent anything.
pub close_everywhere :
    (i : Isolate) (id other : Text) (rt : Runtime) (slot : Slot) (att : WsAttachment)
    → attachment slot ≡ some att
    → (att.peer_id == 0 || has_other_connection att (room_in i id).sockets) ≡ false
    → let r = websocket_close rt slot (room_in i id) in
      (contains att.peer_id (members (room_in (put_back id r.room i) other) att.group_key) ≡ false)
      × (targets r.effects ≡ audience rt att.group_key att.peer_id (room_in i id).sockets)
close_everywhere i id other rt slot att e last = (
  rw (close-members rt att.group_key slot (room_in i id)) (
      rw (e, last, text_beq_refl att.group_key)
        (ground
          (arith, contains-remove att.peer_id att.peer_id (members (room_in i id) att.group_key)))),
  targets-websocket_close rt slot att (room_in i id) e last,
)
