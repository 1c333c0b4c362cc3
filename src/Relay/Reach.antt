-- ===== src/Relay/Reach.antt =====
-- The states that a room of src/relay_room.rs reaches, event by event.
use easytier_wsrelay.Base.{ℕ, List, [], Option, none, some, Text, ◌≡◌, text_eq, arith}
use easytier_wsrelay.Base.HashMap
use easytier_wsrelay.Route.Group.{RouteGroupData}
use easytier_wsrelay.Route.Group
use easytier_wsrelay.Route.Invariant.{IsWellFormed}
use easytier_wsrelay.PeerManager.{new_global_state}
use easytier_wsrelay.PeerManager
use easytier_wsrelay.Http.{Request}
use easytier_wsrelay.Relay.Room.{Slot, Socket, Room, Runtime}
use easytier_wsrelay.Relay.Message.{Incoming, websocket_message}
use easytier_wsrelay.Relay.Lifecycle.{new, fetch, websocket_close, alarm}
use easytier_wsrelay.Relay.Sound.{IsSound, websocket_message-IsSound}
use easytier_wsrelay.Relay.Sound.Lifecycle.{
  websocket_close-IsSound, alarm-IsSound, new-IsSound, fetch-IsSound,
}

-- One event: each runs with a clock, draws, externals and send failures of its own.
pub data Event (room : Room) : Room → Type 0 where
  creates : (rt : Runtime) → Event room (new rt.env room)
  fetches : (rt : Runtime) (pair : Option ℕ) (req : Request) → Event room (fetch rt pair req room).0
  receives :
      (rt : Runtime) (ws : ℕ) (message : Incoming)
      → Event room (websocket_message rt ws message room).room
  closes : (rt : Runtime) (slot : Slot) → Event room (websocket_close rt slot room).room
  rings : (rt : Runtime) → Event room (alarm rt room).room
  -- The runtime lists other sockets, or another alarm: it drops closed sockets and a past alarm.
  lists :
      (sockets : List Socket) (alarm : Option ℕ)
      → Event room (record room { sockets = sockets; alarm = alarm })

abbrev pub empty_room : Room
empty_room = record { sockets = []; global = new_global_state; alarm = none }

pub data RoomReach : Room → Type 0 where
  start : RoomReach empty_room
  next : (r t : Room) → RoomReach r → Event r t → RoomReach t

Event-IsSound : (r t : Room) → IsSound r → Event r t → IsSound t
Event-IsSound r t w (creates rt) = new-IsSound rt r w
Event-IsSound r t w (fetches rt pair req) = fetch-IsSound rt pair req r w
Event-IsSound r t w (receives rt ws message) = websocket_message-IsSound rt ws message r w
Event-IsSound r t w (closes rt slot) = websocket_close-IsSound rt slot r w
Event-IsSound r t w (rings rt) = alarm-IsSound rt r w
Event-IsSound r t w (lists sockets alarm) = w

-- Whatever its clients send and in whatever order its events come, every group of a room stays
-- well formed: its peers ascend, the server's own info carries the server's id and the version
-- that the group counts, no peer that is online has a removal time, and no stored connection joins
-- a peer to itself or to the server.
pub RoomReach-IsWellFormed :
    (room : Room)
    → RoomReach room
    → (key : Text) (g : RouteGroupData) → HashMap.get key room.global.peer_manager.groups ≡ some g
    → IsWellFormed g
unfolding new_global_state PeerManager.new Group.new HashMap.get
RoomReach-IsWellFormed room start key g e = absurd (ground arith)
RoomReach-IsWellFormed room (next r t before event) key g e =
    Event-IsSound r t (RoomReach-IsWellFormed r before) event key g e
