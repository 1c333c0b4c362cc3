-- ===== src/Relay/Connected.antt =====
-- The rooms of src/relay_room.rs that the runtime's events lead to, where it lists no socket that it
-- has not been given and drops a socket when it closes.
use easytier_wsrelay.Base.{
  ℕ, List, [], ◌∷◌, Option, some, true, false, ◌||◌, ◌==◌, ◌≡◌, refl, sym, arith, All, Text, nat_eq,
  text_beq, text_beq_iff, text_eq, Option-cases, Bool-cases, inl, inr,
}
use mathlib.Core.Path.{subst}
use mathlib.Core.List.{Memᴰ}
use easytier_wsrelay.Base.BTreeSet.{contains, contains-remove}
use easytier_wsrelay.Http.{Request}
use easytier_wsrelay.PeerManager.{GlobalState}
use easytier_wsrelay.Relay.Room.{WsAttachment, Slot, attachment, Socket, Room, Runtime}
use easytier_wsrelay.Relay.Message.{Incoming, websocket_message, with_manager}
use easytier_wsrelay.Relay.Lifecycle.{new, fetch, has_other_connection, websocket_close, alarm}
use easytier_wsrelay.Relay.Reach.{empty_room}
use easytier_wsrelay.Relay.Members.{Members, departs, dismisses, departed, members, enters_all}
use easytier_wsrelay.Relay.Refinement.{close-members, restore-members}
use easytier_wsrelay.Relay.Slots.{HoldsIn, AllSlots}
use easytier_wsrelay.Relay.Presence.{
  IsOnline, IsPresent, IsOnline-weaken, websocket_message-IsPresent, fetch-IsPresent,
  alarm-IsPresent, enters_all-IsOnline, HasOtherSession, has_other_connection-Mem,
}

contains-departs :
    (key other : Text) (p q : ℕ) (m : Members)
    → (p == q) ≡ false
    → contains q (m other) ≡ true
    → contains q (departs key p m other) ≡ true
contains-departs key other p q m n h = elim (Bool-cases (text_beq key other)) [
  | inl t ↦ rw t (
      ground (
        arith,
        contains-remove p q (m key),
        n,
        subst (λ k. contains q (m k) ≡ true) (sym ((text_beq_iff key other).0 t)) h,
      ))
  | inr f ↦ rw f h
]

-- A socket that stays, of another session than the closed one, keeps its peer online.
dismisses-IsOnline :
    (slot : Slot) (room : Room) (s : Socket) (other : WsAttachment)
    → Memᴰ s room.sockets
    → attachment s.slot ≡ some other
    → HasOtherSession (attachment slot) (some other)
    → IsOnline (members room) other
    → IsOnline (dismisses (departed slot room) (members room)) other
dismisses-IsOnline slot room s other m e o w z = elim (Option-cases (attachment slot)) [
  | inl n ↦ rw n (w z)
  | inr (att, n) ↦ elim (Bool-cases (att.peer_id == 0 || has_other_connection att room.sockets)) [
    | inl t ↦ rw (n, t) (w z)
    | inr f ↦
        rw (n, f)
          (elim (Bool-cases (att.peer_id == other.peer_id)) [
            | inr d ↦
                contains-departs att.group_key other.group_key att.peer_id other.peer_id
                  (members room) d (w z)
            | inl d ↦ absurd (
                ground (
                  arith,
                  f,
                  has_other_connection-Mem att other s room.sockets m e
                      (omega (arith, (nat_eq.beq_iff att.peer_id other.peer_id).0 d))
                      (subst (λ a. HasOtherSession a (some other)) n o),
                ))
          ])
  ]
]

-- One event: each runs with a clock, draws, externals and send failures of its own.
pub data Orderly (room : Room) : Room → Type 0 where
  -- The room is created again, after a hibernation or with any other global state.
  wakes :
      (rt : Runtime) (global : GlobalState)
      → Orderly room (new rt.env (record room { global = global }))
  fetches :
      (rt : Runtime) (pair : Option ℕ) (req : Request) → Orderly room (fetch rt pair req room).0
  receives :
      (rt : Runtime) (ws : ℕ) (message : Incoming)
      → Orderly room (websocket_message rt ws message room).room
  -- The runtime has cleared the alarm, or not.
  rings :
      (rt : Runtime) (set : Option ℕ) → Orderly room (alarm rt (record room { alarm = set })).room
  -- A socket closes. Of the others, which are of other sessions, those in `left` stay.
  closes :
      (rt : Runtime) (slot : Slot) (left : List Socket)
      → All (λ s. Memᴰ s room.sockets) left
      → All (λ s. HasOtherSession (attachment slot) (attachment s.slot)) left
      → Orderly room (record (websocket_close rt slot room).room { sockets = left })

pub data Leads : Room → Type 0 where
  start : Leads empty_room
  next : (r t : Room) → Leads r → Orderly r t → Leads t

AllSlots-Mem :
    (Q : WsAttachment → Type 0) (s : Socket) (sockets : List Socket)
    → AllSlots Q sockets
    → Memᴰ s sockets
    → HoldsIn Q (attachment s.slot)
AllSlots-Mem Q s [] a m = elim m [ ]
AllSlots-Mem Q s (x ∷ xs) a (Memᴰ.head e) = subst (λ y. HoldsIn Q (attachment y.slot)) (sym e) a.0
AllSlots-Mem Q s (x ∷ xs) a (Memᴰ.tail m) = AllSlots-Mem Q s xs a.1 m

module _ (slot : Slot) (room : Room) (w : IsPresent room) where
  dismisses-HoldsIn :
      (s : Socket)
      → Memᴰ s room.sockets
      → HasOtherSession (attachment slot) (attachment s.slot)
      → HoldsIn (IsOnline (dismisses (departed slot room) (members room))) (attachment s.slot)
  dismisses-HoldsIn s m o = elim (Option-cases (attachment s.slot)) [
    | inl e ↦ rw e tt
    | inr (other, e) ↦ rw e (
        dismisses-IsOnline slot room s other m e (subst (HasOtherSession (attachment slot)) e o) (
          subst (HoldsIn (IsOnline (members room))) e
            (AllSlots-Mem (IsOnline (members room)) s room.sockets w m)))
  ]

  dismisses-AllSlots :
      (left : List Socket)
      → All (λ s. Memᴰ s room.sockets) left
      → All (λ s. HasOtherSession (attachment slot) (attachment s.slot)) left
      → AllSlots (IsOnline (dismisses (departed slot room) (members room))) left
  dismisses-AllSlots [] m o = tt
  dismisses-AllSlots (s ∷ ss) m o = (dismisses-HoldsIn s m.0 o.0, dismisses-AllSlots ss m.1 o.1)

Orderly-IsPresent : (r t : Room) → IsPresent r → Orderly r t → IsPresent t
unfolding new with_manager
Orderly-IsPresent r t w (wakes rt global) =
    let before = record r { global = global } in
    IsOnline-weaken (enters_all r.sockets (members before)) (members t) r.sockets
      (λ key p h.
        rw (restore-members rt r.sockets global.peer_manager (members before) (λ k. refl) key) h)
      (enters_all-IsOnline r.sockets (members before))
Orderly-IsPresent r t w (fetches rt pair req) = fetch-IsPresent rt pair req r w
Orderly-IsPresent r t w (receives rt ws message) = websocket_message-IsPresent rt ws message r w
Orderly-IsPresent r t w (rings rt set) = alarm-IsPresent rt (record r { alarm = set }) w
Orderly-IsPresent r t w (closes rt slot left m o) =
    IsOnline-weaken (dismisses (departed slot r) (members r)) (members t) left
      (λ key p h. rw (close-members rt key slot r) h) (dismisses-AllSlots slot r w left m o)

-- In a room whose events are its own wake-ups, upgrades, messages, alarms and closings alone, so
-- that between them nothing else, such as another room of the isolate, changes the global state,
-- though a room that is created again finds any global state: where the runtime lists no socket that
-- it has not been given, and when a socket closes keeps of the listed ones only such as differ from
-- it in the session id, as far as both attachments can be read, every listed socket whose attachment
-- can be read and names a peer other than 0 has that peer online in the group that it names.
pub Leads-IsPresent : (room : Room) → Leads room → IsPresent room
Leads-IsPresent room start = tt
Leads-IsPresent room (next r t before event) =
    Orderly-IsPresent r t (Leads-IsPresent r before) event
