-- ===== src/Relay/Presence.antt =====
-- Every client that is connected to a room of src/relay_room.rs is online in its group.
use easytier_wsrelay.Base.{
  ℕ, List, [], ◌∷◌, Option, none, some, true, false, not, ◌&&◌, Text, ◌==◌, ◌≡◌, refl, ap, sym,
  arith, All-imp, All-append, text_beq, text_beq_refl, text_beq_iff, text_eq, Bool-cases, inl, inr,
}
use mathlib.Core.Path.{subst}
use mathlib.Core.List.{Memᴰ}
use easytier_wsrelay.Base.BTreeSet.{contains, contains-insert}
use easytier_wsrelay.Http.{Request}
use easytier_wsrelay.Route.Peers.{get_peer_ids_in_group}
use easytier_wsrelay.PeerManager.{GlobalState}
use easytier_wsrelay.Relay.Room.{WsAttachment, attachment, Socket, Room, Runtime}
use easytier_wsrelay.Relay.Message.{Incoming, joined_attachment, websocket_message}
use easytier_wsrelay.Relay.Lifecycle.{accept, new_attachment, fetch, has_other_connection, alarm}
use easytier_wsrelay.Relay.Members.{
  Members, enters, enters_at, admits, enters_all, admitted, members,
}
use easytier_wsrelay.Relay.Opening.{global-fetch, sockets-schedule, sockets-fetch, sockets-alarm}
use easytier_wsrelay.Relay.Quiet.{alarm_keeps}
use easytier_wsrelay.Relay.Refinement.Message.{message-members, HasPeersOf, HasPeersOf-Update}
use easytier_wsrelay.Relay.Slots.{HoldsIn, AllSlots, websocket_message-AllSlots}

-- The peer of an attachment, if it has one, is online in its group.
abbrev pub IsOnline : Members → WsAttachment → Type 0
IsOnline m att = (att.peer_id == 0) ≡ false → contains att.peer_id (m att.group_key) ≡ true

-- The peer of every listed socket is online.
abbrev pub IsPresent : Room → Type 0
IsPresent room = AllSlots (IsOnline (members room)) room.sockets

-- One register has every peer of another.
abbrev HasAll : Members → Members → Type 0
HasAll m m' = (key : Text) (p : ℕ) → contains p (m key) ≡ true → contains p (m' key) ≡ true

enters-HasAll : (key : Text) (p : ℕ) (m : Members) → HasAll m (enters key p m)
enters-HasAll key p m other q h = elim (Bool-cases (text_beq key other)) [
  | inl t ↦ rw t (
      ground (
        arith,
        contains-insert p q (m key),
        subst (λ k. contains q (m k) ≡ true) (sym ((text_beq_iff key other).0 t)) h,
      ))
  | inr f ↦ rw f h
]

admits-HasAll : (who : Option (Text × ℕ)) (m : Members) → HasAll m (admits who m)
admits-HasAll none m other q h = h
admits-HasAll (some (key, p)) m other q h = enters-HasAll key p m other q h

contains-enters : (key : Text) (p : ℕ) (m : Members) → contains p (enters key p m key) ≡ true
contains-enters key p m = rw (text_beq_refl key) (ground (arith, contains-insert p p (m key)))

pub HoldsIn-weaken :
    (m m' : Members) (o : Option WsAttachment)
    → HasAll m m'
    → HoldsIn (IsOnline m) o
    → HoldsIn (IsOnline m') o
HoldsIn-weaken m m' none h a = tt
HoldsIn-weaken m m' (some att) h a = λ z. h att.group_key att.peer_id (a z)

pub IsOnline-weaken :
    (m m' : Members) (sockets : List Socket)
    → HasAll m m'
    → AllSlots (IsOnline m) sockets
    → AllSlots (IsOnline m') sockets
IsOnline-weaken m m' sockets h a =
    All-imp (λ s b. HoldsIn-weaken m m' (attachment s.slot) h b) sockets a

-- After a message the peers that were online are, and so is the one that it lets in.
pub websocket_message-IsPresent :
    (rt : Runtime) (ws : ℕ) (message : Incoming) (room : Room)
    → IsPresent room
    → IsPresent (websocket_message rt ws message room).room
unfolding joined_attachment
websocket_message-IsPresent rt ws message room w =
    let m' = members (websocket_message rt ws message room).room in
    websocket_message-AllSlots (IsOnline m') (λ z. absurd (ground (arith, z))) (λ att now q. q) rt
      ws message room
      (λ o att e z.
        rw (message-members rt o.group_key ws message room, e)
          (contains-enters o.group_key o.peer_id (members room)))
      (IsOnline-weaken (members room) m' room.sockets
        (λ key p h.
          rw (message-members rt key ws message room)
            (admits-HasAll (admitted rt ws message room) (members room) key p h))
        w)

enters_at-HasAll : (o : Option WsAttachment) (m : Members) → HasAll m (enters_at o m)
enters_at-HasAll none m key p h = h
enters_at-HasAll (some att) m key p h =
    elim (Bool-cases (not (att.peer_id == 0) && not (contains att.peer_id (m att.group_key)))) [
      | inl t ↦ rw t (enters-HasAll att.group_key att.peer_id m key p h)
      | inr f ↦ rw f h
    ]

enters_at-IsOnline : (o : Option WsAttachment) (m : Members) → HoldsIn (IsOnline (enters_at o m)) o
enters_at-IsOnline none m = tt
enters_at-IsOnline (some att) m = λ z.
    elim (Bool-cases (not (att.peer_id == 0) && not (contains att.peer_id (m att.group_key)))) [
      | inl t ↦ rw t (contains-enters att.group_key att.peer_id m)
      | inr f ↦ rw f (ground (arith, z, f))
    ]

enters_all-HasAll : (sockets : List Socket) (m : Members) → HasAll m (enters_all sockets m)
enters_all-HasAll [] m key p h = h
enters_all-HasAll (s ∷ ss) m key p h =
    enters_all-HasAll ss (enters_at (attachment s.slot) m) key p
      (enters_at-HasAll (attachment s.slot) m key p h)

-- Whatever was in the register, a wake-up makes the peer of every socket online.
pub enters_all-IsOnline :
    (sockets : List Socket) (m : Members) → AllSlots (IsOnline (enters_all sockets m)) sockets
enters_all-IsOnline [] m = tt
enters_all-IsOnline (s ∷ ss) m =
    let m₁ = enters_at (attachment s.slot) m in
    (
      HoldsIn-weaken m₁ (enters_all ss m₁) (attachment s.slot) (enters_all-HasAll ss m₁)
          (enters_at-IsOnline (attachment s.slot) m),
      enters_all-IsOnline ss m₁,
    )

-- A new socket has no peer,
accept-IsPresent :
    (rt : Runtime) (ws : ℕ) (room : Room)
    → AllSlots (IsOnline (members room)) room.sockets
    → AllSlots (IsOnline (members room)) (accept rt ws room).sockets
unfolding accept new_attachment
accept-IsPresent rt ws room w = elim (Bool-cases (rt.storable (new_attachment rt.env))) [
  | inl s ↦
      rw (s, sockets-schedule rt)
        (All-append _ room.sockets _ w ((λ z. absurd (ground (arith, z))), tt))
  | inr f ↦ rw f (All-append _ room.sockets _ w (tt, tt))
]

pub fetch-IsPresent :
    (rt : Runtime) (pair : Option ℕ) (req : Request) (room : Room)
    → IsPresent room
    → IsPresent (fetch rt pair req room).0
fetch-IsPresent rt pair req room w =
    let after = (fetch rt pair req room).0 in
    IsOnline-weaken (members room) (members after) after.sockets
      (λ key p h.
        rw
          (ap (λ (g : GlobalState). get_peer_ids_in_group key g.peer_manager)
            (global-fetch rt pair req room))
          h)
      (sockets-fetch rt pair req room (AllSlots (IsOnline (members room))) w
        (λ ws. accept-IsPresent rt ws room w))

-- and the alarm changes neither the sockets nor who is online.
pub alarm-IsPresent : (rt : Runtime) (room : Room) → IsPresent room → IsPresent (alarm rt room).room
alarm-IsPresent rt room w =
    let after = (alarm rt room).room in
    IsOnline-weaken (members room) (members after) after.sockets
      (λ key p h.
        rw
          (alarm_keeps rt (HasPeersOf key room.global.peer_manager)
            (HasPeersOf-Update rt key room.global.peer_manager) room refl)
          h)
      (rw (sockets-alarm rt room) w)

-- A socket with another session than that of the closed one, where both can be read.
abbrev pub HasOtherSession : Option WsAttachment → Option WsAttachment → Type 0
HasOtherSession none other = Unit
HasOtherSession (some att) none = Unit
HasOtherSession (some att) (some other) =
    text_beq other.server_session_id att.server_session_id ≡ false

pub has_other_connection-Mem :
    (att other : WsAttachment) (s : Socket) (sockets : List Socket)
    → Memᴰ s sockets
    → attachment s.slot ≡ some other
    → other.peer_id ≡ att.peer_id
    → text_beq other.server_session_id att.server_session_id ≡ false
    → has_other_connection att sockets ≡ true
unfolding has_other_connection
has_other_connection-Mem att other s [] m e p f = elim m [ ]
has_other_connection-Mem att other s (x ∷ xs) (Memᴰ.head q) e p f =
    rw (subst (λ y. attachment y.slot ≡ some other) q e) (ground (arith, p, f))
has_other_connection-Mem att other s (x ∷ xs) (Memᴰ.tail m) e p f =
    ground (arith, has_other_connection-Mem att other s xs m e p f)
