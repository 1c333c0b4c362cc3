-- ===== src/Relay/Refinement.antt =====
-- The event handlers of src/relay_room.rs implement the register of Relay.Members.
pub mod Message
use easytier_wsrelay.Base.{
  ℕ, List, [], ◌∷◌, Option, none, some, not, ◌&&◌, Text, ◌==◌, ◌≡◌, refl, ap, ◌∙◌, text_eq,
  Option-cases, Bool-cases, inl, inr,
}
use easytier_wsrelay.Base.BTreeSet.{contains}
use easytier_wsrelay.Base.HashMap
use easytier_wsrelay.Route.Group
use easytier_wsrelay.Route.Peers.{get_peer_ids_in_group}
use easytier_wsrelay.PeerManager.{PeerManager, GlobalState, new_global_state}
use easytier_wsrelay.PeerManager
use easytier_wsrelay.Relay.Room.{Slot, attachment, Socket, Room, Runtime, attachment_to_ctx}
use easytier_wsrelay.Relay.Message.{with_manager}
use easytier_wsrelay.Relay.Lifecycle.{
  restore_peers, new, schedule_cleanup_alarm, accept, has_other_connection, websocket_close, alarm,
}
use easytier_wsrelay.Relay.Quiet.{alarm_keeps}
use easytier_wsrelay.Relay.Reach.{Event, creates, fetches, receives, closes, rings, lists}
use easytier_wsrelay.Relay.Reach.{RoomReach, start, next}
use easytier_wsrelay.Relay.Opening.{global-fetch}
use easytier_wsrelay.Relay.Members.{
  Members, enters, enters_all, admitted, departed, registers, members, admits, dismisses,
}
use easytier_wsrelay.Relay.Refinement.Message.{
  HasPeersOf, HasPeersOf-Update, enter-members, leave-members, message-members,
}

-- Registers with the same peers stay so.
module _ (m m' : Members) (h : (key : Text) → m key ≡ m' key) where
  enters-cong : (key : Text) (p : ℕ) (other : Text) → enters key p m other ≡ enters key p m' other
  enters-cong key p other = rw (h key, h other) refl

  admits-cong : (who : Option (Text × ℕ)) (other : Text) → admits who m other ≡ admits who m' other
  admits-cong none other = h other
  admits-cong (some (key, p)) other = enters-cong key p other

  dismisses-cong :
      (who : Option (Text × ℕ)) (other : Text) → dismisses who m other ≡ dismisses who m' other
  dismisses-cong none other = h other
  dismisses-cong (some (key, p)) other = rw (h key, h other) refl

module _ (rt : Runtime) (other : Text) where
  pub close-members :
      (slot : Slot) (room : Room)
      → members (websocket_close rt slot room).room other
        ≡ dismisses (departed slot room) (members room) other
  unfolding websocket_close with_manager PeerManager.remove_peer attachment_to_ctx
  close-members slot room = elim (Option-cases (attachment slot)) [
    | inl e ↦ rw (e, websocket_close) refl
    | inr (att, e) ↦
        rw (e, websocket_close)
          (elim (Bool-cases (att.peer_id == 0)) [
            | inl z ↦ rw z refl
            | inr z ↦ rw z (elim (Bool-cases (has_other_connection att room.sockets)) [
              | inl t ↦ rw t refl
              | inr f ↦ rw f (
                  leave-members rt other att.group_key att.peer_id att.peer_id room.sockets
                    room.global.peer_manager)
            ])
          ])
  ]

pub restore-members :
    (rt : Runtime) (sockets : List Socket) (pm : PeerManager) (m : Members)
    → ((key : Text) → get_peer_ids_in_group key pm ≡ m key)
    → (other : Text)
    → get_peer_ids_in_group other (restore_peers rt.env sockets pm) ≡ enters_all sockets m other
unfolding restore_peers
restore-members rt [] pm m h other = h other
restore-members rt (s ∷ ss) pm m h other = elim (Option-cases (attachment s.slot)) [
  | inl e ↦ rw (e, restore_peers) (restore-members rt ss pm m h other)
  | inr (att, e) ↦
      rw (e, restore_peers, h att.group_key)
        (elim (Bool-cases
          (not (att.peer_id == 0) && not (contains att.peer_id (m att.group_key)))) [
            | inl t ↦ rw t (
                restore-members rt ss (PeerManager.add_peer rt.env att.group_key att.peer_id pm)
                  (enters att.group_key att.peer_id m)
                  (λ key.
                    enter-members rt key att.group_key att.peer_id pm
                    ∙ enters-cong _ m h att.group_key att.peer_id key)
                  other)
            | inr f ↦ rw f (restore-members rt ss pm m h other)
          ])
]

-- What the handlers do to the register they implement is what their events mean for it.
pub Event-registers :
    (r t : Room) (event : Event r t) (m : Members)
    → ((key : Text) → members r key ≡ m key)
    → (key : Text) → members t key ≡ registers r t event m key
unfolding new with_manager
Event-registers r t (creates rt) m h key =
    restore-members rt r.sockets r.global.peer_manager m h key
Event-registers r t (fetches rt pair req) m h key =
    ap (λ (g : GlobalState). get_peer_ids_in_group key g.peer_manager) (global-fetch rt pair req r)
    ∙ h key
Event-registers r t (receives rt ws message) m h key =
    message-members rt key ws message r ∙ admits-cong (members r) m h (admitted rt ws message r) key
Event-registers r t (closes rt slot) m h key =
    close-members rt key slot r ∙ dismisses-cong (members r) m h (departed slot r) key
Event-registers r t (rings rt) m h key =
    alarm_keeps rt (HasPeersOf key r.global.peer_manager)
      (HasPeersOf-Update rt key r.global.peer_manager) r refl
    ∙ h key
Event-registers r t (lists sockets alarm) m h key = h key

-- The register after the events that lead to a room.
abbrev pub history : (room : Room) → RoomReach room → Members
history room start = λ key. []
history room (next r t before event) = registers r t event (history r before)

-- The peers that a room has online in each group are those of the abstract register after the same
-- events: the register is empty at the start, a handshake that is let in and whose attachment can be
-- stored enters its peer into its group and no other message changes anything, a closed socket
-- takes its peer out of its group where the peer has no other socket, a wake-up enters the peers of
-- the sockets, and neither new sockets nor the alarm change who is online.
members-history :
    (room : Room) (reach : RoomReach room) (key : Text) → members room key ≡ history room reach key
unfolding new_global_state PeerManager.new Group.new get_peer_ids_in_group HashMap.get
members-history room start key = refl
members-history room (next r t before event) key =
    Event-registers r t event (history r before) (members-history r before) key
