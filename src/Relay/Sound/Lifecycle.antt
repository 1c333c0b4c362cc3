-- ===== src/Relay/Sound/Lifecycle.antt =====
-- Closing, the alarm, waking up and accepting keep the routes of every group well formed
-- (src/relay_room.rs).
use easytier_wsrelay.Base.{
  ℕ, Option, List, [], ◌∷◌, not, ◌||◌, ◌&&◌, Text, ◌==◌, Bool-cases, Option-cases, inl, inr,
  text_eq,
}
use easytier_wsrelay.Base.BTreeSet.{contains}
use easytier_wsrelay.Route.Invariant.Reach.{AllWellFormed, changes, adds, removes, bumps}
use easytier_wsrelay.Route.Peers
use easytier_wsrelay.PeerManager.{
  PeerManager, WsPeerContext, GlobalState, new_global_state, build_route_update,
}
use easytier_wsrelay.PeerManager
use easytier_wsrelay.Relay.Room.{Slot, attachment, Socket, Room, Runtime, attachment_to_ctx}
use easytier_wsrelay.Relay.Message.{with_manager}
use easytier_wsrelay.Relay.Lifecycle.{
  restore_peers, new, fetch, has_other_connection, websocket_close, alarm,
}
use easytier_wsrelay.Http.{Request}
use easytier_wsrelay.Relay.Opening.{global-fetch}
use easytier_wsrelay.Relay.Quiet.{broadcast_keeps, alarm_keeps}
use easytier_wsrelay.Relay.Sound.{IsSound, keeps_all, one_call}

module _ (rt : Runtime) where
  leave-AllWellFormed :
      (ctx : WsPeerContext) (pm : PeerManager)
      → AllWellFormed pm
      → AllWellFormed (PeerManager.remove_peer rt.env ctx pm).0
  unfolding PeerManager.remove_peer
  leave-AllWellFormed ctx pm w = elim (Bool-cases (ctx.peer_id == 0)) [
    | inl t ↦ rw (t, PeerManager.remove_peer) w
    | inr f ↦
        rw (f, PeerManager.remove_peer) (one_call rt ctx.group_key _ _ w (removes ctx.peer_id))
  ]

  pub websocket_close-IsSound :
      (slot : Slot) (room : Room) → IsSound room → IsSound (websocket_close rt slot room).room
  unfolding websocket_close with_manager
  websocket_close-IsSound slot room w = elim (Option-cases (attachment slot)) [
    | inl e ↦ rw (e, websocket_close) w
    | inr (att, e) ↦
        rw (e, websocket_close)
          (elim (Bool-cases (att.peer_id == 0 || has_other_connection att room.sockets)) [
            | inl t ↦ rw t w
            | inr f ↦ rw f (
                broadcast_keeps rt AllWellFormed (keeps_all rt) att.group_key att.peer_id 1
                  room.sockets _
                  (leave-AllWellFormed (attachment_to_ctx (rt.env.session_id 0) att)
                    room.global.peer_manager w))
          ])
  ]

  pub alarm-IsSound : (room : Room) → IsSound room → IsSound (alarm rt room).room
  alarm-IsSound room w = alarm_keeps rt AllWellFormed (keeps_all rt) room w

  enter-AllWellFormed :
      (key : Text) (p : ℕ) (pm : PeerManager)
      → AllWellFormed pm
      → AllWellFormed (PeerManager.add_peer rt.env key p pm)
  unfolding PeerManager.add_peer
  enter-AllWellFormed key p pm w =
      one_call rt key _ _ (one_call rt key _ _ w (adds p)) (changes _ bumps)

  restore-AllWellFormed :
      (sockets : List Socket) (pm : PeerManager)
      → AllWellFormed pm
      → AllWellFormed (restore_peers rt.env sockets pm)
  unfolding restore_peers
  restore-AllWellFormed [] pm w = w
  restore-AllWellFormed (s ∷ ss) pm w = elim (Option-cases (attachment s.slot)) [
    | inl e ↦ rw (e, restore_peers) (restore-AllWellFormed ss pm w)
    | inr (att, e) ↦
        rw (e, restore_peers)
          (elim (Bool-cases (
            not (att.peer_id == 0)
            && not (contains att.peer_id (Peers.get_peer_ids_in_group att.group_key pm)))) [
              | inl t ↦
                  rw t (
                    restore-AllWellFormed ss _ (enter-AllWellFormed att.group_key att.peer_id pm w))
              | inr f ↦ rw f (restore-AllWellFormed ss pm w)
            ])
  ]

  pub new-IsSound : (room : Room) → IsSound room → IsSound (new rt.env room)
  unfolding new with_manager
  new-IsSound room w = restore-AllWellFormed room.sockets room.global.peer_manager w

  pub fetch-IsSound :
      (pair : Option ℕ) (req : Request) (room : Room)
      → IsSound room
      → IsSound (fetch rt pair req room).0
  fetch-IsSound pair req room w = rw (global-fetch rt pair req room) w
