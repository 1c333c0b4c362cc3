-- ===== src/Relay/Opening.antt =====
-- A new socket of a room of src/relay_room.rs leaves the global state as it is.
use easytier_wsrelay.Base.{ℕ, List, ◌==◌, Option, ◌≡◌, refl, Option-cases, Bool-cases, inl, inr}
use easytier_wsrelay.Http.{Request, is_websocket}
use easytier_wsrelay.Relay.Room.{Room, Runtime, Socket}
use easytier_wsrelay.Relay.Message.{with_manager}
use easytier_wsrelay.Relay.Lifecycle.{
  alarm, sweep, schedule_cleanup_alarm, accept, fetch, new_attachment,
}

global-accept : (rt : Runtime) (ws : ℕ) (room : Room) → (accept rt ws room).global ≡ room.global
unfolding accept schedule_cleanup_alarm
global-accept rt ws room = elim (Bool-cases (rt.storable (new_attachment rt.env))) [
  | inr f ↦ rw f refl
  | inl s ↦ rw s (elim (Option-cases room.alarm) [
    | inl e ↦ rw e (elim (Bool-cases rt.storage_works) [ inl t ↦ rw t refl | inr f ↦ rw f refl ])
    | inr (t, e) ↦ rw e refl
  ])
]

pub global-fetch :
    (rt : Runtime) (pair : Option ℕ) (req : Request) (room : Room)
    → (fetch rt pair req room).0.global ≡ room.global
unfolding fetch
global-fetch rt pair req room = elim (Option-cases req.url) [
  | inl e ↦ rw (e, fetch) refl
  | inr (url, e) ↦
      rw (e, fetch)
        (elim (Option-cases req.upgrade) [
          | inl n ↦ rw n refl
          | inr (upgrade, n) ↦ rw n (elim (Bool-cases (is_websocket upgrade)) [
            | inr f ↦ rw f refl
            | inl t ↦ rw t (elim (Option-cases pair) [
              | inl p ↦ rw p refl
              | inr (ws, p) ↦ rw p (global-accept rt ws room)
            ])
          ])
        ])
]

pub sockets-schedule :
    (rt : Runtime) (room : Room) → (schedule_cleanup_alarm rt room).sockets ≡ room.sockets
unfolding schedule_cleanup_alarm
sockets-schedule rt room = elim (Option-cases room.alarm) [
  | inl e ↦ rw e (elim (Bool-cases rt.storage_works) [ inl t ↦ rw t refl | inr f ↦ rw f refl ])
  | inr (t, e) ↦ rw e refl
]

-- The sockets after a request are those of before, or those after a new one.
pub sockets-fetch :
    (rt : Runtime) (pair : Option ℕ) (req : Request) (room : Room) (P : List Socket → Type 0)
    → P room.sockets
    → ((ws : ℕ) → P (accept rt ws room).sockets)
    → P (fetch rt pair req room).0.sockets
unfolding fetch
sockets-fetch rt pair req room P w new = elim (Option-cases req.url) [
  | inl e ↦ rw (e, fetch) w
  | inr (url, e) ↦
      rw (e, fetch)
        (elim (Option-cases req.upgrade) [
          | inl n ↦ rw n w
          | inr (upgrade, n) ↦ rw n (elim (Bool-cases (is_websocket upgrade)) [
            | inr f ↦ rw f w
            | inl t ↦
                rw t (elim (Option-cases pair) [ inl p ↦ rw p w | inr (ws, p) ↦ rw p (new ws) ])
          ])
        ])
]

-- The alarm leaves the list of the sockets.
pub sockets-alarm : (rt : Runtime) (room : Room) → (alarm rt room).room.sockets ≡ room.sockets
unfolding alarm with_manager
sockets-alarm rt room = elim (Bool-cases ((sweep rt.env.now_ms room.sockets).alive_count == 0)) [
  | inl t ↦ rw (t, alarm) refl
  | inr f ↦ rw (f, alarm) (sockets-schedule rt room)
]
