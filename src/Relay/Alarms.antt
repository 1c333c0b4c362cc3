-- ===== src/Relay/Alarms.antt =====
-- The alarms of a room of src/relay_room.rs, one after the other: a silent socket is closed.
use easytier_wsrelay.Base.{
  ℕ, zero, suc, ◌+◌, ◌*◌, ◌<◌, ◌≤◌, List, [], ◌∷◌, ◌++◌, none, some, true, false, not, ◌==◌, ◌≡◌,
  refl, sym, ap, ◌∙◌, arith, keep, map, length, Bool-cases, inl, inr,
}
use mathlib.Core.Path.{subst}
use mathlib.Core.List.{Memᴰ}
use mathlib.Core.List.Memᴰ
use easytier_wsrelay.Relay.Room.{
  WsAttachment, attachment, Socket, Room, Effect, closed, Runtime, Outcome, elapsed_ms,
  socket_timeout_ms, cleanup_interval_ms,
}
use easytier_wsrelay.Relay.Message.{with_manager}
use easytier_wsrelay.Relay.Lifecycle.{is_dead, sweep, schedule_cleanup_alarm, alarm}
use easytier_wsrelay.Relay.Timeouts.{is_dead_socket, sweep_lem}

module _ (now : ℕ) (s : Socket) where
  dead_is_closed :
      (sockets : List Socket)
      → is_dead_socket now s ≡ true
      → Memᴰ s sockets
      → Memᴰ (closed s.id) (map (λ (x : Socket). closed x.id) (keep (is_dead_socket now) sockets))
  dead_is_closed [] d m = elim m [ ]
  dead_is_closed (x ∷ xs) d (Memᴰ.head e) =
      rw (subst (λ y. is_dead_socket now y ≡ true) e d)
        (Memᴰ.head (ap (λ (y : Socket). closed y.id) e))
  dead_is_closed (x ∷ xs) d (Memᴰ.tail m) = elim (Bool-cases (is_dead_socket now x)) [
    | inl t ↦ rw t (Memᴰ.tail (dead_is_closed xs d m))
    | inr f ↦ rw f (dead_is_closed xs d m)
  ]

  alive_is_counted :
      (sockets : List Socket)
      → is_dead_socket now s ≡ false
      → Memᴰ s sockets
      → 0 < length (keep (λ x. not (is_dead_socket now x)) sockets)
  alive_is_counted [] d m = elim m [ ]
  alive_is_counted (x ∷ xs) d (Memᴰ.head e) =
      rw (subst (λ y. is_dead_socket now y ≡ false) e d) (omega arith)
  alive_is_counted (x ∷ xs) d (Memᴰ.tail m) = elim (Bool-cases (is_dead_socket now x)) [
    | inl t ↦ rw t (alive_is_counted xs d m)
    | inr f ↦ rw f (omega arith)
  ]

-- The alarm closes a listed socket that has timed out,
alarm-closed :
    (rt : Runtime) (s : Socket) (room : Room)
    → is_dead_socket rt.env.now_ms s ≡ true
    → Memᴰ s room.sockets
    → Memᴰ (closed s.id) (alarm rt room).effects
unfolding alarm
alarm-closed rt s room d m =
    let swept : Memᴰ (closed s.id) (sweep rt.env.now_ms room.sockets).effects =
      subst (Memᴰ (closed s.id)) (sym (sweep_lem rt.env.now_ms room.sockets).0)
        (dead_is_closed rt.env.now_ms s room.sockets d m) in
    elim (Bool-cases ((sweep rt.env.now_ms room.sockets).alive_count == 0)) [
      | inl t ↦ rw (t, alarm) swept
      | inr f ↦ rw (f, alarm) (Memᴰ.append_left _ swept)
    ]

-- and where a listed socket has not, the next alarm is set.
alarm-scheduled :
    (rt : Runtime) (s : Socket) (room : Room)
    → is_dead_socket rt.env.now_ms s ≡ false
    → Memᴰ s room.sockets
    → room.alarm ≡ none
    → rt.storage_works ≡ true
    → ((alarm rt room).room.alarm ≡ some (rt.env.now_ms + cleanup_interval_ms))
      × ((alarm rt room).room.sockets ≡ room.sockets)
unfolding alarm schedule_cleanup_alarm with_manager
alarm-scheduled rt s room d m a w =
    let alive : ((sweep rt.env.now_ms room.sockets).alive_count == 0) ≡ false = ground (
      arith,
      (sweep_lem rt.env.now_ms room.sockets).1,
      alive_is_counted rt.env.now_ms s room.sockets d m,
    ) in
    rw (alive, a, w, alarm) (refl, refl)

pub times_out :
    (now : ℕ) (s : Socket) (att : WsAttachment)
    → attachment s.slot ≡ some att
    → 0 < att.last_seen_ms
    → att.last_seen_ms + socket_timeout_ms < now
    → is_dead_socket now s ≡ true
unfolding is_dead elapsed_ms
times_out now s att e h u = rw e (ground arith)

-- The runtime with its clock at a time.
abbrev pub at : ℕ → Runtime → Runtime
at now rt = record rt { env = record rt.env { now_ms = now } }

-- The alarm rings at the time it is set to, or later. The runtime has cleared it by then.
abbrev pub ring : ℕ → Runtime → Room → Outcome
ring now rt room = alarm (at now rt) (record room { alarm = none })

-- The first `n` alarms from the `k`-th on: what they send and close. The `k`-th rings `late k` after
-- the time it is set to, in the runtime `rts k`, and is followed by the other events `between k`.
abbrev pub rings_of : (ℕ → Runtime) → (ℕ → ℕ) → (ℕ → Room → Room) → ℕ → ℕ → Room → List Effect
rings_of rts late between k zero room = []
rings_of rts late between k (suc n) room = elim room.alarm [
  | none ↦ []
  | some t ↦
      let o = ring (t + late k) (rts k) room in
      o.effects ++ rings_of rts late between (suc k) n (between k o.room)
]

-- Where the storage takes every alarm, and the events between the alarms leave the next alarm and
-- the socket as they are, a socket that is heard of no more is closed: by the alarm number n + 1
-- at the latest, if n intervals after the first alarm the timeout has passed, however late the
-- alarms ring.
pub silent_socket_is_closed :
    (rts : ℕ → Runtime) (late : ℕ → ℕ) (between : ℕ → Room → Room) (s : Socket) (att : WsAttachment)
    → attachment s.slot ≡ some att
    → 0 < att.last_seen_ms
    → ((k : ℕ) → (rts k).storage_works ≡ true)
    → ((k : ℕ) (r : Room) → Memᴰ s r.sockets → Memᴰ s (between k r).sockets)
    → ((k : ℕ) (r : Room) → (between k r).alarm ≡ r.alarm)
    → (k n t : ℕ) (room : Room) → att.last_seen_ms ≤ t
    → att.last_seen_ms + socket_timeout_ms < t + n * cleanup_interval_ms
    → room.alarm ≡ some t
    → Memᴰ s room.sockets
    → Memᴰ (closed s.id) (rings_of rts late between k (suc n) room)
silent_socket_is_closed rts late between s att e h works stays waits k zero t room l u a m = rw a (
    Memᴰ.append_left _ (
      alarm-closed (at (t + late k) (rts k)) s _ (times_out (t + late k) s att e h (omega arith))
        m))
silent_socket_is_closed rts late between s att e h works stays waits k (suc n) t room l u a m =
    let now = t + late k in
    let cleared = record room { alarm = none } in
    let o = ring now (rts k) room in
    elim (Bool-cases (is_dead_socket now s)) [
      | inl d ↦ rw a (Memᴰ.append_left _ (alarm-closed (at now (rts k)) s cleared d m))
      | inr d ↦
          let next = alarm-scheduled (at now (rts k)) s cleared d m refl (works k) in
          rw a (
            Memᴰ.append_right o.effects (
              silent_socket_is_closed rts late between s att e h works stays waits (suc k) n
                (now + cleanup_interval_ms) (between k o.room) (omega arith) (omega arith)
                (waits k o.room ∙ next.0) (stays k o.room (subst (Memᴰ s) (sym next.1) m))))
    ]
