-- ===== src/Relay/Abandoned.antt =====
-- The alarms of a room of src/relay_room.rs that nobody writes to any more come to an end.
use easytier_wsrelay.Base.{
  ℕ, zero, suc, ◌+◌, ◌*◌, ◌<◌, ◌≤◌, List, [], ◌∷◌, Option, none, some, true, not, ◌==◌, ◌≡◌, ◌⊎◌,
  refl, sym, ap, ◌∙◌, arith, All, keep, length, Bool-cases, Option-cases, inl, inr,
}
use mathlib.Core.Path.{subst}
use easytier_wsrelay.Relay.Room.{
  WsAttachment, attachment, Socket, Room, Runtime, socket_timeout_ms, cleanup_interval_ms,
}
use easytier_wsrelay.Relay.Message.{with_manager}
use easytier_wsrelay.Relay.Lifecycle.{sweep, schedule_cleanup_alarm, alarm}
use easytier_wsrelay.Relay.Timeouts.{is_dead_socket, sweep_lem}
use easytier_wsrelay.Relay.Alarms.{at, ring, times_out}

-- The attachment of a socket that has been heard of, and not after a time.
abbrev pub IsSilentSince : ℕ → Option WsAttachment → Type 0
IsSilentSince last none = ⊥
IsSilentSince last (some att) = (0 < att.last_seen_ms) × (att.last_seen_ms ≤ last)

-- Each listed socket has been heard of, and none after the time.
abbrev pub IsAbandoned : ℕ → Room → Type 0
IsAbandoned last room = All (λ (s : Socket). IsSilentSince last (attachment s.slot)) room.sockets

silent-dead :
    (last now : ℕ) (s : Socket)
    → IsSilentSince last (attachment s.slot)
    → last + socket_timeout_ms < now
    → is_dead_socket now s ≡ true
silent-dead last now s h u = elim (Option-cases (attachment s.slot)) [
  | inl e ↦ absurd (subst (IsSilentSince last) e h)
  | inr (att, e) ↦ let k = subst (IsSilentSince last) e h in times_out now s att e k.0 (omega arith)
]

none_alive :
    (last now : ℕ) (sockets : List Socket)
    → All (λ (s : Socket). IsSilentSince last (attachment s.slot)) sockets
    → last + socket_timeout_ms < now
    → length (keep (λ s. not (is_dead_socket now s)) sockets) ≡ 0
none_alive last now [] h u = refl
none_alive last now (s ∷ ss) h u = rw (silent-dead last now s h.0 u) (none_alive last now ss h.1 u)

-- Where every socket has timed out, the alarm leaves the room as it is, with no next alarm.
alarm_ends :
    (rt : Runtime) (last : ℕ) (room : Room)
    → IsAbandoned last room
    → last + socket_timeout_ms < rt.env.now_ms
    → (alarm rt room).room ≡ room
unfolding alarm
alarm_ends rt last room h u =
    let now = rt.env.now_ms in
    let dead : ((sweep now room.sockets).alive_count == 0) ≡ true =
      ground (arith, (sweep_lem now room.sockets).1, none_alive last now room.sockets h u) in
    rw (dead, alarm) refl

-- An alarm keeps the sockets, and sets the next one an interval later, if at all.
alarm_next :
    (rt : Runtime) (room : Room)
    → room.alarm ≡ none
    → ((alarm rt room).room.sockets ≡ room.sockets)
      × (((alarm rt room).room.alarm ≡ none)
          ⊎ ((alarm rt room).room.alarm ≡ some (rt.env.now_ms + cleanup_interval_ms)))
unfolding alarm schedule_cleanup_alarm with_manager
alarm_next rt room a = elim (Bool-cases ((sweep rt.env.now_ms room.sockets).alive_count == 0)) [
  | inl t ↦ rw (t, alarm) (refl, inl a)
  | inr f ↦ elim (Bool-cases rt.storage_works) [
    | inl w ↦ rw (f, a, w, alarm) (refl, inr refl)
    | inr b ↦ rw (f, a, b, alarm) (refl, inl refl)
  ]
]

-- The room after the first `n` alarms from the `k`-th on, or after the last one that is set. The
-- `k`-th rings `late k` after the time it is set to, and is followed by the events `between k`.
abbrev pub after_rings : (ℕ → Runtime) → (ℕ → ℕ) → (ℕ → Room → Room) → ℕ → ℕ → Room → Room
after_rings rts late between k zero room = room
after_rings rts late between k (suc n) room = elim room.alarm [
  | none ↦ room
  | some t ↦
      after_rings rts late between (suc k) n (between k (ring (t + late k) (rts k) room).room)
]

module _ (rts : ℕ → Runtime) (late : ℕ → ℕ) (between : ℕ → Room → Room) where
  after_rings-none :
      (k n : ℕ) (room : Room)
      → room.alarm ≡ none
      → (after_rings rts late between k n room).alarm ≡ none
  after_rings-none k zero room a = a
  after_rings-none k (suc n) room a = rw a refl

  -- Where each listed socket has an attachment that can be read, whose time is not 0 and not after a
  -- given one, and the events between the alarms leave that so wherever it holds and never change
  -- the next alarm, the alarms come to an end: after n + 1 of them none is set, if n intervals after
  -- the time of the first alarm more than the timeout has passed since the given time, however late
  -- they ring and whether the storage takes them or not.
  pub alarms_end :
      (last : ℕ)
      → ((k : ℕ) (r : Room) → IsAbandoned last r → IsAbandoned last (between k r))
      → ((k : ℕ) (r : Room) → (between k r).alarm ≡ r.alarm)
      → (k n t : ℕ) (room : Room) → last + socket_timeout_ms < t + n * cleanup_interval_ms
      → room.alarm ≡ some t
      → IsAbandoned last room
      → (after_rings rts late between k (suc n) room).alarm ≡ none
  alarms_end last stays waits k zero t room u a h =
      let now = t + late k in
      let over = alarm_ends (at now (rts k)) last (record room { alarm = none }) h (omega arith) in
      rw a (waits k _ ∙ ap (λ (r : Room). r.alarm) over)
  alarms_end last stays waits k (suc n) t room u a h =
      let now = t + late k in
      let cleared = record room { alarm = none } in
      let r = (alarm (at now (rts k)) cleared).room in
      let next = alarm_next (at now (rts k)) cleared refl in
      let quiet =
        subst (All (λ (s : Socket). IsSilentSince last (attachment s.slot))) (sym next.0) h in
      rw a (elim next.1 [
        | inl none_set ↦ after_rings-none (suc k) (suc n) (between k r) (waits k r ∙ none_set)
        | inr set ↦
            alarms_end last stays waits (suc k) n (now + cleanup_interval_ms) (between k r)
              (omega arith) (waits k r ∙ set) (stays k r quiet)
      ])
