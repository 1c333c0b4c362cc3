-- ===== src/Relay/Timeouts.antt =====
-- The sweep of src/relay_room.rs: which sockets the alarm closes.
use easytier_wsrelay.Base.{
  ℕ, suc, ◌+◌, ◌<◌, ◌^◌, List, [], ◌∷◌, Option, none, some, Bool, true, false, not, ◌≡◌, ◌↔◌, ◌⊎◌,
  refl, ap, arith, keep, map, length, Option-cases, Bool-cases, inl, inr,
}
use easytier_wsrelay.Relay.Room.{
  WsAttachment, attachment, Socket, closed, elapsed_ms, socket_timeout_ms,
}
use easytier_wsrelay.Relay.Lifecycle.{sweep, is_dead}

-- For times below 2 ^ 63, a socket has timed out exactly if it has been heard of at all, and that
-- was more than the timeout before now, or lies after now.
pub is_dead_lem :
    (now : ℕ) (att : WsAttachment)
    → now < 2 ^ 63
    → att.last_seen_ms < 2 ^ 63
    → (is_dead now att ≡ true) ↔ (
        (0 < att.last_seen_ms)
        × ((now < att.last_seen_ms) ⊎ (att.last_seen_ms + socket_timeout_ms < now)))
unfolding is_dead elapsed_ms
is_dead_lem now att h k = ground arith

-- A socket whose attachment can be read and has timed out.
abbrev pub dead_attachment : ℕ → Option WsAttachment → Bool
dead_attachment now none = false
dead_attachment now (some att) = is_dead now att

abbrev pub is_dead_socket : ℕ → Socket → Bool
is_dead_socket now s = dead_attachment now (attachment s.slot)

-- The alarm's sweep closes each socket that has timed out, once and in the order of the list, and
-- counts every other one as alive.
pub sweep_lem :
    (now : ℕ) (sockets : List Socket)
    → ((sweep now sockets).effects
        ≡ map (λ (s : Socket). closed s.id) (keep (is_dead_socket now) sockets))
      × ((sweep now sockets).alive_count ≡ length (keep (λ s. not (is_dead_socket now s)) sockets))
unfolding sweep
sweep_lem now [] = (refl, refl)
sweep_lem now (s ∷ ss) = elim (Option-cases (attachment s.slot)) [
  | inl e ↦ rw (e, sweep) ((sweep_lem now ss).0, ap suc (sweep_lem now ss).1)
  | inr (att, e) ↦
      rw (e, sweep)
        (elim (Bool-cases (is_dead now att)) [
          | inl t ↦ rw t (ap (◌∷◌ (closed s.id)) (sweep_lem now ss).0, (sweep_lem now ss).1)
          | inr f ↦ rw f ((sweep_lem now ss).0, ap suc (sweep_lem now ss).1)
        ])
]
