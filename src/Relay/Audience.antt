-- ===== src/Relay/Audience.antt =====
-- Whom a route broadcast of src/relay_room.rs reaches.
use easytier_wsrelay.Base.{
  ℕ, suc, List, [], ◌∷◌, Option, none, some, Bool, true, false, not, ◌&&◌, Text, ◌==◌, ◌≡◌, refl,
  arith, keep, map, text_eq, text_beq, Option-cases, inl, inr,
}
use easytier_wsrelay.PeerManager.{PeerManager, build_route_update}
use easytier_wsrelay.Relay.Room.{
  WsAttachment, attachment, Socket, Effect, sent, closed, Runtime, attachment_to_ctx, store,
}
use easytier_wsrelay.Relay.Broadcast.{broadcast, is_addressed}

-- The sockets that are sent something, in order.
abbrev pub targets : List Effect → List ℕ
targets [] = []
targets (sent ws bytes ∷ es) = ws ∷ targets es
targets (closed ws ∷ es) = targets es

-- The attachment is of the group and of another peer.
abbrev pub is_of_group : Text → ℕ → Option WsAttachment → Bool
is_of_group key exclude none = false
is_of_group key exclude (some att) = text_beq att.group_key key && not (att.peer_id == exclude)

-- A socket of the group, but for one peer, that takes what it is sent.
abbrev pub hears : Runtime → Text → ℕ → Socket → Bool
hears rt key exclude s = is_of_group key exclude (attachment s.slot) && rt.sendable s.id

abbrev pub audience : Runtime → Text → ℕ → List Socket → List ℕ
audience rt key exclude sockets = map (λ (s : Socket). s.id) (keep (hears rt key exclude) sockets)

-- A route broadcast sends exactly one message to each listed socket that has an attachment of the
-- group with another peer than the excluded one and takes what it is sent, in the order of the
-- list, and nothing to any other socket.
pub targets-broadcast :
    (rt : Runtime) (key : Text) (exclude n : ℕ) (sockets : List Socket) (pm : PeerManager)
    → targets (broadcast rt key exclude n sockets pm).1 ≡ audience rt key exclude sockets
unfolding broadcast is_addressed
targets-broadcast rt key exclude n [] pm = refl
targets-broadcast rt key exclude n (s ∷ ss) pm = elim (Option-cases (attachment s.slot)) [
  | inl e ↦ rw (e, broadcast) (targets-broadcast rt key exclude (suc n) ss pm)
  | inr (att, e) ↦
      let ctx = attachment_to_ctx (rt.env.session_id n) att in
      let built = build_route_update rt.ext rt.env ctx att.peer_id true (rt.env.transaction n) pm in
      rw (e, broadcast)
        (ground (
          arith,
          targets-broadcast rt key exclude (suc n) ss pm,
          targets-broadcast rt key exclude (suc n) ss built.0,
        ))
]

-- Storing an attachment twice is storing it once.
pub store_twice :
    (ws : ℕ) (att : WsAttachment) (sockets : List Socket)
    → store ws att (store ws att sockets) ≡ store ws att sockets
unfolding store
store_twice ws att [] = refl
store_twice ws att (s ∷ ss) = ground (arith, store_twice ws att ss)
