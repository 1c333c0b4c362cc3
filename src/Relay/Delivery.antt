-- ===== src/Relay/Delivery.antt =====
-- Who is sent what by src/relay_room.rs: forwarding, the broadcast and the sweep.
use easytier_wsrelay.Base.{
  ℕ, suc, List, [], ◌∷◌, Option, none, some, Bool, true, false, Text, ◌==◌, ◌≡◌, ◌≢◌, ◌⊎◌, refl,
  sym, ap, text_beq, text_beq_iff, arith, All, All-imp, Bool-cases, Option-cases, inl, inr,
  unwrap_or, text_eq,
}
use mathlib.Core.Path.{subst}
use easytier_wsrelay.Base.HashMap
use mathlib.Core.Option.{some-injective}
use easytier_wsrelay.Proto.{Externals}
use easytier_wsrelay.Proto.Ambient.{Ambient}
use easytier_wsrelay.PeerManager.{PeerManager, WsPeerContext, build_route_update}
use easytier_wsrelay.Route.Invariant.Reach.{builds}
use easytier_wsrelay.Route.Steps.{Steps, Steps-Stays, done, after, append-Steps}
use easytier_wsrelay.Relay.Room.{
  WsAttachment, attachment, Socket, Effect, sent, closed, Runtime, attachment_to_ctx,
}
use easytier_wsrelay.Relay.Broadcast.{
  broadcast, is_addressed, is_foreign, find_peer, forward_message,
}

-- There is an attachment, with this property.
abbrev pub Holds : (WsAttachment → Type 0) → Option WsAttachment → Type 0
Holds P none = ⊥
Holds P (some att) = P att

-- Some socket of the list has this identity and an attachment with this property.
abbrev pub HasSocket : (WsAttachment → Type 0) → ℕ → List Socket → Type 0
HasSocket P ws [] = ⊥
HasSocket P ws (s ∷ ss) = ((s.id ≡ ws) × Holds P (attachment s.slot)) ⊎ HasSocket P ws ss

-- Every effect is a message to such a socket.
abbrev pub IsSentTo : (WsAttachment → Type 0) → List Socket → Effect → Type 0
IsSentTo P sockets (sent ws bytes) = HasSocket P ws sockets
IsSentTo P sockets (closed ws) = ⊥

abbrev pub IsMember : Text → ℕ → WsAttachment → Type 0
IsMember group_key exclude att = (att.group_key ≡ group_key) × (att.peer_id ≢ exclude)

pub is_addressed-IsMember :
    (group_key : Text) (exclude : ℕ) (att : WsAttachment)
    → is_addressed group_key exclude att ≡ true
    → IsMember group_key exclude att
unfolding is_addressed
is_addressed-IsMember group_key exclude att h =
    (ground (arith, h, text_beq_iff att.group_key group_key), ground (arith, h))

IsSentTo-later :
    (P : WsAttachment → Type 0) (s : Socket) (ss : List Socket) (e : Effect)
    → IsSentTo P ss e
    → IsSentTo P (s ∷ ss) e
IsSentTo-later P s ss (sent ws bytes) h = inr h
IsSentTo-later P s ss (closed ws) h = h

-- A broadcast reaches members of the group only: each message goes to a socket whose attachment
-- has the group's key and not the peer that is excluded.
pub broadcast-IsSentTo :
    (rt : Runtime) (group_key : Text) (exclude n : ℕ) (sockets : List Socket) (pm : PeerManager)
    → All
        (IsSentTo (IsMember group_key exclude) sockets)
        (broadcast rt group_key exclude n sockets pm).1
unfolding broadcast
broadcast-IsSentTo rt group_key exclude n [] pm = tt
broadcast-IsSentTo rt group_key exclude n (s ∷ ss) pm =
    let later : (q : PeerManager)
        → All (IsSentTo (IsMember group_key exclude) (s ∷ ss))
            (broadcast rt group_key exclude (suc n) ss q).1 =
      λ q.
        All-imp (IsSentTo-later (IsMember group_key exclude) s ss) _
          (broadcast-IsSentTo rt group_key exclude (suc n) ss q) in
    elim (Option-cases (attachment s.slot)) [
      | inl e ↦ rw (e, broadcast) (later pm)
      | inr (att, e) ↦
          rw (e, broadcast)
            (elim (Bool-cases (is_addressed group_key exclude att)) [
              | inr f ↦ rw f (later pm)
              | inl t ↦ rw t (elim (Bool-cases (rt.sendable s.id)) [
                | inr u ↦ rw u (later _)
                | inl u ↦ rw u (
                  inl (
                    refl,
                    subst (Holds (IsMember group_key exclude)) (sym e)
                        (is_addressed-IsMember group_key exclude att t),
                  ),
                  later _,
                )
              ])
            ])
    ]

pub build_route_update-Steps :
    (ext : Externals) (env : Ambient) (ctx : WsPeerContext) (target : ℕ) (force : Bool)
    (draw : Text) (pm : PeerManager)
    → Steps ext env ctx.group_key pm (build_route_update ext env ctx target force draw pm).0
unfolding build_route_update
build_route_update-Steps ext env ctx target force draw pm =
    after pm _ done
      (builds target (unwrap_or (ext.parse_u64 ctx.server_session_id) 0) ctx.we_are_initiator force)

-- What a broadcast changes in the routes is a sequence of calls on its group.
pub broadcast-Steps :
    (rt : Runtime) (group_key : Text) (exclude n : ℕ) (sockets : List Socket) (pm : PeerManager)
    → Steps rt.ext rt.env group_key pm (broadcast rt group_key exclude n sockets pm).0
unfolding broadcast attachment_to_ctx
broadcast-Steps rt group_key exclude n [] pm = done
broadcast-Steps rt group_key exclude n (s ∷ ss) pm = elim (Option-cases (attachment s.slot)) [
  | inl e ↦ rw (e, broadcast) (broadcast-Steps rt group_key exclude (suc n) ss pm)
  | inr (att, e) ↦
      rw (e, broadcast)
        (elim (Bool-cases (is_addressed group_key exclude att)) [
          | inr f ↦ rw f (broadcast-Steps rt group_key exclude (suc n) ss pm)
          | inl t ↦
              let ctx = attachment_to_ctx (rt.env.session_id n) att in
              let q =
                (build_route_update rt.ext rt.env ctx att.peer_id true (rt.env.transaction n)
                  pm).0 in
              rw t (
                append-Steps rt.ext rt.env group_key pm q _
                  (subst (λ k. Steps rt.ext rt.env k pm q)
                    (is_addressed-IsMember group_key exclude att t).0
                    (build_route_update-Steps rt.ext rt.env ctx att.peer_id true
                      (rt.env.transaction n) pm))
                  (broadcast-Steps rt group_key exclude (suc n) ss q))
        ])
]

-- A broadcast changes nothing of any other group.
broadcast_elsewhere :
    (rt : Runtime) (group_key : Text) (exclude n : ℕ) (sockets : List Socket) (pm : PeerManager)
    (other : Text)
    → text_beq group_key other ≡ false
    → HashMap.get other (broadcast rt group_key exclude n sockets pm).0.groups
      ≡ HashMap.get other pm.groups
broadcast_elsewhere rt group_key exclude n sockets pm other h =
    Steps-Stays rt.ext rt.env group_key pm _ (broadcast-Steps rt group_key exclude n sockets pm)
      other h

-- The sender's group is not known, or the target's is not, or they are the same.
abbrev pub IsNear : Option WsAttachment → WsAttachment → Type 0
IsNear none att = Unit
IsNear (some src) att =
    (src.group_key ≡ []) ⊎ ((att.group_key ≡ []) ⊎ (src.group_key ≡ att.group_key))

is_foreign-IsNear :
    (src : Option WsAttachment) (att : WsAttachment) → is_foreign src att ≡ false → IsNear src att
unfolding is_foreign
is_foreign-IsNear none att h = tt
is_foreign-IsNear (some src) att h = ground (
  arith,
  h,
  text_beq_iff src.group_key [],
  text_beq_iff att.group_key [],
  text_beq_iff src.group_key att.group_key,
)

-- The target of a forwarded message: the peer, and no other known group than the sender's.
abbrev pub IsTarget : Option WsAttachment → ℕ → WsAttachment → Type 0
IsTarget src target att = (att.peer_id ≡ target) × IsNear src att

find_peer-HasSocket :
    (src : Option WsAttachment) (target ws : ℕ) (att : WsAttachment) (sockets : List Socket)
    → find_peer target sockets ≡ some (ws, att)
    → is_foreign src att ≡ false
    → HasSocket (IsTarget src target) ws sockets
unfolding find_peer
find_peer-HasSocket src target ws att [] h f = absurd (ground (arith, h))
find_peer-HasSocket src target ws att (s ∷ ss) h f = elim (Option-cases (attachment s.slot)) [
  | inl e ↦ inr (find_peer-HasSocket src target ws att ss (rw (e, find_peer) at h) f)
  | inr (other, e) ↦ elim (Bool-cases (other.peer_id == target)) [
    | inr n ↦ inr (find_peer-HasSocket src target ws att ss (rw (e, find_peer, n) at h) f)
    | inl t ↦
        let found : some (s.id, other) ≡ some (ws, att) = rw (e, find_peer, t) at h in
        let same : (s.id, other) ≡ (ws, att) = some-injective _ _ found in
        inl (
          ap (λ x. x.0) same,
          subst (Holds (IsTarget src target)) (sym e) (
            ground (arith, t),
            is_foreign-IsNear src other
                (subst (λ a. is_foreign src a ≡ false) (sym (ap (λ x. x.1) same)) f),
          ),
        )
  ]
]

-- Forwarding sends the message, unchanged, at most once, and only to a socket of the target peer
-- that is not of another known group than the sender's.
pub forward_message-IsSentTo :
    (rt : Runtime) (src : Option WsAttachment) (target : ℕ) (message : Text) (sockets : List Socket)
    → let effects = (forward_message rt src target message sockets).0 in
      (effects ≡ [])
      ⊎ ((ws : ℕ) × (effects ≡ sent ws message ∷ []) × HasSocket (IsTarget src target) ws sockets)
unfolding forward_message
forward_message-IsSentTo rt src target message sockets =
    elim (Option-cases (find_peer target sockets)) [
      | inl e ↦ rw (e, forward_message) (inl refl)
      | inr ((ws, att), e) ↦
          rw (e, forward_message)
            (elim (Bool-cases (is_foreign src att)) [
              | inl t ↦ rw t (inl refl)
              | inr f ↦ rw f (elim (Bool-cases (rt.sendable ws)) [
                | inl t ↦ rw t (inr (ws, refl, find_peer-HasSocket src target ws att sockets e f))
                | inr u ↦ rw u (inl refl)
              ])
            ])
    ]
