-- ===== src/Relay/Confined.antt =====
-- What the calls and actions behind a message change and send, in src/relay_room.rs: they stay in
-- one group.
use easytier_wsrelay.Base.{
  ℕ, List, [], ◌∷◌, ◌++◌, Option, none, some, true, Text, ◌≡◌, ◌≢◌, ◌⊎◌, refl, sym, ◌∙◌, All,
  All-imp, All-append, text_eq, Bool-cases, inl, inr,
}
use mathlib.Core.Path.{subst}
use easytier_wsrelay.Route.Peers
use easytier_wsrelay.Route.Invariant.Reach.{bumps, updates}
use easytier_wsrelay.Route.Steps.{
  Steps, done, after, append-Steps, Steps-Stays, SameBut, Stays, put-Stays,
}
use easytier_wsrelay.PeerManager.{PeerManager}
use easytier_wsrelay.PeerManager
use easytier_wsrelay.Handlers.{HandshakeOutcome}
use easytier_wsrelay.Rpc.{RpcAction, send_to, push_route_update, broadcast_route_update, no_action}
use easytier_wsrelay.Rpc.Answers.{IsAnswer}
use easytier_wsrelay.Relay.Room.{
  WsAttachment, attachment, Socket, Room, Effect, sent, closed, Runtime, attachment_to_ctx, slot_of,
}
use easytier_wsrelay.Relay.Broadcast.{broadcast}
use easytier_wsrelay.Relay.Delivery.{
  Holds, HasSocket, IsSentTo, IsMember, broadcast-IsSentTo, broadcast-Steps,
  build_route_update-Steps,
}
use easytier_wsrelay.Relay.Message.{with_manager, join, announce, send, perform, perform_all}
use easytier_wsrelay.Relay.Slots.{sockets-perform}

-- Not of another known group.
abbrev pub IsNearKey : Text → WsAttachment → Type 0
IsNearKey key att = (key ≡ []) ⊎ ((att.group_key ≡ []) ⊎ (key ≡ att.group_key))

-- The effect is on the socket `ws`, or a message to a listed one that is not of another known group.
abbrev pub Reaches : ℕ → Text → List Socket → Effect → Type 0
Reaches ws key sockets (sent w bytes) = (w ≡ ws) ⊎ HasSocket (IsNearKey key) w sockets
Reaches ws key sockets (closed w) = w ≡ ws

-- From one room to another, only the group `key` and the attachment of `ws` change, and the
-- effects reach `ws` and sockets that are not of another known group.
pub record Confined (ws : ℕ) (key : Text) (before next : Room) (effects : List Effect)
    : Type 0 where
  pub routes : Stays key before.global.peer_manager next.global.peer_manager
  pub centers : SameBut key before.global.peer_center_map next.global.peer_center_map
  pub others : (w : ℕ) → w ≢ ws → slot_of w next.sockets ≡ slot_of w before.sockets
  pub reached : All (Reaches ws key before.sockets) effects

-- Where the room stays.
pub still-Confined :
    (ws : ℕ) (key : Text) (room : Room) (effects : List Effect)
    → All (Reaches ws key room.sockets) effects
    → Confined ws key room room effects
still-Confined ws key room effects r = record {
  routes = λ other o. refl;
  centers = λ other o. refl;
  others = λ w n. refl;
  reached = r;
}

pub append-Confined :
    (ws : ℕ) (key : Text) (a b c : Room) (es fs : List Effect)
    → b.sockets ≡ a.sockets
    → Confined ws key a b es
    → Confined ws key b c fs
    → Confined ws key a c (es ++ fs)
append-Confined ws key a b c es fs same p q = record {
  routes = λ other o. q.routes other o ∙ p.routes other o;
  centers = λ other o. q.centers other o ∙ p.centers other o;
  others = λ w n. q.others w n ∙ p.others w n;
  reached =
      All-append (Reaches ws key a.sockets) es fs p.reached
        (subst (λ ss. All (Reaches ws key ss) fs) same q.reached);
}

pub HasSocket-imp :
    (P Q : WsAttachment → Type 0)
    → ((att : WsAttachment) → P att → Q att)
    → (w : ℕ) (sockets : List Socket) → HasSocket P w sockets
    → HasSocket Q w sockets
HasSocket-imp P Q f w [] h = h
HasSocket-imp P Q f w (s ∷ ss) (inl h) = inl (h.0, Holds-imp (attachment s.slot) h.1)
  where
    Holds-imp : (o : Option WsAttachment) → Holds P o → Holds Q o
    Holds-imp none k = k
    Holds-imp (some att) k = f att k
HasSocket-imp P Q f w (s ∷ ss) (inr h) = inr (HasSocket-imp P Q f w ss h)

IsSentTo-Reaches :
    (ws : ℕ) (key : Text) (exclude : ℕ) (sockets : List Socket) (e : Effect)
    → IsSentTo (IsMember key exclude) sockets e
    → Reaches ws key sockets e
IsSentTo-Reaches ws key exclude sockets (sent w bytes) h = inr (
    HasSocket-imp (IsMember key exclude) (IsNearKey key) (λ att m. inr (inr (sym m.0))) w sockets h)
IsSentTo-Reaches ws key exclude sockets (closed w) h = absurd h

module _ (rt : Runtime) (ws : ℕ) where
  pub broadcast-Reaches :
      (key : Text) (exclude n : ℕ) (sockets : List Socket) (pm : PeerManager)
      → All (Reaches ws key sockets) (broadcast rt key exclude n sockets pm).1
  broadcast-Reaches key exclude n sockets pm =
      All-imp (IsSentTo-Reaches ws key exclude sockets) _
        (broadcast-IsSentTo rt key exclude n sockets pm)

  pub send-Reaches :
      (key : Text) (sockets : List Socket) (bytes : Option Text)
      → All (Reaches ws key sockets) (send rt ws bytes).0
  unfolding send
  send-Reaches key sockets none = tt
  send-Reaches key sockets (some bytes) = elim (Bool-cases (rt.sendable ws)) [
    | inl t ↦ rw t (inl refl, tt)
    | inr f ↦ rw f tt
  ]

  -- A step of the routes alone.
  pub with_manager-Confined :
      (key : Text) (room : Room) (pm : PeerManager) (effects : List Effect)
      → Steps rt.ext rt.env key room.global.peer_manager pm
      → All (Reaches ws key room.sockets) effects
      → Confined ws key room (with_manager pm room) effects
  unfolding with_manager
  with_manager-Confined key room pm effects p r = record {
    routes = Steps-Stays rt.ext rt.env key _ pm p;
    centers = λ other o. refl;
    others = λ w n. refl;
    reached = r;
  }

  module _ (payload : Text) (p : ℕ) (att : WsAttachment) where
    perform-Confined :
        (a : RpcAction) (room : Room)
        → IsAnswer rt.ext payload p att.group_key a
        → let r = perform rt ws att a room in Confined ws att.group_key room r.0 r.1
    unfolding perform attachment_to_ctx
    perform-Confined (send_to q bytes) room h =
        still-Confined ws att.group_key room _ (send-Reaches att.group_key room.sockets _)
    perform-Confined (push_route_update q k) room h =
        with_manager-Confined att.group_key room _ _
          (build_route_update-Steps rt.ext rt.env (attachment_to_ctx (rt.env.session_id 1) att) q
            true (rt.env.transaction 0) room.global.peer_manager)
          (send-Reaches att.group_key room.sockets _)
    perform-Confined (broadcast_route_update k q) room h =
        let pm = room.global.peer_manager in
        let at_key : (key : Text)
            → let r = broadcast rt key q 2 room.sockets pm in
              Confined ws key room (with_manager r.0 room) r.1 =
          λ key.
            with_manager-Confined key room _ _ (broadcast-Steps rt key q 2 room.sockets pm)
              (broadcast-Reaches key q 2 room.sockets pm) in
        subst
          (λ key.
            let r = broadcast rt k q 2 room.sockets pm in
            Confined ws key room (with_manager r.0 room) r.1)
          h.1 (at_key k)
    perform-Confined no_action room h = still-Confined ws att.group_key room [] tt

    pub perform_all-Confined :
        (actions : List RpcAction) (room : Room)
        → All (IsAnswer rt.ext payload p att.group_key) actions
        → let r = perform_all rt ws att actions room in Confined ws att.group_key room r.0 r.1
    unfolding perform_all
    perform_all-Confined [] room h = still-Confined ws att.group_key room [] tt
    perform_all-Confined (a ∷ more) room h =
        let one = perform rt ws att a room in
        let first = perform-Confined a room h.0 in
        elim (Bool-cases one.2) [
          | inr f ↦ rw (f, perform_all) first
          | inl t ↦
              rw (t, perform_all)
                (append-Confined ws att.group_key room one.0 _ one.1 _
                  (sockets-perform rt ws att a room) first (perform_all-Confined more one.0 h.1))
        ]

  pub announce-Confined :
      (att : WsAttachment) (room : Room)
      → let r = announce rt att room in Confined ws att.group_key room r.0 r.1
  unfolding announce attachment_to_ctx
  announce-Confined att room =
      let pm = room.global.peer_manager in
      let own =
        PeerManager.build_route_update rt.ext rt.env (attachment_to_ctx (rt.env.session_id 0) att)
          att.peer_id true (rt.env.transaction 0) pm in
      with_manager-Confined att.group_key room _ _
        (append-Steps rt.ext rt.env att.group_key pm own.0 _
          (build_route_update-Steps rt.ext rt.env (attachment_to_ctx (rt.env.session_id 0) att)
            att.peer_id true (rt.env.transaction 0) pm)
          (broadcast-Steps rt att.group_key 0 1 room.sockets own.0))
        (broadcast-Reaches att.group_key 0 1 room.sockets own.0)

  pub join-Stays : (o : HandshakeOutcome) (pm : PeerManager) → Stays o.group_key pm (join rt o pm)
  unfolding join PeerManager.add_peer PeerManager.update_peer_info Peers.add_peer
  join-Stays o pm =
      let added = Peers.add_peer rt.env o.group_key o.peer_id pm in
      λ other h.
        Steps-Stays rt.ext rt.env o.group_key added _
          (after _ _ (after _ _ (after added _ done bumps) (updates o.peer_id _)) bumps) other h
        ∙ put-Stays rt.ext rt.env o.group_key pm _ other h
