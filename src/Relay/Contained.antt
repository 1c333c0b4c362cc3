-- ===== src/Relay/Contained.antt =====
-- The handlers of src/relay_room.rs, one by one: each stays in the group of its sender.
use easytier_wsrelay.Base.{
  ℕ, List, [], ◌∷◌, some, Bool, true, false, Text, ◌==◌, ◌≡◌, ◌≢◌, ◌⊎◌, refl, ap, ◌∙◌, arith,
  All-imp, text_eq, Bool-cases, inl, inr,
}
use easytier_wsrelay.Packet.{PacketHeader}
use easytier_wsrelay.Handlers.{HandshakeOutcome, handle_ping}
use easytier_wsrelay.Rpc.{RpcState, handle_rpc_req}
use easytier_wsrelay.Rpc.Isolation.{
  handle_rpc_req-Steps, handle_rpc_req-center, handle_rpc_resp-Steps,
}
use easytier_wsrelay.Rpc.Answers.{handle_rpc_req-IsAnswer}
use easytier_wsrelay.Route.Steps.{Steps-Stays}
use easytier_wsrelay.Relay.Room.{
  WsAttachment, Slot, broken, vacant, stored, attachment, Socket, Room, Effect, sent, closed,
  Runtime, attachment_to_ctx, slot_of, store,
}
use easytier_wsrelay.Relay.Delivery.{HasSocket, IsNear, IsTarget, forward_message-IsSentTo}
use easytier_wsrelay.Relay.Joining.{is_listed, is_listed-store, slot_of-store}
use easytier_wsrelay.Relay.Message.{
  Handled, with_manager, join, joined_attachment, announce, welcome, local_rpc_req, local_rpc_resp,
  on_ping, forward,
}
use easytier_wsrelay.Relay.Slots.{sockets-perform_all}
use easytier_wsrelay.Relay.Confined.{
  IsNearKey, Reaches, Confined, still-Confined, append-Confined, HasSocket-imp, send-Reaches,
  with_manager-Confined, perform_all-Confined, announce-Confined, join-Stays,
}

-- The group that a slot's attachment names.
abbrev pub group_of : Slot → Text
group_of broken = []
group_of vacant = []
group_of (stored att) = att.group_key

pub slot_of-store_other :
    (ws w : ℕ) (att : WsAttachment) (sockets : List Socket)
    → w ≢ ws
    → slot_of w (store ws att sockets) ≡ slot_of w sockets
unfolding slot_of store
slot_of-store_other ws w att [] n = refl
slot_of-store_other ws w att (s ∷ ss) n = ground (arith, n, slot_of-store_other ws w att ss n)

HasSocket-store :
    (P : WsAttachment → Type 0) (ws w : ℕ) (att : WsAttachment) (sockets : List Socket)
    → HasSocket P w (store ws att sockets)
    → (w ≡ ws) ⊎ HasSocket P w sockets
unfolding store
HasSocket-store P ws w att [] h = absurd h
HasSocket-store P ws w att (s ∷ ss) h = elim (Bool-cases (s.id == ws)) [
  | inl t ↦ elim (rw t at h) [
    | inl k ↦ inl (ground (arith, k.0, t))
    | inr k ↦ later (HasSocket-store P ws w att ss k)
  ]
  | inr f ↦ elim (rw f at h) [
    | inl k ↦ inr (inl k)
    | inr k ↦ later (HasSocket-store P ws w att ss k)
  ]
]
  where
    later : (w ≡ ws) ⊎ HasSocket P w ss → (w ≡ ws) ⊎ HasSocket P w (s ∷ ss)
    later (inl e) = inl e
    later (inr k) = inr (inr k)

Reaches-store :
    (ws : ℕ) (key : Text) (att : WsAttachment) (sockets : List Socket) (e : Effect)
    → Reaches ws key (store ws att sockets) e
    → Reaches ws key sockets e
Reaches-store ws key att sockets (sent w bytes) (inl h) = inl h
Reaches-store ws key att sockets (sent w bytes) (inr h) =
    HasSocket-store (IsNearKey key) ws w att sockets h
Reaches-store ws key att sockets (closed w) h = h

-- What the handler of a packet leaves, where the sender is listed.
pub record IsContained (ws : ℕ) (before : Room) (r : Handled) : Type 0 where
  pub confined : Confined ws r.att.group_key before r.room r.effects
  pub named : group_of (slot_of ws r.room.sockets) ≡ r.att.group_key
  pub listed : is_listed ws r.room.sockets ≡ true

module _ (rt : Runtime) (ws : ℕ) where
  -- Where the sockets and the sender's attachment stay.
  pub still-IsContained :
      (before next : Room) (att : WsAttachment) (effects : List Effect) (ok : Bool)
      → next.sockets ≡ before.sockets
      → group_of (slot_of ws before.sockets) ≡ att.group_key
      → is_listed ws before.sockets ≡ true
      → Confined ws att.group_key before next effects
      → IsContained ws before (record { room = next; effects = effects; att = att; ok = ok })
  still-IsContained before next att effects ok same g l c = record {
    confined = c;
    named = rw same g;
    listed = rw same l;
  }

  module _ (att : WsAttachment) (room : Room)
      (g : group_of (slot_of ws room.sockets) ≡ att.group_key)
      (l : is_listed ws room.sockets ≡ true) where
    pub local_rpc_req-IsContained :
        (payload : Text) → IsContained ws room (local_rpc_req rt ws payload att room)
    unfolding local_rpc_req attachment_to_ctx
    local_rpc_req-IsContained payload =
        let s : RpcState = record {
          ctx = attachment_to_ctx (rt.env.session_id 0) att;
          peer_manager = room.global.peer_manager;
          peer_center_map = room.global.peer_center_map;
        } in
        let r = handle_rpc_req rt.ext rt.env payload s in
        let answered = record room {
          global = record room.global {
            peer_manager = r.0.peer_manager;
            peer_center_map = r.0.peer_center_map;
          };
        } in
        let handled : Confined ws att.group_key room answered [] = record {
          routes =
              Steps-Stays rt.ext rt.env att.group_key _ _
                (handle_rpc_req-Steps rt.ext rt.env payload s);
          centers = handle_rpc_req-center rt.ext rt.env payload s;
          others = λ w n. refl;
          reached = tt;
        } in
        still-IsContained room _ att _ _ (sockets-perform_all rt ws att r.1 answered) g l (
          append-Confined ws att.group_key room answered _ [] _ refl handled (
            perform_all-Confined rt ws payload att.peer_id att r.1 answered
              (handle_rpc_req-IsAnswer rt.ext rt.env payload s)))

    pub local_rpc_resp-IsContained :
        (h : PacketHeader) (payload : Text)
        → IsContained ws room (local_rpc_resp rt h payload att room)
    unfolding local_rpc_resp attachment_to_ctx with_manager
    local_rpc_resp-IsContained h payload = still-IsContained room _ att [] true refl g l (
        with_manager-Confined rt ws att.group_key room _ []
          (handle_rpc_resp-Steps rt.ext rt.env (attachment_to_ctx (rt.env.session_id 0) att)
            h.from_peer_id payload room.global.peer_manager)
          tt)

    pub on_ping-IsContained :
        (h : PacketHeader) (payload : Text) → IsContained ws room (on_ping rt ws h payload att room)
    unfolding on_ping
    on_ping-IsContained h payload = still-IsContained room room att _ _ refl g l (
        still-Confined ws att.group_key room _ (
          send-Reaches rt ws att.group_key room.sockets
            (some (handle_ping h.from_peer_id payload))))

    pub forward-IsContained :
        (h : PacketHeader) (bytes : Text)
        → ((x : WsAttachment)
            → IsNear (attachment (slot_of ws room.sockets)) x
            → IsNearKey att.group_key x)
        → IsContained ws room (forward rt ws h bytes att room)
    unfolding forward
    forward-IsContained h bytes near =
        let src = attachment (slot_of ws room.sockets) in
        still-IsContained room room att _ _ refl g l (
          still-Confined ws att.group_key room _
            (elim (forward_message-IsSentTo rt src h.to_peer_id bytes room.sockets) [
              | inl e ↦ rw e tt
              | inr (w, e, found) ↦ rw e (
                inr (
                    HasSocket-imp (IsTarget src h.to_peer_id) (IsNearKey att.group_key)
                      (λ x t. near x t.1) w room.sockets found),
                tt,
              )
            ]))

  pub welcome-IsContained :
      (o : HandshakeOutcome) (att : WsAttachment) (room : Room)
      → group_of (slot_of ws room.sockets) ≡ att.group_key
      → is_listed ws room.sockets ≡ true
      → IsContained ws room (welcome rt ws o att room)
  unfolding welcome joined_attachment with_manager announce
  welcome-IsContained o att room g l =
      let att' = joined_attachment o att in
      let stored_room = record room { sockets = store ws att' room.sockets } in
      let joined = with_manager (join rt o room.global.peer_manager) stored_room in
      let entered : Confined ws o.group_key room joined [] = record {
        routes = join-Stays rt ws o room.global.peer_manager;
        centers = λ other e. refl;
        others = λ w n. slot_of-store_other ws w att' room.sockets n;
        reached = tt;
      } in
      let told = announce-Confined rt ws att' joined in
      let is_named = ap group_of (slot_of-store ws att' room.sockets l) in
      let is_there = is_listed-store ws att' room.sockets ∙ l in
      elim (Bool-cases (rt.storable att')) [
        | inr n ↦
            rw (n, welcome)
              (still-IsContained room room att [] false refl g l
                (still-Confined ws att.group_key room [] tt))
        | inl s ↦ elim (Bool-cases (rt.sendable ws)) [
          | inr f ↦
              rw (s, f, welcome)
                (record { confined = entered; named = is_named; listed = is_there })
          | inl t ↦
              rw (s, t, welcome)
                (record {
                  confined = record {
                    routes = λ other e. told.routes other e ∙ entered.routes other e;
                    centers = told.centers;
                    others = λ w n. told.others w n ∙ entered.others w n;
                    reached = (
                      inl refl,
                      All-imp (Reaches-store ws o.group_key att' room.sockets) _ told.reached,
                    );
                  };
                  named = is_named;
                  listed = is_there;
                })
        ]
      ]
