-- ===== src/Relay/Broadcast.antt =====
-- src/relay_room.rs: forwarding to one peer, and the route update to a group.
use easytier_wsrelay.Base.{
  ℕ, suc, List, [], ◌∷◌, ◌++◌, Option, none, some, Bool, true, false, not, ◌&&◌, Text, length, ◌==◌,
  text_beq, if◌then◌else◌,
}
use easytier_wsrelay.Base.Words.{wrap32}
use easytier_wsrelay.Constants.{my_peer_id, rpc_req}
use easytier_wsrelay.Packet.{create_header}
use easytier_wsrelay.PeerManager.{PeerManager, build_route_update}
use easytier_wsrelay.Relay.Room.{
  WsAttachment, attachment, Socket, Effect, sent, Runtime, attachment_to_ctx,
}

-- `att.peer_id == exclude || att.group_key != group_key`, negated.
unfoldable pub is_addressed : Text → ℕ → WsAttachment → Bool
is_addressed group_key exclude att =
    not (att.peer_id == exclude) && text_beq att.group_key group_key

unfoldable pub update_packet : ℕ → Text → Text
update_packet peer_id rpc_bytes =
    create_header my_peer_id peer_id rpc_req (wrap32 (length rpc_bytes)) ++ rpc_bytes

-- `broadcast_route_update`: the loop over the sockets, from the n-th draw. A failed send is logged
-- and passed over.
unfoldable pub broadcast :
    Runtime → Text → ℕ → ℕ → List Socket → PeerManager → PeerManager × List Effect
broadcast rt group_key exclude n [] pm = (pm, [])
broadcast rt group_key exclude n (s ∷ ss) pm = elim (attachment s.slot) [
  | none ↦ broadcast rt group_key exclude (suc n) ss pm
  | some att ↦
      let ctx = attachment_to_ctx (rt.env.session_id n) att in
      let r = build_route_update rt.ext rt.env ctx att.peer_id true (rt.env.transaction n) pm in
      let served = broadcast rt group_key exclude (suc n) ss r.0 in
      let passed = broadcast rt group_key exclude (suc n) ss pm in
      elim (is_addressed group_key exclude att) [
        | false ↦ passed
        | true ↦ (
          served.0,
          if rt.sendable s.id
              then sent s.id (update_packet att.peer_id r.1) ∷ served.1
              else served.1,
        )
      ]
]

-- Both groups are known and differ.
unfoldable pub is_foreign : Option WsAttachment → WsAttachment → Bool
is_foreign none target = false
is_foreign (some src) target =
    not (text_beq src.group_key [])
    && (not (text_beq target.group_key []) && not (text_beq src.group_key target.group_key))

-- The first socket of the target peer decides.
unfoldable pub find_peer : ℕ → List Socket → Option (ℕ × WsAttachment)
find_peer target [] = none
find_peer target (s ∷ ss) =
    let rest = find_peer target ss in
    elim (attachment s.slot) [
      | none ↦ rest
      | some att ↦ if att.peer_id == target then some (s.id, att) else rest
    ]

-- `forward_message` from a source with the given stored attachment: the effects, and whether it
-- returns `Ok`.
unfoldable pub forward_message :
    Runtime → Option WsAttachment → ℕ → Text → List Socket → List Effect × Bool
forward_message rt src target message sockets = elim (find_peer target sockets) [
  | none ↦ ([], true)
  | some (ws, att) ↦
      if is_foreign src att
      then ([], true)
      else if rt.sendable ws
      then (sent ws message ∷ [], true)
      else ([], false)
]
