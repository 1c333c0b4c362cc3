-- ===== src/Relay/Lifecycle.antt =====
-- src/relay_room.rs: a room's creation, new sockets, closed ones and the alarm.
use easytier_wsrelay.Base.{
  ℕ, suc, ◌+◌, List, [], ◌∷◌, ◌++◌, Option, none, some, Bool, true, false, not, ◌||◌, ◌&&◌, Text,
  codes, ltb, ◌==◌, text_beq, if◌then◌else◌,
}
use easytier_wsrelay.Base.BTreeSet
use easytier_wsrelay.Http.{Request, Response, error, switching, failed, is_websocket}
use easytier_wsrelay.Proto.Ambient.{Ambient}
use easytier_wsrelay.PeerManager.{GlobalState, PeerManager}
use easytier_wsrelay.PeerManager
use easytier_wsrelay.Relay.Room.{
  WsAttachment, Slot, vacant, stored, attachment, Socket, Room, Effect, closed, Runtime, Outcome,
  attachment_to_ctx, elapsed_ms, cleanup_interval_ms, socket_timeout_ms, stale_p2p_threshold_ms,
}
use easytier_wsrelay.Relay.Broadcast.{broadcast}
use easytier_wsrelay.Relay.Message.{with_manager}

-- `RelayRoom::new`: every peer with a socket is in the global state.
unfoldable pub restore_peers : Ambient → List Socket → PeerManager → PeerManager
restore_peers env [] pm = pm
restore_peers env (s ∷ ss) pm = restore_peers env ss (elim (attachment s.slot) [
  | none ↦ pm
  | some att ↦
      if not (att.peer_id == 0)
        && not (BTreeSet.contains att.peer_id (PeerManager.list_peer_ids_in_group att.group_key pm))
      then PeerManager.add_peer env att.group_key att.peer_id pm
      else pm
])

unfoldable pub new : Ambient → Room → Room
unfolding with_manager
new env room = with_manager (restore_peers env room.sockets room.global.peer_manager) room

-- `schedule_cleanup_alarm`; where the storage fails nothing is set.
unfoldable pub schedule_cleanup_alarm : Runtime → Room → Room
schedule_cleanup_alarm rt room = elim room.alarm [
  | some existing ↦ room
  | none ↦
      if rt.storage_works
      then record room { alarm = some (rt.env.now_ms + cleanup_interval_ms) }
      else room
]

-- The attachment of a new socket.
unfoldable pub new_attachment : Ambient → WsAttachment
new_attachment env = record {
  peer_id = 0;
  group_key = [];
  domain_name = [];
  server_session_id = env.session_id 0;
  we_are_initiator = false;
  last_seen_ms = env.now_ms;
}

abbrev pub listed_with : ℕ → Slot → Room → Room
listed_with ws slot room = record room {
  sockets = room.sockets ++ record { id = ws; slot = slot } ∷ [];
}

-- The accepting part of `fetch`, for an upgrade to a web socket: `ws` is the server's end. Where its
-- attachment cannot be stored, the socket is accepted already, and has none.
unfoldable pub accept : Runtime → ℕ → Room → Room
unfolding schedule_cleanup_alarm new_attachment
accept rt ws room =
    if rt.storable (new_attachment rt.env)
    then schedule_cleanup_alarm rt (listed_with ws (stored (new_attachment rt.env)) room)
    else listed_with ws vacant room

-- `fetch`. `pair` is the server's end of the new socket pair, `none` where making one fails.
unfoldable pub fetch : Runtime → Option ℕ → Request → Room → Room × Response
unfolding accept
fetch rt pair req room = elim req.url [
  | none ↦ (room, failed)
  | some url ↦ elim req.upgrade [
    | none ↦ (room, failed)
    | some upgrade ↦ elim (is_websocket upgrade) [
      | false ↦ (room, error (codes "Expected websocket") 400)
      | true ↦ elim pair [
        | none ↦ (room, failed)
        | some ws ↦
            (accept rt ws room, if rt.storable (new_attachment rt.env) then switching else failed)
      ]
    ]
  ]
]

-- Another socket of the peer, by the session id that is drawn for each socket.
unfoldable pub has_other_connection : WsAttachment → List Socket → Bool
has_other_connection att [] = false
has_other_connection att (s ∷ ss) =
    elim (attachment s.slot) [
      | none ↦ false
      | some other ↦
          other.peer_id == att.peer_id
          && not (text_beq other.server_session_id att.server_session_id)
    ]
    || has_other_connection att ss

-- `websocket_close` and `websocket_error` share this body. `slot` is what the closing socket's
-- attachment reads as.
unfoldable pub websocket_close : Runtime → Slot → Room → Outcome
websocket_close rt slot room = elim (attachment slot) [
  | none ↦ record { room = room; effects = []; ok = true }
  | some att ↦
      let removed =
        PeerManager.remove_peer rt.env (attachment_to_ctx (rt.env.session_id 0) att)
          room.global.peer_manager in
      let r = broadcast rt att.group_key att.peer_id 1 room.sockets removed.0 in
      if att.peer_id == 0 || has_other_connection att room.sockets
      then record { room = room; effects = []; ok = true }
      else record { room = with_manager r.0 room; effects = r.1; ok = true }
]

-- What the first loop of `alarm` counts and collects.
pub record Sweep : Type 0 where
  pub effects : List Effect
  pub alive_count : ℕ
  pub group_keys : List Text

-- Whether the socket of an attachment has timed out.
unfoldable pub is_dead : ℕ → WsAttachment → Bool
is_dead now att = ltb 0 att.last_seen_ms && ltb socket_timeout_ms (elapsed_ms now att.last_seen_ms)

-- The lexicographic order of the keys, as `BTreeSet<String>` keeps them.
unfoldable pub text_ltb : Text → Text → Bool
text_ltb xs [] = false
text_ltb [] (y ∷ ys) = true
text_ltb (x ∷ xs) (y ∷ ys) = ltb x y || (x == y && text_ltb xs ys)

unfoldable pub insert_key : Text → List Text → List Text
unfolding text_ltb
insert_key k [] = k ∷ []
insert_key k (x ∷ xs) =
    if text_ltb k x then k ∷ x ∷ xs else if text_beq k x then x ∷ xs else x ∷ insert_key k xs

unfoldable pub sweep : ℕ → List Socket → Sweep
unfolding insert_key is_dead
sweep now [] = record { effects = []; alive_count = 0; group_keys = [] }
sweep now (s ∷ ss) =
    let rest = sweep now ss in
    elim (attachment s.slot) [
      | none ↦ record rest { alive_count = suc rest.alive_count }
      | some att ↦
          if is_dead now att
          then record rest { effects = closed s.id ∷ rest.effects }
          else record rest {
            alive_count = suc rest.alive_count;
            group_keys =
                if ltb 0 att.last_seen_ms && not (text_beq att.group_key [])
                then insert_key att.group_key rest.group_keys
                else rest.group_keys;
          }
    ]

unfoldable pub clean_groups : Ambient → List Text → PeerManager → PeerManager
clean_groups env [] pm = pm
clean_groups env (k ∷ ks) pm =
    clean_groups env ks (PeerManager.cleanup_stale_peer_connections env k stale_p2p_threshold_ms pm)

-- The periodic refresh of each group. Each broadcast takes its own draws, apart by `stride`.
unfoldable pub refresh_groups :
    Runtime → ℕ → ℕ → List Text → List Socket → PeerManager → PeerManager × List Effect
refresh_groups rt stride n [] sockets pm = (pm, [])
refresh_groups rt stride n (k ∷ ks) sockets pm =
    let r = broadcast rt k 0 n sockets pm in
    let rest = refresh_groups rt stride (n + stride) ks sockets r.0 in (rest.0, r.1 ++ rest.1)

abbrev pub count : List Socket → ℕ
count [] = 0
count (s ∷ ss) = suc (count ss)

unfoldable pub alarm : Runtime → Room → Outcome
unfolding schedule_cleanup_alarm sweep clean_groups refresh_groups
alarm rt room =
    let w = sweep rt.env.now_ms room.sockets in
    let armed = schedule_cleanup_alarm rt room in
    let cleaned = clean_groups rt.env w.group_keys room.global.peer_manager in
    let r = refresh_groups rt (count room.sockets) 0 w.group_keys room.sockets cleaned in
    if w.alive_count == 0
    then record { room = room; effects = w.effects; ok = true }
    else record { room = with_manager r.0 armed; effects = w.effects ++ r.1; ok = true }
