-- ===== src/Relay/Room.antt =====
-- src/relay_room.rs: the sockets with their attachments, and what a handler sends.
use easytier_wsrelay.Base.{
  ℕ, ◌+◌, ◌-◌, ◌^◌, List, [], ◌∷◌, Option, none, some, Bool, false, Text, codes, leb, ◌==◌,
  text_beq, if◌then◌else◌,
}
use easytier_wsrelay.Proto.{Externals}
use easytier_wsrelay.Proto.Ambient.{Ambient}
use easytier_wsrelay.Crypto.Wrap.{Cipher}
use easytier_wsrelay.PeerManager.{GlobalState, WsPeerContext}

abbrev pub cleanup_interval_ms : ℕ
cleanup_interval_ms = 30_000

abbrev pub socket_timeout_ms : ℕ
socket_timeout_ms = 120_000

abbrev pub stale_p2p_threshold_ms : ℕ
stale_p2p_threshold_ms = 600_000

pub record WsAttachment : Type 0 where
  pub peer_id : ℕ
  pub group_key : Text
  pub domain_name : Text
  pub server_session_id : Text
  pub we_are_initiator : Bool
  pub last_seen_ms : ℕ

-- `WsAttachment::default()`.
abbrev pub default_attachment : WsAttachment
default_attachment = record {
  peer_id = 0;
  group_key = [];
  domain_name = [];
  server_session_id = [];
  we_are_initiator = false;
  last_seen_ms = 0;
}

-- What `deserialize_attachment` returns: `Err`, `Ok(None)` or `Ok(Some(att))`.
pub data Slot : Type 0 where
  broken : Slot
  vacant : Slot
  stored : WsAttachment → Slot

-- The pattern `Ok(Some(att))`.
abbrev pub attachment : Slot → Option WsAttachment
attachment broken = none
attachment vacant = none
attachment (stored att) = some att

-- A socket under the identity that the runtime gives it.
pub record Socket : Type 0 where
  pub id : ℕ
  pub slot : Slot

-- `sockets` is what `get_websockets` returns, and `alarm` what `get_alarm` does.
pub record Room : Type 0 where
  pub sockets : List Socket
  pub global : GlobalState
  pub alarm : Option ℕ

pub data Effect : Type 0 where
  sent : ℕ → Text → Effect
  closed : ℕ → Effect

-- What a handler calls and cannot see into: the externals, the cipher, the clock and the draws,
-- which sockets take a message (`send_with_bytes` fails on the others), and which attachments can
-- be stored (`serialize_attachment` fails on the others, as on those over the runtime's limit).
pub record Runtime : Type 0 where
  pub ext : Externals
  pub cipher : Cipher
  pub env : Ambient
  pub sendable : ℕ → Bool
  pub storable : WsAttachment → Bool
  pub storage_works : Bool

-- `ok` is false where the handler returns an `Err`.
pub record Outcome : Type 0 where
  pub room : Room
  pub effects : List Effect
  pub ok : Bool

unfoldable pub public_server : Text
public_server = codes "public_server"

-- `attachment_to_ctx`; `draw` is the random session id for an attachment without one.
unfoldable pub attachment_to_ctx : Text → WsAttachment → WsPeerContext
attachment_to_ctx draw att = record {
  peer_id = att.peer_id;
  group_key = att.group_key;
  domain_name = if text_beq att.domain_name [] then public_server else att.domain_name;
  server_session_id = if text_beq att.server_session_id [] then draw else att.server_session_id;
  we_are_initiator = att.we_are_initiator;
}

-- `ws.serialize_attachment(&att)`, where it succeeds.
unfoldable pub store : ℕ → WsAttachment → List Socket → List Socket
store ws att [] = []
store ws att (s ∷ ss) = (if s.id == ws then record s { slot = stored att } else s) ∷ store ws att ss

-- The attachment slot of a socket; a socket that the runtime does not list has none.
unfoldable pub slot_of : ℕ → List Socket → Slot
slot_of ws [] = vacant
slot_of ws (s ∷ ss) = if s.id == ws then s.slot else slot_of ws ss

-- `now.saturating_sub(last) as u64` on `i64`: a time that lies ahead becomes a huge number.
unfoldable pub elapsed_ms : ℕ → ℕ → ℕ
elapsed_ms now last = if leb last now then now - last else now + 2 ^ 64 - last
