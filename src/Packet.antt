-- ===== src/Packet.antt =====
-- src/packet.rs: the 16-byte packet header.
pub mod Header
use easytier_wsrelay.Base.{
  ℕ, ◌<◌, ◌^◌, List, [], ◌∷◌, ◌++◌, Option, none, some, length, get_or, take, replicate, ltb, Text,
  if◌then◌else◌,
}
use easytier_wsrelay.Base.Words.{to_le_bytes, from_le_bytes}
use easytier_wsrelay.Constants.{PacketType, to_u8, from_u8, header_size, my_peer_id}

pub record PacketHeader : Type 0 where
  pub from_peer_id : ℕ
  pub to_peer_id : ℕ
  pub packet_type : ℕ
  pub flags : ℕ
  pub forward_counter : ℕ
  pub reserved : ℕ
  pub len : ℕ

-- The first sixteen bytes, which the source reads by index from a slice of that length.
read_header : Text → PacketHeader
read_header b = record {
  from_peer_id = from_le_bytes (get_or b 0 0) (get_or b 1 0) (get_or b 2 0) (get_or b 3 0);
  to_peer_id = from_le_bytes (get_or b 4 0) (get_or b 5 0) (get_or b 6 0) (get_or b 7 0);
  packet_type = get_or b 8 0;
  flags = get_or b 9 0;
  forward_counter = get_or b 10 0;
  reserved = get_or b 11 0;
  len = from_le_bytes (get_or b 12 0) (get_or b 13 0) (get_or b 14 0) (get_or b 15 0);
}

-- `PacketHeader::from_bytes`.
unfoldable pub from_bytes : Text → Option PacketHeader
unfolding read_header from_le_bytes
from_bytes bytes =
    if ltb (length bytes) header_size then none else some (read_header (take header_size bytes))

-- `PacketHeader::to_bytes`. The writes by position fill the buffer from its start to its end.
unfoldable pub to_bytes : PacketHeader → Text
unfolding to_le_bytes
to_bytes h =
    to_le_bytes h.from_peer_id
    ++ to_le_bytes h.to_peer_id
    ++ (h.packet_type ∷ h.flags ∷ h.forward_counter ∷ h.reserved ∷ [])
    ++ to_le_bytes h.len

unfoldable pub packet_type_enum : PacketHeader → PacketType
packet_type_enum h = from_u8 h.packet_type

unfoldable pub parse_header : Text → Option PacketHeader
unfolding from_bytes
parse_header bytes = from_bytes bytes

unfoldable pub create_header : ℕ → ℕ → PacketType → ℕ → Text
create_header from to t payload_len = to_bytes (record {
  from_peer_id = from;
  to_peer_id = to;
  packet_type = to_u8 t;
  flags = 0;
  forward_counter = 1;
  reserved = 0;
  len = payload_len;
})

unfoldable pub create_server_header : ℕ → PacketType → ℕ → Text
unfolding create_header
create_server_header to t payload_len = create_header my_peer_id to t payload_len
