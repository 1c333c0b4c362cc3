-- ===== src/Packet/Header.antt =====
-- The header codec of src/packet.rs, both ways.
use easytier_wsrelay.Base.{
  ℕ, ◌≤◌, ◌<◌, ◌^◌, ◌%◌, ◌/◌, ◌∷◌, ◌++◌, none, some, length, take, Text, All, ◌≡◌, refl, arith,
  option_map,
}
use easytier_wsrelay.Base.Words.{from_le_bytes}
use easytier_wsrelay.Constants.{PacketType, to_u8, from_u8-to_u8, to_u8-lt}
use easytier_wsrelay.Packet.{
  PacketHeader, from_bytes, to_bytes, create_header, packet_type_enum, parse_header,
}

-- The widths of the fields: `u32` and `u8`.
pub record InRange (h : PacketHeader) : Type 0 where
  pub from_fits : h.from_peer_id < 2 ^ 32
  pub to_fits : h.to_peer_id < 2 ^ 32
  pub type_fits : h.packet_type < 256
  pub flags_fit : h.flags < 256
  pub counter_fits : h.forward_counter < 256
  pub reserved_fits : h.reserved < 256
  pub len_fits : h.len < 2 ^ 32

abbrev pub IsByte : ℕ → Type 0
IsByte b = b < 256

from_le_bytes-to_le_bytes :
    (n : ℕ)
    → n < 2 ^ 32
    → from_le_bytes (n % 256) (n / 256 % 256) (n / 65536 % 256) (n / 16777216 % 256) ≡ n
unfolding from_le_bytes
from_le_bytes-to_le_bytes n h = omega arith

-- A header within its widths, followed by any payload, is read back unchanged.
pub from_bytes-to_bytes :
    (h : PacketHeader) (rest : Text) → InRange h → from_bytes (to_bytes h ++ rest) ≡ some h
unfolding from_bytes to_bytes
from_bytes-to_bytes h rest r = ground (
  arith,
  from_le_bytes-to_le_bytes h.from_peer_id,
  from_le_bytes-to_le_bytes h.to_peer_id,
  from_le_bytes-to_le_bytes h.len,
)

-- The header is sixteen bytes long.
pub length-to_bytes : (h : PacketHeader) → length (to_bytes h) ≡ 16
unfolding to_bytes
length-to_bytes h = refl

-- Sixteen or more numbers below 256 are read as a header that is written back as the first sixteen
-- of them.
pub to_bytes-from_bytes :
    (bytes : Text)
    → All IsByte bytes
    → 16 ≤ length bytes
    → option_map to_bytes (from_bytes bytes) ≡ some (take 16 bytes)
unfolding from_bytes to_bytes
to_bytes-from_bytes (a ∷ b ∷ c ∷ d ∷ e ∷ f ∷ g ∷ i ∷ j ∷ k ∷ l ∷ m ∷ n ∷ o ∷ p ∷ q ∷ rest) h long =
    ground arith
to_bytes-from_bytes _ h long = absurd (omega arith)

-- Fewer bytes are no header.
pub from_bytes_short : (bytes : Text) → length bytes < 16 → from_bytes bytes ≡ none
unfolding from_bytes
from_bytes_short bytes h = ground arith

module _ (from to payload_len : ℕ) (t : PacketType) where
  -- The header that `create_header` makes of three numbers below 2 ^ 32 and a packet type parses
  -- to them, with no flags and that packet type.
  pub parse_header-create_header :
      (rest : Text)
      → from < 2 ^ 32
      → to < 2 ^ 32
      → payload_len < 2 ^ 32
      → (h : PacketHeader) × (parse_header (create_header from to t payload_len ++ rest) ≡ some h)
        × (h.from_peer_id ≡ from)
        × (h.to_peer_id ≡ to)
        × (h.len ≡ payload_len)
        × (h.flags ≡ 0)
        × (packet_type_enum h ≡ t)
  unfolding parse_header create_header packet_type_enum
  parse_header-create_header rest hf ht hl =
      (header, from_bytes-to_bytes header rest fits, refl, refl, refl, refl, from_u8-to_u8 t)
    where
      header : PacketHeader
      header = record {
        from_peer_id = from;
        to_peer_id = to;
        packet_type = to_u8 t;
        flags = 0;
        forward_counter = 1;
        reserved = 0;
        len = payload_len;
      }

      fits : InRange header
      fits = ground (arith, to_u8-lt t)
