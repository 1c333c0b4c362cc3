-- ===== src/Constants.antt =====
-- src/constants.rs: the protocol's constants and the packet types.
use Prim.Native.Nat.{ℕ, ◌<◌}
use mathlib.Core.Path.{◌≡◌, refl}
use mathlib.Core.Logic.{◌⊎◌}
use native.Mathlib.Omega.{arith}
use easytier_wsrelay.Base.{if◌then◌else◌, ◌==◌}

abbrev pub magic : ℕ
magic = 0xd1e1a5e1

abbrev pub version : ℕ
version = 1

abbrev pub my_peer_id : ℕ
my_peer_id = 10000001

abbrev pub header_size : ℕ
header_size = 16

-- `Data` is spelled `data_packet`, since `data` is reserved.
pub data PacketType : Type 0 where
  invalid data_packet hand_shake route_packet ping pong ta_rpc route rpc_req rpc_resp : PacketType
  foreign_network_packet kcp_src kcp_dst noise_handshake_msg1 noise_handshake_msg2 : PacketType
  noise_handshake_msg3 quic_src quic_dst relay_handshake relay_handshake_ack : PacketType

-- `packet_type as u8`: the discriminants of the enum.
unfoldable pub to_u8 : PacketType → ℕ
to_u8 invalid = 0
to_u8 data_packet = 1
to_u8 hand_shake = 2
to_u8 route_packet = 3
to_u8 ping = 4
to_u8 pong = 5
to_u8 ta_rpc = 6
to_u8 route = 7
to_u8 rpc_req = 8
to_u8 rpc_resp = 9
to_u8 foreign_network_packet = 10
to_u8 kcp_src = 11
to_u8 kcp_dst = 12
to_u8 noise_handshake_msg1 = 13
to_u8 noise_handshake_msg2 = 14
to_u8 noise_handshake_msg3 = 15
to_u8 quic_src = 16
to_u8 quic_dst = 17
to_u8 relay_handshake = 20
to_u8 relay_handshake_ack = 21

unfoldable pub from_u8 : ℕ → PacketType
from_u8 v =
    if v == 1
    then data_packet
    else if v == 2
    then hand_shake
    else if v == 3
    then route_packet
    else if v == 4
    then ping
    else if v == 5
    then pong
    else if v == 6
    then ta_rpc
    else if v == 7
    then route
    else if v == 8
    then rpc_req
    else if v == 9
    then rpc_resp
    else if v == 10
    then foreign_network_packet
    else if v == 11
    then kcp_src
    else if v == 12
    then kcp_dst
    else if v == 13
    then noise_handshake_msg1
    else if v == 14
    then noise_handshake_msg2
    else if v == 15
    then noise_handshake_msg3
    else if v == 16
    then quic_src
    else if v == 17
    then quic_dst
    else if v == 20
    then relay_handshake
    else if v == 21
    then relay_handshake_ack
    else invalid

pub from_u8-to_u8 : (t : PacketType) → from_u8 (to_u8 t) ≡ t
unfolding from_u8 to_u8
from_u8-to_u8 invalid = refl
from_u8-to_u8 _ = refl

-- Every byte is the discriminant of its type, or it is read as `Invalid`.
pub to_u8-from_u8 : (v : ℕ) → (to_u8 (from_u8 v) ≡ v) ⊎ (from_u8 v ≡ invalid)
unfolding from_u8 to_u8
to_u8-from_u8 v = ground arith

pub to_u8-lt : (t : PacketType) → to_u8 t < 256
unfolding to_u8
to_u8-lt invalid = omega arith
to_u8-lt _ = omega arith
