-- ===== src/Handlers.antt =====
-- src/handlers.rs: the handshake and the ping.
pub mod Handshake
use easytier_wsrelay.Base.{
  ℕ, [], ◌∷◌, ◌++◌, Option, none, some, Text, codes, unwrap_or, length, replicate, ◌==◌,
  if◌then◌else◌, text_eq, text_beq,
}
use easytier_wsrelay.Base.HashMap
use easytier_wsrelay.Base.HashMap.{HashMap}
use easytier_wsrelay.Base.Words.{wrap32}
use easytier_wsrelay.Constants.{magic, version, my_peer_id, hand_shake, pong}
use easytier_wsrelay.Packet.{create_header}
use easytier_wsrelay.Codec.{decode_handshake_request, encode_handshake_request}
use easytier_wsrelay.Proto.{HandshakeRequest, Externals}

pub record HandshakeOutcome : Type 0 where
  pub peer_id : ℕ
  pub group_key : Text
  pub domain_name : Text
  pub response_bytes : Text

-- `format!("{}:{}", network_name, group_digest)`.
unfoldable pub group_key_of : Text → Text → Text
group_key_of network_name digest = network_name ++ b':' ∷ digest

unfoldable pub handshake_response : HandshakeRequest
handshake_response = record {
  magic = magic;
  my_peer_id = my_peer_id;
  version = version;
  features = codes "node-server-v1" ∷ [];
  network_name = codes "public_server";
  network_secret_digest = replicate 32 0;
  others = [];
}

-- The check of the digest against the registry: `none` is a mismatch, and a new name is entered.
unfoldable pub check_digest : Text → Text → HashMap Text Text → Option (HashMap Text Text)
check_digest name digest registry = elim (HashMap.get name registry) [
  | some existing ↦ if text_beq existing digest then some registry else none
  | none ↦ some (HashMap.insert name digest registry)
]

-- The packet around the encoded response.
unfoldable pub response_packet : Externals → ℕ → Text
unfolding handshake_response
response_packet ext peer_id =
    let resp_bytes = encode_handshake_request ext handshake_response in
    create_header my_peer_id peer_id hand_shake (wrap32 (length resp_bytes)) ++ resp_bytes

-- The part of `handle_handshake` after the decoding and the check of the magic number.
unfoldable pub admit :
    Externals → HandshakeRequest → HashMap Text Text → HashMap Text Text × Option HandshakeOutcome
admit ext req registry = elim (check_digest req.network_name digest registry) [
  | none ↦ (registry, none)
  | some registry' ↦ (
    registry',
    some (record {
      peer_id = req.my_peer_id;
      group_key =
          group_key_of req.network_name (unwrap_or (HashMap.get req.network_name registry') []);
      domain_name = req.network_name;
      response_bytes = response_packet ext req.my_peer_id;
    }),
  )
]
  where
    digest : Text
    digest = ext.hex req.network_secret_digest

unfoldable pub handle_handshake :
    Externals → Text → HashMap Text Text → HashMap Text Text × Option HandshakeOutcome
unfolding admit
handle_handshake ext payload registry = elim (decode_handshake_request ext payload) [
  | none ↦ (registry, none)
  | some req ↦ if req.magic == magic then admit ext req registry else (registry, none)
]

unfoldable pub handle_ping : ℕ → Text → Text
handle_ping from_peer_id payload =
    create_header my_peer_id from_peer_id pong (wrap32 (length payload)) ++ payload
