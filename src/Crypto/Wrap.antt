-- ===== src/Crypto/Wrap.antt =====
-- The packet wrapper and the AES-GCM frame of src/crypto.rs. The cipher is the Web Crypto API, a
-- parameter: it is given the nonce, the key and the data, and may fail.
use easytier_wsrelay.Base.{
  ℕ, ◌+◌, ◌-◌, [], ◌++◌, Option, none, some, Bool, false, not, ◌&&◌, Text, length, take, drop, ltb,
  ◌==◌, if◌then◌else◌, ◌>>=◌, option_map, set,
}
use easytier_wsrelay.Base.Words.{wrap32, to_le_bytes}
use easytier_wsrelay.Constants.{PacketType, to_u8, hand_shake, my_peer_id}
use easytier_wsrelay.Packet.{create_header}
use easytier_wsrelay.Crypto.{is_empty_text}

-- A `CryptoKey`, which the program does not look into, under the number that the API knows it by.
abbrev pub CryptoKey : Type 0
CryptoKey = ℕ

pub record Cipher : Type 0 where
  -- `import_key_with_object`: the raw bytes of a key.
  pub import_key : Text → Option CryptoKey
  -- `encrypt_with_object_and_buffer_source`: nonce, key, plain text.
  pub seal : Text → CryptoKey → Text → Option Text
  -- `decrypt_with_object_and_buffer_source`: nonce, key, cipher text with its tag.
  pub open_sealed : Text → CryptoKey → Text → Option Text

pub record WsCrypto : Type 0 where
  pub enabled : Bool
  pub key128 : Text
  pub key256 : Text

-- `WsCrypto::default()`.
abbrev pub default_crypto : WsCrypto
default_crypto = record { enabled = false; key128 = []; key256 = [] }

-- A key for AES-GCM, not extractable, to encrypt and decrypt with.
unfoldable pub import_aes_gcm_key : Cipher → Text → Option CryptoKey
import_aes_gcm_key c key_bytes = c.import_key key_bytes

-- Cipher text, tag, nonce. The nonce is twelve random bytes.
unfoldable pub encrypt_aes_gcm : Cipher → Text → Text → Text → Option Text
unfolding import_aes_gcm_key
encrypt_aes_gcm c nonce payload key = do
  crypto_key ← import_aes_gcm_key c key
  ciphertext_with_tag ← c.seal nonce crypto_key payload
  some (ciphertext_with_tag ++ nonce)

unfoldable pub decrypt_aes_gcm : Cipher → Text → Text → Option Text
unfolding import_aes_gcm_key
decrypt_aes_gcm c payload key =
    let text_len = length payload - 28 in
    let ciphertext_with_tag = take (text_len + 16) payload in
    let nonce = drop (text_len + 16) payload in
    if ltb (length payload) 28 then none else (do
      crypto_key ← import_aes_gcm_key c key
      c.open_sealed nonce crypto_key ciphertext_with_tag)

abbrev pub is_hand_shake : PacketType → Bool
is_hand_shake t = to_u8 t == to_u8 hand_shake

-- The body of `wrap_packet` that is sent, with the flags.
unfoldable pub wrap_body : Cipher → Text → PacketType → Text → WsCrypto → Option (Text × ℕ)
unfolding encrypt_aes_gcm is_empty_text to_u8
wrap_body c nonce t payload crypto =
    if crypto.enabled && not (is_hand_shake t)
    then option_map (λ (b : Text). (b, 1))
        (if not (is_empty_text crypto.key128)
          then encrypt_aes_gcm c nonce payload crypto.key128
          else if not (is_empty_text crypto.key256)
          then encrypt_aes_gcm c nonce payload crypto.key256
          else some payload)
    else some (payload, 0)

-- `full[9] = flags`, and the length written again.
unfoldable pub patch_header : Text → ℕ → ℕ → Text
unfolding to_le_bytes
patch_header header flags body_len = take 12 (set header 9 flags) ++ to_le_bytes body_len

unfoldable pub wrap_packet : Cipher → Text → ℕ → ℕ → PacketType → Text → WsCrypto → Option Text
unfolding wrap_body patch_header
wrap_packet c nonce from to t payload crypto = do
  (body, flags) ← wrap_body c nonce t payload crypto
  let body_len = wrap32 (length body)
  some (patch_header (create_header from to t body_len) flags body_len ++ body)

unfoldable pub wrap_server_packet : Cipher → Text → ℕ → PacketType → Text → WsCrypto → Option Text
unfolding wrap_packet
wrap_server_packet c nonce to t payload crypto = wrap_packet c nonce my_peer_id to t payload crypto
