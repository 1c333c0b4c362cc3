-- ===== src/Crypto/Opening.antt =====
-- A packet that `wrap_packet` of src/crypto.rs makes can be read, and decrypted where it is
-- encrypted.
use easytier_wsrelay.Base.{
  ℕ, ◌<◌, ◌^◌, ◌++◌, Option, Bool, ◌&&◌, some, true, false, not, Text, length, drop, ◌≡◌, refl, sym,
  ap, ◌∙◌, arith, option_map, if◌then◌else◌, Option-cases, Bool-cases, inl, inr,
}
use mathlib.Core.Path.{subst}
use easytier_wsrelay.Base.Words.{wrap32, to_le_bytes}
use easytier_wsrelay.Constants.{PacketType, to_u8, from_u8-to_u8, to_u8-lt, header_size}
use easytier_wsrelay.Packet.{PacketHeader, to_bytes, parse_header, packet_type_enum, create_header}
use easytier_wsrelay.Packet.Header.{from_bytes-to_bytes}
use easytier_wsrelay.Crypto.{is_empty_text}
use easytier_wsrelay.Crypto.Wrap.{
  Cipher, WsCrypto, encrypt_aes_gcm, decrypt_aes_gcm, is_hand_shake, wrap_body, patch_header,
  wrap_packet,
}
use easytier_wsrelay.Crypto.Frames.{IsAesGcm, decrypt-encrypt}

-- The key that a packet is encrypted with: the one of 128 bits if there is one.
abbrev pub wrapping_key : WsCrypto → Text
wrapping_key crypto = if not (is_empty_text crypto.key128) then crypto.key128 else crypto.key256

abbrev pub is_wrapped : PacketType → WsCrypto → Bool
is_wrapped t crypto = crypto.enabled && not (is_hand_shake t)

-- What a reader who has the keys makes of what follows the header.
abbrev pub unwrapped : Cipher → PacketType → WsCrypto → Text → Option Text
unwrapped c t crypto body =
    if is_wrapped t crypto && not (is_empty_text (wrapping_key crypto))
    then decrypt_aes_gcm c body (wrapping_key crypto)
    else some body

wrap_body_keyed :
    (c : Cipher) (nonce : Text) (t : PacketType) (payload : Text) (crypto : WsCrypto)
    → is_wrapped t crypto ≡ true
    → is_empty_text (wrapping_key crypto) ≡ false
    → wrap_body c nonce t payload crypto
      ≡ option_map (λ (b : Text). (b, 1)) (encrypt_aes_gcm c nonce payload (wrapping_key crypto))
unfolding wrap_body
wrap_body_keyed c nonce t payload crypto on k = elim (Bool-cases (is_empty_text crypto.key128)) [
  | inr f ↦ rw (on, f) refl
  | inl e ↦ let other : is_empty_text crypto.key256 ≡ false = rw e at k in rw (on, e, other) refl
]

wrap_body_plain :
    (c : Cipher) (nonce : Text) (t : PacketType) (payload : Text) (crypto : WsCrypto)
    → (is_wrapped t crypto && not (is_empty_text (wrapping_key crypto))) ≡ false
    → wrap_body c nonce t payload crypto ≡ some (payload, if is_wrapped t crypto then 1 else 0)
unfolding wrap_body
wrap_body_plain c nonce t payload crypto h = ground arith

-- The body is unwrapped to the payload, and the flag says that it has been wrapped.
wrap_body-unwrapped :
    (c : Cipher) (nonce : Text) (t : PacketType) (payload : Text) (crypto : WsCrypto) (body : Text)
    (flags : ℕ)
    → IsAesGcm c
    → length nonce ≡ 12
    → wrap_body c nonce t payload crypto ≡ some (body, flags)
    → (flags ≡ (if is_wrapped t crypto then 1 else 0)) × (unwrapped c t crypto body ≡ some payload)
wrap_body-unwrapped c nonce t payload crypto body flags law twelve e =
    elim (Bool-cases (is_wrapped t crypto && not (is_empty_text (wrapping_key crypto)))) [
      | inr f ↦ ground (arith, e, f, wrap_body_plain c nonce t payload crypto f)
      | inl k ↦
          let on : is_wrapped t crypto ≡ true = ground (arith, k) in
          let keyed : is_empty_text (wrapping_key crypto) ≡ false = ground (arith, k) in
          let made = wrap_body_keyed c nonce t payload crypto on keyed in
          elim (Option-cases (encrypt_aes_gcm c nonce payload (wrapping_key crypto))) [
            | inl none_made ↦ absurd (ground (arith, e, made, none_made))
            | inr (b, m) ↦
                let same : (b ≡ body) × (flags ≡ 1) = ground (arith, e, made, m) in
                let opened : decrypt_aes_gcm c body (wrapping_key crypto) ≡ some payload =
                  decrypt-encrypt c nonce payload (wrapping_key crypto) body law twelve
                    (m ∙ ap some same.0) in
                rw (on, keyed) (same.1, opened)
          ]
    ]

-- The header of a wrapped packet.
abbrev wrapped_header : ℕ → ℕ → PacketType → ℕ → ℕ → PacketHeader
wrapped_header from to t flags len = record {
  from_peer_id = from;
  to_peer_id = to;
  packet_type = to_u8 t;
  flags = flags;
  forward_counter = 1;
  reserved = 0;
  len = len;
}

patch_header-create_header :
    (from to : ℕ) (t : PacketType) (flags len : ℕ)
    → patch_header (create_header from to t len) flags len
      ≡ to_bytes (wrapped_header from to t flags len)
unfolding patch_header create_header to_bytes to_le_bytes
patch_header-create_header from to t flags len = refl

drop-to_bytes : (h : PacketHeader) (body : Text) → drop header_size (to_bytes h ++ body) ≡ body
unfolding to_bytes to_le_bytes
drop-to_bytes h body = refl

-- What is read from a packet: its header with the two peers, the type, the flag for encryption and
-- the length of what follows; and that this is unwrapped to the payload.
pub record Opens (c : Cipher) (crypto : WsCrypto) (from to : ℕ) (t : PacketType)
    (payload full : Text) : Type 0 where
  pub header : PacketHeader
  pub parses : parse_header full ≡ some header
  pub comes_from : header.from_peer_id ≡ from
  pub goes_to : header.to_peer_id ≡ to
  pub has_type : packet_type_enum header ≡ t
  pub is_flagged : header.flags ≡ (if is_wrapped t crypto then 1 else 0)
  pub has_length : header.len ≡ wrap32 (length (drop header_size full))
  pub unwraps : unwrapped c t crypto (drop header_size full) ≡ some payload

module _ (c : Cipher) (law : IsAesGcm c) (nonce : Text) (twelve : length nonce ≡ 12) (from to : ℕ)
    (from_fits : from < 2 ^ 32) (to_fits : to < 2 ^ 32) (t : PacketType) (crypto : WsCrypto) where
  frame-Opens :
      (payload body : Text) (flags : ℕ)
      → flags ≡ (if is_wrapped t crypto then 1 else 0)
      → unwrapped c t crypto body ≡ some payload
      → let n = wrap32 (length body) in
        Opens c crypto from to t payload (patch_header (create_header from to t n) flags n ++ body)
  unfolding parse_header packet_type_enum
  frame-Opens payload body flags flagged opened =
      let n = wrap32 (length body) in
      let header = wrapped_header from to t flags n in
      subst (λ front. Opens c crypto from to t payload (front ++ body))
        (sym (patch_header-create_header from to t flags n))
        (record {
          header = header;
          parses = from_bytes-to_bytes header body (ground (arith, to_u8-lt t, flagged));
          comes_from = refl;
          goes_to = refl;
          has_type = from_u8-to_u8 t;
          is_flagged = flagged;
          has_length = ap (λ x. wrap32 (length x)) (sym (drop-to_bytes header body));
          unwraps =
              subst (λ b. unwrapped c t crypto b ≡ some payload) (sym (drop-to_bytes header body))
                opened;
        })

  -- With a cipher that keeps the promises of AES-GCM and a nonce of twelve bytes, what wrap_packet
  -- makes of a payload is read back from the packet: it parses to the two peers, the type, the flag
  -- for encryption and the length of what follows. The flag is set exactly if encryption is on and
  -- the packet is no handshake. What follows is then decrypted to the payload under the key of 128
  -- bits, or the other where that is empty; it is the payload itself where both keys are empty or
  -- the flag is not set.
  pub wrap_packet-Opens :
      (payload full : Text)
      → wrap_packet c nonce from to t payload crypto ≡ some full
      → Opens c crypto from to t payload full
  unfolding wrap_packet
  wrap_packet-Opens payload full e = elim (Option-cases (wrap_body c nonce t payload crypto)) [
    | inl none_made ↦ absurd (ground (arith, e, none_made))
    | inr ((body, flags), made) ↦
        let n = wrap32 (length body) in
        let same : patch_header (create_header from to t n) flags n ++ body ≡ full =
          ground (arith, e, made) in
        let read = wrap_body-unwrapped c nonce t payload crypto body flags law twelve made in
        subst (Opens c crypto from to t payload) same (frame-Opens payload body flags read.0 read.1)
  ]
