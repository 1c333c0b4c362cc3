-- ===== src/Crypto/Frames.antt =====
-- The frames of src/crypto.rs: what is encrypted can be decrypted, and what is wrapped can be read.
use easytier_wsrelay.Base.{
  ℕ, ◌+◌, ◌-◌, ◌++◌, some, Text, length, take, drop, ◌≡◌, refl, ap, ◌∙◌, arith, length-append,
  take-length-append, drop-length-append, Option-cases, inl, inr,
}
use mathlib.Core.Path.{subst}
use easytier_wsrelay.Base.Words.{wrap32, to_le_bytes}
use easytier_wsrelay.Constants.{PacketType}
use easytier_wsrelay.Packet.{create_header, to_bytes}
use easytier_wsrelay.Crypto.Wrap.{
  Cipher, CryptoKey, import_aes_gcm_key, default_crypto, encrypt_aes_gcm, decrypt_aes_gcm,
  wrap_packet, wrap_body, patch_header,
}

-- What AES-GCM with a tag of 16 bytes promises: a cipher text is that much longer than its plain
-- text, and is opened with the nonce and the key that it was sealed with.
pub record IsAesGcm (c : Cipher) : Type 0 where
  pub length-seal :
      (nonce : Text) (key : CryptoKey) (plain sealed : Text)
      → c.seal nonce key plain ≡ some sealed
      → length sealed ≡ length plain + 16
  pub open-seal :
      (nonce : Text) (key : CryptoKey) (plain sealed : Text)
      → c.seal nonce key plain ≡ some sealed
      → c.open_sealed nonce key sealed ≡ some plain

-- A frame of a sealed text and a nonce of twelve bytes is cut where the two meet.
decrypt-frame :
    (c : Cipher) (sealed nonce key : Text) (k : CryptoKey) (n : ℕ)
    → import_aes_gcm_key c key ≡ some k
    → length sealed ≡ n + 16
    → length nonce ≡ 12
    → decrypt_aes_gcm c (sealed ++ nonce) key ≡ c.open_sealed nonce k sealed
unfolding decrypt_aes_gcm
decrypt-frame c sealed nonce key k n imported h l12 =
    let l : length (sealed ++ nonce) - 28 + 16 ≡ length sealed =
      omega (arith, length-append sealed nonce) in
    ground (
      arith,
      imported,
      h,
      l12,
      length-append sealed nonce,
      ap (λ i. take i (sealed ++ nonce)) l ∙ take-length-append sealed nonce,
      ap (λ i. drop i (sealed ++ nonce)) l ∙ drop-length-append sealed nonce,
    )

-- With a cipher that keeps the promises of AES-GCM, a payload that is encrypted with a nonce of
-- twelve bytes is what the frame decrypts to under the same key.
pub decrypt-encrypt :
    (c : Cipher) (nonce payload key frame : Text)
    → IsAesGcm c
    → length nonce ≡ 12
    → encrypt_aes_gcm c nonce payload key ≡ some frame
    → decrypt_aes_gcm c frame key ≡ some payload
unfolding encrypt_aes_gcm
decrypt-encrypt c nonce payload key frame law l12 e =
    elim (Option-cases (import_aes_gcm_key c key)) [
      | inl m ↦ absurd (ground (arith, m, e))
      | inr (k, m) ↦ elim (Option-cases (c.seal nonce k payload)) [
        | inl n ↦ absurd (ground (arith, m, n, e))
        | inr (sealed, n) ↦
            let frame_eq : sealed ++ nonce ≡ frame = ground (arith, m, n, e) in
            subst (λ f. decrypt_aes_gcm c f key ≡ some payload) frame_eq
              (decrypt-frame c sealed nonce key k (length payload) m
                  (law.length-seal nonce k payload sealed n) l12
                ∙ law.open-seal nonce k payload sealed n)
      ]
    ]

-- Without encryption the wrapped packet is the header, with the length of the payload, and the
-- payload.
pub wrap_packet-default :
    (c : Cipher) (nonce : Text) (from to : ℕ) (t : PacketType) (payload : Text)
    → wrap_packet c nonce from to t payload default_crypto
      ≡ some (create_header from to t (wrap32 (length payload)) ++ payload)
unfolding wrap_packet wrap_body patch_header create_header to_bytes to_le_bytes
wrap_packet-default c nonce from to t payload = refl
