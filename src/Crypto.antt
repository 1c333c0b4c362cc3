-- ===== src/Crypto.antt =====
-- src/crypto.rs: SipHash-1-3, the hasher over parts, the digests and keys, and the packet wrapper.
pub mod Hasher
pub mod Wrap
pub mod Frames
pub mod Opening
use Prim.Native.Nat.{bit_or, bit_xor, bit_and}
use easytier_wsrelay.Base.{
  ℕ, zero, suc, ◌+◌, ◌-◌, ◌*◌, ◌/◌, ◌%◌, ◌^◌, List, [], ◌∷◌, ◌++◌, Option, none, some, Bool, true,
  false, not, ◌&&◌, Text, codes, length, get_or, take, drop, ltb, ◌==◌, if◌then◌else◌,
}
use easytier_wsrelay.Base.Words.{wrap64}

-- `x << b` and `x >> b` on `u64`.
abbrev pub shl64 : ℕ → ℕ → ℕ
shl64 x b = wrap64 (x * 2 ^ b)

abbrev pub shr64 : ℕ → ℕ → ℕ
shr64 x b = x / 2 ^ b

unfoldable pub rotl64 : ℕ → ℕ → ℕ
rotl64 x b = bit_or (shl64 x b) (shr64 x (64 - b))

-- The four words `v`.
pub record SipState : Type 0 where
  pub v0 : ℕ
  pub v1 : ℕ
  pub v2 : ℕ
  pub v3 : ℕ

unfoldable pub sip_round : SipState → SipState
unfolding rotl64
sip_round v =
    let a0 = wrap64 (v.v0 + v.v1) in
    let a1 = bit_xor (rotl64 v.v1 13) a0 in
    let b0 = rotl64 a0 32 in
    let a2 = wrap64 (v.v2 + v.v3) in
    let a3 = bit_xor (rotl64 v.v3 16) a2 in
    let c0 = wrap64 (b0 + a3) in
    let b3 = bit_xor (rotl64 a3 21) c0 in
    let b2 = wrap64 (a2 + a1) in
    let b1 = bit_xor (rotl64 a1 17) b2 in record { v0 = c0; v1 = b1; v2 = rotl64 b2 32; v3 = b3 }

-- `u64::from_le_bytes` of up to eight bytes, the missing ones zero.
unfoldable pub le_value : List ℕ → ℕ
le_value [] = 0
le_value (b ∷ bs) = b + 256 * le_value bs

unfoldable pub read_u64_le : Text → ℕ → ℕ
unfolding le_value
read_u64_le msg offset = le_value (take 8 (drop offset msg))

-- `v[3] ^= m; sip_round(&mut v); v[0] ^= m`.
unfoldable pub compress : ℕ → SipState → SipState
unfolding sip_round
compress m v =
    let r = sip_round (record v { v3 = bit_xor v.v3 m }) in record r { v0 = bit_xor r.v0 m }

-- `for i in (0..full_len).step_by(8)`, with the number of rounds left.
unfoldable pub full_blocks : ℕ → Text → ℕ → SipState → SipState
unfolding compress read_u64_le
full_blocks zero msg i v = v
full_blocks (suc n) msg i v = full_blocks n msg (i + 8) (compress (read_u64_le msg i) v)

-- `for i in 0..left { m |= (msg[full_len + i] as u64) << (8 * i) }`, over the bytes that are left.
unfoldable pub last_word : ℕ → List ℕ → ℕ → ℕ
last_word i [] m = m
last_word i (b ∷ bs) m = last_word (i + 1) bs (bit_or m (shl64 b (8 * i)))

unfoldable pub init_state : ℕ → ℕ → SipState
init_state k0 k1 = record {
  v0 = bit_xor 0x736f6d6570736575 k0;
  v1 = bit_xor 0x646f72616e646f6d k1;
  v2 = bit_xor 0x6c7967656e657261 k0;
  v3 = bit_xor 0x7465646279746573 k1;
}

-- The three rounds at the end.
unfoldable pub finalize : SipState → ℕ
unfolding sip_round
finalize v =
    let r = sip_round (sip_round (sip_round (record v { v2 = bit_xor v.v2 0xff }))) in
    bit_xor (bit_xor (bit_xor r.v0 r.v1) r.v2) r.v3

unfoldable pub siphash_1_3 : Text → ℕ → ℕ → ℕ
unfolding full_blocks last_word init_state finalize compress
siphash_1_3 msg k0 k1 =
    let full_len = length msg - length msg % 8 in
    let v = full_blocks (full_len / 8) msg 0 (init_state k0 k1) in
    let m = last_word 0 (drop full_len msg) (shl64 (length msg) 56) in finalize (compress m v)

unfoldable pub u64_to_be_bytes : ℕ → Text
u64_to_be_bytes x =
    bit_and (shr64 x 56) 0xff
    ∷ bit_and (shr64 x 48) 0xff
    ∷ bit_and (shr64 x 40) 0xff
    ∷ bit_and (shr64 x 32) 0xff
    ∷ bit_and (shr64 x 24) 0xff
    ∷ bit_and (shr64 x 16) 0xff
    ∷ bit_and (shr64 x 8) 0xff
    ∷ bit_and x 0xff
    ∷ []

-- `SipHashHasher`.
pub record SipHashHasher : Type 0 where
  pub parts : List Text
  pub total : ℕ

unfoldable pub new_hasher : SipHashHasher
new_hasher = record { parts = []; total = 0 }

unfoldable pub is_empty_text : Text → Bool
is_empty_text [] = true
is_empty_text (b ∷ bs) = false

unfoldable pub write : Text → SipHashHasher → SipHashHasher
unfolding is_empty_text
write buf h =
    if is_empty_text buf
    then h
    else record { parts = h.parts ++ buf ∷ []; total = h.total + length buf }

unfoldable pub concat : List Text → Text
concat [] = []
concat (p ∷ ps) = p ++ concat ps

-- A single part is hashed as it is; several are copied into one message.
unfoldable pub finish_parts : List Text → ℕ
unfolding concat
finish_parts (p ∷ []) = siphash_1_3 p 0 0
finish_parts ps = siphash_1_3 (concat ps) 0 0

unfoldable pub finish : SipHashHasher → ℕ
unfolding finish_parts
finish h = finish_parts h.parts

-- The loop of `generate_digest_from_str`.
unfoldable pub digest_shards : ℕ → SipHashHasher → Text → Text
digest_shards zero h digest = digest
digest_shards (suc n) h digest =
    let digest' = digest ++ u64_to_be_bytes (finish h) in digest_shards n (write digest' h) digest'

-- `none` is the failed assertion on the length.
unfoldable pub generate_digest_from_str : Text → Text → ℕ → Option Text
unfolding digest_shards
generate_digest_from_str str1 str2 digest_len =
    if ltb 0 digest_len && digest_len % 8 == 0
    then some (digest_shards (digest_len / 8) (write str2 (write str1 new_hasher)) [])
    else none

pub record DerivedKeys : Type 0 where
  pub key128 : Text
  pub key256 : Text

-- The loop for the 256-bit key: `key` holds the chunks so far, `i` their number.
unfoldable pub key_chunks : ℕ → ℕ → SipHashHasher → Text → Text
key_chunks zero i h key = key
key_chunks (suc n) i h key =
    let h' = write (i ∷ []) (if ltb 0 i then write key h else h) in
    key_chunks n (i + 1) h' (key ++ u64_to_be_bytes (finish h'))

unfoldable pub derive_keys : Text → DerivedKeys
unfolding key_chunks
derive_keys secret =
    let hasher = write secret new_hasher in
    let first = u64_to_be_bytes (finish hasher) in
    let second = u64_to_be_bytes (finish (write first hasher)) in
    record {
      key128 = first ++ second;
      key256 = key_chunks 4 0 (write (codes "easytier-256bit-key") (write secret new_hasher)) [];
    }
