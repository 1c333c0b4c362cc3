-- ===== src/Crypto/Hasher.antt =====
-- The hasher over parts of src/crypto.rs, and the lengths of what is made of its hashes.
use easytier_wsrelay.Base.{
  ℕ, zero, suc, ◌+◌, ◌*◌, ◌/◌, ◌%◌, List, [], ◌∷◌, ◌++◌, none, some, ◌&&◌, Text, length, ltb, ◌==◌,
  if◌then◌else◌, ◌≡◌, refl, ap, sym, ◌∙◌, arith, option_map, length-append, codes,
}
use mathlib.Core.List.{append_assoc, append-nil}
use easytier_wsrelay.Crypto.{
  siphash_1_3, SipHashHasher, new_hasher, write, concat, finish, finish_parts, u64_to_be_bytes,
  digest_shards, generate_digest_from_str, key_chunks, derive_keys, is_empty_text,
}

-- Everything that has been written to a hasher, in order.
abbrev pub written : SipHashHasher → Text
written h = concat h.parts

concat-append : (ps qs : List Text) → concat (ps ++ qs) ≡ concat ps ++ concat qs
unfolding concat
concat-append [] qs = refl
concat-append (p ∷ ps) qs = rw (concat-append ps qs) (sym (append_assoc p (concat ps) (concat qs)))

written-write : (buf : Text) (h : SipHashHasher) → written (write buf h) ≡ written h ++ buf
unfolding write is_empty_text concat
written-write [] h = sym (append-nil (written h))
written-write (b ∷ bs) h =
    concat-append h.parts ((b ∷ bs) ∷ []) ∙ ap (λ t. concat h.parts ++ t) (append-nil (b ∷ bs))

-- The parts are hashed as one message.
finish_parts-concat : (ps : List Text) → finish_parts ps ≡ siphash_1_3 (concat ps) 0 0
unfolding finish_parts concat
finish_parts-concat [] = refl
finish_parts-concat (p ∷ []) = ap (λ t. siphash_1_3 t 0 0) (sym (append-nil p))
finish_parts-concat (p ∷ q ∷ ps) = refl

-- A sequence of writes.
abbrev pub write_all : List Text → SipHashHasher → SipHashHasher
write_all [] h = h
write_all (b ∷ bs) h = write_all bs (write b h)

written-write_all :
    (bufs : List Text) (h : SipHashHasher) → written (write_all bufs h) ≡ written h ++ concat bufs
unfolding concat
written-write_all [] h = sym (append-nil (written h))
written-write_all (b ∷ bs) h =
    written-write_all bs (write b h)
    ∙ ap (λ t. t ++ concat bs) (written-write b h)
    ∙ append_assoc (written h) b (concat bs)

-- A hasher does not see where its input was cut: after any writes, empty ones among them, it
-- returns the hash of everything that was written, as one message.
pub finish-write_all :
    (bufs : List Text) → finish (write_all bufs new_hasher) ≡ siphash_1_3 (concat bufs) 0 0
unfolding finish new_hasher concat
finish-write_all bufs =
    finish_parts-concat (write_all bufs new_hasher).parts
    ∙ ap (λ t. siphash_1_3 t 0 0) (written-write_all bufs new_hasher)

length-digest_shards :
    (n : ℕ) (h : SipHashHasher) (digest : Text)
    → length (digest_shards n h digest) ≡ length digest + 8 * n
unfolding digest_shards u64_to_be_bytes
length-digest_shards zero h digest = omega arith
length-digest_shards (suc n) h digest =
    let shard = u64_to_be_bytes (finish h) in
    omega (
      arith,
      length-digest_shards n (write (digest ++ shard) h) (digest ++ shard),
      length-append digest shard,
    )

length-key_chunks :
    (n i : ℕ) (h : SipHashHasher) (key : Text) → length (key_chunks n i h key) ≡ length key + 8 * n
unfolding key_chunks u64_to_be_bytes
length-key_chunks zero i h key = omega arith
length-key_chunks (suc n) i h key =
    let h' = write (i ∷ []) (if ltb 0 i then write key h else h) in
    omega (
      arith,
      length-key_chunks n (i + 1) h' (key ++ u64_to_be_bytes (finish h')),
      length-append key (u64_to_be_bytes (finish h')),
    )

-- A digest has the length that is asked for; a length that is 0 or no multiple of 8 is refused.
pub length-generate_digest_from_str :
    (str1 str2 : Text) (digest_len : ℕ)
    → option_map length (generate_digest_from_str str1 str2 digest_len)
      ≡ (if ltb 0 digest_len && (digest_len % 8 == 0) then some digest_len else none)
unfolding generate_digest_from_str
length-generate_digest_from_str str1 str2 digest_len =
    ground (arith, length-digest_shards (digest_len / 8) (write str2 (write str1 new_hasher)) [])

-- The keys that are derived from any secret have 16 and 32 bytes.
length-derive_keys :
    (secret : Text)
    → (length (derive_keys secret).key128 ≡ 16) × (length (derive_keys secret).key256 ≡ 32)
unfolding derive_keys u64_to_be_bytes
length-derive_keys secret =
    (refl, length-key_chunks 4 0 (write (codes "easytier-256bit-key") (write secret new_hasher)) [])
