-- ===== src/Tests/Handlers.antt =====
-- The theorems on the handshake, the peer center, the packets and the cryptography at concrete inputs.
use easytier_wsrelay.Base.{
  true, ℕ, [], ◌∷◌, ◌++◌, Option, none, some, Text, codes, ◌≡◌, ◌≢◌, ◌⊎◌, refl, arith, length,
  text_eq, pair_eq, option_map, take, replicate, ◌-◌, ◌∙◌, length-append, take-length-append, ◌<◌,
  ◌^◌,
}
use mathlib.Core.Path.{ap, subst}
use mathlib.Core.Option.{some-injective}
use mathlib.Core.List.{Permᴰ}
use easytier_wsrelay.Base.HashMap
use easytier_wsrelay.Base.HashMap.{IsMap}
use easytier_wsrelay.Packet.{PacketHeader, from_bytes, to_bytes}
use easytier_wsrelay.Packet.Header.{InRange, from_bytes-to_bytes, to_bytes-from_bytes}
use easytier_wsrelay.Handlers.{handle_handshake}
use easytier_wsrelay.Handlers.Handshake.{
  handle_handshake-first_digest, handle_handshake_outcome, group_key_of-injective,
}
use easytier_wsrelay.PeerCenter.{
  PeerCenterGroupData, PeerCenterInfoEntry, PeerCenter, group_report, group_get_map, clean_outdated,
  calc_digest, calc_digest_internal,
}
use easytier_wsrelay.PeerCenter.Reports.{
  last_report, edge, info_of, group_report_lem, group_get_map_lem,
}
use easytier_wsrelay.PeerCenter.Cleaning.{entry, clean_outdated_lem}
use easytier_wsrelay.PeerCenter.Digest.{calc_digest_internal-perm}
use easytier_wsrelay.Crypto.{new_hasher, finish, siphash_1_3, concat, generate_digest_from_str}
use easytier_wsrelay.Crypto.Hasher.{write_all, finish-write_all, length-generate_digest_from_str}
use easytier_wsrelay.Base.Words.{to_le_bytes}
use easytier_wsrelay.Constants.{rpc_req, to_u8}
use easytier_wsrelay.Packet.{create_header}
use easytier_wsrelay.Crypto.{is_empty_text}
use easytier_wsrelay.Crypto.Wrap.{WsCrypto, wrap_packet}
use easytier_wsrelay.Crypto.Opening.{Opens, wrap_packet-Opens}
use easytier_wsrelay.Crypto.Frames.{IsAesGcm}
use easytier_wsrelay.Tests.Data.{externals, ambient, handshake, reports_of_5, padding_cipher}

handle_handshake-first_digest_example :
    HashMap.get (codes "net") (handle_handshake externals [] []).0 ≡ some (98 ∷ [])
unfolding HashMap.get
handle_handshake-first_digest_example =
    handle_handshake-first_digest externals [] (codes "net") handshake [] refl

handle_handshake_outcome_example :
    (handle_handshake externals [] ((codes "net", 99 ∷ []) ∷ [])).1 ≡ none
unfolding HashMap.get
handle_handshake_outcome_example =
    handle_handshake_outcome externals [] handshake ((codes "net", 99 ∷ []) ∷ []) refl

group_key_of-injective_example : (codes "net" ≡ codes "net") × (codes "b" ≡ codes "b")
group_key_of-injective_example =
    group_key_of-injective (codes "net") (codes "net") (codes "b") (codes "b") (ground arith, tt)
      (ground arith, tt) refl

group_report_lem_example :
    HashMap.get
      (5, 6)
      (group_report externals ambient
        (record { my_peer_id = 5; peer_infos = some ((6, 8 ∷ []) ∷ []) })
        reports_of_5).global_peer_map
    ≡ some (record { info = 8 ∷ []; update_time_ms = 1000000 })
unfolding HashMap.get last_report
group_report_lem_example =
    group_report_lem externals ambient
      (record { my_peer_id = 5; peer_infos = some ((6, 8 ∷ []) ∷ []) }) 5 6 reports_of_5

group_get_map_lem_example :
    (((group_get_map 0 reports_of_5).digest ≡ some 3)
      × (edge 5 6 (group_get_map 0 reports_of_5).global_peer_map
          ≡ info_of (HashMap.get (5, 6) reports_of_5.global_peer_map)))
    ⊎ ((group_get_map 0 reports_of_5 ≡ record { global_peer_map = []; digest = none })
        × ((0 ≡ reports_of_5.digest) × (◌≢◌ {A = ℕ} 0 0)))
unfolding HashMap.get
group_get_map_lem_example = group_get_map_lem 0 5 6 reports_of_5 (refl, (refl, tt))

-- A group of which one connection was reported a second ago, and the other long before.
abbrev reported : PeerCenter
reported = record { groups = (codes "net", reports_of_5) ∷ [] }

abbrev IsClean : Option PeerCenterGroupData → Type 0
IsClean none = Unit
IsClean (some g) = IsMap g.global_peer_map

abbrev IsTimely : Option PeerCenterInfoEntry → Type 0
IsTimely none = Unit
IsTimely (some r) = r.update_time_ms < 2 ^ 63

clean_outdated_lem_example :
    let cleaned = clean_outdated ambient 60 reported in
    (entry (codes "net") 6 5 cleaned ≡ some (record { info = 2 ∷ []; update_time_ms = 999000 }))
    × ((calc_digest (codes "net") cleaned ≡ calc_digest (codes "net") reported)
        ⊎ (HashMap.get (codes "net") cleaned.groups ≡ none))
unfolding HashMap.get
clean_outdated_lem_example =
    clean_outdated_lem ambient 60 (codes "net") 6 5 reported (ground arith) (ground arith)
      (refl, tt) (λ g e. subst IsClean e (refl, (refl, tt)))
      (λ r e. subst IsTimely e (ground arith))

abbrev turned : PeerCenterGroupData
turned = record {
  global_peer_map =
      ((6, 5), record { info = []; update_time_ms = 5 })
      ∷ ((5, 6), record { info = []; update_time_ms = 5 })
      ∷ [];
  peer_report_time = [];
  digest = 0;
}

calc_digest_internal-perm_example :
    calc_digest_internal externals reports_of_5 ≡ calc_digest_internal externals turned
calc_digest_internal-perm_example =
    calc_digest_internal-perm externals reports_of_5 turned (Permᴰ.swap refl refl)

abbrev header : PacketHeader
header = record {
  from_peer_id = 5;
  to_peer_id = 10000001;
  packet_type = 8;
  flags = 0;
  forward_counter = 1;
  reserved = 0;
  len = 300;
}

header-InRange : InRange header
header-InRange = ground arith

from_bytes-to_bytes_example : from_bytes (to_bytes header ++ (1 ∷ [])) ≡ some header
from_bytes-to_bytes_example = from_bytes-to_bytes header (1 ∷ []) header-InRange

abbrev sixteen : Text
sixteen = 1 ∷ 2 ∷ 3 ∷ 4 ∷ 5 ∷ 6 ∷ 7 ∷ 8 ∷ 9 ∷ 10 ∷ 11 ∷ 12 ∷ 13 ∷ 14 ∷ 15 ∷ 16 ∷ []

to_bytes-from_bytes_example : option_map to_bytes (from_bytes sixteen) ≡ some (take 16 sixteen)
to_bytes-from_bytes_example = to_bytes-from_bytes sixteen (ground arith) (omega arith)

opened : (plain : Text) → padding_cipher.open_sealed [] 0 (plain ++ replicate 16 0) ≡ some plain
opened plain =
    let l : length (plain ++ replicate 16 0) - 16 ≡ length plain =
      omega (arith, length-append plain (replicate 16 0)) in
    ap some
      (ap (λ n. take n (plain ++ replicate 16 0)) l ∙ take-length-append plain (replicate 16 0))

padding_cipher-IsAesGcm : IsAesGcm padding_cipher
padding_cipher-IsAesGcm = record {
  length-seal = λ nonce key plain sealed e.
      ground (arith, some-injective _ _ e, length-append plain (replicate 16 0));
  open-seal = λ nonce key plain sealed e.
      subst (λ t. padding_cipher.open_sealed nonce key t ≡ some plain) (some-injective _ _ e)
        (opened plain);
}

-- A packet from peer 5 to peer 6, with a key of 128 bits.
abbrev twelve_bytes : Text
twelve_bytes = 1 ∷ 2 ∷ 3 ∷ 4 ∷ 5 ∷ 6 ∷ 7 ∷ 8 ∷ 9 ∷ 10 ∷ 11 ∷ 12 ∷ []

abbrev full_packet : Text
full_packet =
    5 ∷ 0 ∷ 0 ∷ 0 ∷ 6 ∷ 0 ∷ 0 ∷ 0 ∷ 8 ∷ 1 ∷ 1 ∷ 0 ∷ 29 ∷ 0 ∷ 0 ∷ 0 ∷ 7 ∷ replicate 16 0
    ++ twelve_bytes

abbrev keyed : WsCrypto
keyed = record { enabled = true; key128 = sixteen; key256 = [] }

wrap_packet-Opens_example : Opens padding_cipher keyed 5 6 rpc_req (7 ∷ []) full_packet
unfolding wrap_packet create_header to_bytes to_le_bytes to_u8 is_empty_text
wrap_packet-Opens_example =
    wrap_packet-Opens padding_cipher padding_cipher-IsAesGcm twelve_bytes refl 5 6 (omega arith)
      (omega arith) rpc_req keyed (7 ∷ []) full_packet refl

finish-write_all_example :
    finish (write_all ((1 ∷ []) ∷ [] ∷ (2 ∷ 3 ∷ []) ∷ []) new_hasher)
    ≡ siphash_1_3 (concat ((1 ∷ []) ∷ [] ∷ (2 ∷ 3 ∷ []) ∷ [])) 0 0
finish-write_all_example = finish-write_all ((1 ∷ []) ∷ [] ∷ (2 ∷ 3 ∷ []) ∷ [])

length-generate_digest_from_str_example :
    option_map length (generate_digest_from_str (codes "net") (codes "secret") 32) ≡ some 32
length-generate_digest_from_str_example =
    length-generate_digest_from_str (codes "net") (codes "secret") 32
