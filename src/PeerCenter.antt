-- ===== src/PeerCenter.antt =====
-- src/peer_center.rs: the map of direct connections that the peers of a group report.
pub mod Digest
pub mod Reports
pub mod Cleaning
use easytier_wsrelay.Base.{
  ℕ, ◌+◌, ◌*◌, List, [], ◌∷◌, Option, none, some, Bool, true, false, not, ◌||◌, ◌&&◌, Text,
  unwrap_or, option_map, ltb, leb, ◌==◌, if◌then◌else◌, nat_eq, text_eq, pair_eq, keep, ◌>>=◌,
}
use easytier_wsrelay.Base.HashMap
use easytier_wsrelay.Base.HashMap.{HashMap}
use easytier_wsrelay.Base.BTreeMap
use easytier_wsrelay.Base.BTreeMap.{BTreeMap}
use easytier_wsrelay.Base.Words.{wrap64, sub64}
use easytier_wsrelay.Proto.{
  DirectConnectedPeerInfo, PeerInfoForGlobalMap, ReportPeersRequest, GetGlobalPeerMapRequest,
  GetGlobalPeerMapResponse, Externals,
}
use easytier_wsrelay.Proto.Ambient.{Ambient}

-- The source and the destination.
abbrev pub SrcDstPeerPair : Type 0
SrcDstPeerPair = ℕ × ℕ

pub record PeerCenterInfoEntry : Type 0 where
  pub info : DirectConnectedPeerInfo
  pub update_time_ms : ℕ

pub record PeerCenterGroupData : Type 0 where
  pub global_peer_map : HashMap SrcDstPeerPair PeerCenterInfoEntry
  pub peer_report_time : HashMap ℕ ℕ
  pub digest : ℕ

pub record PeerCenter : Type 0 where
  pub groups : HashMap Text PeerCenterGroupData

unfoldable pub new : PeerCenter
new = record { groups = [] }

abbrev pub default_group : PeerCenterGroupData
default_group = record { global_peer_map = []; peer_report_time = []; digest = 0 }

-- `group_mut`, and the write through the reference that it returns.
unfoldable pub group_mut : Text → PeerCenter → PeerCenterGroupData
group_mut group_key pc = unwrap_or (HashMap.get group_key pc.groups) default_group

unfoldable pub put_group : Text → PeerCenterGroupData → PeerCenter → PeerCenter
put_group group_key d pc = record { groups = HashMap.insert group_key d pc.groups }

-- The derived order of the pairs: by source, then by destination.
unfoldable pub pair_leb : SrcDstPeerPair → SrcDstPeerPair → Bool
pair_leb a b = ltb a.0 b.0 || (a.0 == b.0 && leb a.1 b.1)

unfoldable pub insert_pair : SrcDstPeerPair → List SrcDstPeerPair → List SrcDstPeerPair
unfolding pair_leb
insert_pair a [] = a ∷ []
insert_pair a (x ∷ xs) = if pair_leb a x then a ∷ x ∷ xs else x ∷ insert_pair a xs

-- `keys.sort()`.
unfoldable pub sort_pairs : List SrcDstPeerPair → List SrcDstPeerPair
unfolding insert_pair
sort_pairs [] = []
sort_pairs (x ∷ xs) = insert_pair x (sort_pairs xs)

unfoldable pub calc_digest_internal : Externals → PeerCenterGroupData → ℕ
calc_digest_internal ext d = ext.hash_pairs (sort_pairs (HashMap.keys d.global_peer_map))

-- The loop of `report_peers` over the direct peers.
unfoldable pub insert_reports :
    ℕ
    → ℕ
    → PeerInfoForGlobalMap
    → HashMap SrcDstPeerPair PeerCenterInfoEntry
    → HashMap SrcDstPeerPair PeerCenterInfoEntry
insert_reports now src [] m = m
insert_reports now src ((dst, info) ∷ direct) m =
    insert_reports now src direct
      (HashMap.insert (src, dst) (record { info = info; update_time_ms = now }) m)

unfoldable pub group_report :
    Externals → Ambient → ReportPeersRequest → PeerCenterGroupData → PeerCenterGroupData
group_report ext env req d =
    let d' = record d {
      peer_report_time = HashMap.insert req.my_peer_id env.now_ms d.peer_report_time;
      global_peer_map =
          insert_reports env.now_ms req.my_peer_id (unwrap_or req.peer_infos []) d.global_peer_map;
    } in
    record d' { digest = calc_digest_internal ext d' }

-- `none` is the `Err` of a refused decoding.
unfoldable pub report_peers :
    Externals → Ambient → Text → Text → PeerCenter → Option (PeerCenter × Text)
report_peers ext env group_key report_bytes pc = do
  req ← ext.report_peers_request.decode report_bytes
  some (
    put_group group_key (group_report ext env req (group_mut group_key pc)) pc,
    ext.report_peers_response.encode (record {}),
  )

-- `entry(pair.src).or_insert_with(…).direct_peers.insert(pair.dst, info)`.
unfoldable pub add_edge :
    SrcDstPeerPair
    → DirectConnectedPeerInfo
    → BTreeMap PeerInfoForGlobalMap
    → BTreeMap PeerInfoForGlobalMap
add_edge pair info m =
    BTreeMap.insert pair.0 (BTreeMap.insert pair.1 info (unwrap_or (BTreeMap.get pair.0 m) [])) m

-- The loop of `get_global_peer_map`.
unfoldable pub collect_edges :
    HashMap SrcDstPeerPair PeerCenterInfoEntry
    → BTreeMap PeerInfoForGlobalMap
    → BTreeMap PeerInfoForGlobalMap
collect_edges [] m = m
collect_edges ((pair, entry) ∷ rest) m = collect_edges rest (add_edge pair entry.info m)

unfoldable pub group_get_map : ℕ → PeerCenterGroupData → GetGlobalPeerMapResponse
group_get_map digest d =
    if digest == d.digest && not (digest == 0)
    then record { global_peer_map = []; digest = none }
    else record { global_peer_map = collect_edges d.global_peer_map []; digest = some d.digest }

unfoldable pub get_global_peer_map :
    Externals → Text → Text → PeerCenter → Option (PeerCenter × Text)
get_global_peer_map ext group_key request_bytes pc = do
  req ← ext.get_global_peer_map_request.decode request_bytes
  let d = group_mut group_key pc
  some (
    put_group group_key d pc,
    ext.get_global_peer_map_response.encode (group_get_map req.digest d),
  )

-- `now_ms - v < ttl_ms`, in `u64`.
unfoldable pub is_fresh : ℕ → ℕ → ℕ → Bool
is_fresh now ttl_ms v = ltb (sub64 now v) ttl_ms

unfoldable pub group_clean : ℕ → ℕ → PeerCenterGroupData → PeerCenterGroupData
unfolding is_fresh
group_clean now ttl_ms d = record d {
  peer_report_time = keep (λ e. is_fresh now ttl_ms e.1) d.peer_report_time;
  global_peer_map = keep (λ e. is_fresh now ttl_ms e.1.update_time_ms) d.global_peer_map;
}

unfoldable pub clean_outdated : Ambient → ℕ → PeerCenter → PeerCenter
clean_outdated env ttl_sec pc = record {
  groups =
      keep
        (λ e.
          not (HashMap.is_empty e.1.global_peer_map) || not (HashMap.is_empty e.1.peer_report_time))
        (HashMap.map_values (group_clean env.now_ms (wrap64 (ttl_sec * 1000))) pc.groups);
}

unfoldable pub calc_digest : Text → PeerCenter → ℕ
calc_digest group_key pc =
    unwrap_or (option_map (λ (d : PeerCenterGroupData). d.digest) (HashMap.get group_key pc.groups))
      0
