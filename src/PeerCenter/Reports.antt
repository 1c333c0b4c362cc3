-- ===== src/PeerCenter/Reports.antt =====
-- The reports of src/peer_center.rs: the connections that are recorded, and how they are read.
use easytier_wsrelay.Base.{
  ℕ, [], ◌∷◌, Option, none, some, not, ◌&&◌, unwrap_or, option_map, ◌==◌, ◌≡◌, ◌≢◌, ◌⊎◌, refl,
  arith, if◌then◌else◌, nat_eq, text_eq, pair_eq, Bool-cases, inl, inr, ◌∙◌,
}
use easytier_wsrelay.Base.HashMap
use easytier_wsrelay.Base.HashMap.{HashMap, get-insert, IsMap, IsMap-insert, IsMap-keep, get-keep}
use easytier_wsrelay.Base.BTreeMap
use easytier_wsrelay.Base.BTreeMap.{BTreeMap}
use easytier_wsrelay.Proto.{
  DirectConnectedPeerInfo, PeerInfoForGlobalMap, ReportPeersRequest, Externals,
}
use easytier_wsrelay.Proto.Ambient.{Ambient}
use easytier_wsrelay.PeerCenter.{
  SrcDstPeerPair, PeerCenterInfoEntry, PeerCenterGroupData, insert_reports, group_report, add_edge,
  collect_edges, group_get_map, group_clean, is_fresh,
}

-- The last info of a destination in a report.
unfoldable pub last_report : ℕ → PeerInfoForGlobalMap → Option DirectConnectedPeerInfo
last_report dst [] = none
last_report dst ((d, info) ∷ direct) = elim (last_report dst direct) [
  | none ↦ if d == dst then some info else none
  | some i ↦ some i
]

-- The entry of a connection after a report.
abbrev pub reported :
    ℕ → Option DirectConnectedPeerInfo → Option PeerCenterInfoEntry → Option PeerCenterInfoEntry
reported now none old = old
reported now (some i) old = some (record { info = i; update_time_ms = now })

get-insert_reports :
    (now src s d : ℕ) (direct : PeerInfoForGlobalMap)
    (m : HashMap SrcDstPeerPair PeerCenterInfoEntry)
    → HashMap.get (s, d) (insert_reports now src direct m) ≡ (
        if src == s
        then reported now (last_report d direct) (HashMap.get (s, d) m)
        else HashMap.get (s, d) m)
unfolding insert_reports last_report
get-insert_reports now src s d [] m = ground arith
get-insert_reports now src s d ((x, info) ∷ direct) m = ground (
  arith,
  get-insert_reports now src s d direct
      (HashMap.insert (src, x) (record { info = info; update_time_ms = now }) m),
  get-insert (src, x) (s, d) (record { info = info; update_time_ms = now }) m,
)

IsMap-insert_reports :
    (now src : ℕ) (direct : PeerInfoForGlobalMap) (m : HashMap SrcDstPeerPair PeerCenterInfoEntry)
    → IsMap m
    → IsMap (insert_reports now src direct m)
unfolding insert_reports
IsMap-insert_reports now src [] m h = h
IsMap-insert_reports now src ((x, info) ∷ direct) m h =
    IsMap-insert_reports now src direct _
      (IsMap-insert (src, x) (record { info = info; update_time_ms = now }) m h)

-- The info that a global map holds for a connection.
abbrev pub edge : ℕ → ℕ → BTreeMap PeerInfoForGlobalMap → Option DirectConnectedPeerInfo
edge s d m = BTreeMap.get d (unwrap_or (BTreeMap.get s m) [])

abbrev pub info_of : Option PeerCenterInfoEntry → Option DirectConnectedPeerInfo
info_of = option_map (λ (e : PeerCenterInfoEntry). e.info)

edge-add_edge :
    (s d : ℕ) (pair : SrcDstPeerPair) (info : DirectConnectedPeerInfo)
    (m : BTreeMap PeerInfoForGlobalMap)
    → edge s d (add_edge pair info m)
      ≡ (if (pair.0 == s) && (pair.1 == d) then some info else edge s d m)
unfolding add_edge
edge-add_edge s d pair info m = ground (
  arith,
  BTreeMap.get-insert pair.0 s (BTreeMap.insert pair.1 info (unwrap_or (BTreeMap.get pair.0 m) []))
      m,
  BTreeMap.get-insert pair.1 d info (unwrap_or (BTreeMap.get pair.0 m) []),
)

abbrev over :
    Option DirectConnectedPeerInfo → Option PeerCenterInfoEntry → Option DirectConnectedPeerInfo
over old none = old
over old (some e) = some e.info

over-none : (e : Option PeerCenterInfoEntry) → over none e ≡ info_of e
over-none none = refl
over-none (some e) = refl

edge-collect_edges :
    (s d : ℕ) (entries : HashMap SrcDstPeerPair PeerCenterInfoEntry)
    (m : BTreeMap PeerInfoForGlobalMap)
    → IsMap entries
    → edge s d (collect_edges entries m) ≡ over (edge s d m) (HashMap.get (s, d) entries)
unfolding collect_edges HashMap.get
edge-collect_edges s d [] m h = refl
edge-collect_edges s d ((pair, entry) ∷ rest) m h = ground (
  arith,
  edge-collect_edges s d rest (add_edge pair entry.info m) h.1,
  edge-add_edge s d pair entry.info m,
  h.0,
)

-- Where no connection is recorded twice, none is after a report, and none after a clean-up.
group_steps-IsMap :
    (ext : Externals) (env : Ambient) (req : ReportPeersRequest) (ttl_ms : ℕ)
    (g : PeerCenterGroupData)
    → IsMap g.global_peer_map
    → IsMap (group_report ext env req g).global_peer_map
      × IsMap (group_clean env.now_ms ttl_ms g).global_peer_map
unfolding group_report group_clean
group_steps-IsMap ext env req ttl_ms g h = (
  IsMap-insert_reports env.now_ms req.my_peer_id (unwrap_or req.peer_infos []) g.global_peer_map h,
  IsMap-keep (λ (e : PeerCenterInfoEntry). is_fresh env.now_ms ttl_ms e.update_time_ms)
      g.global_peer_map h,
)

-- A report replaces what is recorded of the connections of its sender that it names, each with
-- the last info it gives and the time of the report, and leaves every other connection.
pub group_report_lem :
    (ext : Externals) (env : Ambient) (req : ReportPeersRequest) (s d : ℕ) (g : PeerCenterGroupData)
    → HashMap.get (s, d) (group_report ext env req g).global_peer_map ≡ (
        if req.my_peer_id == s
        then reported env.now_ms
            (last_report d (unwrap_or req.peer_infos []))
            (HashMap.get (s, d) g.global_peer_map)
        else HashMap.get (s, d) g.global_peer_map)
unfolding group_report
group_report_lem ext env req s d g =
    get-insert_reports env.now_ms req.my_peer_id s d (unwrap_or req.peer_infos []) g.global_peer_map

-- Where no connection is recorded twice, the answer to a request for the global map holds of every
-- connection what is recorded, with the digest of the group; or it is empty, and then the client's
-- digest is the group's and is not 0.
pub group_get_map_lem :
    (digest s d : ℕ) (g : PeerCenterGroupData)
    → IsMap g.global_peer_map
    → (((group_get_map digest g).digest ≡ some g.digest)
        × (edge s d (group_get_map digest g).global_peer_map
            ≡ info_of (HashMap.get (s, d) g.global_peer_map)))
      ⊎ ((group_get_map digest g ≡ record { global_peer_map = []; digest = none })
          × ((digest ≡ g.digest) × (digest ≢ 0)))
unfolding group_get_map BTreeMap.get
group_get_map_lem digest s d g h = elim (Bool-cases ((digest == g.digest) && not (digest == 0))) [
  | inl e ↦ rw e (inr (refl, (ground (arith, e), ground (arith, e))))
  | inr e ↦ rw e (
      inl (
        refl,
        edge-collect_edges s d g.global_peer_map [] h
            ∙ over-none (HashMap.get (s, d) g.global_peer_map),
      ))
]
