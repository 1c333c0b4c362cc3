-- ===== src/Route/Bitmap.antt =====
-- src/route_state.rs: the connection bitmap, an n by n matrix of bits packed into bytes row by row.
use Prim.Native.Nat.{bit_or, bit_and}
use easytier_wsrelay.Base.{
  ℕ, zero, suc, ◌+◌, ◌*◌, ◌/◌, ◌%◌, ◌^◌, List, [], ◌∷◌, ◌++◌, map, Option, none, some, Bool, false,
  not, ◌&&◌, Text, unwrap_or, length, get_or, set, replicate, ltb, leb, ◌==◌, if◌then◌else◌, nat_eq,
  text_beq,
}
use easytier_wsrelay.Base.HashMap
use easytier_wsrelay.Base.HashMap.{HashMap}
use easytier_wsrelay.Base.BTreeSet
use easytier_wsrelay.Base.BTreeSet.{BTreeSet}
use easytier_wsrelay.Constants.{my_peer_id}
use easytier_wsrelay.Proto.{PeerIdVersion, RouteConnBitmap, Externals}
use easytier_wsrelay.Route.Group.{RouteGroupData, session_of}

-- `bitmap[idx / 8] |= 1 << (idx % 8)`.
unfoldable pub set_bit_at : ℕ → Text → Text
set_bit_at idx bitmap = set bitmap (idx / 8) (bit_or (get_or bitmap (idx / 8) 0) (2 ^ (idx % 8)))

-- The closure `set_bit` for a matrix of `n` columns.
unfoldable pub set_bit : ℕ → ℕ → ℕ → Text → Text
unfolding set_bit_at
set_bit n row col = set_bit_at (row * n + col)

-- `byte_idx < bitmap.len() && (bitmap[byte_idx] >> bit_offset) & 1 == 1`.
unfoldable pub test_bit : ℕ → Text → Bool
test_bit idx bitmap =
    ltb (idx / 8) (length bitmap) && bit_and (get_or bitmap (idx / 8) 0 / 2 ^ (idx % 8)) 1 == 1

-- `start..start + n`.
abbrev pub range : ℕ → ℕ → List ℕ
range start zero = []
range start (suc n) = start ∷ range (suc start) n

-- The first loop: the diagonal.
unfoldable pub set_diagonal : ℕ → List ℕ → Text → Text
set_diagonal n [] bm = bm
set_diagonal n (i ∷ is) bm = set_diagonal n is (set_bit n i i bm)

-- The second loop: the server's row and column.
unfoldable pub set_server : ℕ → ℕ → List ℕ → Text → Text
set_server n server [] bm = bm
set_server n server (i ∷ is) bm =
    set_server n server is (if i == server then bm else set_bit n i server (set_bit n server i bm))

-- `relevant_peers.iter().enumerate().map(|(i, p)| (*p, i)).collect()`.
unfoldable pub index_from : ℕ → List ℕ → HashMap ℕ ℕ → HashMap ℕ ℕ
index_from i [] m = m
index_from i (p ∷ ps) m = index_from (suc i) ps (HashMap.insert p i m)

unfoldable pub idx_by_peer : List ℕ → HashMap ℕ ℕ
unfolding index_from
idx_by_peer relevant_peers = index_from 0 relevant_peers []

-- The body of the inner loop over the peers that one peer is connected to.
unfoldable pub set_edge : ℕ → ℕ → ℕ → ℕ → Text → Text
set_edge n server src dst bm =
    if not (src == dst) && (not (src == server) && not (dst == server))
    then set_bit n dst src (set_bit n src dst bm)
    else bm

unfoldable pub set_edges_of : HashMap ℕ ℕ → ℕ → ℕ → ℕ → List ℕ → Text → Text
unfolding set_edge
set_edges_of idx n server src [] bm = bm
set_edges_of idx n server src (dst_peer ∷ dsts) bm =
    set_edges_of idx n server src dsts
      (elim (HashMap.get dst_peer idx) [ none ↦ bm | some dst ↦ set_edge n server src dst bm ])

-- The loop over `peer_connections`.
unfoldable pub set_edges : HashMap ℕ ℕ → ℕ → ℕ → HashMap ℕ BTreeSet → Text → Text
unfolding set_edges_of
set_edges idx n server [] bm = bm
set_edges idx n server ((src_peer, dsts) ∷ conns) bm =
    set_edges idx n server conns (elim (HashMap.get src_peer idx) [
      | none ↦ bm
      | some src ↦ set_edges_of idx n server src dsts bm
    ])

-- The loops where the server is not among the peers: every bit.
unfoldable pub set_row : ℕ → ℕ → List ℕ → Text → Text
set_row n i [] bm = bm
set_row n i (j ∷ js) bm = set_row n i js (set_bit n i j bm)

unfoldable pub set_all : ℕ → List ℕ → Text → Text
unfolding set_row
set_all n [] bm = bm
set_all n (i ∷ is) bm = set_all n is (set_row n i (range 0 n) bm)

-- The bytes that `build_conn_bitmap` computes.
unfoldable pub bitmap_bytes : List ℕ → HashMap ℕ BTreeSet → Text
unfolding idx_by_peer
bitmap_bytes relevant_peers conns =
    let n = length relevant_peers in
    let blank = set_diagonal n (range 0 n) (replicate ((n * n + 7) / 8) 0) in
    let idx = idx_by_peer relevant_peers in
    elim (HashMap.get my_peer_id idx) [
      | some server ↦ set_edges idx n server conns (set_server n server (range 0 n) blank)
      | none ↦ set_all n (range 0 n) blank
    ]

unfoldable pub versions_of : RouteGroupData → List ℕ → List PeerIdVersion
versions_of g =
    map
      λ pid. record { peer_id = pid; version = unwrap_or (HashMap.get pid g.peer_conn_versions) 1 }

-- `format!("{}:{}", p.peer_id, p.version)`, joined with commas.
unfoldable pub join_versions : Externals → List PeerIdVersion → Text
join_versions ext [] = []
join_versions ext (p ∷ []) = ext.decimal p.peer_id ++ b':' ∷ ext.decimal p.version
join_versions ext (p ∷ q ∷ ps) =
    (ext.decimal p.peer_id ++ b':' ∷ ext.decimal p.version) ++ b',' ∷ join_versions ext (q ∷ ps)

unfoldable pub signature : Externals → List PeerIdVersion → Text → Text
signature ext versions bitmap = join_versions ext versions ++ b'|' ∷ ext.hex bitmap

-- `iter().map(|p| p.version).max()`.
unfoldable pub max_version : List PeerIdVersion → Option ℕ
max_version [] = none
max_version (p ∷ ps) =
    some (elim (max_version ps) [
      | none ↦ p.version
      | some v ↦ if leb p.version v then v else p.version
    ])

abbrev pub is_signature : Option Text → Text → Bool
is_signature none sig = false
is_signature (some old) sig = text_beq old sig

-- `build_conn_bitmap`: the group with the session's record of what was sent, and the bitmap, or
-- `none` where the session has already been sent it.
unfoldable pub build_conn_bitmap :
    Externals → List ℕ → ℕ → RouteGroupData → RouteGroupData × Option RouteConnBitmap
build_conn_bitmap ext [] target_peer_id g = (g, none)
build_conn_bitmap ext (p ∷ ps) target_peer_id g =
    let relevant_peers = p ∷ ps in
    let bitmap = bitmap_bytes relevant_peers g.peer_connections in
    let versions = versions_of g relevant_peers in
    let sig = signature ext versions bitmap in
    let session = session_of g target_peer_id in
    let conn_version = unwrap_or (HashMap.get target_peer_id session.conn_bitmap_ver_map) 0 in
    let next_conn_version =
      if conn_version == 0 then unwrap_or (max_version versions) 1 else conn_version in
    let sent = record session {
      conn_bitmap_ver_map =
          HashMap.insert target_peer_id next_conn_version session.conn_bitmap_ver_map;
      last_conn_bitmap_sig = some sig;
    } in
    if is_signature session.last_conn_bitmap_sig sig
    then (record g { sessions = HashMap.insert target_peer_id session g.sessions }, none)
    else (
      record g { sessions = HashMap.insert target_peer_id sent g.sessions },
      some (record { peer_ids = versions; bitmap = bitmap }),
    )

-- `get_connected_peers_from_bitmap`: the loop over `peer_ids` from the column `idx`.
unfoldable pub connected_from : Text → ℕ → ℕ → ℕ → List PeerIdVersion → BTreeSet
connected_from bitmap n peer_idx idx [] = []
connected_from bitmap n peer_idx idx (p ∷ ps) =
    let rest = connected_from bitmap n peer_idx (suc idx) ps in
    if test_bit (peer_idx * n + idx) bitmap then BTreeSet.insert p.peer_id rest else rest

unfoldable pub get_connected_peers_from_bitmap : RouteConnBitmap → ℕ → BTreeSet
unfolding connected_from
get_connected_peers_from_bitmap b peer_idx =
    connected_from b.bitmap (length b.peer_ids) peer_idx 0 b.peer_ids
