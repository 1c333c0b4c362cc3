-- ===== src/Route/BitmapLaws.antt =====
-- What the connection bitmap of src/route_state.rs says, and what a reader of it learns.
use easytier_wsrelay.Base.{
  Bool-cases, ◌∙◌, All, ℕ, suc, ◌+◌, ◌*◌, ◌<◌, List, [], ◌∷◌, none, some, Bool, true, false, ◌||◌,
  ◌&&◌, Text, length, ◌==◌, ◌≡◌, refl, arith, inl, inr, replicate, ◌/◌, length-map, nat_eq,
}
use easytier_wsrelay.Base.HashMap
use easytier_wsrelay.Base.HashMap.{HashMap}
use easytier_wsrelay.Base.BTreeSet.{
  BTreeSet, contains, IsAscending, Above-IsAscending, contains-insert, contains-Above,
}
use easytier_wsrelay.Constants.{my_peer_id}
use easytier_wsrelay.Route.Group.{RouteGroupData}
use easytier_wsrelay.Route.Bitmap.{
  bitmap_bytes, versions_of, connected_from, get_connected_peers_from_bitmap, set_diagonal,
  set_server, range, idx_by_peer, set_edges, test_bit,
}
use easytier_wsrelay.Route.BitmapBits.{IsMatrix, test_bit-blank}
use easytier_wsrelay.Route.BitmapCells.{
  cell, blank-IsMatrix, set_diagonal-IsMatrix, cell-set_diagonal, set_server-IsMatrix,
  cell-set_server, range-below, contains-range,
}
use easytier_wsrelay.Route.BitmapEdges.{reports, cell-set_edges}
use easytier_wsrelay.Route.Index.{
  position, position-exists, get_or-position, get-idx_by_peer, contains-position,
}

-- The links that a bitmap is to show: a peer to itself, the server to everyone, and two peers of
-- which one has reported the other.
unfoldable pub linked : HashMap ℕ BTreeSet → ℕ → ℕ → Bool
linked conns p q =
    (p == q)
    || ((p == my_peer_id) || ((q == my_peer_id) || (reports conns p q || reports conns q p)))

cell-blank : (n i j : ℕ) → cell n (replicate ((n * n + 7) / 8) 0) i j ≡ false
unfolding cell
cell-blank n i j = test_bit-blank ((n * n + 7) / 8) (i * n + j)

module _ (ps : BTreeSet) (conns : HashMap ℕ BTreeSet) (a : IsAscending ps)
    (server : contains my_peer_id ps ≡ true) where
  drawn_bytes :
      (s : ℕ)
      → HashMap.get my_peer_id (idx_by_peer ps) ≡ some s
      → bitmap_bytes ps conns
        ≡ set_edges (idx_by_peer ps) (length ps) s conns (
            set_server (length ps) s (range 0 (length ps)) (
              set_diagonal
                (length ps)
                (range 0 (length ps))
                (replicate ((length ps * length ps + 7) / 8) 0)))
  unfolding bitmap_bytes
  drawn_bytes s e = rw (e, bitmap_bytes)

  cell-drawn :
      (s i j p q : ℕ)
      → position my_peer_id ps ≡ some s
      → position p ps ≡ some i
      → position q ps ≡ some j
      → cell (length ps) (bitmap_bytes ps conns) i j ≡ linked conns p q
  unfolding linked
  cell-drawn s i j p q hs hp hq = rw (drawn_bytes s (get-idx_by_peer my_peer_id ps a ∙ hs)) (
      ground (
        arith,
        cell-set_edges ps s i j p q a hp hq conns served
            (set_server-IsMatrix n s (range 0 n) diagonal drawn),
        cell-set_server n s (range 0 n) i j diagonal drawn below s_fits i_fits j_fits,
        cell-set_diagonal n (range 0 n) i j blank (blank-IsMatrix n) below i_fits j_fits,
        contains-range n 0 i (omega arith) (omega (arith, i_fits)),
        contains-range n 0 j (omega arith) (omega (arith, j_fits)),
        cell-blank n i j,
        get_or-position p i ps hp,
        get_or-position q j ps hq,
        get_or-position my_peer_id s ps hs,
      ))
    where
      n : ℕ
      n = length ps

      blank : Text
      blank = replicate ((n * n + 7) / 8) 0

      diagonal : Text
      diagonal = set_diagonal n (range 0 n) blank

      served : Text
      served = set_server n s (range 0 n) diagonal

      drawn : IsMatrix n diagonal
      drawn = set_diagonal-IsMatrix n (range 0 n) blank (blank-IsMatrix n)

      below : All (λ i. i < n) (range 0 n)
      below = range-below n 0 n (omega arith)

      s_fits : s < n
      s_fits = (get_or-position my_peer_id s ps hs).0

      i_fits : i < n
      i_fits = (get_or-position p i ps hp).0

      j_fits : j < n
      j_fits = (get_or-position q j ps hq).0

  -- In the bitmap for an ascending list of peers with the server among them, the bit in the row of
  -- one listed peer and the column of another is set exactly if the two are linked.
  pub cell-bitmap_bytes :
      (i j p q : ℕ)
      → position p ps ≡ some i
      → position q ps ≡ some j
      → cell (length ps) (bitmap_bytes ps conns) i j ≡ linked conns p q
  cell-bitmap_bytes i j p q hp hq =
      let (s, hs) = position-exists my_peer_id ps server in cell-drawn s i j p q hs hp hq

length-versions : (g : RouteGroupData) (ps : List ℕ) → length (versions_of g ps) ≡ length ps
unfolding versions_of
length-versions g ps = length-map _ ps

contains-connected_from :
    (g : RouteGroupData) (bm : Text) (n row k q : ℕ) (xs : BTreeSet)
    → IsAscending xs
    → contains q (connected_from bm n row k (versions_of g xs))
      ≡ elim (position q xs) [ none ↦ false | some t ↦ test_bit (row * n + (k + t)) bm ]
unfolding connected_from versions_of position contains
contains-connected_from g bm n row k q [] a = refl
contains-connected_from g bm n row k q (x ∷ xs) a = ground (
  arith,
  contains-connected_from g bm n row (suc k) q xs (Above-IsAscending x xs a),
  contains-insert x q (connected_from bm n row (suc k) (versions_of g xs)),
  contains-position q xs,
  contains-Above x xs a,
)

-- For an ascending list of peers with the server among them, the row of a listed peer, read back
-- from the bitmap that the server sends, is the set of the listed peers that are linked to it.
pub contains-get_connected :
    (g : RouteGroupData) (ps : BTreeSet) (conns : HashMap ℕ BTreeSet) (i p q : ℕ)
    → IsAscending ps
    → contains my_peer_id ps ≡ true
    → position p ps ≡ some i
    → contains q (
        get_connected_peers_from_bitmap
          (record { peer_ids = versions_of g ps; bitmap = bitmap_bytes ps conns })
          i)
      ≡ (contains q ps && linked conns p q)
unfolding get_connected_peers_from_bitmap cell
contains-get_connected g ps conns i p q a server hp = elim (Bool-cases (contains q ps)) [
  | inl t ↦
      let (j, hq) = position-exists q ps t in
      rw (length-versions g ps) (
        ground (
          arith,
          contains-connected_from g (bitmap_bytes ps conns) (length ps) i 0 q ps a,
          hq,
          cell-bitmap_bytes ps conns a server i j p q hp hq,
        ))
  | inr f ↦ rw (length-versions g ps) (
      ground (
        arith,
        contains-connected_from g (bitmap_bytes ps conns) (length ps) i 0 q ps a,
        contains-position q ps f,
      ))
]
