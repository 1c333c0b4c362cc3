-- ===== src/Route/BitmapEdges.antt =====
-- The loops of `build_conn_bitmap` over the stored connections, cell by cell.
use easytier_wsrelay.Base.{
  ℕ, ◌<◌, List, [], ◌∷◌, none, some, Bool, false, not, ◌||◌, ◌&&◌, Text, length, ◌==◌, ◌≡◌, arith,
  Option-cases, inl, inr, nat_eq,
}
use easytier_wsrelay.Base.HashMap
use easytier_wsrelay.Base.HashMap.{HashMap}
use easytier_wsrelay.Base.BTreeSet.{BTreeSet, contains, IsAscending}
use easytier_wsrelay.Route.Bitmap.{set_edge, set_edges_of, set_edges, idx_by_peer}
use easytier_wsrelay.Route.BitmapBits.{IsMatrix}
use easytier_wsrelay.Route.BitmapCells.{cell, set_edge-IsMatrix, cell-set_edge}
use easytier_wsrelay.Route.Index.{position, get_or-position, get-idx_by_peer}

-- Some entry of the stored connections lists `q` under `p`.
unfoldable pub reports : HashMap ℕ BTreeSet → ℕ → ℕ → Bool
reports [] p q = false
reports ((src, dsts) ∷ conns) p q = ((src == p) && contains q dsts) || reports conns p q

-- Neither of two different positions is the server's.
abbrev pub may_link : ℕ → ℕ → ℕ → Bool
may_link s i j = not (i == j) && (not (i == s) && not (j == s))

module _ (ps : BTreeSet) (s : ℕ) where
  set_edges_of-IsMatrix :
      (src : ℕ) (dsts : List ℕ) (bm : Text)
      → IsMatrix (length ps) bm
      → IsMatrix (length ps) (set_edges_of (idx_by_peer ps) (length ps) s src dsts bm)
  unfolding set_edges_of
  set_edges_of-IsMatrix src [] bm m = m
  set_edges_of-IsMatrix src (d ∷ ds) bm m = elim (Option-cases (HashMap.get d (idx_by_peer ps))) [
    | inl e ↦ rw (e, set_edges_of) (set_edges_of-IsMatrix src ds bm m)
    | inr (k, e) ↦
        rw (e, set_edges_of)
          (set_edges_of-IsMatrix src ds _ (set_edge-IsMatrix (length ps) s src k bm m))
  ]

  pub set_edges-IsMatrix :
      (conns : HashMap ℕ BTreeSet) (bm : Text)
      → IsMatrix (length ps) bm
      → IsMatrix (length ps) (set_edges (idx_by_peer ps) (length ps) s conns bm)
  unfolding set_edges
  set_edges-IsMatrix [] bm m = m
  set_edges-IsMatrix ((p, ds) ∷ conns) bm m = elim (Option-cases (HashMap.get p (idx_by_peer ps))) [
    | inl e ↦ rw (e, set_edges) (set_edges-IsMatrix conns bm m)
    | inr (k, e) ↦ rw (e, set_edges) (set_edges-IsMatrix conns _ (set_edges_of-IsMatrix k ds bm m))
  ]

-- The cells in row `i` and column `j`, where the peers `p` and `q` stand.
module _ (ps : BTreeSet) (s i j p q : ℕ) (a : IsAscending ps) (hp : position p ps ≡ some i)
    (hq : position q ps ≡ some j) where
  -- A peer that is not among the relevant ones is neither of the two.
  absent : (d : ℕ) → position d ps ≡ none → ((d == p) ≡ false) × ((d == q) ≡ false)
  absent d e = ground arith

  present :
      (d k : ℕ)
      → position d ps ≡ some k
      → (k < length ps) × ((k == i) ≡ (d == p)) × ((k == j) ≡ (d == q))
  present d k e =
      ground (arith, get_or-position d k ps e, get_or-position p i ps hp, get_or-position q j ps hq)

  cell-set_edges_of :
      (src : ℕ) (dsts : List ℕ) (bm : Text)
      → IsMatrix (length ps) bm
      → src < length ps
      → cell (length ps) (set_edges_of (idx_by_peer ps) (length ps) s src dsts bm) i j ≡ (
          (may_link s i j && (((src == i) && contains q dsts) || ((src == j) && contains p dsts)))
          || cell (length ps) bm i j)
  unfolding set_edges_of contains
  cell-set_edges_of src [] bm m h = ground arith
  cell-set_edges_of src (d ∷ ds) bm m h = elim (Option-cases (position d ps)) [
    | inl e ↦
        rw (get-idx_by_peer d ps a, e) (ground (arith, cell-set_edges_of src ds bm m h, absent d e))
    | inr (k, e) ↦
        rw (get-idx_by_peer d ps a, e)
          (ground (
            arith,
            cell-set_edges_of src ds (set_edge (length ps) s src k bm)
                (set_edge-IsMatrix (length ps) s src k bm m) h,
            cell-set_edge (length ps) s src k i j bm m h (present d k e).0
                (get_or-position p i ps hp).0 (get_or-position q j ps hq).0,
            present d k e,
          ))
  ]

  -- The loop over the stored connections sets the cells of the peers that report one another.
  pub cell-set_edges :
      (conns : HashMap ℕ BTreeSet) (bm : Text)
      → IsMatrix (length ps) bm
      → cell (length ps) (set_edges (idx_by_peer ps) (length ps) s conns bm) i j
        ≡ ((may_link s i j && (reports conns p q || reports conns q p)) || cell (length ps) bm i j)
  unfolding set_edges reports
  cell-set_edges [] bm m = ground arith
  cell-set_edges ((src, ds) ∷ conns) bm m = elim (Option-cases (position src ps)) [
    | inl e ↦
        rw (get-idx_by_peer src ps a, e) (ground (arith, cell-set_edges conns bm m, absent src e))
    | inr (k, e) ↦
        rw (get-idx_by_peer src ps a, e)
          (ground (
            arith,
            cell-set_edges conns (set_edges_of (idx_by_peer ps) (length ps) s k ds bm)
                (set_edges_of-IsMatrix ps s k ds bm m),
            cell-set_edges_of k ds bm m (present src k e).0,
            present src k e,
          ))
  ]
