-- ===== src/Route/BitmapCells.antt =====
-- The cells of the connection bitmap after each of the loops that fill it.
use native.Mathlib.Nat.{mul-add-div_right, div-eq_of_lt}
use easytier_wsrelay.Base.{
  ap, ℕ, zero, suc, ◌+◌, ◌*◌, ◌/◌, ◌<◌, ◌≤◌, List, [], ◌∷◌, Bool, true, not, ◌||◌, ◌&&◌, Text,
  replicate, ◌==◌, ◌≡◌, arith, All, length-replicate, Bool-cases, inl, inr,
}
use easytier_wsrelay.Base.BTreeSet.{contains}
use easytier_wsrelay.Route.Bitmap.{test_bit, set_bit, range, set_diagonal, set_server, set_edge}
use easytier_wsrelay.Route.BitmapBits.{
  IsMatrix, set_bit_at-IsByte, length-set_bit_at, test_bit-set_bit_at, blank-IsByte,
}

-- The bit in row `r` and column `c` of a matrix of `n` columns.
unfoldable pub cell : ℕ → Text → ℕ → ℕ → Bool
cell n bm r c = test_bit (r * n + c) bm

cell_fits : (n r c : ℕ) → r < n → c < n → (r * n + c) / 8 < (n * n + 7) / 8
cell_fits n r c hr hc = let below : r * n + c < n * n = grind arith in omega arith

-- Different cells have different positions.
row_of : (n r c i j : ℕ) → c < n → j < n → r * n + c ≡ i * n + j → r ≡ i
row_of n r c i j hc hj e = omega (
  arith,
  mul-add-div_right {m = n} (omega arith) r c,
  mul-add-div_right {m = n} (omega arith) i j,
  ap (λ t. t / n) e,
  div-eq_of_lt hc,
  div-eq_of_lt hj,
)

module _ (n : ℕ) where
  pub blank-IsMatrix : IsMatrix n (replicate ((n * n + 7) / 8) 0)
  blank-IsMatrix = record {
    bytes = blank-IsByte ((n * n + 7) / 8);
    sized = length-replicate ((n * n + 7) / 8) 0;
  }

  pub set_bit-IsMatrix : (r c : ℕ) (bm : Text) → IsMatrix n bm → IsMatrix n (set_bit n r c bm)
  unfolding set_bit
  set_bit-IsMatrix r c bm m = record {
    bytes = set_bit_at-IsByte (r * n + c) bm m.bytes;
    sized = omega (arith, length-set_bit_at (r * n + c) bm, m.sized);
  }

  pub cell-set_bit :
      (r c i j : ℕ) (bm : Text)
      → IsMatrix n bm
      → r < n
      → c < n
      → i < n
      → j < n
      → cell n (set_bit n r c bm) i j ≡ (((r == i) && (c == j)) || cell n bm i j)
  unfolding cell set_bit
  cell-set_bit r c i j bm m hr hc hi hj = ground (
    arith,
    test_bit-set_bit_at (r * n + c) (i * n + j) bm m.bytes
        (omega (arith, m.sized, cell_fits n r c hr hc)),
    row_of n r c i j,
  )

  pub set_diagonal-IsMatrix :
      (is : List ℕ) (bm : Text) → IsMatrix n bm → IsMatrix n (set_diagonal n is bm)
  unfolding set_diagonal
  set_diagonal-IsMatrix [] bm m = m
  set_diagonal-IsMatrix (i ∷ is) bm m =
      set_diagonal-IsMatrix is (set_bit n i i bm) (set_bit-IsMatrix i i bm m)

  pub cell-set_diagonal :
      (is : List ℕ) (i j : ℕ) (bm : Text)
      → IsMatrix n bm
      → All (λ k. k < n) is
      → i < n
      → j < n
      → cell n (set_diagonal n is bm) i j ≡ (((i == j) && contains i is) || cell n bm i j)
  unfolding set_diagonal contains
  cell-set_diagonal [] i j bm m a hi hj = ground arith
  cell-set_diagonal (k ∷ is) i j bm m a hi hj = ground (
    arith,
    cell-set_diagonal is i j (set_bit n k k bm) (set_bit-IsMatrix k k bm m) a.1 hi hj,
    cell-set_bit k k i j bm m a.0 a.0 hi hj,
  )

  pub set_server-IsMatrix :
      (s : ℕ) (is : List ℕ) (bm : Text) → IsMatrix n bm → IsMatrix n (set_server n s is bm)
  unfolding set_server
  set_server-IsMatrix s [] bm m = m
  set_server-IsMatrix s (i ∷ is) bm m = elim (Bool-cases (i == s)) [
    | inl t ↦ rw t (set_server-IsMatrix s is bm m)
    | inr f ↦ rw f (set_server-IsMatrix s is _ (set_bit-IsMatrix i s _ (set_bit-IsMatrix s i bm m)))
  ]

  pub cell-set_server :
      (s : ℕ) (is : List ℕ) (i j : ℕ) (bm : Text)
      → IsMatrix n bm
      → All (λ k. k < n) is
      → s < n
      → i < n
      → j < n
      → cell n (set_server n s is bm) i j ≡ (
          (((i == s) && (not (j == s) && contains j is))
            || ((j == s) && (not (i == s) && contains i is)))
          || cell n bm i j)
  unfolding set_server contains
  cell-set_server s [] i j bm m a hs hi hj = ground arith
  cell-set_server s (k ∷ is) i j bm m a hs hi hj = elim (Bool-cases (k == s)) [
    | inl t ↦ rw t (ground (arith, cell-set_server s is i j bm m a.1 hs hi hj))
    | inr f ↦ rw f (
        ground (
          arith,
          cell-set_server s is i j (set_bit n k s (set_bit n s k bm))
              (set_bit-IsMatrix k s _ (set_bit-IsMatrix s k bm m)) a.1 hs hi hj,
          cell-set_bit k s i j (set_bit n s k bm) (set_bit-IsMatrix s k bm m) a.0 hs hi hj,
          cell-set_bit s k i j bm m hs a.0 hi hj,
        ))
  ]

  pub set_edge-IsMatrix : (s a b : ℕ) (bm : Text) → IsMatrix n bm → IsMatrix n (set_edge n s a b bm)
  unfolding set_edge
  set_edge-IsMatrix s a b bm m =
      ground (arith, set_bit-IsMatrix b a (set_bit n a b bm), set_bit-IsMatrix a b bm m)

  -- An edge between two different peers that are not the server sets two cells.
  pub cell-set_edge :
      (s a b i j : ℕ) (bm : Text)
      → IsMatrix n bm
      → a < n
      → b < n
      → i < n
      → j < n
      → cell n (set_edge n s a b bm) i j ≡ (
          ((not (a == b) && (not (a == s) && not (b == s)))
            && (((i == a) && (j == b)) || ((i == b) && (j == a))))
          || cell n bm i j)
  unfolding set_edge
  cell-set_edge s a b i j bm m ha hb hi hj = ground (
    arith,
    cell-set_bit b a i j (set_bit n a b bm) (set_bit-IsMatrix a b bm m) hb ha hi hj,
    cell-set_bit a b i j bm m ha hb hi hj,
  )

pub range-below : (k start n : ℕ) → start + k ≤ n → All (λ i. i < n) (range start k)
range-below zero start n h = tt
range-below (suc k) start n h = (omega arith, range-below k (suc start) n (omega arith))

pub contains-range : (k start i : ℕ) → start ≤ i → i < start + k → contains i (range start k) ≡ true
unfolding contains
contains-range zero start i h l = absurd (omega arith)
contains-range (suc k) start i h l = ground (arith, contains-range k (suc start) i)
