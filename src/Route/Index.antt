-- ===== src/Route/Index.antt =====
-- The position of a peer in the list of relevant peers, and the map `idx_by_peer`.
use easytier_wsrelay.Base.{
  ℕ, zero, suc, ◌+◌, ◌<◌, List, [], ◌∷◌, Option, none, some, true, false, ◌==◌, ◌≡◌, refl, arith,
  length, get_or, option_map, nat_eq, if◌then◌else◌, Bool-cases, inl, inr,
}
use easytier_wsrelay.Base.HashMap
use easytier_wsrelay.Base.HashMap.{HashMap, get-insert}
use easytier_wsrelay.Base.BTreeSet.{
  BTreeSet, contains, contains-Above, Above, IsAscending, Above-IsAscending,
}
use easytier_wsrelay.Route.Bitmap.{index_from, idx_by_peer}

unfoldable pub position : ℕ → List ℕ → Option ℕ
position p [] = none
position p (x ∷ xs) = if x == p then some 0 else option_map suc (position p xs)

pub contains-position : (p : ℕ) (xs : List ℕ) → contains p xs ≡ false → position p xs ≡ none
unfolding contains position
contains-position p [] h = refl
contains-position p (x ∷ xs) h = ground (arith, contains-position p xs)

-- A found position is one at which the peer stands.
pub get_or-position :
    (p i : ℕ) (xs : List ℕ) → position p xs ≡ some i → (i < length xs) × (get_or xs i 0 ≡ p)
unfolding position
get_or-position p i [] h = absurd (ground arith)
get_or-position p zero (x ∷ xs) h = ground arith
get_or-position p (suc i) (x ∷ xs) h = ground (arith, get_or-position p i xs)

pub position-exists :
    (p : ℕ) (xs : List ℕ) → contains p xs ≡ true → (i : ℕ) × (position p xs ≡ some i)
unfolding contains position
position-exists p [] h = absurd (ground arith)
position-exists p (x ∷ xs) h = elim (Bool-cases (x == p)) [
  | inl t ↦ (0, rw t)
  | inr f ↦ let (i, e) = position-exists p xs (ground arith) in (suc i, rw f (rw e))
]

Above-get_or : (b i : ℕ) (xs : BTreeSet) → Above b xs → i < length xs → b < get_or xs i 0
Above-get_or b i [] a h = absurd (omega arith)
Above-get_or b zero (x ∷ xs) a h = a.0
Above-get_or b (suc i) (x ∷ xs) a h = omega (arith, Above-get_or x i xs a.1 (omega arith), a.0)

-- In an ascending list every peer stands at one position only.
pub position-get_or :
    (i : ℕ) (xs : BTreeSet) → IsAscending xs → i < length xs → position (get_or xs i 0) xs ≡ some i
unfolding position
position-get_or i [] a h = absurd (omega arith)
position-get_or zero (x ∷ xs) a h = ground arith
position-get_or (suc i) (x ∷ xs) a h = ground (
  arith,
  position-get_or i xs (Above-IsAscending x xs a) (omega arith),
  Above-get_or x i xs a (omega arith),
)

get-index_from :
    (k p : ℕ) (xs : BTreeSet) (m : HashMap ℕ ℕ)
    → IsAscending xs
    → HashMap.get p (index_from k xs m)
      ≡ elim (position p xs) [ none ↦ HashMap.get p m | some i ↦ some (k + i) ]
unfolding index_from position
get-index_from k p [] m a = refl
get-index_from k p (x ∷ xs) m a = ground (
  arith,
  get-index_from (suc k) p xs (HashMap.insert x k m) (Above-IsAscending x xs a),
  get-insert x p k m,
  contains-position p xs,
  contains-Above x xs a,
)

-- The map holds each peer's position.
pub get-idx_by_peer :
    (p : ℕ) (xs : BTreeSet) → IsAscending xs → HashMap.get p (idx_by_peer xs) ≡ position p xs
unfolding idx_by_peer HashMap.get
get-idx_by_peer p xs a = ground (arith, get-index_from 0 p xs [] a)
