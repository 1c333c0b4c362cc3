-- ===== src/Base/BTreeSet.antt =====
-- `BTreeSet<u32>` as an ascending list.
use Prim.Native.Nat.{ℕ, ◌<◌, ◌≤◌}
use mathlib.Core.Path.{◌≡◌, refl}
use mathlib.Core.Bool.{Bool, true, false, not, ◌||◌, ◌&&◌}
use mathlib.Core.List.{List, [], ◌∷◌, ◌++◌}
use native.Mathlib.Omega.{arith}
use easytier_wsrelay.Base.Tests.{◌==◌, ltb, if◌then◌else◌}
use easytier_wsrelay.Base.Lists.{keep}

abbrev pub BTreeSet : Type 0
BTreeSet = List ℕ

unfoldable pub contains : ℕ → BTreeSet → Bool
contains a [] = false
contains a (x ∷ xs) = (x == a) || contains a xs

unfoldable pub insert : ℕ → BTreeSet → BTreeSet
insert a [] = a ∷ []
insert a (x ∷ xs) = if ltb a x then a ∷ x ∷ xs else if a == x then x ∷ xs else x ∷ insert a xs

unfoldable pub remove : ℕ → BTreeSet → BTreeSet
remove a = keep (λ x. not (x == a))

-- `iter().collect::<BTreeSet<_>>()`.
unfoldable pub collect : List ℕ → BTreeSet
collect [] = []
collect (x ∷ xs) = insert x (collect xs)

-- Every element is above the bound, and the list ascends strictly.
abbrev pub Above : ℕ → BTreeSet → Type 0
Above b [] = Unit {0}
Above b (x ∷ xs) = (b < x) × Above x xs

abbrev pub IsAscending : BTreeSet → Type 0
IsAscending [] = Unit {0}
IsAscending (x ∷ xs) = Above x xs

pub contains-insert :
    (a b : ℕ) (xs : BTreeSet) → contains b (insert a xs) ≡ ((a == b) || contains b xs)
unfolding contains insert
contains-insert a b [] = refl
contains-insert a b (x ∷ xs) = ground (arith, contains-insert a b xs)

pub contains-remove :
    (a b : ℕ) (xs : BTreeSet) → contains b (remove a xs) ≡ (not (a == b) && contains b xs)
unfolding contains remove
contains-remove a b [] = ground arith
contains-remove a b (x ∷ xs) = ground (arith, contains-remove a b xs)

pub contains-append :
    (b : ℕ) (xs ys : List ℕ) → contains b (xs ++ ys) ≡ (contains b xs || contains b ys)
unfolding contains
contains-append b [] ys = refl
contains-append b (x ∷ xs) ys = ground (arith, contains-append b xs ys)

pub contains-collect : (b : ℕ) (xs : List ℕ) → contains b (collect xs) ≡ contains b xs
unfolding contains collect
contains-collect b [] = refl
contains-collect b (x ∷ xs) =
    ground (arith, contains-insert x b (collect xs), contains-collect b xs)

pub contains-keep :
    (p : ℕ → Bool) (b : ℕ) (xs : List ℕ) → contains b (keep p xs) ≡ (p b && contains b xs)
unfolding contains
contains-keep p b [] = ground arith
contains-keep p b (x ∷ xs) = ground (arith, contains-keep p b xs)

Above-weaken : (b c : ℕ) (xs : BTreeSet) → c ≤ b → Above b xs → Above c xs
Above-weaken b c [] h a = tt
Above-weaken b c (x ∷ xs) h a = (omega arith, a.1)

pub Above-IsAscending : (b : ℕ) (xs : BTreeSet) → Above b xs → IsAscending xs
Above-IsAscending b [] h = tt
Above-IsAscending b (x ∷ xs) h = h.1

Above-insert : (b a : ℕ) (xs : BTreeSet) → b < a → Above b xs → Above b (insert a xs)
unfolding insert
Above-insert b a [] h k = (h, tt)
Above-insert b a (x ∷ xs) h k = ground (arith, Above-insert x a xs)

pub insert-IsAscending : (a : ℕ) (xs : BTreeSet) → IsAscending xs → IsAscending (insert a xs)
unfolding insert
insert-IsAscending a [] h = tt
insert-IsAscending a (x ∷ xs) h = ground (arith, Above-insert x a xs)

pub Above-keep : (p : ℕ → Bool) (b : ℕ) (xs : BTreeSet) → Above b xs → Above b (keep p xs)
Above-keep p b [] h = tt
Above-keep p b (x ∷ xs) h =
    ground (arith, Above-keep p x xs h.1, Above-weaken x b (keep p xs) (omega arith))

pub keep-IsAscending : (p : ℕ → Bool) (xs : BTreeSet) → IsAscending xs → IsAscending (keep p xs)
keep-IsAscending p [] h = tt
keep-IsAscending p (x ∷ xs) h = ground (arith, Above-keep p x xs h, Above-IsAscending x (keep p xs))

pub remove-IsAscending : (a : ℕ) (xs : BTreeSet) → IsAscending xs → IsAscending (remove a xs)
unfolding remove
remove-IsAscending a xs h = keep-IsAscending _ xs h

pub collect-IsAscending : (xs : List ℕ) → IsAscending (collect xs)
unfolding collect
collect-IsAscending [] = tt
collect-IsAscending (x ∷ xs) = insert-IsAscending x (collect xs) (collect-IsAscending xs)

-- An element below the bound of an ascending list is not in it.
pub contains-Above : (b : ℕ) (xs : BTreeSet) → Above b xs → contains b xs ≡ false
unfolding contains
contains-Above b [] h = refl
contains-Above b (x ∷ xs) h =
    ground (arith, contains-Above b xs (Above-weaken x b xs (omega arith) h.1))

pub Above-contains : (b s : ℕ) (xs : BTreeSet) → Above b xs → contains s xs ≡ true → b < s
unfolding contains
Above-contains b s [] a h = absurd (ground arith)
Above-contains b s (x ∷ xs) a h = ground (arith, Above-contains x s xs a.1)
