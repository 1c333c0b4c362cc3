-- ===== src/Route/Relevant.antt =====
-- The peers that a route update of src/route_state.rs is about, and the infos that it carries.
use easytier_wsrelay.Base.{
  ℕ, ◌≤◌, List, [], ◌∷◌, true, not, ◌||◌, ◌==◌, ◌≡◌, refl, ap, sym, ◌∙◌, arith, Bool-cases, inl,
  inr, nat_eq, keep,
}
use easytier_wsrelay.Base.BTreeSet
use easytier_wsrelay.Base.BTreeSet.{
  BTreeSet, contains, IsAscending, Above, Above-IsAscending, insert-IsAscending, contains-insert,
  contains-Above, keep-IsAscending, Above-keep, Above-contains,
}
use easytier_wsrelay.Constants.{my_peer_id}
use easytier_wsrelay.Route.Group.{RouteGroupData}
use easytier_wsrelay.Route.Sync.{insert_sorted, sort, all_peers, relevant_peers}

-- Sorting an ascending list changes nothing, with or without one of its elements in front.
sort-id : (xs : BTreeSet) → IsAscending xs → sort xs ≡ xs
unfolding sort
sort-id [] a = refl
sort-id (x ∷ []) a = refl
sort-id (x ∷ y ∷ ys) a = rw (sort-id (y ∷ ys) a.1) (ground arith)

keep-all : (s b : ℕ) (xs : BTreeSet) → Above b xs → s ≤ b → keep (λ p. not (p == s)) xs ≡ xs
keep-all s b [] a h = refl
keep-all s b (x ∷ xs) a h = ground (arith, keep-all s x xs a.1)

insert_sorted-front : (s b : ℕ) (xs : BTreeSet) → Above b xs → s ≤ b → insert_sorted s xs ≡ s ∷ xs
unfolding insert_sorted
insert_sorted-front s b [] a h = refl
insert_sorted-front s b (x ∷ xs) a h = ground arith

-- One step of `sort-front`, with the rest of the list done.
sort-front_step :
    (s x : ℕ) (xs : BTreeSet)
    → Above x xs
    → contains s (x ∷ xs) ≡ true
    → (contains s xs ≡ true → insert_sorted s (keep (λ p. not (p == s)) xs) ≡ xs)
    → sort (s ∷ keep (λ p. not (p == s)) (x ∷ xs)) ≡ x ∷ xs
unfolding sort contains
sort-front_step s x xs a h later = elim (Bool-cases (x == s)) [
  | inl t ↦
      rw (t, keep-all s x xs a (ground arith), sort-id xs (Above-IsAscending x xs a))
        (ground (arith, insert_sorted-front s x xs a))
  | inr f ↦
      rw (f, sort-id rest rest_ascends, insert_sorted-front x x rest rest_above (omega arith))
        (ground (arith, later, Above-contains x s xs a))
]
  where
    rest : List ℕ
    rest = keep (λ p. not (p == s)) xs

    rest_ascends : IsAscending rest
    rest_ascends = keep-IsAscending _ xs (Above-IsAscending x xs a)

    rest_above : Above x rest
    rest_above = Above-keep _ x xs a

sort-front :
    (s : ℕ) (xs : BTreeSet)
    → IsAscending xs
    → contains s xs ≡ true
    → sort (s ∷ keep (λ p. not (p == s)) xs) ≡ xs
unfolding sort
sort-front s [] a h = absurd (unfold contains in ground arith)
sort-front s (x ∷ xs) a h = sort-front_step s x xs a h λ c.
    ap (insert_sorted s) (sym (sort-id rest (keep-IsAscending _ xs (Above-IsAscending x xs a))))
    ∙ sort-front s xs (Above-IsAscending x xs a) c
  where
    rest : List ℕ
    rest = keep (λ p. not (p == s)) xs

pub all_peers-IsAscending :
    (g : RouteGroupData) (t : ℕ) → IsAscending g.peers → IsAscending (all_peers g t)
unfolding all_peers
all_peers-IsAscending g t a =
    insert-IsAscending t (BTreeSet.insert my_peer_id g.peers)
      (insert-IsAscending my_peer_id g.peers a)

pub contains-all_peers :
    (g : RouteGroupData) (t p : ℕ)
    → contains p (all_peers g t) ≡ ((t == p) || ((my_peer_id == p) || contains p g.peers))
unfolding all_peers
contains-all_peers g t p = ground (
  arith,
  contains-insert t p (BTreeSet.insert my_peer_id g.peers),
  contains-insert my_peer_id p g.peers,
)

-- For a group whose peers ascend, the relevant peers are the online ones with the server and the
-- target, in ascending order.
pub relevant_peers_lem :
    (g : RouteGroupData) (t : ℕ) → IsAscending g.peers → relevant_peers g t ≡ all_peers g t
unfolding relevant_peers
relevant_peers_lem g t a =
    sort-front my_peer_id (all_peers g t) (all_peers-IsAscending g t a)
      (ground (arith, contains-all_peers g t my_peer_id))
