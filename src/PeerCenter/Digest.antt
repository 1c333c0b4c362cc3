-- ===== src/PeerCenter/Digest.antt =====
-- The digest of src/peer_center.rs: the keys are sorted before they are hashed.
use easytier_wsrelay.Base.{List, [], ◌∷◌, ◌≡◌, refl, ap, ◌∙◌, arith, pair_eq}
use mathlib.Core.List.{Permᴰ}
use easytier_wsrelay.Base.HashMap
use easytier_wsrelay.Base.HashMap.{HashMap}
use easytier_wsrelay.Proto.{Externals}
use easytier_wsrelay.PeerCenter.{
  SrcDstPeerPair, PeerCenterGroupData, pair_leb, insert_pair, sort_pairs, calc_digest_internal,
}

insert_pair-insert_pair :
    (a b : SrcDstPeerPair) (xs : List SrcDstPeerPair)
    → insert_pair a (insert_pair b xs) ≡ insert_pair b (insert_pair a xs)
unfolding insert_pair pair_leb
insert_pair-insert_pair (a, a') (b, b') [] = ground arith
insert_pair-insert_pair (a, a') (b, b') ((x, x') ∷ xs) =
    ground (arith, insert_pair-insert_pair (a, a') (b, b') xs)

sort_pairs-perm : {xs ys : List SrcDstPeerPair} → Permᴰ xs ys → sort_pairs xs ≡ sort_pairs ys
unfolding sort_pairs
sort_pairs-perm Permᴰ.nil = refl
sort_pairs-perm (Permᴰ.cons e p) = cc (e, sort_pairs-perm p)
sort_pairs-perm (Permᴰ.swap {a} {b} {l} e f) = cc (e, f, insert_pair-insert_pair a b (sort_pairs l))
sort_pairs-perm (Permᴰ.trans p q) = sort_pairs-perm p ∙ sort_pairs-perm q

-- The digest does not depend on the order in which the map of a group is iterated, nor on the infos
-- and times: two groups whose connections are the same up to order have the same digest.
pub calc_digest_internal-perm :
    (ext : Externals) (g g' : PeerCenterGroupData)
    → Permᴰ (HashMap.keys g.global_peer_map) (HashMap.keys g'.global_peer_map)
    → calc_digest_internal ext g ≡ calc_digest_internal ext g'
unfolding calc_digest_internal
calc_digest_internal-perm ext g g' p = ap ext.hash_pairs (sort_pairs-perm p)
