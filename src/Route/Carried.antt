-- ===== src/Route/Carried.antt =====
-- What one route update of src/route_state.rs carries: the infos, and the links of its bitmap.
use Prim.Native.Nat.{max}
use mathlib.Core.Path.{fun_ext, subst}
use easytier_wsrelay.Base.{
  ℕ, ◌≤◌, List, [], ◌∷◌, some, Bool, ◌||◌, ◌&&◌, ◌==◌, ◌≡◌, refl, ap, ◌∙◌, arith, if◌then◌else◌,
  Bool-cases, inl, inr, nat_eq, ltb, map, unwrap_or, option_map, keep,
}
use easytier_wsrelay.Base.HashMap
use easytier_wsrelay.Base.HashMap.{HashMap, get-insert, contains_key}
use easytier_wsrelay.Base.BTreeSet.{BTreeSet, contains, Above, IsAscending, Above-IsAscending}
use easytier_wsrelay.Constants.{my_peer_id}
use easytier_wsrelay.Proto.{PeerIdVersion, RoutePeerInfo, RouteConnBitmap, Externals, conn_bitmap}
use easytier_wsrelay.Proto.Ambient.{Ambient}
use easytier_wsrelay.Route.Group.{RouteGroupData, session_of}
use easytier_wsrelay.Route.Sync.{
  with_stub, info_of, pick_info, pick_infos, make_stub_peer_info, all_peers, relevant_peers,
  group_build_sync, is_full, non_empty, touch_session,
}
use easytier_wsrelay.Route.Picks.{is_sent, get-with_stub}
use easytier_wsrelay.Route.Updates.{is_signed}
use easytier_wsrelay.Route.SameSent.{touch-SameSent}
use easytier_wsrelay.Route.Bitmap.{
  build_conn_bitmap, bitmap_bytes, versions_of, get_connected_peers_from_bitmap,
}
use easytier_wsrelay.Route.BitmapLaws.{linked, contains-get_connected}
use easytier_wsrelay.Route.Index.{position}
use easytier_wsrelay.Route.Relevant.{relevant_peers_lem, all_peers-IsAscending, contains-all_peers}

-- The info of a peer, or a stub for one that has none.
unfoldable pub info_or_stub :
    Ambient → ℕ → RoutePeerInfo → HashMap ℕ RoutePeerInfo → ℕ → RoutePeerInfo
info_or_stub env net_len my_info infos p =
    if p == my_peer_id
    then my_info
    else unwrap_or (HashMap.get p infos) (make_stub_peer_info env p net_len)

-- The info of a peer is newer than the version that is on record, or all are asked for.
unfoldable pub is_news : Bool → HashMap ℕ ℕ → (ℕ → RoutePeerInfo) → ℕ → Bool
is_news force vers info p = force || ltb (unwrap_or (HashMap.get p vers) 0) (max (info p).version 1)

-- What is put on record for a smaller peer does not matter.
keep_news-insert :
    (force : Bool) (vers : HashMap ℕ ℕ) (info : ℕ → RoutePeerInfo) (pid v b : ℕ) (pids : BTreeSet)
    → Above b pids
    → pid ≤ b
    → keep (is_news force (HashMap.insert pid v vers) info) pids
      ≡ keep (is_news force vers info) pids
unfolding is_news
keep_news-insert force vers info pid v b [] a h = refl
keep_news-insert force vers info pid v b (x ∷ xs) a h =
    let rest = keep_news-insert force vers info pid v x xs a.1 (omega (arith, a.0, h)) in
    let same : HashMap.get x (HashMap.insert pid v vers) ≡ HashMap.get x vers =
      ground (arith, a.0, h, get-insert pid x v vers) in
    rw (same, rest) refl

module _ (env : Ambient) (net_len : ℕ) (my_info : RoutePeerInfo) where
  info_or_stub-with_stub :
      (pid : ℕ) (infos : HashMap ℕ RoutePeerInfo)
      → info_or_stub env net_len my_info (with_stub env net_len pid infos)
        ≡ info_or_stub env net_len my_info infos
  unfolding info_or_stub
  info_or_stub-with_stub pid infos =
      fun_ext λ p. ground (arith, get-with_stub env net_len pid p infos)

  info_of-with_stub :
      (pid : ℕ) (infos : HashMap ℕ RoutePeerInfo)
      → info_of my_info (with_stub env net_len pid infos) pid
        ≡ info_or_stub env net_len my_info infos pid
  unfolding info_of info_or_stub
  info_of-with_stub pid infos = ground (arith, get-with_stub env net_len pid pid infos)

  is_sent-is_news :
      (force : Bool) (pid : ℕ) (infos : HashMap ℕ RoutePeerInfo) (vers : HashMap ℕ ℕ)
      → is_sent env force net_len my_info (with_stub env net_len pid infos) vers pid
        ≡ is_news force vers (info_or_stub env net_len my_info infos) pid
  unfolding is_news
  is_sent-is_news force pid infos vers = rw (info_of-with_stub pid infos) (ground arith)

  -- The loop picks the news about an ascending list of peers, in order.
  items-pick_info :
      (force : Bool) (pids : BTreeSet) (infos : HashMap ℕ RoutePeerInfo) (vers : HashMap ℕ ℕ)
      → IsAscending pids
      → let info = info_or_stub env net_len my_info infos in
        (pick_info env force net_len my_info infos vers pids).items
        ≡ map info (keep (is_news force vers info) pids)
  unfolding pick_info
  items-pick_info force [] infos vers a = refl
  items-pick_info force (pid ∷ pids) infos vers a =
      let infos' = with_stub env net_len pid infos in
      let rest = λ (vers' : HashMap ℕ ℕ).
        items-pick_info force pids infos' vers' (Above-IsAscending pid pids a) in
      let info = info_or_stub env net_len my_info infos in
      let rest' = rw (info_or_stub-with_stub pid infos) at rest in
      elim (Bool-cases (is_news force vers info pid)) [
        | inl t ↦
            rw
              (
                is_sent-is_news force pid infos vers,
                t,
                info_of-with_stub pid infos,
                rest',
                keep_news-insert force vers info pid (max (info pid).version 1) pid pids a
                    (omega arith),
              )
              refl
        | inr f ↦ rw (is_sent-is_news force pid infos vers, f, rest' vers) refl
      ]

all_peers-touch :
    (env : Ambient) (t sid : ℕ) (g : RouteGroupData)
    → all_peers (touch_session env t sid g) t ≡ all_peers g t
unfolding all_peers touch_session
all_peers-touch env t sid g = refl

is_full-touch :
    (env : Ambient) (t sid : ℕ) (force : Bool) (g : RouteGroupData)
    → is_full force (touch_session env t sid g) t ≡ is_full force g t
unfolding is_full
is_full-touch env t sid force g = rw (touch-SameSent env t sid g).acked refl

-- The infos that an update is to carry.
abbrev pub news : Ambient → ℕ → Bool → RouteGroupData → List RoutePeerInfo
news env t force g =
    let info = info_or_stub env (max g.my_info.network_length 1) g.my_info g.peer_infos in
    map info
      (keep (is_news (is_full force g t) (session_of g t).peer_info_ver_map info) (all_peers g t))

pick_infos-news :
    (env : Ambient) (force : Bool) (t : ℕ) (g : RouteGroupData)
    → IsAscending g.peers
    → (pick_infos env (is_full force g t) t g).1 ≡ news env t force g
unfolding pick_infos
pick_infos-news env force t g a = rw (relevant_peers_lem g t a) (
    items-pick_info env (max g.my_info.network_length 1) g.my_info (is_full force g t)
      (all_peers g t) g.peer_infos (session_of g t).peer_info_ver_map (all_peers-IsAscending g t a))

-- The bitmap that a group would send about some peers.
abbrev pub drawn : RouteGroupData → List ℕ → RouteConnBitmap
drawn g ps = record { peer_ids = versions_of g ps; bitmap = bitmap_bytes ps g.peer_connections }

-- A bitmap that is sent is this one.
conn_info-drawn :
    (ext : Externals) (ps : List ℕ) (t : ℕ) (g : RouteGroupData) (b : RouteConnBitmap)
    → option_map conn_bitmap (build_conn_bitmap ext ps t g).1 ≡ some (conn_bitmap b)
    → drawn g ps ≡ b
unfolding build_conn_bitmap
conn_info-drawn ext [] t g b h = absurd (ground (arith, h))
conn_info-drawn ext (p ∷ ps) t g b h = elim (Bool-cases (is_signed ext (p ∷ ps) t g)) [
  | inl e ↦ absurd (ground (arith, (rw e at h)))
  | inr e ↦ cc (rw e at h)
]

peer_ids-versions :
    (g : RouteGroupData) (ps : List ℕ)
    → map (λ (v : PeerIdVersion). v.peer_id) (versions_of g ps) ≡ ps
unfolding versions_of
peer_ids-versions g [] = refl
peer_ids-versions g (p ∷ ps) = ap (λ qs. p ∷ qs) (peer_ids-versions g ps)

connections-pick_infos :
    (env : Ambient) (force : Bool) (t : ℕ) (g : RouteGroupData)
    → (pick_infos env force t g).0.peer_connections ≡ g.peer_connections
unfolding pick_infos
connections-pick_infos env force t g = refl

module _ (ext : Externals) (env : Ambient) (t sid : ℕ) (init force : Bool)
    (g : RouteGroupData) where
  -- For a group whose peers ascend, a route update carries of the online peers, the server and the
  -- target, in ascending order, the info or the stub of each one whose version, or 1 where that is 0,
  -- is above the one that the session has on record, and of all of them where the update is forced
  -- or the target has not acknowledged its session. Where that is nothing, it carries no infos.
  pub group_build_sync-news :
      IsAscending g.peers
      → (group_build_sync ext env t sid init force g).1.peer_infos ≡ non_empty (news env t force g)
  unfolding group_build_sync
  group_build_sync-news a =
      let g₁ = touch_session env t sid g in
      let e = touch-SameSent env t sid g in
      let carried = pick_infos-news env force t g₁ (rw e.online a) in
      rw carried (
        rw
          (
            is_full-touch env t sid force g,
            all_peers-touch env t sid g,
            e.sent_versions,
            e.mine,
            e.infos,
          )
          refl)

  -- For a group whose peers ascend, a bitmap that a route update carries is about the online peers,
  -- the server and the target, in ascending order, and the row of one of them, read back, is the set
  -- of those that are linked to it.
  pub group_build_sync-linked :
      (b : RouteConnBitmap) (i p q : ℕ)
      → IsAscending g.peers
      → (group_build_sync ext env t sid init force g).1.conn_info ≡ some (conn_bitmap b)
      → position p (all_peers g t) ≡ some i
      → (map (λ (v : PeerIdVersion). v.peer_id) b.peer_ids ≡ all_peers g t)
        × (contains q (get_connected_peers_from_bitmap b i)
            ≡ (contains q (all_peers g t) && linked g.peer_connections p q))
  unfolding group_build_sync
  group_build_sync-linked b i p q a sent hp =
      let g₁ = touch_session env t sid g in
      let e = touch-SameSent env t sid g in
      let picked = (pick_infos env (is_full force g₁ t) t g₁).0 in
      let same : drawn picked (all_peers g t) ≡ b = rw (all_peers-touch env t sid g) at (
        rw (relevant_peers_lem g₁ t (rw e.online a)) at
          (conn_info-drawn ext (relevant_peers g₁ t) t picked b sent)) in
      let kept = connections-pick_infos env (is_full force g₁ t) t g₁ ∙ e.connections in
      subst
        (λ b.
          (map (λ (v : PeerIdVersion). v.peer_id) b.peer_ids ≡ all_peers g t)
          × (contains q (get_connected_peers_from_bitmap b i)
              ≡ (contains q (all_peers g t) && linked g.peer_connections p q)))
        same
        (
          peer_ids-versions picked (all_peers g t),
          rw kept (
              contains-get_connected picked (all_peers g t) g.peer_connections i p q
                (all_peers-IsAscending g t a) (ground (arith, contains-all_peers g t my_peer_id))
                hp),
        )
