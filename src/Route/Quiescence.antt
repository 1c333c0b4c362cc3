-- ===== src/Route/Quiescence.antt =====
-- Two route updates of src/route_state.rs in a row: the second one is silent.
use Prim.Native.Nat.{max}
use easytier_wsrelay.Base.{
  ℕ, List, [], ◌∷◌, none, Bool, true, false, ◌≡◌, refl, ◌∙◌, All, is_some, nat_eq, Bool-cases, inl,
  inr,
}
use easytier_wsrelay.Proto.{Externals}
use easytier_wsrelay.Proto.Ambient.{Ambient}
use easytier_wsrelay.Route.Group.{RouteGroupData, session_of}
use easytier_wsrelay.Route.Bitmap.{build_conn_bitmap}
use easytier_wsrelay.Route.Sync.{
  touch_session, is_full, pick_info, pick_infos, group_build_sync, relevant_peers, all_peers,
}
use easytier_wsrelay.Route.Invariant.Updates.{build_conn_bitmap-SameCore}
use easytier_wsrelay.Route.Picks.{IsServed, pick-IsServed, pick-served}
use easytier_wsrelay.Route.Updates.{session_of-put, is_signed, build_conn_bitmap_twice}
use easytier_wsrelay.Route.SameSent.{
  SameSent, put-SameSent, touch-SameSent, bump-SameSent, build-SameSent,
}

-- Everything about the relevant peers has been sent to a target, their connections included.
record IsUpToDate (ext : Externals) (t : ℕ) (g : RouteGroupData) : Type 0 where
  served :
      All (IsServed g.my_info g.peer_infos (session_of g t).peer_info_ver_map) (relevant_peers g t)
  unsent : (build_conn_bitmap ext (relevant_peers g t) t g).1 ≡ none

relevant_peers-cong :
    (t : ℕ) (g h : RouteGroupData) → h.peers ≡ g.peers → relevant_peers h t ≡ relevant_peers g t
unfolding relevant_peers all_peers
relevant_peers-cong t g h e = rw e refl

SameSent-IsUpToDate :
    (ext : Externals) (t : ℕ) (g h : RouteGroupData)
    → SameSent t g h
    → IsUpToDate ext t g
    → IsUpToDate ext t h
SameSent-IsUpToDate ext t g h e u = record {
  served = rw (relevant_peers-cong t g h e.online, e.sent_versions, e.mine, e.infos) u.served;
  unsent =
      rw (relevant_peers-cong t g h e.online)
        (build-SameSent ext (relevant_peers g t) t g h e u.unsent);
}

-- A bitmap that is built leaves what has been sent of the infos.
IsServed-build :
    (ext : Externals) (ps qs : List ℕ) (t : ℕ) (g : RouteGroupData)
    → All (IsServed g.my_info g.peer_infos (session_of g t).peer_info_ver_map) qs
    → let h = (build_conn_bitmap ext ps t g).0 in
      All (IsServed h.my_info h.peer_infos (session_of h t).peer_info_ver_map) qs
unfolding build_conn_bitmap
IsServed-build ext [] qs t g w = w
IsServed-build ext (p ∷ ps) qs t g w = elim (Bool-cases (is_signed ext (p ∷ ps) t g)) [
  | inl e ↦ rw e (rw (session_of-put t (session_of g t) g) w)
  | inr e ↦ rw (e, session_of-put t) w
]

-- The loop over the infos serves the relevant peers.
IsServed-pick_infos :
    (env : Ambient) (force : Bool) (t : ℕ) (g : RouteGroupData)
    → let h = (pick_infos env force t g).0 in
      All (IsServed h.my_info h.peer_infos (session_of h t).peer_info_ver_map) (relevant_peers g t)
unfolding pick_infos
IsServed-pick_infos env force t g =
    let net_len = max g.my_info.network_length 1 in
    let vers = (session_of g t).peer_info_ver_map in
    let r = pick_info env force net_len g.my_info g.peer_infos vers (relevant_peers g t) in
    let session = record (session_of g t) { peer_info_ver_map = r.peer_info_ver_map } in
    rw (session_of-put t session (record g { peer_infos = r.peer_infos }))
      (pick-IsServed env net_len g.my_info force (relevant_peers g t) g.peer_infos vers)

peers-pick_infos :
    (env : Ambient) (force : Bool) (t : ℕ) (g : RouteGroupData)
    → (pick_infos env force t g).0.peers ≡ g.peers
unfolding pick_infos
peers-pick_infos env force t g = refl

-- After both, everything has been sent.
build-IsUpToDate :
    (ext : Externals) (env : Ambient) (force : Bool) (t : ℕ) (g : RouteGroupData)
    → let picked = (pick_infos env force t g).0 in
      IsUpToDate ext t (build_conn_bitmap ext (relevant_peers g t) t picked).0
build-IsUpToDate ext env force t g =
    let ps = relevant_peers g t in
    let picked = (pick_infos env force t g).0 in
    let built = (build_conn_bitmap ext ps t picked).0 in
    let same : relevant_peers built t ≡ ps =
      relevant_peers-cong t g built
        ((build_conn_bitmap-SameCore ext ps t picked).peers ∙ peers-pick_infos env force t g) in
    record {
      served = rw same (IsServed-build ext ps ps t picked (IsServed-pick_infos env force t g));
      unsent = rw same (build_conn_bitmap_twice ext ps t picked);
    }

-- Where everything has been sent, an update that is not forced sends nothing of it.
silent :
    (ext : Externals) (env : Ambient) (t : ℕ) (g : RouteGroupData)
    → IsUpToDate ext t g
    → let r = pick_infos env false t g in
      (r.1 ≡ []) × ((build_conn_bitmap ext (relevant_peers g t) t r.0).1 ≡ none)
unfolding pick_infos
silent ext env t g u =
    let vers = (session_of g t).peer_info_ver_map in
    rw
      (pick-served env (max g.my_info.network_length 1) g.my_info (relevant_peers g t) g.peer_infos
        vers u.served)
      (
        refl,
        build-SameSent ext (relevant_peers g t) t g _
            (put-SameSent t (session_of g t) g refl refl refl) u.unsent,
      )

acked-pick_infos :
    (env : Ambient) (force : Bool) (t : ℕ) (g : RouteGroupData)
    → (session_of (pick_infos env force t g).0 t).dst_session_id ≡ (session_of g t).dst_session_id
unfolding pick_infos
acked-pick_infos env force t g =
    let net_len = max g.my_info.network_length 1 in
    let vers = (session_of g t).peer_info_ver_map in
    let r = pick_info env force net_len g.my_info g.peer_infos vers (relevant_peers g t) in
    let session = record (session_of g t) { peer_info_ver_map = r.peer_info_ver_map } in
    rw (session_of-put t session (record g { peer_infos = r.peer_infos })) refl

acked-build :
    (ext : Externals) (ps : List ℕ) (t : ℕ) (g : RouteGroupData)
    → (session_of (build_conn_bitmap ext ps t g).0 t).dst_session_id
      ≡ (session_of g t).dst_session_id
unfolding build_conn_bitmap
acked-build ext [] t g = refl
acked-build ext (p ∷ ps) t g = elim (Bool-cases (is_signed ext (p ∷ ps) t g)) [
  | inl e ↦ rw e (rw (session_of-put t (session_of g t) g) refl)
  | inr e ↦ rw (e, session_of-put t) refl
]

module _ (ext : Externals) (env : Ambient) (t sid : ℕ) (init force : Bool)
    (g : RouteGroupData) where
  group_build_sync-IsUpToDate : IsUpToDate ext t (group_build_sync ext env t sid init force g).0
  unfolding group_build_sync
  group_build_sync-IsUpToDate =
      let g₁ = touch_session env t sid g in
      SameSent-IsUpToDate ext t _ _ (bump-SameSent t _)
        (build-IsUpToDate ext env (is_full force g₁ t) t g₁)

  acked-group_build_sync :
      (session_of (group_build_sync ext env t sid init force g).0 t).dst_session_id
      ≡ (session_of g t).dst_session_id
  unfolding group_build_sync
  acked-group_build_sync =
      let g₁ = touch_session env t sid g in
      let ps = relevant_peers g₁ t in
      (bump-SameSent t _).acked
      ∙ acked-build ext ps t (pick_infos env (is_full force g₁ t) t g₁).0
      ∙ acked-pick_infos env (is_full force g₁ t) t g₁
      ∙ (touch-SameSent env t sid g).acked

group_build_sync-silent :
    (ext : Externals) (env : Ambient) (t sid : ℕ) (init : Bool) (g : RouteGroupData)
    → IsUpToDate ext t g
    → is_some (session_of g t).dst_session_id ≡ true
    → let r = group_build_sync ext env t sid init false g in
      (r.1.peer_infos ≡ none) × (r.1.conn_info ≡ none)
unfolding group_build_sync is_full
group_build_sync-silent ext env t sid init g u a =
    let g₁ = touch_session env t sid g in
    let e = touch-SameSent env t sid g in
    let quiet = silent ext env t g₁ (SameSent-IsUpToDate ext t g g₁ e u) in
    rw (e.acked, a) (rw (quiet.0, quiet.1) (refl, refl))

-- Where the target has acknowledged its session, a route update that is not forced and follows
-- another one, forced or not, sends no infos and no connection bitmap: everything has been sent.
pub group_build_sync_twice :
    (ext : Externals) (env env' : Ambient) (t sid sid' : ℕ) (init init' force : Bool)
    (g : RouteGroupData)
    → is_some (session_of g t).dst_session_id ≡ true
    → let second =
        group_build_sync ext env' t sid' init' false
          (group_build_sync ext env t sid init force g).0 in
      (second.1.peer_infos ≡ none) × (second.1.conn_info ≡ none)
group_build_sync_twice ext env env' t sid sid' init init' force g a =
    group_build_sync-silent ext env' t sid' init' (group_build_sync ext env t sid init force g).0
      (group_build_sync-IsUpToDate ext env t sid init force g)
      (rw (acked-group_build_sync ext env t sid init force g) a)
