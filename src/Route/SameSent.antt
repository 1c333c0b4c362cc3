-- ===== src/Route/SameSent.antt =====
-- Groups of src/route_state.rs in which a target has been sent the same.
use easytier_wsrelay.Base.{ℕ, List, [], ◌∷◌, none, ◌≡◌, refl, arith, nat_eq, Bool-cases, inl, inr}
use easytier_wsrelay.Proto.{Externals}
use easytier_wsrelay.Proto.Ambient.{Ambient}
use easytier_wsrelay.Route.Group.{RouteGroupData, SessionState, session_of}
use easytier_wsrelay.Route.Bitmap.{build_conn_bitmap}
use easytier_wsrelay.Route.Sync.{put_session, touch_session, bump_foreign}
use easytier_wsrelay.Route.Updates.{session_of-put, is_signed, is_signed-quiet, versions_of-cong}

-- Two groups in which a target has been sent the same, of the same data.
pub record SameSent (t : ℕ) (g h : RouteGroupData) : Type 0 where
  pub last_sig : (session_of h t).last_conn_bitmap_sig ≡ (session_of g t).last_conn_bitmap_sig
  pub sent_versions : (session_of h t).peer_info_ver_map ≡ (session_of g t).peer_info_ver_map
  pub acked : (session_of h t).dst_session_id ≡ (session_of g t).dst_session_id
  pub conn_versions : h.peer_conn_versions ≡ g.peer_conn_versions
  pub connections : h.peer_connections ≡ g.peer_connections
  pub infos : h.peer_infos ≡ g.peer_infos
  pub mine : h.my_info ≡ g.my_info
  pub online : h.peers ≡ g.peers

pub put-SameSent :
    (t : ℕ) (s : SessionState) (g : RouteGroupData)
    → s.last_conn_bitmap_sig ≡ (session_of g t).last_conn_bitmap_sig
    → s.peer_info_ver_map ≡ (session_of g t).peer_info_ver_map
    → s.dst_session_id ≡ (session_of g t).dst_session_id
    → SameSent t g (put_session t s g)
put-SameSent t s g a b c = record {
  last_sig = rw (session_of-put t s g) a;
  sent_versions = rw (session_of-put t s g) b;
  acked = rw (session_of-put t s g) c;
  conn_versions = refl;
  connections = refl;
  infos = refl;
  mine = refl;
  online = refl;
}

pub touch-SameSent :
    (env : Ambient) (t sid : ℕ) (g : RouteGroupData) → SameSent t g (touch_session env t sid g)
unfolding touch_session
touch-SameSent env t sid g = put-SameSent t _ g refl refl refl

pub bump-SameSent : (t : ℕ) (g : RouteGroupData) → SameSent t g (bump_foreign t g).0
unfolding bump_foreign
bump-SameSent t g = put-SameSent t _ g refl refl refl

-- Whether a bitmap would be sent depends on these data.
pub build-SameSent :
    (ext : Externals) (ps : List ℕ) (t : ℕ) (g h : RouteGroupData)
    → SameSent t g h
    → (build_conn_bitmap ext ps t g).1 ≡ none
    → (build_conn_bitmap ext ps t h).1 ≡ none
unfolding build_conn_bitmap
build-SameSent ext [] t g h e n = refl
build-SameSent ext (p ∷ ps) t g h e n = elim (Bool-cases (is_signed ext (p ∷ ps) t g)) [
  | inl s ↦
      is_signed-quiet ext (p ∷ ps) t h
        (rw (e.last_sig, versions_of-cong (p ∷ ps) g h e.conn_versions, e.connections) s)
  | inr s ↦ absurd (ground (arith, n, s))
]
