-- ===== src/Route/Updates.antt =====
-- Two route updates in a row from src/route_state.rs: the first is complete, the second is silent.
use easytier_wsrelay.Base.{
  ℕ, List, [], ◌∷◌, none, Bool, true, Text, ◌≡◌, refl, ap, arith, Bool-cases, inl, inr, nat_eq, map,
  unwrap_or, text_beq_refl,
}
use easytier_wsrelay.Base.HashMap
use easytier_wsrelay.Base.HashMap.{HashMap, get-insert_self}
use easytier_wsrelay.Proto.{Externals, PeerIdVersion}
use easytier_wsrelay.Route.Group.{RouteGroupData, SessionState, session_of}
use easytier_wsrelay.Route.Bitmap.{
  build_conn_bitmap, is_signature, signature, versions_of, bitmap_bytes,
}
use easytier_wsrelay.Route.Sync.{put_session}

pub session_of-put :
    (t : ℕ) (s : SessionState) (g : RouteGroupData) → session_of (put_session t s g) t ≡ s
unfolding session_of
session_of-put t s g = rw (get-insert_self t s g.sessions)

-- The signature of the bitmap that a group would send.
abbrev sig_of : Externals → List ℕ → RouteGroupData → Text
sig_of ext ps g = signature ext (versions_of g ps) (bitmap_bytes ps g.peer_connections)

abbrev pub is_signed : Externals → List ℕ → ℕ → RouteGroupData → Bool
is_signed ext ps t g = is_signature (session_of g t).last_conn_bitmap_sig (sig_of ext ps g)

-- A bitmap that is on record is not sent,
pub is_signed-quiet :
    (ext : Externals) (ps : List ℕ) (t : ℕ) (g : RouteGroupData)
    → is_signed ext ps t g ≡ true
    → (build_conn_bitmap ext ps t g).1 ≡ none
unfolding build_conn_bitmap
is_signed-quiet ext [] t g h = refl
is_signed-quiet ext (p ∷ ps) t g h = rw h

-- and is on record once it has been built, whatever has been sent before.
peer_connections-build :
    (ext : Externals) (p : ℕ) (ps : List ℕ) (t : ℕ) (g : RouteGroupData)
    → (build_conn_bitmap ext (p ∷ ps) t g).0.peer_connections ≡ g.peer_connections
unfolding build_conn_bitmap
peer_connections-build ext p ps t g = ground arith

peer_conn_versions-build :
    (ext : Externals) (p : ℕ) (ps : List ℕ) (t : ℕ) (g : RouteGroupData)
    → (build_conn_bitmap ext (p ∷ ps) t g).0.peer_conn_versions ≡ g.peer_conn_versions
unfolding build_conn_bitmap
peer_conn_versions-build ext p ps t g = ground arith

is_signature-build :
    (ext : Externals) (p : ℕ) (ps : List ℕ) (t : ℕ) (g : RouteGroupData)
    → is_signature
        (session_of (build_conn_bitmap ext (p ∷ ps) t g).0 t).last_conn_bitmap_sig
        (sig_of ext (p ∷ ps) g)
      ≡ true
unfolding build_conn_bitmap
is_signature-build ext p ps t g = elim (Bool-cases (is_signed ext (p ∷ ps) t g)) [
  | inl e ↦ rw e (rw (session_of-put t (session_of g t) g) e)
  | inr e ↦ rw (e, session_of-put t) (text_beq_refl (sig_of ext (p ∷ ps) g))
]

abbrev version_at : HashMap ℕ ℕ → ℕ → PeerIdVersion
version_at m pid = record { peer_id = pid; version = unwrap_or (HashMap.get pid m) 1 }

pub versions_of-cong :
    (ps : List ℕ) (g g' : RouteGroupData)
    → g'.peer_conn_versions ≡ g.peer_conn_versions
    → versions_of g' ps ≡ versions_of g ps
unfolding versions_of
versions_of-cong ps g g' h = ap (λ m. map (version_at m) ps) h

build_conn_bitmap-is_signed :
    (ext : Externals) (p : ℕ) (ps : List ℕ) (t : ℕ) (g : RouteGroupData)
    → is_signed ext (p ∷ ps) t (build_conn_bitmap ext (p ∷ ps) t g).0 ≡ true
build_conn_bitmap-is_signed ext p ps t g =
    let built = (build_conn_bitmap ext (p ∷ ps) t g).0 in
    rw
      (
        versions_of-cong (p ∷ ps) g built (peer_conn_versions-build ext p ps t g),
        peer_connections-build ext p ps t g,
      )
      (is_signature-build ext p ps t g)

build_nothing_twice :
    (ext : Externals) (t : ℕ) (g : RouteGroupData)
    → (build_conn_bitmap ext [] t (build_conn_bitmap ext [] t g).0).1 ≡ none
unfolding build_conn_bitmap
build_nothing_twice ext t g = refl

-- A connection bitmap is sent once: a second build for the same target and the same relevant
-- peers, right after the first, sends none.
pub build_conn_bitmap_twice :
    (ext : Externals) (ps : List ℕ) (t : ℕ) (g : RouteGroupData)
    → (build_conn_bitmap ext ps t (build_conn_bitmap ext ps t g).0).1 ≡ none
build_conn_bitmap_twice ext [] t g = build_nothing_twice ext t g
build_conn_bitmap_twice ext (p ∷ ps) t g =
    is_signed-quiet ext (p ∷ ps) t (build_conn_bitmap ext (p ∷ ps) t g).0
      (build_conn_bitmap-is_signed ext p ps t g)
