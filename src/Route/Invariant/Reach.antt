-- ===== src/Route/Invariant/Reach.antt =====
-- The states of src/route_state.rs that its public operations reach.
use mathlib.Core.Path.{subst}
use mathlib.Core.Option.{some-injective}
use easytier_wsrelay.Base.{
  sym, ◌∙◌, ℕ, [], some, Bool, false, Text, ◌≡◌, arith, if◌then◌else◌, Option-cases, Bool-cases,
  inl, inr, text_eq, text_beq, unwrap_or,
}
use easytier_wsrelay.Base.HashMap
use easytier_wsrelay.Base.HashMap.{HashMap, get-insert}
use easytier_wsrelay.Proto.{Externals}
use easytier_wsrelay.Proto.Ambient.{Ambient}
use easytier_wsrelay.Route.Group.{RouteGroupData, RouteState, new, ensure_group, put_group}
use easytier_wsrelay.Route.Peers.{
  add_peer, remove_peer, update_peer_info, on_route_session_ack, bump_my_info_version,
  set_my_info_field, write_field,
}
use easytier_wsrelay.Route.ConnInfo.{
  update_peer_connections_from_conn_info, cleanup_stale_peer_connections,
}
use easytier_wsrelay.Route.Sync.{build_sync_route_info_request, handle_sync_route_info_request}
use easytier_wsrelay.Route.Invariant.{
  IsWellFormed, SameCore-IsWellFormed, new_group-IsWellFormed, add_peer-IsWellFormed,
  remove_peer-IsWellFormed, update_info-IsWellFormed,
}
use easytier_wsrelay.Route.Invariant.Updates.{
  session_ack-SameCore, bump_my_info-IsWellFormed, write_field-IsWellFormed,
  update_connections-IsWellFormed, cleanup-IsWellFormed, build_sync-SameCore, handle_sync-SameCore,
}

-- One call of a public operation that is not about who is online, with any clock, draws and
-- arguments,
pub data Update (ext : Externals) (env : Ambient) (key : Text) (s : RouteState)
    : RouteState → Type 0 where
  updates :
      (p : ℕ) (bytes : Text)
      → Update ext env key s (unwrap_or (update_peer_info ext env key p bytes s) (s, false)).0
  acks :
      (p sid : ℕ) (init : Bool) → Update ext env key s (on_route_session_ack env key p sid init s)
  bumps : Update ext env key s (bump_my_info_version env key s)
  sets : (field value : Text) → Update ext env key s (set_my_info_field ext env key field value s).0
  connects :
      (p : ℕ) (bytes : Text)
      → Update ext env key s (update_peer_connections_from_conn_info ext env key p bytes s).0
  builds :
      (p sid : ℕ) (init force : Bool)
      → Update ext env key s (build_sync_route_info_request ext env key p sid init force s).0
  handles :
      (p : ℕ) (bytes : Text)
      → Update ext env key s
          (unwrap_or (handle_sync_route_info_request ext env key p bytes s) (s, [])).0
  cleans : (t : ℕ) → Update ext env key s (cleanup_stale_peer_connections env key t s)

-- and of any.
pub data Step (ext : Externals) (env : Ambient) (key : Text) (s : RouteState)
    : RouteState → Type 0 where
  adds : (p : ℕ) → Step ext env key s (add_peer env key p s)
  removes : (p : ℕ) → Step ext env key s (remove_peer env key p s)
  changes : (t : RouteState) → Update ext env key s t → Step ext env key s t

pub data Reach (ext : Externals) : RouteState → Type 0 where
  start : Reach ext new
  next :
      (env : Ambient) (key : Text) (s t : RouteState)
      → Reach ext s
      → Step ext env key s t
      → Reach ext t

abbrev pub AllWellFormed : RouteState → Type 0
AllWellFormed s =
    (key : Text) (g : RouteGroupData) → HashMap.get key s.groups ≡ some g → IsWellFormed g

pub ensure_group-IsWellFormed :
    (env : Ambient) (s : RouteState) (key : Text)
    → AllWellFormed s
    → IsWellFormed (ensure_group env s key)
unfolding ensure_group
ensure_group-IsWellFormed env s key w = elim (Option-cases (HashMap.get key s.groups)) [
  | inl e ↦ rw e (new_group-IsWellFormed env key)
  | inr (g, e) ↦ rw e (w key g e)
]

pub put_group-AllWellFormed :
    (key : Text) (g : RouteGroupData) (s : RouteState)
    → IsWellFormed g
    → AllWellFormed s
    → AllWellFormed (put_group key g s)
unfolding put_group
put_group-AllWellFormed key g s v w k h e = elim (Bool-cases (text_beq key k)) [
  | inl t ↦ subst IsWellFormed (some-injective g h (rw t at found)) v
  | inr f ↦ w k h (rw f at found)
]
  where
    found : (if text_beq key k then some g else HashMap.get k s.groups) ≡ some h
    found = sym (get-insert key k g s.groups) ∙ e

module _ (ext : Externals) (env : Ambient) (key : Text) (s : RouteState) (w : AllWellFormed s) where
  fits : IsWellFormed (ensure_group env s key)
  fits = ensure_group-IsWellFormed env s key w

  keeps : (g : RouteGroupData) → IsWellFormed g → AllWellFormed (put_group key g s)
  keeps g v = put_group-AllWellFormed key g s v w

  updates-AllWellFormed :
      (p : ℕ) (bytes : Text)
      → AllWellFormed (unwrap_or (update_peer_info ext env key p bytes s) (s, false)).0
  unfolding update_peer_info
  updates-AllWellFormed p bytes = elim (Option-cases (ext.route_peer_info.decode bytes)) [
    | inl e ↦ rw e w
    | inr (info, e) ↦ rw e (keeps _ (update_info-IsWellFormed p info _ fits))
  ]

  sets-AllWellFormed :
      (field value : Text) → AllWellFormed (set_my_info_field ext env key field value s).0
  unfolding set_my_info_field
  sets-AllWellFormed field value =
      elim (Option-cases (write_field ext field value (ensure_group env s key).my_info)) [
        | inl e ↦ rw (e, set_my_info_field) (keeps _ fits)
        | inr (info, e) ↦
            rw (e, set_my_info_field)
              (keeps _ (write_field-IsWellFormed ext field value _ info e fits))
      ]

  connects-AllWellFormed :
      (p : ℕ) (bytes : Text)
      → AllWellFormed (update_peer_connections_from_conn_info ext env key p bytes s).0
  unfolding update_peer_connections_from_conn_info
  connects-AllWellFormed p bytes = elim (Option-cases (ext.sync_route_info_request.decode bytes)) [
    | inl e ↦ rw (e, update_peer_connections_from_conn_info) w
    | inr (req, e) ↦
        rw (e, update_peer_connections_from_conn_info)
          (keeps _ (update_connections-IsWellFormed p req.conn_info _ fits))
  ]

  handles-AllWellFormed :
      (p : ℕ) (bytes : Text)
      → AllWellFormed (unwrap_or (handle_sync_route_info_request ext env key p bytes s) (s, [])).0
  unfolding handle_sync_route_info_request
  handles-AllWellFormed p bytes = elim (Option-cases (ext.sync_route_info_request.decode bytes)) [
    | inl e ↦ rw e w
    | inr (req, e) ↦
        rw e (keeps _ (SameCore-IsWellFormed _ _ (handle_sync-SameCore env p req _) fits))
  ]

  pub Update-AllWellFormed : (t : RouteState) → Update ext env key s t → AllWellFormed t
  unfolding on_route_session_ack bump_my_info_version build_sync_route_info_request
      cleanup_stale_peer_connections
  Update-AllWellFormed t (updates p bytes) = updates-AllWellFormed p bytes
  Update-AllWellFormed t (acks p sid init) =
      keeps _ (SameCore-IsWellFormed _ _ (session_ack-SameCore env p sid init _) fits)
  Update-AllWellFormed t bumps = keeps _ (bump_my_info-IsWellFormed _ fits)
  Update-AllWellFormed t (sets field value) = sets-AllWellFormed field value
  Update-AllWellFormed t (connects p bytes) = connects-AllWellFormed p bytes
  Update-AllWellFormed t (builds p sid init force) =
      keeps _ (SameCore-IsWellFormed _ _ (build_sync-SameCore ext env p sid init force _) fits)
  Update-AllWellFormed t (handles p bytes) = handles-AllWellFormed p bytes
  Update-AllWellFormed t (cleans n) = keeps _ (cleanup-IsWellFormed env n _ fits)

  pub Step-AllWellFormed : (t : RouteState) → Step ext env key s t → AllWellFormed t
  unfolding add_peer remove_peer
  Step-AllWellFormed t (adds p) = keeps _ (add_peer-IsWellFormed p _ fits)
  Step-AllWellFormed t (removes p) = keeps _ (remove_peer-IsWellFormed env p _ fits)
  Step-AllWellFormed t (changes u st) = Update-AllWellFormed u st

-- Every group of every state that the public operations reach from the empty one is well formed:
-- its peers ascend, the server's own info carries the server's id and the version that the group
-- counts, no peer that is online has a removal time, and no stored connection joins a peer to
-- itself or to the server.
Reach-IsWellFormed :
    (ext : Externals) (s : RouteState)
    → Reach ext s
    → (key : Text) (g : RouteGroupData) → HashMap.get key s.groups ≡ some g
    → IsWellFormed g
unfolding new HashMap.get
Reach-IsWellFormed ext s start key g e = absurd (ground arith)
Reach-IsWellFormed ext s (next env k r t before st) key g e =
    Step-AllWellFormed ext env k r (Reach-IsWellFormed ext r before) t st key g e
