-- ===== src/Route/Steps.antt =====
-- Several calls of the operations of src/route_state.rs on one group, as a client's message makes them.
use easytier_wsrelay.Base.{
  ℕ, [], false, Text, unwrap_or, ◌≡◌, refl, ◌∙◌, text_beq, text_eq, arith, Option-cases, inl, inr,
}
use easytier_wsrelay.Base.HashMap
use easytier_wsrelay.Base.HashMap.{HashMap, get-insert}
use easytier_wsrelay.Proto.{Externals}
use easytier_wsrelay.Proto.Ambient.{Ambient}
use easytier_wsrelay.Route.Group.{RouteState, RouteGroupData, put_group}
use easytier_wsrelay.Route.Peers.{
  update_peer_info, on_route_session_ack, bump_my_info_version, set_my_info_field, write_field,
}
use easytier_wsrelay.Route.ConnInfo.{
  update_peer_connections_from_conn_info, cleanup_stale_peer_connections,
}
use easytier_wsrelay.Route.Sync.{build_sync_route_info_request, handle_sync_route_info_request}
use easytier_wsrelay.Route.Group.{ensure_group}
use easytier_wsrelay.Route.Invariant.Reach.{
  Update, updates, acks, bumps, sets, connects, builds, handles, cleans, AllWellFormed,
  Update-AllWellFormed,
}

pub data Steps (ext : Externals) (env : Ambient) (key : Text) (s : RouteState)
    : RouteState → Type 0 where
  done : Steps ext env key s s
  after :
      (t u : RouteState) → Steps ext env key s t → Update ext env key t u → Steps ext env key s u

-- Every entry but that of one key is the same in both maps.
abbrev pub SameBut {ℓ} : {V : Type ℓ} → Text → HashMap Text V → HashMap Text V → Type ℓ
SameBut key m m' =
    (other : Text) → text_beq key other ≡ false → HashMap.get other m' ≡ HashMap.get other m

pub SameBut-insert {ℓ} :
    {V : Type ℓ} (key : Text) (v : V) (m : HashMap Text V) → SameBut key m (HashMap.insert key v m)
SameBut-insert key v m other h = ground (arith, h, get-insert key other v m)

abbrev pub Stays : Text → RouteState → RouteState → Type 0
Stays key s s' = SameBut key s.groups s'.groups

module _ (ext : Externals) (env : Ambient) (key : Text) where
  one : (s t : RouteState) → Update ext env key s t → Steps ext env key s t
  one s t st = after s t done st

  pub append-Steps :
      (s t u : RouteState) → Steps ext env key s t → Steps ext env key t u → Steps ext env key s u
  append-Steps s t u p done = p
  append-Steps s t u p (after v w q st) = after v u (append-Steps s t v p q) st

  pub Steps-AllWellFormed :
      (s t : RouteState) → AllWellFormed s → Steps ext env key s t → AllWellFormed t
  Steps-AllWellFormed s t w done = w
  Steps-AllWellFormed s t w (after u v p st) =
      Update-AllWellFormed ext env key u (Steps-AllWellFormed s u w p) t st

  module _ (s : RouteState) where
    pub put-Stays : (g : RouteGroupData) → Stays key s (put_group key g s)
    unfolding put_group
    put-Stays g = SameBut-insert key g s.groups

    updates-Stays :
        (p : ℕ) (bytes : Text)
        → Stays key s (unwrap_or (update_peer_info ext env key p bytes s) (s, false)).0
    unfolding update_peer_info
    updates-Stays p bytes = elim (Option-cases (ext.route_peer_info.decode bytes)) [
      | inl e ↦ rw e (λ other o. refl)
      | inr (info, e) ↦ rw e (put-Stays _)
    ]

    sets-Stays : (field value : Text) → Stays key s (set_my_info_field ext env key field value s).0
    unfolding set_my_info_field
    sets-Stays field value =
        elim (Option-cases (write_field ext field value (ensure_group env s key).my_info)) [
          | inl e ↦ rw (e, set_my_info_field) (put-Stays _)
          | inr (info, e) ↦ rw (e, set_my_info_field) (put-Stays _)
        ]

    connects-Stays :
        (p : ℕ) (bytes : Text)
        → Stays key s (update_peer_connections_from_conn_info ext env key p bytes s).0
    unfolding update_peer_connections_from_conn_info
    connects-Stays p bytes = elim (Option-cases (ext.sync_route_info_request.decode bytes)) [
      | inl e ↦ rw (e, update_peer_connections_from_conn_info) (λ other o. refl)
      | inr (req, e) ↦ rw (e, update_peer_connections_from_conn_info) (put-Stays _)
    ]

    handles-Stays :
        (p : ℕ) (bytes : Text)
        → Stays key s (unwrap_or (handle_sync_route_info_request ext env key p bytes s) (s, [])).0
    unfolding handle_sync_route_info_request
    handles-Stays p bytes = elim (Option-cases (ext.sync_route_info_request.decode bytes)) [
      | inl e ↦ rw e (λ other o. refl)
      | inr (req, e) ↦ rw e (put-Stays _)
    ]

    Update-Stays : (t : RouteState) → Update ext env key s t → Stays key s t
    unfolding on_route_session_ack bump_my_info_version build_sync_route_info_request
        cleanup_stale_peer_connections
    Update-Stays t (updates p bytes) = updates-Stays p bytes
    Update-Stays t (acks p sid init) = put-Stays _
    Update-Stays t bumps = put-Stays _
    Update-Stays t (sets field value) = sets-Stays field value
    Update-Stays t (connects p bytes) = connects-Stays p bytes
    Update-Stays t (builds p sid init force) = put-Stays _
    Update-Stays t (handles p bytes) = handles-Stays p bytes
    Update-Stays t (cleans n) = put-Stays _

  -- Calls on one group leave every other group as it is.
  pub Steps-Stays : (s t : RouteState) → Steps ext env key s t → Stays key s t
  Steps-Stays s t done = λ other o. refl
  Steps-Stays s t (after u v p st) =
      λ other o. Update-Stays u t st other o ∙ Steps-Stays s u p other o
