-- ===== src/Route/Picks.antt =====
-- The loop of `build_sync_route_info_request` that picks the infos to send.
use Prim.Native.Nat.{max}
use easytier_wsrelay.Base.{
  ℕ, ◌≤◌, List, [], ◌∷◌, some, Bool, true, false, not, ◌||◌, ◌&&◌, ◌==◌, ◌≡◌, refl, arith,
  if◌then◌else◌, Bool-cases, inl, inr, nat_eq, ltb, is_some, unwrap_or, All,
}
use easytier_wsrelay.Base.HashMap
use easytier_wsrelay.Base.HashMap.{HashMap, get-insert, contains_key}
use easytier_wsrelay.Constants.{my_peer_id}
use easytier_wsrelay.Proto.{RoutePeerInfo}
use easytier_wsrelay.Proto.Ambient.{Ambient}
use easytier_wsrelay.Route.Sync.{with_stub, info_of, pick_info, make_stub_peer_info}

module _ (env : Ambient) (force : Bool) (net_len : ℕ) (my_info : RoutePeerInfo) where
  -- One round.
  abbrev pub pick_version : HashMap ℕ RoutePeerInfo → ℕ → ℕ
  pick_version infos pid = max (info_of my_info infos pid).version 1

  abbrev pub is_sent : HashMap ℕ RoutePeerInfo → HashMap ℕ ℕ → ℕ → Bool
  is_sent infos vers pid =
      force
      || ltb (if force then 0 else unwrap_or (HashMap.get pid vers) 0) (pick_version infos pid)

  abbrev pub next_vers : HashMap ℕ RoutePeerInfo → HashMap ℕ ℕ → ℕ → HashMap ℕ ℕ
  next_vers infos vers pid =
      if is_sent infos vers pid then HashMap.insert pid (pick_version infos pid) vers else vers

-- Everything about a peer has been sent: it has an info, and its version is on record.
abbrev pub IsServed : RoutePeerInfo → HashMap ℕ RoutePeerInfo → HashMap ℕ ℕ → ℕ → Type 0
IsServed my_info infos vers p =
    (max (info_of my_info infos p).version 1 ≤ unwrap_or (HashMap.get p vers) 0)
    × (((p == my_peer_id) || is_some (HashMap.get p infos)) ≡ true)

module _ (env : Ambient) (net_len : ℕ) where
  pub get-with_stub :
      (pid p : ℕ) (infos : HashMap ℕ RoutePeerInfo)
      → HashMap.get p (with_stub env net_len pid infos) ≡ (
          if (pid == p) && (not (pid == my_peer_id) && not (is_some (HashMap.get pid infos)))
          then some (make_stub_peer_info env pid net_len)
          else HashMap.get p infos)
  unfolding with_stub contains_key
  get-with_stub pid p infos =
      ground (arith, get-insert pid p (make_stub_peer_info env pid net_len) infos)

  module _ (my_info : RoutePeerInfo) where
    -- A peer with an info keeps it.
    info_of-with_stub :
        (pid p : ℕ) (infos : HashMap ℕ RoutePeerInfo)
        → ((p == my_peer_id) || is_some (HashMap.get p infos)) ≡ true
        → (info_of my_info (with_stub env net_len pid infos) p ≡ info_of my_info infos p)
          × (((p == my_peer_id) || is_some (HashMap.get p (with_stub env net_len pid infos)))
              ≡ true)
    unfolding info_of
    info_of-with_stub pid p infos h = ground (arith, get-with_stub pid p infos)

    -- The peer of the round has one afterwards.
    with_stub_present :
        (pid : ℕ) (infos : HashMap ℕ RoutePeerInfo)
        → ((pid == my_peer_id) || is_some (HashMap.get pid (with_stub env net_len pid infos)))
          ≡ true
    with_stub_present pid infos = ground (arith, get-with_stub pid pid infos)

    -- A round serves its peer.
    round-IsServed :
        (force : Bool) (pid : ℕ) (infos : HashMap ℕ RoutePeerInfo) (vers : HashMap ℕ ℕ)
        → let infos' = with_stub env net_len pid infos in
          IsServed my_info infos' (next_vers env force net_len my_info infos' vers pid) pid
    round-IsServed force pid infos vers = (
      ground (
        arith,
        get-insert pid pid
            (pick_version env force net_len my_info (with_stub env net_len pid infos) pid) vers,
      ),
      with_stub_present pid infos,
    )

    -- A round leaves a served peer served.
    keeps-IsServed :
        (force : Bool) (pid p : ℕ) (infos : HashMap ℕ RoutePeerInfo) (vers : HashMap ℕ ℕ)
        → IsServed my_info infos vers p
        → let infos' = with_stub env net_len pid infos in
          IsServed my_info infos' (next_vers env force net_len my_info infos' vers pid) p
    keeps-IsServed force pid p infos vers h = ground (
      arith,
      h,
      info_of-with_stub pid p infos h.1,
      get-insert pid p
          (pick_version env force net_len my_info (with_stub env net_len pid infos) pid) vers,
    )

    -- So the loop leaves a served peer served.
    pick-keeps :
        (force : Bool) (pids : List ℕ) (p : ℕ) (infos : HashMap ℕ RoutePeerInfo)
        (vers : HashMap ℕ ℕ)
        → IsServed my_info infos vers p
        → let r = pick_info env force net_len my_info infos vers pids in
          IsServed my_info r.peer_infos r.peer_info_ver_map p
    unfolding pick_info
    pick-keeps force [] p infos vers h = h
    pick-keeps force (pid ∷ pids) p infos vers h =
        pick-keeps force pids p _ _ (keeps-IsServed force pid p infos vers h)

    -- After the loop, each peer that it went through has an info or is the server, and the version
    -- on record for it is at least the one to be sent.
    pub pick-IsServed :
        (force : Bool) (pids : List ℕ) (infos : HashMap ℕ RoutePeerInfo) (vers : HashMap ℕ ℕ)
        → let r = pick_info env force net_len my_info infos vers pids in
          All (IsServed my_info r.peer_infos r.peer_info_ver_map) pids
    unfolding pick_info
    pick-IsServed force [] infos vers = tt
    pick-IsServed force (pid ∷ pids) infos vers = (
      pick-keeps force pids pid _ _ (round-IsServed force pid infos vers),
      pick-IsServed force pids _ _,
    )

    with_stub_id :
        (pid : ℕ) (infos : HashMap ℕ RoutePeerInfo)
        → ((pid == my_peer_id) || is_some (HashMap.get pid infos)) ≡ true
        → with_stub env net_len pid infos ≡ infos
    unfolding with_stub contains_key
    with_stub_id pid infos h = ground arith

    -- Where everything about the peers has been sent, a loop that is not forced picks nothing and
    -- changes nothing.
    pub pick-served :
        (pids : List ℕ) (infos : HashMap ℕ RoutePeerInfo) (vers : HashMap ℕ ℕ)
        → All (IsServed my_info infos vers) pids
        → pick_info env false net_len my_info infos vers pids
          ≡ record { items = []; peer_infos = infos; peer_info_ver_map = vers }
    unfolding pick_info
    pick-served [] infos vers h = refl
    pick-served (pid ∷ pids) infos vers h =
        elim (Bool-cases (is_sent env false net_len my_info infos vers pid)) [
          | inl t ↦ absurd (ground (arith, h.0))
          | inr f ↦ rw (with_stub_id pid infos h.0.1) (rw (f, pick-served pids infos vers h.1))
        ]
