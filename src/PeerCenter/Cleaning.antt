-- ===== src/PeerCenter/Cleaning.antt =====
-- The clean-up of src/peer_center.rs: which connections are left, over all groups.
use easytier_wsrelay.Base.{
  ℕ, ◌+◌, ◌*◌, ◌^◌, ◌<◌, [], ◌∷◌, Option, none, some, Bool, true, false, not, ◌&&◌, ◌||◌, Text, ltb,
  leb, ◌≡◌, ◌⊎◌, refl, sym, ap, ◌∙◌, arith, if◌then◌else◌, text_eq, nat_eq, pair_eq, Bool-cases,
  Option-cases, inl, inr,
}
use easytier_wsrelay.Base.HashMap
use easytier_wsrelay.Base.HashMap.{HashMap, IsMap, get-keep, get-map_values, map_values}
use easytier_wsrelay.Base.Words.{wrap64}
use easytier_wsrelay.Proto.Ambient.{Ambient}
use easytier_wsrelay.PeerCenter.{
  PeerCenter, PeerCenterInfoEntry, PeerCenterGroupData, group_clean, is_fresh, clean_outdated,
  calc_digest,
}

-- What is recorded of a connection of a group.
abbrev pub entry : Text → ℕ → ℕ → PeerCenter → Option PeerCenterInfoEntry
entry key s d pc = elim (HashMap.get key pc.groups) [
  | none ↦ none
  | some g ↦ HashMap.get (s, d) g.global_peer_map
]

-- A time that does not lie ahead, and less than the time to live ago.
abbrev pub is_recent : ℕ → ℕ → ℕ → Bool
is_recent now ttl_ms t = leb t now && ltb now (t + ttl_ms)

is_fresh-is_recent :
    (now ttl_ms t : ℕ)
    → now < 2 ^ 63
    → ttl_ms < 2 ^ 63
    → t < 2 ^ 63
    → is_fresh now ttl_ms t ≡ is_recent now ttl_ms t
unfolding is_fresh
is_fresh-is_recent now ttl_ms t h k l = ground arith

IsMap-map_values :
    (f : PeerCenterGroupData → PeerCenterGroupData) (m : HashMap Text PeerCenterGroupData)
    → IsMap m
    → IsMap (map_values f m)
IsMap-map_values f [] h = tt
IsMap-map_values f ((k, v) ∷ m) h =
    (ground (arith, get-map_values f k m, h.0), IsMap-map_values f m h.1)

-- A group that a clean-up leaves.
abbrev is_left : PeerCenterGroupData → Bool
is_left g = not (HashMap.is_empty g.global_peer_map) || not (HashMap.is_empty g.peer_report_time)

get-is_empty :
    (s d : ℕ) (g : PeerCenterGroupData)
    → is_left g ≡ false
    → HashMap.get (s, d) g.global_peer_map ≡ none
get-is_empty s d g h = empty g.global_peer_map (ground (arith, h))
  where
    empty :
        (m : HashMap (ℕ × ℕ) PeerCenterInfoEntry)
        → HashMap.is_empty m ≡ true
        → HashMap.get (s, d) m ≡ none
    empty [] e = unfold HashMap.get in refl
    empty (x ∷ m) e = absurd (ground (arith, e))

get-clean_outdated :
    (env : Ambient) (ttl_sec : ℕ) (key : Text) (pc : PeerCenter)
    → IsMap pc.groups
    → HashMap.get key (clean_outdated env ttl_sec pc).groups ≡ elim (HashMap.get key pc.groups) [
      | none ↦ none
      | some g ↦
          let g' = group_clean env.now_ms (wrap64 (ttl_sec * 1000)) g in
          if is_left g' then some g' else none
    ]
unfolding clean_outdated
get-clean_outdated env ttl_sec key pc h =
    let f = group_clean env.now_ms (wrap64 (ttl_sec * 1000)) in
    let kept = get-keep is_left key (map_values f pc.groups) (IsMap-map_values f pc.groups h) in
    elim (Option-cases (HashMap.get key pc.groups)) [
      | inl e ↦ rw e (rw (get-map_values f key pc.groups, e) at kept)
      | inr (g, e) ↦ rw e (rw (get-map_values f key pc.groups, e) at kept)
    ]

-- What a clean-up leaves of one entry.
abbrev pub if_recent : ℕ → ℕ → Option PeerCenterInfoEntry → Option PeerCenterInfoEntry
if_recent now ttl_ms none = none
if_recent now ttl_ms (some e) = if is_recent now ttl_ms e.update_time_ms then some e else none

get-group_clean :
    (now ttl_ms s d : ℕ) (g : PeerCenterGroupData)
    → IsMap g.global_peer_map
    → now < 2 ^ 63
    → ttl_ms < 2 ^ 63
    → ((e : PeerCenterInfoEntry)
        → HashMap.get (s, d) g.global_peer_map ≡ some e
        → e.update_time_ms < 2 ^ 63)
    → HashMap.get (s, d) (group_clean now ttl_ms g).global_peer_map
      ≡ if_recent now ttl_ms (HashMap.get (s, d) g.global_peer_map)
unfolding group_clean
get-group_clean now ttl_ms s d g h n t times =
    get-keep (λ (e : PeerCenterInfoEntry). is_fresh now ttl_ms e.update_time_ms) (s, d)
      g.global_peer_map h
    ∙ elim (Option-cases (HashMap.get (s, d) g.global_peer_map)) [
      | inl e ↦ rw e refl
      | inr (x, e) ↦ rw (e, is_fresh-is_recent now ttl_ms x.update_time_ms n t (times x e)) refl
    ]

digest-group_clean :
    (now ttl_ms : ℕ) (g : PeerCenterGroupData) → (group_clean now ttl_ms g).digest ≡ g.digest
unfolding group_clean
digest-group_clean now ttl_ms g = refl

entry-some :
    (key : Text) (s d : ℕ) (g : PeerCenterGroupData) (pc : PeerCenter)
    → HashMap.get key pc.groups ≡ some g
    → entry key s d pc ≡ HashMap.get (s, d) g.global_peer_map
entry-some key s d g pc e = rw (e, entry) refl

entry-none :
    (key : Text) (s d : ℕ) (pc : PeerCenter)
    → HashMap.get key pc.groups ≡ none
    → entry key s d pc ≡ none
entry-none key s d pc e = rw (e, entry) refl

-- For a clock, a time to live in milliseconds and a time of report below 2 ^ 63, where no group and
-- no connection of the group is recorded twice: after a clean-up of all groups, what is recorded of
-- a connection of a group is what was, if that was reported less than the time to live ago and not
-- after now, and nothing otherwise. The digest of the group stays what it was, whatever connections
-- are dropped, or the group itself is not recorded any more.
pub clean_outdated_lem :
    (env : Ambient) (ttl_sec : ℕ) (key : Text) (s d : ℕ) (pc : PeerCenter)
    → env.now_ms < 2 ^ 63
    → ttl_sec * 1000 < 2 ^ 63
    → IsMap pc.groups
    → ((g : PeerCenterGroupData) → HashMap.get key pc.groups ≡ some g → IsMap g.global_peer_map)
    → ((e : PeerCenterInfoEntry) → entry key s d pc ≡ some e → e.update_time_ms < 2 ^ 63)
    → let cleaned = clean_outdated env ttl_sec pc in
      (entry key s d cleaned ≡ if_recent env.now_ms (ttl_sec * 1000) (entry key s d pc))
      × ((calc_digest key cleaned ≡ calc_digest key pc) ⊎ (HashMap.get key cleaned.groups ≡ none))
unfolding calc_digest
clean_outdated_lem env ttl_sec key s d pc n t h hs times =
    let ttl_ms = wrap64 (ttl_sec * 1000) in
    let same : ttl_ms ≡ ttl_sec * 1000 = omega (arith, t) in
    let left = get-clean_outdated env ttl_sec key pc h in
    elim (Option-cases (HashMap.get key pc.groups)) [
      | inl e ↦
          let gone = rw e at left in
          (
            entry-none key s d (clean_outdated env ttl_sec pc) gone
                ∙ ap (if_recent env.now_ms (ttl_sec * 1000)) (sym (entry-none key s d pc e)),
            inr gone,
          )
      | inr (g, e) ↦
          let found = rw e at left in
          let cleaned = group_clean env.now_ms ttl_ms g in
          let inside =
            get-group_clean env.now_ms ttl_ms s d g (hs g e) n (rw same t) (rw (e, entry) at times)
            ∙ (ap (λ u. if_recent env.now_ms u (HashMap.get (s, d) g.global_peer_map)) same
                ∙ ap (if_recent env.now_ms (ttl_sec * 1000)) (sym (entry-some key s d g pc e))) in
          elim (Bool-cases (is_left cleaned)) [
            | inl l ↦
                let kept = rw l at found in
                (
                  entry-some key s d cleaned (clean_outdated env ttl_sec pc) kept ∙ inside,
                  inl (rw (kept, e) (digest-group_clean _ _ g)),
                )
            | inr l ↦
                let gone = rw l at found in
                (
                  entry-none key s d (clean_outdated env ttl_sec pc) gone
                      ∙ (sym (get-is_empty s d cleaned l) ∙ inside),
                  inr gone,
                )
          ]
    ]
