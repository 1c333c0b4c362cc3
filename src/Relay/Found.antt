-- ===== src/Relay/Found.antt =====
-- The first socket of a peer, which src/relay_room.rs looks for to pass a packet on.
use easytier_wsrelay.Base.{
  ℕ, List, [], ◌∷◌, ◌++◌, Option, none, some, Bool, true, not, ◌==◌, ◌≡◌, refl, ap, arith, All,
  text_eq, Option-cases, Bool-cases, inl, inr,
}
use easytier_wsrelay.Relay.Room.{WsAttachment, attachment, Socket}
use easytier_wsrelay.Relay.Broadcast.{find_peer}

-- A socket that is not of the peer.
abbrev pub is_other : ℕ → Option WsAttachment → Bool
is_other target none = true
is_other target (some att) = not (att.peer_id == target)

-- This socket is the first one of the peer.
pub record IsFirst (target : ℕ) (s : Socket) (att : WsAttachment) (sockets : List Socket)
    : Type 0 where
  pub before : List Socket
  pub after : List Socket
  pub split : sockets ≡ before ++ s ∷ after
  pub others : All (λ (x : Socket). is_other target (attachment x.slot) ≡ true) before
  pub attached : attachment s.slot ≡ some att
  pub owner : att.peer_id ≡ target

-- What a search for the first socket of a peer has found.
pub data Found (target : ℕ) (sockets : List Socket) : Option (ℕ × WsAttachment) → Type 0 where
  nobody :
      All (λ (x : Socket). is_other target (attachment x.slot) ≡ true) sockets
      → Found target sockets none
  first :
      (s : Socket) (att : WsAttachment)
      → IsFirst target s att sockets
      → Found target sockets (some (s.id, att))

Found-later :
    (target : ℕ) (x : Socket) (xs : List Socket) (o : Option (ℕ × WsAttachment))
    → is_other target (attachment x.slot) ≡ true
    → Found target xs o
    → Found target (x ∷ xs) o
Found-later target x xs o h (nobody all) = nobody (h, all)
Found-later target x xs o h (first s att f) = first s att (record {
  before = x ∷ f.before;
  after = f.after;
  split = ap (λ ys. x ∷ ys) f.split;
  others = (h, f.others);
  attached = f.attached;
  owner = f.owner;
})

pub find_peer-Found :
    (target : ℕ) (sockets : List Socket) → Found target sockets (find_peer target sockets)
unfolding find_peer
find_peer-Found target [] = nobody tt
find_peer-Found target (x ∷ xs) = elim (Option-cases (attachment x.slot)) [
  | inl n ↦ rw (n, find_peer) (Found-later target x xs _ (rw n refl) (find_peer-Found target xs))
  | inr (att, n) ↦
      rw (n, find_peer)
        (elim (Bool-cases (att.peer_id == target)) [
          | inl t ↦ rw t (
              first x att (record {
                before = [];
                after = xs;
                split = refl;
                others = tt;
                attached = n;
                owner = ground (arith, t);
              }))
          | inr f ↦ rw f (Found-later target x xs _ (rw n (rw f refl)) (find_peer-Found target xs))
        ])
]
