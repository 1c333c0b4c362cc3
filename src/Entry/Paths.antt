-- ===== src/Entry/Paths.antt =====
-- The path of the web sockets and the header of an upgrade, as src/lib.rs tests them.
use easytier_wsrelay.Base.{
  ℕ, zero, suc, [], ◌∷◌, ◌++◌, Option, none, some, Bool, true, false, Text, codes, text_beq_iff,
  text_eq, replicate, ◌≡◌, ◌≢◌, ◌⊎◌, refl, ap, arith,
}
use easytier_wsrelay.Http.{is_websocket}
use mathlib.Core.Option.{some-injective}
use easytier_wsrelay.Entry.{Env, trim_slashes, ws_path, is_ws_path}

abbrev pub BeginsWithSlash : Text → Type 0
BeginsWithSlash [] = ⊥
BeginsWithSlash (c ∷ cs) = c ≡ b'/'

trim_slashes-same : (v : Text) → ¬ BeginsWithSlash v → trim_slashes v ≡ v
unfolding trim_slashes
trim_slashes-same [] h = refl
trim_slashes-same (c ∷ cs) h = ground (arith, h)

trim_slashes-replicate :
    (n : ℕ) (v : Text) → ¬ BeginsWithSlash v → trim_slashes (replicate n b'/' ++ v) ≡ v
unfolding trim_slashes
trim_slashes-replicate zero v h = trim_slashes-same v h
trim_slashes-replicate (suc n) v h = trim_slashes-replicate n v h

-- However many slashes the variable begins with, the path of the web sockets is one slash and the
-- rest of the variable.
ws_path-replicate :
    (n : ℕ) (v : Text) (has_room : Text → Bool)
    → ¬ BeginsWithSlash v
    → ws_path (record { ws_path_var = some (replicate n b'/' ++ v); has_room = has_room })
      ≡ b'/' ∷ v
unfolding ws_path
ws_path-replicate n v has_room h = ap (◌∷◌ b'/') (trim_slashes-replicate n v h)

pub is_websocket_lem : (h : Option Text) → is_websocket h ≡ true → h ≡ some (codes "websocket")
is_websocket_lem none e = absurd (ground (arith, e))
is_websocket_lem (some value) e = ap some ((text_beq_iff value (codes "websocket")).0 e)

pub not_websocket_lem : (h : Option Text) → is_websocket h ≡ false → h ≢ some (codes "websocket")
not_websocket_lem none e q = absurd (ground (arith, q))
not_websocket_lem (some value) e q = absurd (
    ground (
      arith,
      e,
      text_beq_iff value (codes "websocket"),
      some-injective value (codes "websocket") q,
    ))

-- The path of the web sockets, or with a slash after it.
abbrev pub IsWsPath : Env → Text → Type 0
IsWsPath env path = (path ≡ ws_path env) ⊎ (path ≡ ws_path env ++ b'/' ∷ [])

pub is_ws_path-IsWsPath : (env : Env) (path : Text) → is_ws_path env path ≡ true → IsWsPath env path
unfolding is_ws_path
is_ws_path-IsWsPath env path e =
    ground (arith, e, text_beq_iff path (ws_path env), text_beq_iff path (ws_path env ++ b'/' ∷ []))

pub not_ws_path_lem : (env : Env) (path : Text) → is_ws_path env path ≡ false → ¬ IsWsPath env path
unfolding is_ws_path
not_ws_path_lem env path e q =
    ground
      (arith, e, q, text_beq_iff path (ws_path env), text_beq_iff path (ws_path env ++ b'/' ∷ []))
