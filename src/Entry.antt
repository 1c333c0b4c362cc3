-- ===== src/Entry.antt =====
-- src/lib.rs: the worker's entry point, which routes a request to a room.
pub mod Paths
pub mod Serving
pub mod Isolate
use easytier_wsrelay.Base.{
  ℕ, List, [], ◌∷◌, ◌++◌, Option, none, some, Bool, ◌||◌, Text, codes, text_beq, unwrap_or, ◌==◌,
  if◌then◌else◌,
}
use easytier_wsrelay.Http.{Request, Url, Response, ok_text, error, failed, is_websocket}
use easytier_wsrelay.Relay.Room.{Room, Runtime}
use easytier_wsrelay.Relay.Lifecycle as Lifecycle

-- What the worker's environment holds: the variable `WS_PATH`, and whether a room of a name can be
-- had from the namespace `RELAY_ROOM`.
pub record Env : Type 0 where
  pub ws_path_var : Option Text
  pub has_room : Text → Bool

-- `trim_start_matches('/')`.
unfoldable pub trim_slashes : Text → Text
trim_slashes [] = []
trim_slashes (c ∷ cs) = let rest = trim_slashes cs in if c == b'/' then rest else c ∷ cs

unfoldable pub ws_path : Env → Text
unfolding trim_slashes
ws_path env = b'/' ∷ trim_slashes (unwrap_or env.ws_path_var (codes "ws"))

-- The path itself, or with a slash after it.
unfoldable pub is_ws_path : Env → Text → Bool
unfolding ws_path
is_ws_path env path = text_beq path (ws_path env) || text_beq path (ws_path env ++ b'/' ∷ [])

-- The first value of the parameter `room`.
unfoldable pub find_room : List (Text × Text) → Option Text
find_room [] = none
find_room ((k, v) ∷ pairs) =
    let rest = find_room pairs in if text_beq k (codes "room") then some v else rest

unfoldable pub room_id : Url → Text
unfolding find_room
room_id url = unwrap_or (find_room url.query_pairs) (codes "default")

-- `routed` is the call of the room's own `fetch`, whose response is returned as it is.
pub data Route : Type 0 where
  answered : Response → Route
  routed : Text → Route

-- The second part of `fetch`, for the path of the web sockets.
unfoldable pub route_upgrade : Env → Url → Option (Option Text) → Route
unfolding room_id
route_upgrade env url none = answered failed
route_upgrade env url (some upgrade) =
    if is_websocket upgrade
    then if env.has_room (room_id url) then routed (room_id url) else answered failed
    else answered (error (codes "Expected WebSocket upgrade") 400)

unfoldable pub fetch : Env → Request → Route
unfolding is_ws_path route_upgrade
fetch env req = elim req.url [
  | none ↦ answered failed
  | some url ↦
      if text_beq url.path (codes "/healthz")
      then answered (ok_text (codes "ok"))
      else if is_ws_path env url.path
      then route_upgrade env url req.upgrade
      else answered (error (codes "Not found") 404)
]

-- The rooms under their names, and what becomes of them.
abbrev pub put_room : Text → Room → (Text → Room) → Text → Room
put_room id room rooms other = if text_beq id other then room else rooms other

-- The worker and the room together. `pair` is the server's end of the new socket pair.
unfoldable pub serve : Env → Runtime → Option ℕ → Request → (Text → Room) → (Text → Room) × Response
unfolding fetch
serve env rt pair req rooms = elim (fetch env req) [
  | answered response ↦ (rooms, response)
  | routed id ↦ let r = Lifecycle.fetch rt pair req (rooms id) in (put_room id r.0 rooms, r.1)
]
