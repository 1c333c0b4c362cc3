-- ===== src/Entry/Serving.antt =====
-- What becomes of a request that the worker of src/lib.rs serves, with the room's own `fetch`.
use easytier_wsrelay.Base.{
  ℕ, [], ◌∷◌, ◌++◌, Option, none, some, true, false, Text, codes, text_beq, text_beq_iff, text_eq,
  ◌≡◌, ◌≢◌, refl, sym, if◌then◌else◌, ap, arith, Option-cases, ◌∙◌, Bool-cases, inl, inr,
}
use easytier_wsrelay.Http.{Request, Url, Response, ok_text, error, switching, failed, is_websocket}
use mathlib.Core.Path.{fun_ext, subst}
use easytier_wsrelay.Relay.Room.{stored, vacant, Room, Runtime}
use easytier_wsrelay.Relay.Lifecycle.{accept, new_attachment, listed_with, schedule_cleanup_alarm}
use easytier_wsrelay.Relay.Lifecycle as Lifecycle
use easytier_wsrelay.Entry.{
  Env, ws_path, is_ws_path, room_id, answered, routed, route_upgrade, fetch, put_room, serve,
}
use easytier_wsrelay.Entry.Paths.{
  IsWsPath, is_websocket_lem, not_websocket_lem, is_ws_path-IsWsPath, not_ws_path_lem,
}

-- The request is for the path of the web sockets.
pub record IsAtPath (env : Env) (req : Request) (url : Url) : Type 0 where
  pub has_url : req.url ≡ some url
  pub not_health : url.path ≢ codes "/healthz"
  pub at_path : IsWsPath env url.path

-- It also asks for a web socket, in the room `id` that its query names, and that room can be had.
pub record IsUpgrade (env : Env) (req : Request) (id : Text) : Type 0 where
  pub url : Url
  pub at : IsAtPath env req url
  pub upgrades : req.upgrade ≡ some (some (codes "websocket"))
  pub names : id ≡ room_id url
  pub has_room : env.has_room id ≡ true

-- What becomes of a request: the rooms, and the response, `failed` being an `Err`.
pub data Served (env : Env) (rt : Runtime) (pair : Option ℕ) (req : Request) (rooms : Text → Room)
    : (Text → Room) × Response → Type 0 where
  opens :
      (id : Text) (ws : ℕ)
      → IsUpgrade env req id
      → pair ≡ some ws
      → rt.storable (new_attachment rt.env) ≡ true
      → Served env rt pair req rooms (
        put_room id
            (schedule_cleanup_alarm rt (listed_with ws (stored (new_attachment rt.env)) (rooms id)))
            rooms,
        switching,
      )
  -- The socket is listed all the same.
  not_stored :
      (id : Text) (ws : ℕ)
      → IsUpgrade env req id
      → pair ≡ some ws
      → rt.storable (new_attachment rt.env) ≡ false
      → Served env rt pair req rooms (put_room id (listed_with ws vacant (rooms id)) rooms, failed)
  no_pair :
      (id : Text)
      → IsUpgrade env req id
      → pair ≡ none
      → Served env rt pair req rooms (rooms, failed)
  no_room :
      (url : Url)
      → IsAtPath env req url
      → req.upgrade ≡ some (some (codes "websocket"))
      → env.has_room (room_id url) ≡ false
      → Served env rt pair req rooms (rooms, failed)
  no_upgrade :
      (url : Url) (header : Option Text)
      → IsAtPath env req url
      → req.upgrade ≡ some header
      → header ≢ some (codes "websocket")
      → Served env rt pair req rooms (rooms, error (codes "Expected WebSocket upgrade") 400)
  bad_header :
      (url : Url)
      → IsAtPath env req url
      → req.upgrade ≡ none
      → Served env rt pair req rooms (rooms, failed)
  elsewhere :
      (url : Url)
      → req.url ≡ some url
      → url.path ≢ codes "/healthz"
      → ¬ IsWsPath env url.path
      → Served env rt pair req rooms (rooms, error (codes "Not found") 404)
  healthy :
      (url : Url)
      → req.url ≡ some url
      → url.path ≡ codes "/healthz"
      → Served env rt pair req rooms (rooms, ok_text (codes "ok"))
  bad_url : req.url ≡ none → Served env rt pair req rooms (rooms, failed)

put_room_same :
    (id : Text) (rooms : Text → Room) (other : Text)
    → put_room id (rooms id) rooms other ≡ rooms other
put_room_same id rooms other = elim (Bool-cases (text_beq id other)) [
  | inl t ↦ rw t (ap rooms ((text_beq_iff id other).0 t))
  | inr f ↦ rw f refl
]

module _ (env : Env) (rt : Runtime) (pair : Option ℕ) (req : Request) (rooms : Text → Room) where
  -- What the room's own `fetch` makes of the request.
  fetch-none :
      (id : Text) (room : Room)
      → IsUpgrade env req id
      → pair ≡ none
      → Lifecycle.fetch rt pair req room ≡ (room, failed)
  unfolding Lifecycle.fetch
  fetch-none id room u p = rw (u.at.has_url, u.upgrades, p, Lifecycle.fetch) refl

  fetch-some :
      (id : Text) (ws : ℕ) (room : Room)
      → IsUpgrade env req id
      → pair ≡ some ws
      → Lifecycle.fetch rt pair req room
        ≡ (accept rt ws room, if rt.storable (new_attachment rt.env) then switching else failed)
  unfolding Lifecycle.fetch
  fetch-some id ws room u p = rw (u.at.has_url, u.upgrades, p, Lifecycle.fetch) refl

  -- The rooms after the room of the name has changed, with the response.
  abbrev answer_of : Text → Room × Response → (Text → Room) × Response
  answer_of id r = (put_room id r.0 rooms, r.1)

  accept-Served :
      (id : Text) (ws : ℕ)
      → IsUpgrade env req id
      → pair ≡ some ws
      → Served env rt pair req rooms (
          answer_of id (
            accept rt ws (rooms id),
            if rt.storable (new_attachment rt.env) then switching else failed,
          ))
  unfolding accept
  accept-Served id ws u p = elim (Bool-cases (rt.storable (new_attachment rt.env))) [
    | inl s ↦ rw s (opens id ws u p s)
    | inr f ↦ rw f (not_stored id ws u p f)
  ]

  routed-Served :
      (id : Text)
      → IsUpgrade env req id
      → Served env rt pair req rooms (answer_of id (Lifecycle.fetch rt pair req (rooms id)))
  routed-Served id u = elim (Option-cases pair) [
    | inl p ↦
        subst (λ r. Served env rt pair req rooms (answer_of id r))
          (sym (fetch-none id (rooms id) u p))
          (subst (λ (f : Text → Room). Served env rt pair req rooms (f, failed))
            (sym (fun_ext (put_room_same id rooms))) (no_pair id u p))
    | inr (ws, p) ↦
        subst (λ r. Served env rt pair req rooms (answer_of id r))
          (sym (fetch-some id ws (rooms id) u p)) (accept-Served id ws u p)
  ]

  serve-routed :
      (id : Text)
      → IsUpgrade env req id
      → fetch env req ≡ routed id
      → Served env rt pair req rooms (serve env rt pair req rooms)
  unfolding serve
  serve-routed id u e = rw (e, serve) (routed-Served id u)

  serve-answered :
      (r : Response)
      → fetch env req ≡ answered r
      → Served env rt pair req rooms (rooms, r)
      → Served env rt pair req rooms (serve env rt pair req rooms)
  unfolding serve
  serve-answered r e h = rw (e, serve) h

  fetch-at_path :
      (url : Url) → IsAtPath env req url → fetch env req ≡ route_upgrade env url req.upgrade
  unfolding fetch is_ws_path
  fetch-at_path url u =
      let n : text_beq url.path (codes "/healthz") ≡ false =
        ground (arith, u.not_health, text_beq_iff url.path (codes "/healthz")) in
      let p : is_ws_path env url.path ≡ true = ground (
        arith,
        u.at_path,
        text_beq_iff url.path (ws_path env),
        text_beq_iff url.path (ws_path env ++ b'/' ∷ []),
      ) in
      rw (u.has_url, fetch) (rw n (rw p refl))

  at_path-Served :
      (url : Url)
      → IsAtPath env req url
      → Served env rt pair req rooms (serve env rt pair req rooms)
  unfolding route_upgrade
  at_path-Served url u = elim (Option-cases req.upgrade) [
    | inl n ↦
        serve-answered failed (fetch-at_path url u ∙ rw (n, route_upgrade) refl)
          (bad_header url u n)
    | inr (h, n) ↦ elim (Bool-cases (is_websocket h)) [
      | inr f ↦
          serve-answered (error (codes "Expected WebSocket upgrade") 400)
            (fetch-at_path url u ∙ rw (n, route_upgrade) (rw f refl))
            (no_upgrade url h u n (not_websocket_lem h f))
      | inl t ↦
          let asks = n ∙ ap some (is_websocket_lem h t) in
          elim (Bool-cases (env.has_room (room_id url))) [
            | inr f ↦
                serve-answered failed (fetch-at_path url u ∙ rw (n, route_upgrade) (rw (t, f) refl))
                  (no_room url u asks f)
            | inl r ↦
                serve-routed (room_id url)
                  (record { url = url; at = u; upgrades = asks; names = refl; has_room = r })
                  (fetch-at_path url u ∙ rw (n, route_upgrade) (rw (t, r) refl))
          ]
    ]
  ]

  -- A request opens a socket exactly if it is for the path of the web sockets and not for
  -- `/healthz`, asks for a web socket, its room can be had, the socket can be made and its
  -- attachment stored: then the room that the query names lists it with a new attachment, and
  -- schedules its alarm. Where only the attachment cannot be stored, the result is an `Err`, and the
  -- room lists the socket without one. Otherwise no room changes: `/healthz` is answered with ok,
  -- another path with 404, and a header that asks for no web socket with 400; the result is an `Err`
  -- where the URL or the header cannot be read, the room not be had, or the socket not be made.
  pub serve_outcome : Served env rt pair req rooms (serve env rt pair req rooms)
  unfolding fetch
  serve_outcome = elim (Option-cases req.url) [
    | inl e ↦ serve-answered failed (rw (e, fetch) refl) (bad_url e)
    | inr (url, e) ↦ elim (Bool-cases (text_beq url.path (codes "/healthz"))) [
      | inl t ↦
          serve-answered (ok_text (codes "ok")) (rw (e, fetch) (rw t refl))
            (healthy url e ((text_beq_iff url.path (codes "/healthz")).0 t))
      | inr n ↦
          let other : url.path ≢ codes "/healthz" =
            λ h. absurd (ground (arith, n, text_beq_iff url.path (codes "/healthz"), h)) in
          elim (Bool-cases (is_ws_path env url.path)) [
            | inr f ↦
                serve-answered (error (codes "Not found") 404) (rw (e, fetch) (rw n (rw f refl)))
                  (elsewhere url e other (not_ws_path_lem env url.path f))
            | inl p ↦ at_path-Served url (record {
              has_url = e;
              not_health = other;
              at_path = is_ws_path-IsWsPath env url.path p;
            })
          ]
    ]
  ]
