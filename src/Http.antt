-- ===== src/Http.antt =====
-- The requests and responses of the worker runtime, as src/lib.rs and src/relay_room.rs use them.
use easytier_wsrelay.Base.{ℕ, List, Option, Bool, false, some, none, Text, codes, text_beq}

-- What `url.path()` and `url.query_pairs()` return.
pub record Url : Type 0 where
  pub path : Text
  pub query_pairs : List (Text × Text)

-- `req.url()` and `req.headers().get("Upgrade")`; `none` is an `Err`.
pub record Request : Type 0 where
  pub url : Option Url
  pub upgrade : Option (Option Text)

-- `Response::ok`, `Response::error`, the switch to a web socket with status 101, and an `Err`.
pub data Response : Type 0 where
  ok_text : Text → Response
  error : Text → ℕ → Response
  switching : Response
  failed : Response

-- The header's value is `websocket`.
abbrev pub is_websocket : Option Text → Bool
is_websocket none = false
is_websocket (some value) = text_beq value (codes "websocket")
