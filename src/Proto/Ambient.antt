-- ===== src/Proto/Ambient.antt =====
-- What one event handler reads from its surroundings: the clock, which stands still while a
-- handler runs, and the random draws, each under the name of what it is drawn for.
use easytier_wsrelay.Base.{ℕ, Text}
use easytier_wsrelay.Proto.{Uuid}

pub record Ambient : Type 0 where
  -- `Date::now().as_millis()`.
  pub now_ms : ℕ
  -- `random_uuid()` and `random_u64()` for the group that `ensure_group` creates under a key.
  pub group_uuid : Text → Uuid
  pub group_route_id : Text → ℕ
  -- `random_u64_string()` for the n-th context that has no session id.
  pub session_id : ℕ → Text
  -- `random_u64_string()` for the n-th route update.
  pub transaction : ℕ → Text
