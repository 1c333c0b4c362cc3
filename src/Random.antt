-- ===== src/Random.antt =====
-- The random draws of src/crypto.rs and src/route_state.rs, from the bytes that `getrandom` fills in.
use easytier_wsrelay.Base.{
  ℕ, zero, suc, ◌+◌, ◌*◌, ◌<◌, ◌^◌, [], ◌∷◌, some, Text, get_or, ◌≡◌, arith, All,
}
use easytier_wsrelay.Base.Words.{from_le_bytes}
use easytier_wsrelay.Proto.{Uuid, Externals}

-- `u64::from_be_bytes`.
unfoldable pub from_be_bytes : Text → ℕ
unfolding from_le_bytes
from_be_bytes b =
    2 ^ 32 * from_le_bytes (get_or b 3 0) (get_or b 2 0) (get_or b 1 0) (get_or b 0 0)
    + from_le_bytes (get_or b 7 0) (get_or b 6 0) (get_or b 5 0) (get_or b 4 0)

-- `random_u64_string`.
unfoldable pub random_u64_string : Externals → Text → Text
unfolding from_be_bytes
random_u64_string ext bytes = ext.decimal (from_be_bytes bytes)

-- `RouteState::random_u32`, of eight bytes of which it takes four.
unfoldable pub random_u32 : Text → ℕ
unfolding from_le_bytes
random_u32 b = from_le_bytes (get_or b 0 0) (get_or b 1 0) (get_or b 2 0) (get_or b 3 0)

-- `RouteState::random_u64`.
unfoldable pub random_u64 : Text → ℕ
unfolding random_u32 from_le_bytes
random_u64 b =
    random_u32 b
    + 2 ^ 32 * from_le_bytes (get_or b 4 0) (get_or b 5 0) (get_or b 6 0) (get_or b 7 0)

-- `RouteState::random_uuid`, of four draws.
unfoldable pub random_uuid : Text → Text → Text → Text → Uuid
unfolding random_u32
random_uuid a b c d = record {
  part1 = random_u32 a;
  part2 = random_u32 b;
  part3 = random_u32 c;
  part4 = random_u32 d;
}

-- Every number is a byte.
abbrev pub IsBytes : Text → Type 0
IsBytes = All (λ b. b < 256)

get_or-IsBytes : (b : Text) (i : ℕ) → IsBytes b → get_or b i 0 < 256
get_or-IsBytes [] i h = omega arith
get_or-IsBytes (x ∷ xs) zero h = h.0
get_or-IsBytes (x ∷ xs) (suc i) h = get_or-IsBytes xs i h.1

from_le_bytes_bound :
    (a b c d : ℕ) → a < 256 → b < 256 → c < 256 → d < 256 → from_le_bytes a b c d < 2 ^ 32
unfolding from_le_bytes
from_le_bytes_bound a b c d h i j k = omega arith

module _ (b : Text) (h : IsBytes b) where
  word_bound :
      (i j k l : ℕ)
      → from_le_bytes (get_or b i 0) (get_or b j 0) (get_or b k 0) (get_or b l 0) < 2 ^ 32
  word_bound i j k l =
      from_le_bytes_bound (get_or b i 0) (get_or b j 0) (get_or b k 0) (get_or b l 0)
        (get_or-IsBytes b i h) (get_or-IsBytes b j h) (get_or-IsBytes b k h) (get_or-IsBytes b l h)

  from_be_bytes_bound : from_be_bytes b < 2 ^ 64
  unfolding from_be_bytes
  from_be_bytes_bound = omega (arith, word_bound 3 2 1 0, word_bound 7 6 5 4)

-- Where the printing of a `u64` can be read back, a session or transaction id that is drawn from
-- bytes is read as the number that was drawn, which fits in 64 bits: the fallback to 0 is not taken.
parse-random_u64_string :
    (ext : Externals) (bytes : Text)
    → IsBytes bytes
    → ((n : ℕ) → n < 2 ^ 64 → ext.parse_u64 (ext.decimal n) ≡ some n)
    → (ext.parse_u64 (random_u64_string ext bytes) ≡ some (from_be_bytes bytes))
      × (from_be_bytes bytes < 2 ^ 64)
unfolding random_u64_string
parse-random_u64_string ext bytes h parses =
    let fits = from_be_bytes_bound bytes h in (parses (from_be_bytes bytes) fits, fits)

-- Whatever bytes are drawn, the route ids and the parts of the uuids fit in 64 and 32 bits.
random_bounds : (b : Text) → IsBytes b → (random_u32 b < 2 ^ 32) × (random_u64 b < 2 ^ 64)
unfolding random_u32 random_u64
random_bounds b h =
    (word_bound b h 0 1 2 3, omega (arith, word_bound b h 0 1 2 3, word_bound b h 4 5 6 7))
