-- ===== src/Route/BitmapBits.antt =====
-- One bit of the connection bitmap: what a write changes and what a read sees.
use Prim.Native.Nat.{bit_or, bit_and}
use native.Mathlib.Nat.{zero-div}
use easytier_wsrelay.Base.{
  Bool-cases, inl, inr, ℕ, zero, suc, ◌+◌, ◌*◌, ◌/◌, ◌%◌, ◌^◌, ◌<◌, [], ◌∷◌, Bool, true, false,
  ◌||◌, ◌&&◌, Text, length, get_or, set, replicate, ltb, ◌==◌, ◌≡◌, refl, arith, All, length-set,
  get_or-set_self, get_or-set_ne, ◌≢◌, ==_iff, if◌then◌else◌,
}
use easytier_wsrelay.Route.Bitmap.{set_bit_at, test_bit}

-- A test that every number under a bound passes.
every : (ℕ → Bool) → ℕ → Bool
every test zero = true
every test (suc top) = every test top && test top

every-passes : (test : ℕ → Bool) (top i : ℕ) → i < top → every test top ≡ true → test i ≡ true
unfolding every
every-passes test zero i below h = absurd (omega arith)
every-passes test (suc top) i below h = ground (arith, every-passes test top i)

-- Bit `o` of a byte.
abbrev pub byte_bit : ℕ → ℕ → ℕ
byte_bit b o = bit_and (b / 2 ^ o) 1

abbrev or_row : ℕ → ℕ → ℕ → Bool
or_row b k o = byte_bit (bit_or b (2 ^ k)) o == (if k == o then 1 else byte_bit b o)

abbrev or_rows : ℕ → ℕ → Bool
or_rows b k = ltb (bit_or b (2 ^ k)) 256 && every (or_row b k) 8

or_table : every (λ b. every (or_rows b) 8) 256 ≡ true
unfolding every
or_table = refl

or_rows_hold : (b k : ℕ) → b < 256 → k < 8 → or_rows b k ≡ true
or_rows_hold b k hb hk =
    every-passes (or_rows b) 8 k hk (every-passes (λ b. every (or_rows b) 8) 256 b hb or_table)

or_fits : (b k : ℕ) → b < 256 → k < 8 → bit_or b (2 ^ k) < 256
or_fits b k hb hk = ground (arith, or_rows_hold b k hb hk)

byte_bit-or :
    (b k o : ℕ)
    → b < 256
    → k < 8
    → o < 8
    → byte_bit (bit_or b (2 ^ k)) o ≡ (if k == o then 1 else byte_bit b o)
byte_bit-or b k o hb hk ho =
    (==_iff _ _).0 (every-passes (or_row b k) 8 o ho (ground (arith, or_rows_hold b k hb hk)))

abbrev pub IsByte : ℕ → Type 0
IsByte b = b < 256

get_or-IsByte : (bm : Text) (i : ℕ) → All IsByte bm → get_or bm i 0 < 256
get_or-IsByte [] i h = omega arith
get_or-IsByte (x ∷ xs) zero h = h.0
get_or-IsByte (x ∷ xs) (suc i) h = get_or-IsByte xs i h.1

set-IsByte : (bm : Text) (i v : ℕ) → v < 256 → All IsByte bm → All IsByte (set bm i v)
set-IsByte [] i v hv h = tt
set-IsByte (x ∷ xs) zero v hv h = (hv, h.1)
set-IsByte (x ∷ xs) (suc i) v hv h = (h.0, set-IsByte xs i v hv h.1)

-- A bitmap of bytes that is long enough for an n by n matrix.
pub record IsMatrix (n : ℕ) (bm : Text) : Type 0 where
  pub bytes : All IsByte bm
  pub sized : length bm ≡ (n * n + 7) / 8

pub set_bit_at-IsByte : (i : ℕ) (bm : Text) → All IsByte bm → All IsByte (set_bit_at i bm)
unfolding set_bit_at
set_bit_at-IsByte i bm h =
    set-IsByte bm (i / 8) _
      (or_fits (get_or bm (i / 8) 0) (i % 8) (get_or-IsByte bm (i / 8) h) (omega arith)) h

pub length-set_bit_at : (i : ℕ) (bm : Text) → length (set_bit_at i bm) ≡ length bm
unfolding set_bit_at
length-set_bit_at i bm = length-set bm (i / 8) _

-- A write within the buffer sets its bit and no other.
pub test_bit-set_bit_at :
    (i j : ℕ) (bm : Text)
    → All IsByte bm
    → i / 8 < length bm
    → test_bit j (set_bit_at i bm) ≡ ((i == j) || test_bit j bm)
unfolding test_bit set_bit_at
test_bit-set_bit_at i j bm h fits = elim (Bool-cases (i / 8 == j / 8)) [
  | inl same ↦
      let e : j / 8 ≡ i / 8 = ground arith in
      rw
        (
          e,
          length-set bm (i / 8) (bit_or (get_or bm (i / 8) 0) (2 ^ (i % 8))),
          get_or-set_self bm (i / 8) (bit_or (get_or bm (i / 8) 0) (2 ^ (i % 8))) 0 fits,
          byte_bit-or (get_or bm (i / 8) 0) (i % 8) (j % 8) (get_or-IsByte bm (i / 8) h)
              (omega arith) (omega arith),
        )
        (ground arith)
  | inr other ↦
      let ne : i / 8 ≢ j / 8 = ground arith in
      rw
        (
          length-set bm (i / 8) (bit_or (get_or bm (i / 8) 0) (2 ^ (i % 8))),
          get_or-set_ne bm (i / 8) (j / 8) (bit_or (get_or bm (i / 8) 0) (2 ^ (i % 8))) 0 ne,
        )
        (ground arith)
]

pub blank-IsByte : (n : ℕ) → All IsByte (replicate n 0)
blank-IsByte zero = tt
blank-IsByte (suc n) = (omega arith, blank-IsByte n)

get_or-replicate : (n i : ℕ) → ◌≡◌ {A = ℕ} (get_or (replicate n 0) i 0) 0
get_or-replicate zero i = refl
get_or-replicate (suc n) zero = refl
get_or-replicate (suc n) (suc i) = get_or-replicate n i

zero_bits : (o : ℕ) → byte_bit 0 o ≡ 0
zero_bits o = rw (zero-div (2 ^ o))

pub test_bit-blank : (n j : ℕ) → test_bit j (replicate n 0) ≡ false
unfolding test_bit
test_bit-blank n j = ground (arith, get_or-replicate n (j / 8), zero_bits (j % 8))
