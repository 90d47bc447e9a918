-- ===== src/Wire/Position.antt =====
-- The `position` type: 26 bits of x, 26 of z and 12 of y in one `int64_t`, as a 64-bit pattern.
-- The coordinates are patterns of `int`.
use doom_mc.Prelude.{
  ℕ, ◌+◌, ◌-◌, ◌*◌, ◌/◌, ◌%◌, ◌^◌, ◌<◌, ◌≤◌, ◌≡◌, arith, ltb, if◌then◌else◌, bit_and, bit_or, ◌⊎◌,
}
use doom_mc.Prelude.Bits.{bit_and_ones, bit_or_high}
use doom_mc.Wire.Cursor.{to_size}

unfoldable pub to_position : ℕ → ℕ → ℕ → ℕ
to_position x y z =
    bit_or
      (bit_or (bit_and x 0x3ff_ffff * 2 ^ 38 % 2 ^ 64) (bit_and z 0x3ff_ffff * 2 ^ 12 % 2 ^ 64))
      (bit_and y 0xfff)

-- `>>` on an `int64_t` copies the sign in.
abbrev pub shift_right : ℕ → ℕ → ℕ
shift_right p k = if ltb p (2 ^ 63) then p / 2 ^ k else p / 2 ^ k + (2 ^ 64 - 2 ^ (64 - k))

unfoldable pub position_x : ℕ → ℕ
position_x p = shift_right p 38

unfoldable pub position_y : ℕ → ℕ
position_y p = shift_right (p * 2 ^ 52 % 2 ^ 64) 52

unfoldable pub position_z : ℕ → ℕ
position_z p = shift_right (p * 2 ^ 26 % 2 ^ 64) 38

-- The `int` pattern of a number that fits `k + 1` bits with its sign.
abbrev pub FitsSigned : ℕ → ℕ → Type 0
FitsSigned k v = (v < 2 ^ k) ⊎ ((2 ^ 32 - 2 ^ k ≤ v) × (v < 2 ^ 32))

to_position_fields :
    (x y z : ℕ) → to_position x y z ≡ y % 2 ^ 12 + z % 2 ^ 26 * 2 ^ 12 + x % 2 ^ 26 * 2 ^ 38
unfolding to_position
to_position_fields x y z = ground (
  arith,
  bit_and_ones 26 x,
  bit_and_ones 26 z,
  bit_and_ones 12 y,
  bit_or_high 38 (x % 2 ^ 26) (z % 2 ^ 26 * 2 ^ 12),
  bit_or_high 12 (z % 2 ^ 26 + x % 2 ^ 26 * 2 ^ 26) (y % 2 ^ 12),
)

-- Every block position whose coordinates fit their fields comes back from its packed form, negative
-- coordinates included.
pub position_round_trip :
    (x y z : ℕ)
    → FitsSigned 25 x
    → FitsSigned 11 y
    → FitsSigned 25 z
    → (position_x (to_position x y z) ≡ to_size x)
      × (position_y (to_position x y z) ≡ to_size y)
      × (position_z (to_position x y z) ≡ to_size z)
unfolding position_x position_y position_z to_size
position_round_trip x y z hx hy hz =
    rw (to_position_fields x y z) (ground arith, ground arith, ground arith)
