-- ===== src/Prelude/Bits.antt =====
-- Masks and disjoint fields as arithmetic, at every width. The native operations stand for
-- `bitwise`, a recursion on binary digits with fuel; the step laws drop the fuel.
use Prim.Native.Nat.{
  ℕ, zero, suc, ◌+◌, ◌-◌, ◌*◌, ◌/◌, ◌%◌, ◌^◌, ◌≤◌, ◌<◌, min, max, bit_and, bit_or, digits,
  bit_and-bitwise, bit_or-bitwise,
}
use mathlib.Core.Path.{◌≡◌, refl, ap, ◌∙◌}
use native.Mathlib.Omega.{arith}
use native.Mathlib.Decide.{dec_le}
use native.Mathlib.Nat.{pow-zero, pow-suc, one-le-pow, div-add-mod', div-div-eq-div-mul}

module _ (pad : ℕ → ℕ) (op : ℕ → ℕ → ℕ) where
  one_more : (n a b : ℕ) → a ≤ n → digits pad op (suc n) a b ≡ digits pad op n a b
  one_more zero zero b h = refl
  one_more zero (suc a) b h = absurd (omega arith)
  one_more (suc n) zero b h = refl
  one_more (suc n) (suc a) b h = rw (one_more n (suc a / 2) (b / 2) (omega arith))

  -- Any fuel from `a` on gives the digits of `a`.
  enough_digits : (n a b : ℕ) → a ≤ n → digits pad op n a b ≡ digits pad op a a b
  enough_digits zero zero b h = refl
  enough_digits zero (suc a) b h = absurd (omega arith)
  enough_digits (suc n) a b h = elim (dec_le a n) [
    | yes p ↦ one_more n a b p ∙ enough_digits n a b p
    | no q ↦ ap (λ k. digits pad op k a b) {x = suc n} {y = a} (omega arith)
  ]

pub and_step : (a b : ℕ) → bit_and a b ≡ bit_and (a / 2) (b / 2) * 2 + min (a % 2) (b % 2)
and_step zero b = simp bit_and-bitwise (omega arith)
and_step (suc a) b =
    simp bit_and-bitwise
      (omega (arith, enough_digits (λ y. 0) min a (suc a / 2) (b / 2) (omega arith)))

pub or_step : (a b : ℕ) → bit_or a b ≡ bit_or (a / 2) (b / 2) * 2 + max (a % 2) (b % 2)
or_step zero b = simp bit_or-bitwise (omega arith)
or_step (suc a) b =
    simp bit_or-bitwise
      (omega (arith, enough_digits (λ y. y) max a (suc a / 2) (b / 2) (omega arith)))

bit_or-zero_below : (n a : ℕ) → a ≤ n → bit_or a 0 ≡ a
bit_or-zero_below n zero h = refl
bit_or-zero_below zero (suc a) h = absurd (omega arith)
bit_or-zero_below (suc n) (suc a) h =
    omega (arith, or_step (suc a) 0, bit_or-zero_below n (suc a / 2) (omega arith))

bit_and-zero_below : (n a : ℕ) → a ≤ n → bit_and a 0 ≡ 0
bit_and-zero_below n zero h = refl
bit_and-zero_below zero (suc a) h = absurd (omega arith)
bit_and-zero_below (suc n) (suc a) h =
    omega (arith, and_step (suc a) 0, bit_and-zero_below n (suc a / 2) (omega arith))

pub bit_and-zero : (a : ℕ) → bit_and a 0 ≡ 0
bit_and-zero a = bit_and-zero_below a a (omega arith)

double : (q k : ℕ) → q * 2 ^ suc k ≡ 2 * (q * 2 ^ k)
double q k = omega (arith, ap (λ (t : ℕ). q * t) (pow-suc 2 k))

pub zero-bit_or : (b : ℕ) → bit_or 0 b ≡ b
zero-bit_or b = bit_or-bitwise 0 b

-- A value below the field's foot joins it as a sum.
pub bit_or_low : (k r q : ℕ) → r < 2 ^ k → bit_or r (q * 2 ^ k) ≡ r + q * 2 ^ k
bit_or_low zero r q fits = ground (arith, zero-bit_or (q * 2 ^ 0))
bit_or_low (suc k) r q fits =
    ground (arith, or_step r (q * 2 ^ suc k), double q k, pow-suc 2 k, bit_or_low k (r / 2) q)

bit_and_low : (k q r : ℕ) → r < 2 ^ k → bit_and (r + q * 2 ^ k) (2 ^ k - 1) ≡ r
bit_and_low zero q r fits = omega (arith, bit_and-zero (r + q * 2 ^ 0))
bit_and_low (suc k) q r fits = ground (
  arith,
  and_step (r + q * 2 ^ suc k) (2 ^ suc k - 1),
  one-le-pow k 2,
  double q k,
  pow-suc 2 k,
  bit_and_low k q (r / 2),
)

-- A mask of `k` ones is the remainder by `2 ^ k`.
pub bit_and_ones : (k a : ℕ) → bit_and a (2 ^ k - 1) ≡ a % 2 ^ k
bit_and_ones k a =
    ground (arith, one-le-pow k 2, div-add-mod' a (2 ^ k), bit_and_low k (a / 2 ^ k) (a % 2 ^ k))

-- A mask with `k` zeros at its foot looks only at what stands above them.
pub bit_and_above : (k a m : ℕ) → bit_and a (m * 2 ^ k) ≡ bit_and (a / 2 ^ k) m * 2 ^ k
bit_and_above zero a m = ground arith
bit_and_above (suc k) a m = ground (
  arith,
  and_step a (m * 2 ^ suc k),
  double m k,
  double (bit_and (a / 2 / 2 ^ k) m) k,
  pow-suc 2 k,
  div-div-eq-div-mul a 2 (2 ^ k),
  bit_and_above k (a / 2) m,
)

pub bit_or_bound : (k a b : ℕ) → a < 2 ^ k → b < 2 ^ k → bit_or a b < 2 ^ k
bit_or_bound zero a b h l = ground (arith, zero-bit_or 0)
bit_or_bound (suc k) a b h l =
    ground (arith, or_step a b, pow-suc 2 k, bit_or_bound k (a / 2) (b / 2))

-- A mask that has every bit below `2 ^ k` leaves a value below it as it is.
pub bit_and_full : (k a q : ℕ) → a < 2 ^ k → bit_and a (q * 2 ^ k + (2 ^ k - 1)) ≡ a
bit_and_full zero a q h =
    ground
      (arith, and_step 0 (q * 2 ^ 0 + (2 ^ 0 - 1)), bit_and-bitwise 0 (q * 2 ^ 0 + (2 ^ 0 - 1)))
bit_and_full (suc k) a q h = ground (
  arith,
  and_step a (q * 2 ^ suc k + (2 ^ suc k - 1)),
  double q k,
  pow-suc 2 k,
  one-le-pow k 2,
  bit_and_full k (a / 2) q,
)

or_comm_below : (n a b : ℕ) → a ≤ n → b ≤ n → bit_or a b ≡ bit_or b a
or_comm_below zero a b h k = ground (arith, zero-bit_or 0)
or_comm_below (suc n) a b h k =
    omega
      (arith, or_step a b, or_step b a, or_comm_below n (a / 2) (b / 2) (omega arith) (omega arith))

and_comm_below : (n a b : ℕ) → a ≤ n → b ≤ n → bit_and a b ≡ bit_and b a
and_comm_below zero a b h k = ground (arith, bit_and-zero 0)
and_comm_below (suc n) a b h k = omega (
  arith,
  and_step a b,
  and_step b a,
  and_comm_below n (a / 2) (b / 2) (omega arith) (omega arith),
)

pub bit_or_comm : (a b : ℕ) → bit_or a b ≡ bit_or b a
bit_or_comm a b = or_comm_below (a + b) a b (omega arith) (omega arith)

pub bit_and_comm : (a b : ℕ) → bit_and a b ≡ bit_and b a
bit_and_comm a b = and_comm_below (a + b) a b (omega arith) (omega arith)

-- A field and what lies below it, in the other order.
pub bit_or_high : (k q r : ℕ) → r < 2 ^ k → bit_or (q * 2 ^ k) r ≡ r + q * 2 ^ k
bit_or_high k q r h = bit_or_comm (q * 2 ^ k) r ∙ bit_or_low k r q h

pub pow_add : (b n m : ℕ) → b ^ (n + m) ≡ b ^ n * b ^ m
pow_add b n zero =
    ground (arith, pow-zero b, ap (λ (t : ℕ). b ^ t) {x = n + 0} {y = n} (omega arith))
pow_add b n (suc m) = ground (
  arith,
  pow-suc b (n + m),
  pow-suc b m,
  ap (λ (t : ℕ). b ^ t) {x = n + suc m} {y = suc (n + m)} (omega arith),
  ap (λ (t : ℕ). t * b) (pow_add b n m),
  ap (λ (t : ℕ). b ^ n * t) (pow-suc b m),
)
