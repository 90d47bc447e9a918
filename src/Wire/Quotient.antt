-- ===== src/Wire/Quotient.antt =====
-- `(size_t)ceilf((float)len / (float)perLong)`: the numbers of `float`, 24 bits and an exponent, that
-- `writePackedArray` counts its longs with.
use doom_mc.Prelude.{
  ℕ, zero, suc, ◌+◌, ◌-◌, ◌*◌, ◌/◌, ◌%◌, ◌^◌, ◌<◌, ◌≡◌, refl, arith, ltb, ◌==◌, ◌&&◌, ◌||◌, true,
  if◌then◌else◌,
}

-- `a / b` to the nearest integer, of two the even one.
unfoldable pub nearest : ℕ → ℕ → ℕ
nearest a b =
    let q = a / b in
    let twice = 2 * (a % b) in if ltb b twice || (twice == b && q % 2 == 1) then q + 1 else q

-- The greatest `k` with `2 ^ k <= n`, of the `left` numbers from `k` on.
unfoldable pub floor_log2_loop : ℕ → ℕ → ℕ → ℕ
floor_log2_loop zero k n = k
floor_log2_loop (suc left) k n =
    let rest = floor_log2_loop left (k + 1) n in if ltb n (2 ^ (k + 1)) then k else rest

-- `(float)n` of a `size_t`.
unfoldable pub float_of_size : ℕ → ℕ
unfolding nearest floor_log2_loop
float_of_size n =
    let e = floor_log2_loop 64 0 n in
    if ltb e 24 then n else nearest n (2 ^ (e - 23)) * 2 ^ (e - 23)

-- The quotient of two such numbers, rounded to a `float`, and `ceilf` of it; for `a` not below `b`.
unfoldable pub float_ceil_quotient : ℕ → ℕ → ℕ
unfolding nearest floor_log2_loop
float_ceil_quotient a b =
    let e = floor_log2_loop 65 0 (a / b) in
    if ltb e 24
    then (nearest (a * 2 ^ (23 - e)) b + 2 ^ (23 - e) - 1) / 2 ^ (23 - e)
    else nearest a (b * 2 ^ (e - 23)) * 2 ^ (e - 23)

-- A `perLong` is 1 to 64. Below 2 ^ 17 both conversions are exact, and the quotient, which is an
-- integer or 1 / 64 at least from the nearest one, is rounded by at most 1 / 256: its ceiling is exact.
unfoldable pub ceil_div : ℕ → ℕ → ℕ
unfolding float_of_size float_ceil_quotient
ceil_div len per_long =
    if ltb len (2 ^ 17)
    then (len + per_long - 1) / per_long
    else float_ceil_quotient (float_of_size len) per_long

pub ceil_div_exact :
    (len per_long : ℕ) → len < 2 ^ 17 → ceil_div len per_long ≡ (len + per_long - 1) / per_long
unfolding ceil_div
ceil_div_exact len per_long small =
    let exact : ltb len (2 ^ 17) ≡ true = ground arith in rw exact refl

-- With 2 ^ 25 + 1 values of 30 bits the last long is not counted.
rounded_count : ceil_div (2 ^ 25 + 1) 2 ≡ 2 ^ 24
unfolding ceil_div
rounded_count = refl

-- The two branches agree where they meet.
float_count : float_ceil_quotient (float_of_size 131071) 21 ≡ (131071 + 21 - 1) / 21
unfolding float_ceil_quotient float_of_size
float_count = refl
