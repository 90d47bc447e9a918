-- ===== src/Wire/Packed/Laws.antt =====
-- Packing loses nothing: each entry is found again at its place in the longs.
use doom_mc.Prelude.{
  ℕ, zero, suc, ◌+◌, ◌-◌, ◌*◌, ◌/◌, ◌%◌, ◌^◌, ◌≤◌, ◌<◌, ◌≡◌, arith, ap, ◌∙◌, sym, List, get_or,
}
use doom_mc.Prelude.Bits.{bit_and_ones, bit_and_full, bit_or_low, pow_add}
use doom_mc.Wire.Packed.{write_int_to_packed_array, packed_long_loop, write_packed_long}
use mathlib.Core.Path.{subst}
use native.Mathlib.Nat.{
  one-le-pow, mod-eq_of_lt, mod-lt, mul-le-mul_left, add-mul-mod_self_right, add-mul-mod_self_left,
  add-mul-div_right, div-eq_of_lt, div-add-mod,
}

whole : (k b r : ℕ) → k + b + r ≡ 64 → 2 ^ k * 2 ^ b * 2 ^ r ≡ 2 ^ 64
whole k b r h =
    sym (ap (λ (t : ℕ). t * 2 ^ r) (pow_add 2 k b))
    ∙ sym (pow_add 2 (k + b) r)
    ∙ ap (λ (t : ℕ). 2 ^ t) h

field_bound : (k b r v : ℕ) → 1 ≤ k → 1 ≤ r → v < b → v * k < k * b * r
field_bound k b zero v hk hr lt = absurd (omega arith)
field_bound zero b (suc r) v hk hr lt = absurd (omega arith)
field_bound (suc k) zero (suc r) v hk hr lt = absurd (omega arith)
field_bound (suc k) (suc b) (suc r) v hk hr lt =
    let le : v ≤ b = omega arith in omega (arith, mul-le-mul_left (suc k) le)

pub field_fits : (k b r v : ℕ) → k + b + r ≡ 64 → v < 2 ^ b → v * 2 ^ k < 2 ^ 64
field_fits k b r v h lt =
    subst (λ (t : ℕ). v * 2 ^ k < t) (whole k b r h)
      (field_bound (2 ^ k) (2 ^ b) (2 ^ r) v (one-le-pow k 2 (omega arith))
        (one-le-pow r 2 (omega arith)) lt)

mask_split :
    (k b r w : ℕ) → suc k * suc b * suc r ≡ suc w → w - b * suc k % suc w ≡ r * suc b * suc k + k
mask_split k b r w h =
    let small : b * suc k < suc w = omega arith in omega (arith, mod-eq_of_lt small)

mask_split_pos :
    (k b r w : ℕ)
    → 1 ≤ k
    → 1 ≤ b
    → 1 ≤ r
    → 1 ≤ w
    → k * b * r ≡ w
    → w - 1 - (b - 1) * k % w ≡ (r - 1) * b * k + (k - 1)
mask_split_pos zero b r w hk hb hr hw h = absurd (omega arith)
mask_split_pos (suc k) zero r w hk hb hr hw h = absurd (omega arith)
mask_split_pos (suc k) (suc b) zero w hk hb hr hw h = absurd (omega arith)
mask_split_pos (suc k) (suc b) (suc r) zero hk hb hr hw h = absurd (omega arith)
mask_split_pos (suc k) (suc b) (suc r) (suc w) hk hb hr hw h =
    let gone : (n : ℕ) → suc n - 1 ≡ n = λ n. omega arith in
    rw (gone w, gone b, gone r, gone k) (mask_split k b r w h)

-- The clearing mask of a field at `offset` keeps all that stands below it.
keep_below :
    (k b r : ℕ)
    → k + b + r ≡ 64
    → 2 ^ 64 - 1 - (2 ^ b - 1) * 2 ^ k % 2 ^ 64 ≡ (2 ^ r - 1) * 2 ^ b * 2 ^ k + (2 ^ k - 1)
keep_below k b r h =
    mask_split_pos (2 ^ k) (2 ^ b) (2 ^ r) (2 ^ 64) (one-le-pow k 2 (omega arith))
      (one-le-pow b 2 (omega arith)) (one-le-pow r 2 (omega arith)) (omega arith) (whole k b r h)

pub write_field :
    (k b r buff value : ℕ)
    → k + b + r ≡ 64
    → buff < 2 ^ k
    → write_int_to_packed_array buff value k b ≡ buff + value % 2 ^ b * 2 ^ k
unfolding write_int_to_packed_array
write_field k b r buff value h low =
    rw
      (
        bit_and_ones b value,
        keep_below k b r h,
        bit_and_full k buff ((2 ^ r - 1) * 2 ^ b) low,
        mod-eq_of_lt
            (field_fits k b r (value % 2 ^ b) h (mod-lt value (one-le-pow b 2 (omega arith)))),
      )
      (bit_or_low k buff (value % 2 ^ b) low)

-- What a field and all below it were, once more fields stand above.
split_field :
    (k b x l v : ℕ) → l < k → v < b → x % (k * b) ≡ l + v * k → (x % k ≡ l) × (x / k % b ≡ v)
split_field k b x l v lk vb e =
    let q = x / (k * b) in
    let parts : x ≡ l + (v + b * q) * k = omega (arith, div-add-mod x (k * b), e) in
    let pos : 0 < k = omega arith in
    let none_low : 0 + (v + b * q) ≡ v + b * q = omega arith in
    (
      ap (λ (t : ℕ). t % k) parts ∙ add-mul-mod_self_right l (v + b * q) k ∙ mod-eq_of_lt lk,
      ap (λ (t : ℕ). t / k % b) parts
          ∙ ap (λ (t : ℕ). t % b)
              (add-mul-div_right l (v + b * q) pos
                ∙ ap (λ (t : ℕ). t + (v + b * q)) (div-eq_of_lt lk)
                ∙ none_low)
          ∙ add-mul-mod_self_left v b q
          ∙ mod-eq_of_lt vb,
    )

pub joined_bound : (k b l v : ℕ) → l < k → v < b → l + v * k < k * b
joined_bound k b l v lk vb = let le : suc v ≤ b = omega arith in omega (arith, mul-le-mul_left k le)

-- What `x` holds as field `m`.
abbrev pub IsField : List ℕ → ℕ → ℕ → ℕ → ℕ → Type 0
IsField val start bpe x m = x / 2 ^ (m * bpe) % 2 ^ bpe ≡ get_or val (start + m) 0 % 2 ^ bpe

IsField-step :
    (val : List ℕ) (start bpe n left x : ℕ)
    → IsField val start bpe x n
    → ((j : ℕ) → j < left → IsField val start bpe x (n + 1 + j))
    → (j : ℕ) → j < suc left
    → IsField val start bpe x (n + j)
IsField-step val start bpe n left x here later zero lt =
    subst (IsField val start bpe x) (omega arith) here
IsField-step val start bpe n left x here later (suc j) lt =
    subst (IsField val start bpe x) (omega arith) (later j (omega arith))

-- The bits below a round's field stay, and each later field is found at its place.
pub packed_long_loop-fields :
    (val : List ℕ) (start bpe left n l r : ℕ)
    → n * bpe + left * bpe + r ≡ 64
    → l < 2 ^ (n * bpe)
    → (packed_long_loop val start bpe left n l % 2 ^ (n * bpe) ≡ l)
      × ((j : ℕ)
          → j < left
          → IsField val start bpe (packed_long_loop val start bpe left n l) (n + j))
unfolding packed_long_loop
packed_long_loop-fields val start bpe zero n l r room low =
    (mod-eq_of_lt low, λ j h. absurd (omega arith))
packed_long_loop-fields val start bpe (suc left) n l r room low =
    let v = get_or val (start + n) 0 in
    let b_pos = one-le-pow bpe 2 (omega arith) in
    let fits : v % 2 ^ bpe < 2 ^ bpe = mod-lt v b_pos in
    let l' = l + v % 2 ^ bpe * 2 ^ (n * bpe) in
    let step : write_int_to_packed_array l v (n * bpe) bpe ≡ l' =
      write_field (n * bpe) bpe (left * bpe + r) l v (omega arith) low in
    let next : 2 ^ ((n + 1) * bpe) ≡ 2 ^ (n * bpe) * 2 ^ bpe =
      ap (λ (t : ℕ). 2 ^ t) {x = (n + 1) * bpe} {y = n * bpe + bpe} (omega arith)
      ∙ pow_add 2 (n * bpe) bpe in
    let low' : l' < 2 ^ ((n + 1) * bpe) =
      subst (λ (t : ℕ). l' < t) (sym next)
        (joined_bound (2 ^ (n * bpe)) (2 ^ bpe) l (v % 2 ^ bpe) low fits) in
    let (below, fields) =
      packed_long_loop-fields val start bpe left (n + 1) l' r (omega arith) low' in
    let x = packed_long_loop val start bpe left (n + 1) l' in
    let (same, here) =
      split_field (2 ^ (n * bpe)) (2 ^ bpe) x l (v % 2 ^ bpe) low fits
        (ap (λ (t : ℕ). x % t) (sym next) ∙ below) in
    rw step (same, IsField-step val start bpe n left x here fields)

-- A packed long holds each of its entries, cut to `bpe` bits, at the place `n * bpe`: entry `n` of the
-- long numbered `index` is `val[index * perLong + n]`, for as many entries as a 64-bit long has room for.
write_packed_long_lem :
    (val : List ℕ) (per_long index bpe n : ℕ)
    → per_long * bpe ≤ 64
    → n < per_long
    → write_packed_long val per_long index bpe / 2 ^ (n * bpe) % 2 ^ bpe
      ≡ get_or val (index * per_long + n) 0 % 2 ^ bpe
unfolding write_packed_long
write_packed_long_lem val per_long index bpe n room lt =
    subst
      (λ (m : ℕ). IsField val (index * per_long) bpe (write_packed_long val per_long index bpe) m)
      (omega arith)
      ((packed_long_loop-fields val (index * per_long) bpe per_long 0 0 (64 - per_long * bpe)
          (omega arith) (one-le-pow (0 * bpe) 2 (omega arith))).1
        n lt)
