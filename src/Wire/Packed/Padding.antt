-- ===== src/Wire/Packed/Padding.antt =====
-- The last long of a packed array: behind the values its fields hold zeros.
use doom_mc.Prelude.{
  ℕ, zero, suc, ◌+◌, ◌-◌, ◌*◌, ◌/◌, ◌%◌, ◌^◌, ◌≤◌, ◌<◌, ◌≡◌, refl, arith, ap, ◌∙◌, sym, List, [],
  ◌∷◌, get_or, length, leb, Bool-cases, inl, inr,
}
use doom_mc.Prelude.Bits.{pow_add}
use mathlib.Core.Path.{subst}
use native.Mathlib.Nat.{one-le-pow, mod-lt, pow-le-pow_right}
use doom_mc.Wire.Packed.{write_int_to_packed_array, packed_long_loop, packed_array_loop}
use doom_mc.Wire.Packed.Laws.{write_field, joined_bound, IsField, packed_long_loop-fields}

pub get_or_past : (val : List ℕ) (k : ℕ) → length val ≤ k → get_or val k 0 ≡ 0
get_or_past [] k h = refl
get_or_past (x ∷ val) zero h = absurd (omega arith)
get_or_past (x ∷ val) (suc k) h = get_or_past val k (omega arith)

module _ (val : List ℕ) (start bpe : ℕ) where
  -- One more field, and the bits that are in use behind it.
  write_next :
      (n l r : ℕ)
      → (n + 1) * bpe + r ≡ 64
      → l < 2 ^ (n * bpe)
      → write_int_to_packed_array l (get_or val (start + n) 0) (n * bpe) bpe < 2 ^ ((n + 1) * bpe)
  write_next n l r room low =
      let v = get_or val (start + n) 0 in
      let fits : v % 2 ^ bpe < 2 ^ bpe = mod-lt v (one-le-pow bpe 2 (omega arith)) in
      let next : 2 ^ ((n + 1) * bpe) ≡ 2 ^ (n * bpe) * 2 ^ bpe =
        ap (λ (t : ℕ). 2 ^ t) {x = (n + 1) * bpe} {y = n * bpe + bpe} (omega arith)
        ∙ pow_add 2 (n * bpe) bpe in
      subst (λ (t : ℕ). t < 2 ^ ((n + 1) * bpe))
        (sym (write_field (n * bpe) bpe r l v (omega arith) low))
        (subst (λ (t : ℕ). l + v % 2 ^ bpe * 2 ^ (n * bpe) < t) (sym next)
          (joined_bound (2 ^ (n * bpe)) (2 ^ bpe) l (v % 2 ^ bpe) low fits))

  nothing_more :
      (left n l r : ℕ)
      → n * bpe + left * bpe + r ≡ 64
      → l < 2 ^ (n * bpe)
      → length val ≤ start + n
      → packed_long_loop val start bpe left n l ≡ l
  unfolding packed_long_loop
  nothing_more zero n l r room low past = refl
  nothing_more (suc left) n l r room low past =
      let none_left = get_or_past val (start + n) past in
      let same : write_int_to_packed_array l (get_or val (start + n) 0) (n * bpe) bpe ≡ l =
        write_field (n * bpe) bpe (left * bpe + r) l (get_or val (start + n) 0) (omega arith) low
        ∙ rw none_left (ground (arith, one-le-pow bpe 2)) in
      rw same (
        nothing_more left (n + 1) l r (omega arith)
          (subst (λ (t : ℕ). t < 2 ^ ((n + 1) * bpe)) same
            (write_next n l (left * bpe + r) (omega arith) low))
          (omega arith))

  -- The loop that breaks is the loop that goes on with zeros.
  array_loop_padded :
      (left n l r : ℕ)
      → n * bpe + left * bpe + r ≡ 64
      → l < 2 ^ (n * bpe)
      → packed_array_loop val start bpe left n l ≡ packed_long_loop val start bpe left n l
  unfolding packed_array_loop packed_long_loop
  array_loop_padded zero n l r room low = refl
  array_loop_padded (suc left) n l r room low = elim (Bool-cases (leb (length val) (start + n))) [
    | inl past ↦ rw past (sym (nothing_more (suc left) n l r room low (ground arith)))
    | inr more ↦ rw more (
        array_loop_padded left (n + 1) _ r (omega arith)
          (write_next n l (left * bpe + r) (omega arith) low))
  ]

  -- Every field of a long, whether it has a value or not.
  pub array_loop-fields :
      (per_long n : ℕ)
      → per_long * bpe ≤ 64
      → n < per_long
      → packed_array_loop val start bpe per_long 0 0 / 2 ^ (n * bpe) % 2 ^ bpe
        ≡ get_or val (start + n) 0 % 2 ^ bpe
  array_loop-fields per_long n room lt =
      let one : 0 < 2 ^ (0 * bpe) = one-le-pow (0 * bpe) 2 (omega arith) in
      let field =
        (packed_long_loop-fields val start bpe per_long 0 0 (64 - per_long * bpe) (omega arith)
            one).1
          n lt in
      ap (λ (x : ℕ). x / 2 ^ (n * bpe) % 2 ^ bpe)
        (array_loop_padded per_long 0 0 (64 - per_long * bpe) (omega arith) one)
      ∙ subst (λ (m : ℕ). IsField val start bpe (packed_long_loop val start bpe per_long 0 0) m)
          (omega arith) field

  loop_bound :
      (left n l r : ℕ)
      → n * bpe + left * bpe + r ≡ 64
      → l < 2 ^ (n * bpe)
      → packed_long_loop val start bpe left n l < 2 ^ ((n + left) * bpe)
  unfolding packed_long_loop
  loop_bound zero n l r room low =
      subst (λ (t : ℕ). l < 2 ^ (t * bpe)) {x = n} {y = n + 0} (omega arith) low
  loop_bound (suc left) n l r room low =
      subst (λ (t : ℕ). packed_long_loop val start bpe (suc left) n l < 2 ^ (t * bpe))
        {x = n + 1 + left} {y = n + suc left} (omega arith)
        (loop_bound left (n + 1) _ r (omega arith)
          (write_next n l (left * bpe + r) (omega arith) low))

  pub array_loop_bound :
      (per_long : ℕ) → per_long * bpe ≤ 64 → packed_array_loop val start bpe per_long 0 0 < 2 ^ 64
  array_loop_bound per_long room =
      let one : 0 < 2 ^ (0 * bpe) = one-le-pow (0 * bpe) 2 (omega arith) in
      let r = 64 - per_long * bpe in
      let below = loop_bound per_long 0 0 r (omega arith) one in
      let wide : 2 ^ ((0 + per_long) * bpe) ≤ 2 ^ 64 =
        pow-le-pow_right {n = 2} (omega arith) {i = (0 + per_long) * bpe} {j = 64} (omega arith) in
      subst (λ (x : ℕ). x < 2 ^ 64) (sym (array_loop_padded per_long 0 0 r (omega arith) one))
        (omega (arith, below, wide))
