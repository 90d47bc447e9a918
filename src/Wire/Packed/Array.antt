-- ===== src/Wire/Packed/Array.antt =====
-- `writePackedArray`: every value is found again, at its place in its long.
use doom_mc.Prelude.{
  ℕ, zero, suc, ◌+◌, ◌-◌, ◌*◌, ◌/◌, ◌%◌, ◌^◌, ◌≤◌, ◌<◌, ◌≡◌, refl, arith, ap, ◌∙◌, sym, List, some,
  get_or, get_elem?, length, ◌⊎◌, inl, inr, leb, dec_le, true, false,
}
use doom_mc.Wire.Packed.{packed_long_loop, packed_array_loop, packed_longs}
use doom_mc.Wire.Quotient.{ceil_div, ceil_div_exact}
use doom_mc.Wire.Packed.Laws.{IsField, packed_long_loop-fields}
use mathlib.Core.Path.{subst}
use native.Mathlib.Nat.{
  one-le-pow, div-mul-le_self, mod-lt, div-add-mod, le-div_iff_mul-le, mul-le-mul_right,
}

-- The loop that breaks runs as many rounds as there are values, and as the long has room for.
array_loop_rounds :
    (val : List ℕ) (start bpe left rounds n l : ℕ)
    → rounds ≤ left
    → start + n + rounds ≤ length val
    → (rounds ≡ left) ⊎ (start + n + rounds ≡ length val)
    → packed_array_loop val start bpe left n l ≡ packed_long_loop val start bpe rounds n l
unfolding packed_array_loop packed_long_loop
array_loop_rounds val start bpe zero zero n l le in_val stop = refl
array_loop_rounds val start bpe zero (suc rounds) n l le in_val stop = absurd (omega arith)
array_loop_rounds val start bpe (suc left) zero n l le in_val stop =
    let past : leb (length val) (start + n) ≡ true = ground arith in rw past refl
array_loop_rounds val start bpe (suc left) (suc rounds) n l le in_val stop =
    let more : leb (length val) (start + n) ≡ false = ground arith in
    rw more (
      array_loop_rounds val start bpe left rounds (n + 1) _ (omega arith) (omega arith)
        (elim stop [ inl e ↦ inl (omega arith) | inr e ↦ inr (omega arith) ]))

longs_at :
    (val : List ℕ) (per_long bpe left i j : ℕ)
    → j < left
    → get_elem? (packed_longs val per_long bpe left i) j
      ≡ some (packed_array_loop val ((i + j) * per_long) bpe per_long 0 0)
unfolding packed_longs
longs_at val per_long bpe zero i j lt = absurd (omega arith)
longs_at val per_long bpe (suc left) i zero lt =
    ap (λ (t : ℕ). some (packed_array_loop val (t * per_long) bpe per_long 0 0)) (omega arith)
longs_at val per_long bpe (suc left) i (suc j) lt =
    longs_at val per_long bpe left (i + 1) j (omega arith)
    ∙ ap (λ (t : ℕ). some (packed_array_loop val (t * per_long) bpe per_long 0 0)) (omega arith)

-- One long, whether it is full or the last one.
array_loop-IsField :
    (val : List ℕ) (per_long bpe start n : ℕ)
    → per_long * bpe ≤ 64
    → n < per_long
    → start + n < length val
    → IsField val start bpe (packed_array_loop val start bpe per_long 0 0) n
array_loop-IsField val per_long bpe start n room lt in_val =
    elim (dec_le (start + per_long) (length val)) [
      | yes full ↦ by_rounds per_long (omega arith) (omega arith) (inl refl) (omega arith)
      | no last ↦
          by_rounds (length val - start) (omega arith) (omega arith) (inr (omega arith))
            (omega arith)
    ]
  where
    by_rounds :
        (rounds : ℕ)
        → rounds ≤ per_long
        → start + 0 + rounds ≤ length val
        → (rounds ≡ per_long) ⊎ (start + 0 + rounds ≡ length val)
        → n < rounds
        → IsField val start bpe (packed_array_loop val start bpe per_long 0 0) n
    by_rounds rounds le in_bounds stop below =
        let room' : rounds * bpe ≤ 64 = omega (arith, mul-le-mul_right bpe le) in
        let field =
          (packed_long_loop-fields val start bpe rounds 0 0 (64 - rounds * bpe) (omega arith)
              (one-le-pow (0 * bpe) 2 (omega arith))).1
            n below in
        subst (λ (x : ℕ). IsField val start bpe x n)
          (sym (array_loop_rounds val start bpe per_long rounds 0 0 le in_bounds stop))
          (subst (λ (m : ℕ). IsField val start bpe (packed_long_loop val start bpe rounds 0 0) m)
            (omega arith) field)

-- Value `k` of an array of fewer than 2 ^ 17 entries of `bpe` bits, from 1 to 30, stands in long
-- `k / perLong`, in the field `k % perLong` of it, cut to `bpe` bits; `perLong` is `64 / bpe`, so no
-- value straddles two longs.
pub packed_longs-fields :
    (val : List ℕ) (bpe k : ℕ)
    → 1 ≤ bpe
    → bpe ≤ 30
    → k < length val
    → length val < 2 ^ 17
    → let per_long = 64 / bpe in
      (x : ℕ) × (get_elem?
          (packed_longs val per_long bpe (ceil_div (length val) per_long) 0)
          (k / per_long)
        ≡ some x)
      × (x / 2 ^ (k % per_long * bpe) % 2 ^ bpe ≡ get_or val k 0 % 2 ^ bpe)
packed_longs-fields val bpe k low high lt small =
    let per_long = 64 / bpe in
    let exact = ceil_div_exact (length val) per_long small in
    let one_at_least : 1 ≤ per_long = (le-div_iff_mul-le low).1 (omega arith) in
    let split : k / per_long * per_long + k % per_long ≡ k =
      omega (arith, div-add-mod k per_long) in
    let in_longs : k / per_long < ceil_div (length val) per_long =
      rw exact ((le-div_iff_mul-le one_at_least).1 (omega (arith, split))) in
    let field =
      array_loop-IsField val per_long bpe (k / per_long * per_long) (k % per_long)
        (div-mul-le_self 64 bpe) (mod-lt k one_at_least) (omega (arith, split, lt)) in
    (
      packed_array_loop val (k / per_long * per_long) bpe per_long 0 0,
      longs_at val per_long bpe (ceil_div (length val) per_long) 0 (k / per_long) in_longs
          ∙ ap (λ (t : ℕ). some (packed_array_loop val (t * per_long) bpe per_long 0 0))
              (omega arith),
      field ∙ ap (λ (t : ℕ). get_or val t 0 % 2 ^ bpe) split,
    )
