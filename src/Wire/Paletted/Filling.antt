-- ===== src/Wire/Paletted/Filling.antt =====
-- The loops of `readPalettedContainer` over the states, on longs that `writePackedArray` packed.
use mathlib.Core.Path.{subst}
use native.Mathlib.Nat.{
  one-le-pow, mod-lt, mod-eq_of_lt, mul-div_cancel, div-mul-le_self, pow-le-pow_right,
  mul-le-mul_right,
}
use doom_mc.Prelude.{
  ℕ, zero, suc, ◌+◌, ◌-◌, ◌*◌, ◌/◌, ◌%◌, ◌^◌, ◌≤◌, ◌<◌, ◌≡◌, ◌≢◌, refl, arith, ap, ◌∙◌, sym, false,
  Option, some, List, [], ◌∷◌, ◌++◌, length, set, get_or, leb, bit_and, length-set, ℕ_discrete,
  append_assoc,
}
use doom_mc.Prelude.Bits.{bit_and_above, bit_and_ones, bit_and_comm}
use doom_mc.Wire.Cursor.{Cursor, at, clear, done}
use doom_mc.Wire.Endian.{read_big_endian_ulong, read_big_endian_long, write_big_endian_long}
use doom_mc.Wire.Endian.Laws.{read-write_big_endian}
use doom_mc.Wire.Packed.{packed_array_loop, packed_longs, concat_longs}
use doom_mc.Wire.Packed.Laws.{field_fits}
use doom_mc.Wire.Packed.Padding.{array_loop-fields, array_loop_bound}
use doom_mc.Wire.Paletted.Reading.{read_state, is_too_big, fill_states, fill_longs}

-- The mask and the shift take a field.
read_state_lem :
    (long k b r : ℕ) → k + b + r ≡ 64 → b < 32 → read_state long k b ≡ long / 2 ^ k % 2 ^ b
unfolding read_state
read_state_lem long k b r room small =
    let b_pos = one-le-pow b 2 (omega arith) in
    let k_pos = one-le-pow k 2 (omega arith) in
    let fits : (2 ^ b - 1) * 2 ^ k < 2 ^ 64 = field_fits k b r (2 ^ b - 1) room (omega arith) in
    let field : ℕ = long / 2 ^ k % 2 ^ b in
    let masked : bit_and ((2 ^ b - 1) * 2 ^ k % 2 ^ 64) long ≡ field * 2 ^ k =
      rw
        (
          mod-eq_of_lt fits,
          bit_and_comm ((2 ^ b - 1) * 2 ^ k) long,
          bit_and_above k long (2 ^ b - 1),
          bit_and_ones b (long / 2 ^ k),
        )
        refl in
    let narrow : 2 ^ b ≤ 2 ^ 32 =
      pow-le-pow_right {n = 2} (omega arith) {i = b} {j = 32} (omega arith) in
    let short : field < 2 ^ 32 = omega (arith, mod-lt (long / 2 ^ k) b_pos) in
    ap (λ (t : ℕ). t / 2 ^ k % 2 ^ 32) masked
    ∙ ap (λ (t : ℕ). t % 2 ^ 32) (mul-div_cancel field k_pos)
    ∙ mod-eq_of_lt short

read_ulong_back :
    (long : ℕ) (rest : List ℕ)
    → long < 2 ^ 64
    → read_big_endian_ulong (at (write_big_endian_long long ++ rest) clear)
      ≡ done long (at rest clear)
unfolding read_big_endian_ulong read_big_endian_long
read_ulong_back long rest h =
    (read-write_big_endian 0 0 long 0 rest clear (omega arith) (omega arith) h (omega arith)).2

pub get_or-set_self : (xs : List ℕ) (i v : ℕ) → i < length xs → get_or (set xs i v) i 0 ≡ v
get_or-set_self [] i v h = absurd (omega arith)
get_or-set_self (x ∷ xs) zero v h = refl
get_or-set_self (x ∷ xs) (suc i) v h = get_or-set_self xs i v (omega arith)

pub get_or-set_ne : (xs : List ℕ) (i j v : ℕ) → i ≢ j → get_or (set xs i v) j 0 ≡ get_or xs j 0
get_or-set_ne [] i j v h = refl
get_or-set_ne (x ∷ xs) zero zero v h = absurd (h refl)
get_or-set_ne (x ∷ xs) zero (suc j) v h = refl
get_or-set_ne (x ∷ xs) (suc i) zero v h = refl
get_or-set_ne (x ∷ xs) (suc i) (suc j) v h = get_or-set_ne xs i j v (λ e. h (ap suc e))

-- The first `n` entries are those of `val`, or zeros behind its end.
abbrev pub Agrees : List ℕ → List ℕ → ℕ → Type 0
Agrees val states n = (j : ℕ) → j < n → get_or states j 0 ≡ get_or val j 0

Agrees-next :
    (val states : List ℕ) (index : ℕ)
    → index < length states
    → Agrees val states index
    → Agrees val (set states index (get_or val index 0)) (index + 1)
Agrees-next val states index room agrees j lt = elim (ℕ_discrete index j) [
  | yes e ↦
      ap (λ (t : ℕ). get_or (set states index (get_or val index 0)) t 0) (sym e)
      ∙ get_or-set_self states index (get_or val index 0) room
      ∙ ap (λ (t : ℕ). get_or val t 0) e
  | no ne ↦ get_or-set_ne states index j (get_or val index 0) ne ∙ agrees j (omega arith)
]

module _ (palette? : Option (List ℕ)) (global bpe : ℕ) (val : List ℕ)
    (fine : (j : ℕ) → is_too_big palette? global (get_or val j 0) ≡ false) where
  fill_step :
      (long left b index : ℕ) (states : List ℕ)
      → read_state long (b * bpe) bpe ≡ get_or val index 0
      → index < length states
      → length states < 2 ^ 16
      → fill_states palette? global bpe long (suc left) b index states
        ≡ fill_states palette? global bpe long left
            (b + 1)
            (index + 1)
            (set states index (get_or val index 0))
  unfolding fill_states
  fill_step long left b index states here room small =
      let space : leb (length states) index ≡ false = ground arith in
      let next : (index + 1) % 2 ^ 16 ≡ index + 1 = omega arith in
      rw (here, space, fine index, next) refl

  fill_states_lem :
      (long left b index : ℕ) (states : List ℕ)
      → index + left ≤ length states
      → length states < 2 ^ 16
      → ((j : ℕ) → j < left → read_state long ((b + j) * bpe) bpe ≡ get_or val (index + j) 0)
      → Agrees val states index
      → (states' : List ℕ) × (fill_states palette? global bpe long left b index states
          ≡ some (states', index + left))
        × (length states' ≡ length states)
        × Agrees val states' (index + left)
  unfolding fill_states
  fill_states_lem long zero b index states room small fields agrees =
      (states, ap (λ (t : ℕ). some (states, t)) (omega arith), refl, λ j lt. agrees j (omega arith))
  fill_states_lem long (suc left) b index states room small fields agrees =
      let here : read_state long (b * bpe) bpe ≡ get_or val index 0 =
        ap (λ (t : ℕ). read_state long (t * bpe) bpe) {x = b} {y = b + 0} (omega arith)
        ∙ fields 0 (omega arith)
        ∙ ap (λ (t : ℕ). get_or val t 0) {x = index + 0} {y = index} (omega arith) in
      let after = set states index (get_or val index 0) in
      let same = length-set states index (get_or val index 0) in
      let (states', run, len, agrees') =
        fill_states_lem long left (b + 1) (index + 1) after (omega (arith, same))
          (omega (arith, same))
          (λ j lt.
            ap (λ (t : ℕ). read_state long (t * bpe) bpe) {x = b + 1 + j} {y = b + suc j}
              (omega arith)
            ∙ fields (suc j) (omega arith)
            ∙ ap (λ (t : ℕ). get_or val t 0) {x = index + suc j} {y = index + 1 + j} (omega arith))
          (Agrees-next val states index (omega arith) agrees) in
      (
        states',
        fill_step long left b index states here (omega arith) small
            ∙ run
            ∙ ap (λ (t : ℕ). some (states', t)) {x = index + 1 + left} {y = index + suc left}
                (omega arith),
        len ∙ same,
        λ j lt. agrees' j (omega arith),
      )

  long_step :
      (long left index index' : ℕ) (states states' : List ℕ) (c c' : Cursor)
      → read_big_endian_ulong c ≡ done long c'
      → fill_states palette? global bpe long (64 / bpe) 0 index states ≡ some (states', index')
      → fill_longs palette? global bpe (suc left) index states c
        ≡ fill_longs palette? global bpe left index' states' c'
  unfolding fill_longs
  long_step long left index index' states states' c c' read run = rw (read, fill_longs, run) refl

  fill_long :
      (i : ℕ) (states : List ℕ)
      → bpe < 32
      → i * (64 / bpe) + 64 / bpe ≤ length states
      → length states < 2 ^ 16
      → ((j : ℕ) → get_or val j 0 < 2 ^ bpe)
      → Agrees val states (i * (64 / bpe))
      → (states' : List ℕ) × (fill_states palette? global bpe
            (packed_array_loop val (i * (64 / bpe)) bpe (64 / bpe) 0 0)
            (64 / bpe)
            0
            (i * (64 / bpe))
            states
          ≡ some (states', i * (64 / bpe) + 64 / bpe))
        × (length states' ≡ length states)
        × Agrees val states' (i * (64 / bpe) + 64 / bpe)
  fill_long i states high room small narrow agrees =
      let per_long = 64 / bpe in
      let long = packed_array_loop val (i * per_long) bpe per_long 0 0 in
      let whole : per_long * bpe ≤ 64 = div-mul-le_self 64 bpe in
      fill_states_lem long per_long 0 (i * per_long) states room small
        (λ j lt.
          let up_to : (j + 1) * bpe ≤ per_long * bpe = mul-le-mul_right bpe (omega arith) in
          ap (λ (t : ℕ). read_state long (t * bpe) bpe) {x = 0 + j} {y = j} (omega arith)
          ∙ read_state_lem long (j * bpe) bpe (64 - (j + 1) * bpe) (omega (arith, up_to, whole))
              high
          ∙ array_loop-fields val (i * per_long) bpe per_long j whole lt
          ∙ mod-eq_of_lt (narrow (i * per_long + j)))
        agrees

  pub fill_longs_lem :
      (left i : ℕ) (states rest : List ℕ)
      → bpe < 32
      → (i + left) * (64 / bpe) ≡ length states
      → length states < 2 ^ 16
      → ((j : ℕ) → get_or val j 0 < 2 ^ bpe)
      → Agrees val states (i * (64 / bpe))
      → (states' : List ℕ) × (fill_longs palette? global bpe left
            (i * (64 / bpe))
            states
            (at (concat_longs (packed_longs val (64 / bpe) bpe left i) ++ rest) clear)
          ≡ done (some states') (at rest clear))
        × (length states' ≡ length states)
        × Agrees val states' (length states)
  unfolding fill_longs concat_longs packed_longs
  fill_longs_lem zero i states rest high total small narrow agrees =
      (states, refl, refl, λ j lt. agrees j (omega (arith, total)))
  fill_longs_lem (suc left) i states rest high total small narrow agrees =
      let per_long = 64 / bpe in
      let long = packed_array_loop val (i * per_long) bpe per_long 0 0 in
      let tail = concat_longs (packed_longs val per_long bpe left (i + 1)) ++ rest in
      let next : i * per_long + per_long ≡ (i + 1) * per_long = omega arith in
      let split : (i + 1) * per_long + left * per_long ≡ length states = omega (arith, total) in
      let (states1, run1, len1, agrees1) =
        fill_long i states high (omega (arith, split)) small narrow agrees in
      let (states', run, len, agrees') =
        fill_longs_lem left (i + 1) states1 rest high (omega (arith, split, len1))
          (omega (arith, len1, small)) narrow (subst (Agrees val states1) next agrees1) in
      (
        states',
        long_step long left (i * per_long) ((i + 1) * per_long) states states1
              (at
                ((write_big_endian_long long
                    ++ concat_longs (packed_longs val per_long bpe left (i + 1)))
                  ++ rest)
                clear)
              (at tail clear)
              (ap (λ (t : List ℕ). read_big_endian_ulong (at t clear))
                  (append_assoc (write_big_endian_long long) _ rest)
                ∙ read_ulong_back long tail
                    (array_loop_bound val (i * per_long) bpe per_long (div-mul-le_self 64 bpe)))
              (run1 ∙ ap (λ (t : ℕ). some (states1, t)) next)
            ∙ run,
        len ∙ len1,
        subst (Agrees val states') len1 agrees',
      )
