-- ===== src/Wire/VarInt/Bounds.antt =====
-- How many bytes the VarInt functions touch, on any value and on any buffer.
use doom_mc.Prelude.{
  ℕ, zero, suc, ◌+◌, ◌*◌, ◌/◌, ◌%◌, ◌^◌, ◌≤◌, ◌<◌, ◌≡◌, List, [], ◌∷◌, arith, Acc, lt_wf, bit_and,
  length, All, dec_lt, inl, inr, Bool-cases, ◌==◌,
}
use native.Mathlib.Nat.{pow-suc, one-le-pow}
use doom_mc.Prelude.Bits.{bit_or_bound}
use doom_mc.Wire.Cursor.{Errno, overflow, Cursor, at, done}
use doom_mc.Wire.VarInt.{
  segment_bits, continue_bit, IsU32, IsByte, write_loop, write_var_int, read_loop, read_var_int,
  int32_max, max_var_int, or_segment,
}
use doom_mc.Wire.VarInt.RoundTrip.{write_last, write_more, and_continue}

write_loop_shape :
    (k v : ℕ) (w : Acc ◌<◌ v)
    → v < 128 ^ suc k
    → IsU32 v
    → All IsByte (write_loop v w)
      × (1 ≤ length (write_loop v w))
      × (length (write_loop v w) ≤ suc k)
write_loop_shape zero v w h small = rw (write_last v w h) (omega arith)
write_loop_shape (suc k) v w h small = elim (dec_lt v 128) [
  | yes last ↦ rw (write_last v w last) (omega arith)
  | no long ↦
      let (w', shape) = write_more v w small (omega arith) in
      let (bytes, lo, hi) =
        write_loop_shape k (v / 128) w' (omega (arith, pow-suc 128 (suc k))) (omega arith) in
      rw shape ((omega arith, bytes), omega arith, omega arith)
]

-- `writeVarInt` writes one to `MAX_VAR_INT` bytes, so a buffer of that size never overflows.
pub write_var_int_shape :
    (v : ℕ)
    → IsU32 v
    → All IsByte (write_var_int v)
      × (1 ≤ length (write_var_int v))
      × (length (write_var_int v) ≤ max_var_int)
unfolding write_var_int
write_var_int_shape v h = write_loop_shape 4 v (lt_wf.apply v) (omega arith) h

read_loop_total :
    (bytes : List ℕ) (value position taken : ℕ) (e : Errno)
    → IsU32 value
    → position ≡ 7 * taken
    → taken ≤ 4
    → 5 ≤ length bytes + taken
    → (v : ℕ) × (c : Cursor) × (read_loop bytes value position taken e ≡ done v c)
      × IsU32 v
      × (length c.rest < length bytes)
      × (length bytes + taken ≤ length c.rest + 5)
unfolding read_loop
read_loop_total [] value position taken e small at_bit few long = absurd (omega arith)
read_loop_total (b ∷ rest) value position taken e small at_bit few long =
    elim (Bool-cases (bit_and b continue_bit == 0)) [
      | inl last ↦
          (or_segment value b position, at rest e, rw last, or_fits, omega arith, omega arith)
      | inr more ↦ elim (dec_lt taken 4) [
        | yes early ↦
            let (v, c, run, fits, less, few') =
              read_loop_total rest (or_segment value b position) (position + 7) (taken + 1) e
                or_fits (omega arith) (omega arith) (omega arith) in
            (v, c, rw more (ground arith), fits, omega arith, omega arith)
        | no late ↦ (
          int32_max,
          at rest overflow,
          rw more (ground arith),
          omega arith,
          omega arith,
          omega arith,
        )
      ]
    ]
  where
    or_fits : IsU32 (or_segment value b position)
    or_fits =
        bit_or_bound 32 value (bit_and b segment_bits * 2 ^ position % 2 ^ 32) small (omega arith)

-- On any five bytes `readVarInt` ends with an `int32_t`, after one to five of them: whatever a peer
-- sends, it reads no further.
pub read_var_int_total :
    (bytes : List ℕ) (e : Errno)
    → max_var_int ≤ length bytes
    → (v : ℕ) × (c : Cursor) × (read_var_int (at bytes e) ≡ done v c)
      × IsU32 v
      × (length c.rest < length bytes)
      × (length bytes ≤ length c.rest + max_var_int)
unfolding read_var_int
read_var_int_total bytes e long =
    let (v, c, run, fits, less, few) =
      read_loop_total bytes 0 0 0 e (omega arith) (omega arith) (omega arith) (omega arith) in
    (v, c, run, fits, less, omega arith)

-- Five bytes that all have the top bit set are the one failure: `INT32_MAX` with `EOVERFLOW`.
read_var_int_overflow :
    (a b c d f : ℕ) (rest : List ℕ) (e : Errno)
    → All IsByte (a ∷ b ∷ c ∷ d ∷ f ∷ [])
    → All (λ x. 128 ≤ x) (a ∷ b ∷ c ∷ d ∷ f ∷ [])
    → read_var_int (at (a ∷ b ∷ c ∷ d ∷ f ∷ rest) e) ≡ done int32_max (at rest overflow)
unfolding read_var_int read_loop
read_var_int_overflow a b c d f rest e bytes long =
    ground (arith, and_continue a, and_continue b, and_continue c, and_continue d, and_continue f)

write_loop_long :
    (k v : ℕ) (w : Acc ◌<◌ v) → 128 ^ k ≤ v → IsU32 v → suc k ≤ length (write_loop v w)
write_loop_long zero v w h small = elim (dec_lt v 128) [
  | yes last ↦ rw (write_last v w last) (omega arith)
  | no long ↦ let (w', shape) = write_more v w small (omega arith) in rw shape (omega arith)
]
write_loop_long (suc k) v w h small =
    let enough : 128 * 128 ^ k ≤ v = omega (arith, pow-suc 128 k) in
    let (w', shape) = write_more v w small (omega (arith, one-le-pow k 128)) in
    rw shape (omega (arith, write_loop_long k (v / 128) w' (omega arith) (omega arith)))

-- A value of `2 ^ 28` or more takes all five bytes, and a smaller one four at most.
pub length-write_var_int :
    (v : ℕ)
    → IsU32 v
    → (2 ^ 28 ≤ v → length (write_var_int v) ≡ 5) × (v < 2 ^ 28 → length (write_var_int v) ≤ 4)
unfolding write_var_int
length-write_var_int v h = (
  λ big.
      let lo = write_loop_long 4 v (lt_wf.apply v) (omega arith) h in
      let (_, _, hi) = write_loop_shape 4 v (lt_wf.apply v) (omega arith) h in omega arith,
  λ small. let (_, _, hi) = write_loop_shape 3 v (lt_wf.apply v) (omega arith) h in hi,
)

pub length-write_var_int_le :
    (k v : ℕ) → v < 128 ^ suc k → IsU32 v → length (write_var_int v) ≤ suc k
unfolding write_var_int
length-write_var_int_le k v h small =
    let (_, _, hi) = write_loop_shape k v (lt_wf.apply v) h small in hi
