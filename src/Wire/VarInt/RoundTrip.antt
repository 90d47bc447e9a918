-- ===== src/Wire/VarInt/RoundTrip.antt =====
-- What `writeVarInt` writes, and that `readVarInt` reads it back.
use doom_mc.Prelude.{
  ℕ, zero, suc, ◌+◌, ◌*◌, ◌/◌, ◌%◌, ◌^◌, ◌≤◌, ◌<◌, ◌≡◌, List, [], ◌∷◌, ◌++◌, arith, Acc, lt_wf,
  bit_and, bit_or, dif_neg, dec_lt, ap, ◌∙◌, ◌≢◌,
}
use native.Mathlib.Nat.{pow-suc, div-add-mod'}
use native.Mathlib.Numerals.{towards_suc}
use doom_mc.Prelude.Bits.{bit_and_ones, bit_and_above, bit_or_low}
use doom_mc.Wire.Cursor.{Errno, at, done}
use doom_mc.Wire.VarInt.{
  segment_bits, continue_bit, above_segment, IsU32, IsByte, write_loop, write_var_int, read_loop,
  read_var_int, shift_shrinks,
}

and_segment : (a : ℕ) → bit_and a segment_bits ≡ a % 128
and_segment a = bit_and_ones 7 a

and_above : (a : ℕ) → IsU32 a → bit_and a above_segment ≡ a / 128 * 128
and_above a h = omega (arith, bit_and_above 7 a 0x1ff_ffff, bit_and_ones 25 (a / 128))

or_continue : (g : ℕ) → g < 128 → bit_or g continue_bit ≡ g + 128
or_continue g h = bit_or_low 7 g 1 h

pub and_continue : (b : ℕ) → IsByte b → bit_and b continue_bit ≡ b / 128 * 128
and_continue b h = omega (arith, bit_and_above 7 b 1, bit_and_ones 1 (b / 128))

head_byte : (v : ℕ) → bit_or (bit_and v segment_bits) continue_bit % 256 ≡ v % 128 + 128
head_byte v = omega (arith, and_segment v, or_continue (bit_and v segment_bits))

pub write_last : (v : ℕ) (w : Acc ◌<◌ v) → v < 128 → write_loop v w ≡ v ∷ []
unfolding write_loop
write_last v (Acc.intro _ smaller) h = ground (arith, and_above v)

is_long : (v : ℕ) → IsU32 v → 128 ≤ v → bit_and v above_segment ≢ 0
is_long v h k e = absurd (omega (arith, and_above v h, e))

pub write_more :
    (v : ℕ) (w : Acc ◌<◌ v)
    → IsU32 v
    → 128 ≤ v
    → (w' : Acc ◌<◌ (v / 128)) × (write_loop v w ≡ (v % 128 + 128) ∷ write_loop (v / 128) w')
unfolding write_loop
write_more v (Acc.intro _ smaller) h k = (
  smaller (v / 128) (shift_shrinks v (is_long v h k)),
  rw (dif_neg _ (is_long v h k)) (
      ap (λ (t : ℕ). t ∷ write_loop (v / 128) (smaller (v / 128) (shift_shrinks v (is_long v h k))))
        (head_byte v)),
)

-- One round of the reader on a last byte and on a byte with the top bit set.
read_last :
    (b value position taken : ℕ) (rest : List ℕ) (e : Errno)
    → b < 128
    → value < 2 ^ position
    → IsU32 (b * 2 ^ position)
    → read_loop (b ∷ rest) value position taken e ≡ done (value + b * 2 ^ position) (at rest e)
unfolding read_loop
read_last b value position taken rest e h low fits =
    ground (arith, and_segment b, and_continue b, bit_or_low position value b)

read_more :
    (g value position taken : ℕ) (rest : List ℕ) (e : Errno)
    → g < 128
    → value < 2 ^ position
    → IsU32 (g * 2 ^ position)
    → position < 25
    → taken < 5
    → read_loop ((g + 128) ∷ rest) value position taken e
      ≡ read_loop rest (value + g * 2 ^ position) (position + 7) (taken + 1) e
unfolding read_loop
read_more g value position taken rest e h low fits early few =
    ground (arith, and_segment (g + 128), and_continue (g + 128), bit_or_low position value g)

next_position : (p : ℕ) → 2 ^ (p + 7) ≡ 128 * 2 ^ p
next_position p = simp towards_suc (omega arith)

split_group : (v p : ℕ) → v * 2 ^ p ≡ v % 128 * 2 ^ p + v / 128 * 2 ^ (p + 7)
split_group v p = omega (
  arith,
  ap (λ (t : ℕ). t * 2 ^ p) (div-add-mod' v 128),
  ap (λ (t : ℕ). v / 128 * t) (next_position p),
)

group_below : (g value p : ℕ) → g < 128 → value < 2 ^ p → value + g * 2 ^ p < 2 ^ (p + 7)
group_below g value p h k = grind (arith, next_position p)

-- `k` more bytes may follow the next one.
read_written :
    (k v value position taken : ℕ) (rest : List ℕ) (e : Errno) (w : Acc ◌<◌ v)
    → v < 128 ^ suc k
    → value < 2 ^ position
    → IsU32 (value + v * 2 ^ position)
    → IsU32 v
    → position + 7 * k ≤ 28
    → taken + k ≤ 4
    → read_loop (write_loop v w ++ rest) value position taken e
      ≡ done (value + v * 2 ^ position) (at rest e)
read_written zero v value position taken rest e w h low fits small early few =
    rw (write_last v w h) (read_last v value position taken rest e h low (omega arith))
read_written (suc k) v value position taken rest e w h low fits small early few =
    elim (dec_lt v 128) [
      | yes last ↦
          rw (write_last v w last) (read_last v value position taken rest e last low (omega arith))
      | no long ↦
          let (w', shape) = write_more v w small (omega arith) in
          rw shape (
            read_more (v % 128) value position taken _ e (omega arith) low
              (omega (arith, split_group v position)) (omega arith) (omega arith)
            ∙ read_written k (v / 128) (value + v % 128 * 2 ^ position) (position + 7) (taken + 1)
                rest e w' (omega (arith, pow-suc 128 (suc k)))
                (group_below (v % 128) value position (omega arith) low)
                (omega (arith, split_group v position)) (omega arith) (omega arith) (omega arith)
            ∙ ap (λ (t : ℕ). done t (at rest e)) (omega (arith, split_group v position)))
    ]

-- `readVarInt` reads back every `int32_t` that `writeVarInt` wrote, stops right behind its bytes,
-- and leaves `errno` alone.
pub read-write_var_int :
    (v : ℕ) (rest : List ℕ) (e : Errno)
    → IsU32 v
    → read_var_int (at (write_var_int v ++ rest) e) ≡ done v (at rest e)
unfolding read_var_int write_var_int
read-write_var_int v rest e h =
    read_written 4 v 0 0 0 rest e (lt_wf.apply v) (omega arith) (omega arith) (omega arith) h
      (omega arith) (omega arith)
    ∙ ap (λ (t : ℕ). done t (at rest e)) (omega arith)
