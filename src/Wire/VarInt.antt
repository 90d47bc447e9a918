-- ===== src/Wire/VarInt.antt =====
-- `writeVarInt` and `readVarInt`. An `int32_t` is its bit pattern, a number below 2 ^ 32.
pub mod RoundTrip
pub mod Bounds
use doom_mc.Prelude.{
  ℕ, ◌+◌, ◌-◌, ◌*◌, ◌/◌, ◌%◌, ◌^◌, ◌<◌, ◌≡◌, refl, ◌≢◌, Bool, List, [], ◌∷◌, arith, ltb, leb, ◌==◌,
  ◌||◌, if◌then◌else◌, Acc, dite, ℕ_discrete, lt_wf, bit_and, bit_or,
}
use doom_mc.Wire.Cursor.{Errno, overflow, Cursor, at, Outcome, done, fault, Reader}

abbrev pub segment_bits : ℕ
segment_bits = 0x7f

abbrev pub continue_bit : ℕ
continue_bit = 0x80

abbrev pub max_var_int : ℕ
max_var_int = 5

abbrev pub int32_max : ℕ
int32_max = 2 ^ 31 - 1

abbrev pub IsU32 : ℕ → Type 0
IsU32 v = v < 2 ^ 32

abbrev pub IsByte : ℕ → Type 0
IsByte b = b < 256

-- `~SEGMENT_BITS` as a 32-bit pattern.
abbrev pub above_segment : ℕ
above_segment = 0xffff_ff80

pub shift_shrinks : (v : ℕ) → bit_and v above_segment ≢ 0 → v / 2 ^ 7 < v
shift_shrinks v more = ground arith

-- The list is what lands at `buff[i]` and behind it.
unfoldable pub write_loop : (value : ℕ) → Acc ◌<◌ value → List ℕ
write_loop value (Acc.intro _ smaller) =
    dite (ℕ_discrete (bit_and value above_segment) 0) (λ _. (value % 256) ∷ [])
      (λ more.
        (bit_or (bit_and value segment_bits) continue_bit % 256)
        ∷ write_loop (value / 2 ^ 7) (smaller _ (shift_shrinks value more)))

-- The bytes that are written; the result of the C function is their number.
unfoldable pub write_var_int : ℕ → List ℕ
unfolding write_loop ℕ_discrete lt_wf
write_var_int value = write_loop value (lt_wf.apply value)

-- `value |= (currentByte & SEGMENT_BITS) << position;`
abbrev pub or_segment : ℕ → ℕ → ℕ → ℕ
or_segment value b position = bit_or value (bit_and b segment_bits * 2 ^ position % 2 ^ 32)

-- `taken` is `*index - startIndex`.
unfoldable pub read_loop : List ℕ → ℕ → ℕ → ℕ → Errno → Outcome ℕ
read_loop [] value position taken e = fault
read_loop (b ∷ rest) value position taken e =
    let value' = or_segment value b position in
    let again = read_loop rest value' (position + 7) (taken + 1) e in
    if bit_and b continue_bit == 0
    then done value' (at rest e)
    else if leb 32 (position + 7) || ltb max_var_int (taken + 1)
    then done int32_max (at rest overflow)
    else again

unfoldable pub read_var_int : Reader ℕ
unfolding read_loop
read_var_int c = read_loop c.rest 0 0 0 c.errno
