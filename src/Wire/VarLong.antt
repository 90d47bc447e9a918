-- ===== src/Wire/VarLong.antt =====
-- `readVarLong`: the reader of VarInts at 64 bits.
use doom_mc.Prelude.{
  ℕ, ◌+◌, ◌-◌, ◌*◌, ◌%◌, ◌^◌, ◌||◌, List, [], ◌∷◌, ltb, leb, ◌==◌, if◌then◌else◌, bit_and, bit_or,
}
use doom_mc.Wire.Cursor.{at, Errno, overflow, Outcome, done, fault, Reader}
use doom_mc.Wire.VarInt.{segment_bits, continue_bit}

abbrev pub max_var_long : ℕ
max_var_long = 10

-- `taken` is `*index - startIndex`.
unfoldable pub read_long_loop : List ℕ → ℕ → ℕ → ℕ → Errno → Outcome ℕ
read_long_loop [] value position taken e = fault
read_long_loop (b ∷ rest) value position taken e =
    let value' = bit_or value (bit_and b segment_bits * 2 ^ position % 2 ^ 64) in
    let again = read_long_loop rest value' (position + 7) (taken + 1) e in
    if bit_and b continue_bit == 0
    then done value' (at rest e)
    else if leb 64 (position + 7) || ltb max_var_long (taken + 1)
    then done (2 ^ 63 - 1) (at rest overflow)
    else again

unfoldable pub read_var_long : Reader ℕ
unfolding read_long_loop
read_var_long c = read_long_loop c.rest 0 0 0 c.errno
