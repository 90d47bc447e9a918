-- ===== src/Wire/Packed.antt =====
-- `writeIntToPackedArray`, `writePackedLong` and `writePackedArray`: entries of `bpe` bits, as many
-- to a 64-bit long as fit, lowest first.
pub mod Laws
pub mod Array
pub mod Padding
use doom_mc.Prelude.{
  ℕ, zero, suc, ◌+◌, ◌-◌, ◌*◌, ◌/◌, ◌%◌, ◌^◌, List, [], ◌∷◌, ◌++◌, Bool, length, get_or, leb,
  if◌then◌else◌, bit_and, bit_or,
}
use doom_mc.Wire.VarInt.{write_var_int}
use doom_mc.Wire.Quotient.{ceil_div}
use doom_mc.Wire.Endian.{write_big_endian_long}

-- `~mask` is `2 ^ 64 - 1 - mask`. The field is `value`'s low bits, for a `bpe` below 31.
unfoldable pub write_int_to_packed_array : ℕ → ℕ → ℕ → ℕ → ℕ
write_int_to_packed_array buff value offset bpe =
    let mask = (2 ^ bpe - 1) * 2 ^ offset % 2 ^ 64 in
    let masked_value = bit_and value (2 ^ bpe - 1) in
    bit_or (bit_and buff (2 ^ 64 - 1 - mask)) (masked_value * 2 ^ offset % 2 ^ 64)

-- The loop over `n`, with `left` rounds to go; `start` is `index * perLong`.
unfoldable pub packed_long_loop : List ℕ → ℕ → ℕ → ℕ → ℕ → ℕ → ℕ
unfolding write_int_to_packed_array
packed_long_loop val start bpe zero n l = l
packed_long_loop val start bpe (suc left) n l =
    packed_long_loop val start bpe left (n + 1)
      (write_int_to_packed_array l (get_or val (start + n) 0) (n * bpe) bpe)

unfoldable pub write_packed_long : List ℕ → ℕ → ℕ → ℕ → ℕ
unfolding packed_long_loop
write_packed_long val per_long index bpe = packed_long_loop val (index * per_long) bpe per_long 0 0

-- The same loop in `writePackedArray`, which breaks where the values end.
unfoldable pub packed_array_loop : List ℕ → ℕ → ℕ → ℕ → ℕ → ℕ → ℕ
unfolding write_int_to_packed_array
packed_array_loop val start bpe zero n l = l
packed_array_loop val start bpe (suc left) n l =
    let more =
      packed_array_loop val start bpe left (n + 1)
        (write_int_to_packed_array l (get_or val (start + n) 0) (n * bpe) bpe) in
    if leb (length val) (start + n) then l else more

-- The longs from index `i` on, with `left` to go.
unfoldable pub packed_longs : List ℕ → ℕ → ℕ → ℕ → ℕ → List ℕ
unfolding packed_array_loop
packed_longs val per_long bpe zero i = []
packed_longs val per_long bpe (suc left) i =
    packed_array_loop val (i * per_long) bpe per_long 0 0
    ∷ packed_longs val per_long bpe left (i + 1)

unfoldable pub concat_longs : List ℕ → List ℕ
concat_longs [] = []
concat_longs (l ∷ ls) = write_big_endian_long l ++ concat_longs ls

-- `val` has `len` entries.
unfoldable pub write_packed_array : List ℕ → ℕ → Bool → List ℕ
unfolding packed_longs concat_longs ceil_div
write_packed_array val bpe write_length =
    let per_long = 64 / bpe in
    let long_count = ceil_div (length val) per_long in
    (if write_length then write_var_int long_count else [])
    ++ concat_longs (packed_longs val per_long bpe long_count 0)
