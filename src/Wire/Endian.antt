-- ===== src/Wire/Endian.antt =====
-- The fixed-width reads and writes. A stored integer is a bit pattern, the machine is little-endian,
-- and a float or double is its IEEE pattern, which these functions only move.
pub mod Laws
use doom_mc.Prelude.{
  ℕ, zero, suc, ◌+◌, ◌*◌, ◌/◌, ◌%◌, ◌^◌, ◌<◌, List, [], ◌∷◌, ◌++◌, reverse, get_or, leb, length,
  take, drop, if◌then◌else◌, ◌==◌,
}
use doom_mc.Wire.Cursor.{done, fault, Reader, ◌>>=◌, pure, read_bytes, map_reader}

-- `*(T*)buff = v`, and `*(T*)buff`, for a type of `n` bytes.
abbrev pub store : ℕ → ℕ → List ℕ
store zero v = []
store (suc n) v = (v % 256) ∷ store n (v / 256)

abbrev pub load : List ℕ → ℕ
load [] = 0
load (b ∷ bs) = b + 256 * load bs

-- `htobe16` and its family on such a machine, which is also `be16toh`: the bytes the other way round.
unfoldable pub swap_bytes : ℕ → ℕ → ℕ
swap_bytes n v = load (reverse (store n v))

unfoldable pub swap_double : ℕ → ℕ
swap_double val =
    let src = store 8 val in
    load (
      get_or src 7 0
      ∷ get_or src 6 0
      ∷ get_or src 5 0
      ∷ get_or src 4 0
      ∷ get_or src 3 0
      ∷ get_or src 2 0
      ∷ get_or src 1 0
      ∷ get_or src 0 0
      ∷ [])

unfoldable pub swap_float : ℕ → ℕ
swap_float val =
    let src = store 4 val in
    load (get_or src 3 0 ∷ get_or src 2 0 ∷ get_or src 1 0 ∷ get_or src 0 0 ∷ [])

unfoldable pub write_short : ℕ → List ℕ
write_short num = store 2 num

unfoldable pub write_big_endian_short : ℕ → List ℕ
unfolding write_short swap_bytes
write_big_endian_short num = write_short (swap_bytes 2 num)

unfoldable pub write_big_endian_int : ℕ → List ℕ
unfolding swap_bytes
write_big_endian_int num = store 4 (swap_bytes 4 num)

unfoldable pub write_big_endian_long : ℕ → List ℕ
unfolding swap_bytes
write_big_endian_long num = store 8 (swap_bytes 8 num)

unfoldable pub write_big_endian_float : ℕ → List ℕ
unfolding swap_float
write_big_endian_float f = store 4 (swap_float f)

unfoldable pub write_big_endian_double : ℕ → List ℕ
unfolding swap_double
write_big_endian_double d = store 8 (swap_double d)

unfoldable pub read_int : Reader ℕ
read_int = map_reader load (read_bytes 4)

unfoldable pub read_long : Reader ℕ
read_long = map_reader load (read_bytes 8)

unfoldable pub read_short : Reader ℕ
read_short = map_reader load (read_bytes 2)

unfoldable pub read_byte : Reader ℕ
read_byte = map_reader load (read_bytes 1)

unfoldable pub read_double : Reader ℕ
read_double = map_reader load (read_bytes 8)

unfoldable pub read_big_endian_short : Reader ℕ
unfolding read_short swap_bytes
read_big_endian_short = map_reader (swap_bytes 2) read_short

unfoldable pub read_big_endian_int : Reader ℕ
unfolding read_int swap_bytes
read_big_endian_int = map_reader (swap_bytes 4) read_int

unfoldable pub read_big_endian_long : Reader ℕ
unfolding read_long swap_bytes
read_big_endian_long = map_reader (swap_bytes 8) read_long

-- `readBigEndianULong`
unfoldable pub read_big_endian_ulong : Reader ℕ
unfolding read_long swap_bytes
read_big_endian_ulong = map_reader (swap_bytes 8) read_long

unfoldable pub read_big_endian_double : Reader ℕ
unfolding read_double swap_double
read_big_endian_double = map_reader swap_double read_double

-- `readFloat` dereferences `buff` itself, not `buff + *index`, and then moves `*index` on.
unfoldable pub read_float : List ℕ → Reader ℕ
read_float buff c =
    if leb 4 (length buff)
    then done (load (take 4 buff)) (record c { rest = drop 4 c.rest })
    else fault

unfoldable pub read_big_endian_float : List ℕ → Reader ℕ
unfolding read_float swap_float
read_big_endian_float buff = map_reader swap_float (read_float buff)
