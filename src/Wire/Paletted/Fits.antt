-- ===== src/Wire/Paletted/Fits.antt =====
-- The palette of a container against the buffer that `writePalletedContainer` allots to it.
use doom_mc.Prelude.{ℕ, ◌*◌, ◌^◌, ◌≤◌, ◌<◌, List, [], ◌∷◌, length, All, arith, length-append}
use doom_mc.Wire.VarInt.{write_var_int}
use doom_mc.Wire.VarInt.Bounds.{length-write_var_int_le}
use doom_mc.Wire.Paletted.{write_palette, palette_bytes}

length-write_palette :
    (palette : List ℕ)
    → All (λ v. v < 2 ^ 28) palette
    → length (write_palette palette) ≤ 4 * length palette
unfolding write_palette
length-write_palette [] h = omega arith
length-write_palette (v ∷ palette) (small, h) =
    let size = length-append (write_var_int v) (write_palette palette) in
    let entry = length-write_var_int_le 3 v small (omega arith) in
    omega (arith, size, entry, length-write_palette palette h)

-- Entries of at most four bytes leave room for the size of the palette.
pub palette_fits :
    (palette : List ℕ)
    → 2 ≤ length palette
    → length palette ≤ 255
    → All (λ v. v < 2 ^ 28) palette
    → length (palette_bytes palette) ≤ 5 * length palette
unfolding palette_bytes
palette_fits palette low few h =
    let size = length-append (write_var_int (length palette)) (write_palette palette) in
    let counted = length-write_var_int_le 1 (length palette) (omega arith) (omega arith) in
    omega (arith, size, counted, length-write_palette palette h)
