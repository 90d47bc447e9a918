-- ===== src/Wire/Paletted/RoundTrip.antt =====
-- `readPalettedContainer` on what `writePalletedContainer` wrote with a palette of its own.
use doom_mc.Prelude.{
  ℕ, ◌+◌, ◌*◌, ◌^◌, ◌≤◌, ◌<◌, ◌≡◌, refl, arith, true, false, some, List, [], ◌∷◌, ◌++◌, length, ltb,
  leb, All,
}
use doom_mc.Wire.Cursor.{Cursor}
use doom_mc.Wire.Packed.{write_packed_array}
use doom_mc.Wire.Paletted.{
  palette_bytes, entry_bits, states_read_lem, write_indirect, write_paletted_container,
}
use doom_mc.Wire.Paletted.Fits.{palette_fits}

pub indirect_written :
    (palette states : List ℕ)
    → 2 ≤ length palette
    → length palette ≤ 255
    → All (λ v. v < 2 ^ 28) palette
    → length states ≡ 4096
    → write_indirect palette states
      ≡ some (
          entry_bits palette
          ∷ (palette_bytes palette ++ write_packed_array states (entry_bits palette) true))
unfolding write_indirect
indirect_written palette states low few small size =
    let fits : ltb (1 + 5 * length palette) (1 + length (palette_bytes palette)) ≡ false =
      ground (arith, palette_fits palette low few small) in
    rw (fits, states_read_lem states size) refl

pub container_written :
    (palette states : List ℕ) (global : ℕ)
    → 2 ≤ length palette
    → length palette ≤ 255
    → write_paletted_container (record { palette = palette; states = some states }) global
      ≡ write_indirect palette states
unfolding write_paletted_container
container_written [] states global low few = absurd (omega arith)
container_written (v ∷ []) states global low few = absurd (omega arith)
container_written (v ∷ w ∷ more) states global low few =
    let own : leb (length (v ∷ w ∷ more)) 255 ≡ true = ground arith in rw own refl
