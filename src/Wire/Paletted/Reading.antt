-- ===== src/Wire/Paletted/Reading.antt =====
-- `readPalettedContainer` in src/C/mcTypes.c.
use doom_mc.Prelude.{
  ℕ, zero, suc, ◌+◌, ◌-◌, ◌*◌, ◌/◌, ◌%◌, ◌^◌, Bool, false, ◌||◌, Option, none, some, List, [], ◌∷◌,
  length, set, replicate, ltb, leb, ◌==◌, if◌then◌else◌, bit_and,
}
use doom_mc.GameMap.{PalettedContainer}
use doom_mc.Wire.Cursor.{too_big, done, fault, Reader, ◌>>=◌}
use doom_mc.Wire.VarInt.{read_var_int}
use doom_mc.Wire.Endian.{read_byte, read_big_endian_ulong}
use doom_mc.Wire.Paletted.{ceil_log2}

-- `errno = E2BIG; return nullPalettedContainer;`
abbrev pub refuse {ℓ} : {A : Type ℓ} → Reader (Option A)
refuse c = done none (record c { errno = too_big })

-- The loop that fills the palette, with the entries that are left.
unfoldable pub read_palette : ℕ → ℕ → Reader (Option (List ℕ))
unfolding read_var_int
read_palette global zero c = done (some []) c
read_palette global (suc left) c = elim (read_var_int c) [
  | fault ↦ fault
  | done element c' ↦
      let rest = read_palette global left c' in
      if ltb global element then refuse c' else elim rest [
        | fault ↦ fault
        | done palette? c'' ↦ elim palette? [
          | none ↦ done none c''
          | some palette ↦ done (some (element ∷ palette)) c''
        ]
      ]
]

-- A negative count is a huge `size_t`: `calloc` gives NULL, and the first entry that is not refused is
-- written there.
unfoldable pub read_sized_palette : ℕ → ℕ → Reader (Option (List ℕ))
unfolding read_palette
read_sized_palette global size =
    if ltb size (2 ^ 31)
    then read_palette global size
    else (read_var_int >>= λ element. if ltb global element then refuse else (λ c. fault))

-- `(uint32_t)((createLongMask(bits, bitsPerEntry) & ourLong) >> bits)`
unfoldable pub read_state : ℕ → ℕ → ℕ → ℕ
read_state long bits bpe = bit_and ((2 ^ bpe - 1) * 2 ^ bits % 2 ^ 64) long / 2 ^ bits % 2 ^ 32

-- The second check; `palette?` is `none` for NULL.
unfoldable pub is_too_big : Option (List ℕ) → ℕ → ℕ → Bool
is_too_big palette? global state =
    elim palette? [ none ↦ false | some palette ↦ ltb (length palette) state ] || ltb global state

-- What the states of a long come to: the array with its next index, or E2BIG.
abbrev pub Filled : Type 0
Filled = Option (List ℕ × ℕ)

module _ (palette? : Option (List ℕ)) (global bpe : ℕ) where
  -- The loop over `b`, with the rounds left. The array has `statesSize` entries, `index` is a
  -- `uint16_t`.
  unfoldable pub fill_states : ℕ → ℕ → ℕ → ℕ → List ℕ → Filled
  unfolding read_state
  fill_states long zero b index states = some (states, index)
  fill_states long (suc left) b index states =
      let state = read_state long (b * bpe) bpe in
      let more = fill_states long left (b + 1) ((index + 1) % 2 ^ 16) (set states index state) in
      if leb (length states) index
      then some (states, index)
      else if is_too_big palette? global state
      then none
      else more

  -- The loop over the longs, with the longs left.
  unfoldable pub fill_longs : ℕ → ℕ → List ℕ → Reader (Option (List ℕ))
  unfolding fill_states read_big_endian_ulong
  fill_longs zero index states c = done (some states) c
  fill_longs (suc left) index states c = elim (read_big_endian_ulong c) [
    | fault ↦ fault
    | done long c' ↦ elim (fill_states long (64 / bpe) 0 index states) [
      | none ↦ refuse c'
      | some (states', index') ↦ fill_longs left index' states' c'
    ]
  ]

  -- Behind the number of longs. An entry of 64 bits shifts by the width of a long, and a negative
  -- product has no value as a `size_t`. The float product is exact below 2 ^ 24, as in any buffer of
  -- less than 2 ^ 21 bytes.
  unfoldable pub read_behind_count : ℕ → Reader (Option (List ℕ))
  unfolding fill_longs
  read_behind_count count c =
      if bpe == 64
      then fault
      else if ltb count (2 ^ 31)
      then fill_longs count 0 (replicate (64 / bpe * count) 0) c
      else if ltb 64 bpe
      then done (some []) c
      else fault

  unfoldable pub read_states : Reader (Option (List ℕ))
  unfolding read_behind_count
  read_states = read_var_int >>= read_behind_count

-- The container, once its states are read.
abbrev pub with_states : List ℕ → Option (List ℕ) → Reader (Option PalettedContainer)
with_states palette none c = done none c
with_states palette (some states) c =
    done (some (record { palette = palette; states = some states })) c

-- `bitsPerEntry == 0`: one value, and no states.
unfoldable pub read_single : Reader (Option PalettedContainer)
read_single = read_var_int >>= λ v.
    read_var_int >>= λ longs. λ c. done (some (record { palette = v ∷ []; states = none })) c

-- The case of the global palette.
unfoldable pub read_direct : ℕ → Reader (Option PalettedContainer)
unfolding read_states ceil_log2
read_direct global =
    if ltb global 2
    then (λ c. fault)
    else (read_states none global (ceil_log2 global) >>= with_states [])

-- The case of a palette of its own: behind the palette, behind its size, and whole.
unfoldable pub read_behind_palette : ℕ → ℕ → ℕ → Option (List ℕ) → Reader (Option PalettedContainer)
unfolding read_states
read_behind_palette bpe global size none c = done none c
read_behind_palette bpe global size (some palette) c =
    (read_states (if ltb size (2 ^ 31) then some palette else none) global bpe
        >>= with_states palette)
      c

unfoldable pub read_behind_size : ℕ → ℕ → ℕ → Reader (Option PalettedContainer)
unfolding read_sized_palette read_behind_palette
read_behind_size bpe global size =
    read_sized_palette global size >>= read_behind_palette bpe global size

unfoldable pub read_indirect : ℕ → ℕ → Reader (Option PalettedContainer)
unfolding read_behind_size
read_indirect bpe global = read_var_int >>= read_behind_size bpe global

-- Behind `bitsPerEntry`.
unfoldable pub read_by_bits : ℕ → ℕ → ℕ → ℕ → Reader (Option PalettedContainer)
unfolding read_single read_direct read_indirect
read_by_bits bits_lowest bits_threshold global bpe c =
    if bpe == 0
    then read_single c
    else if leb bits_threshold bpe
    then read_direct global c
    else read_indirect (if ltb bpe bits_lowest then bits_lowest % 256 else bpe) global c

unfoldable pub read_paletted_container : ℕ → ℕ → ℕ → Reader (Option PalettedContainer)
unfolding read_by_bits
read_paletted_container bits_lowest bits_threshold global =
    read_byte >>= read_by_bits bits_lowest bits_threshold global
