-- ===== src/Wire/Paletted.antt =====
-- `writePalletedContainer`, `writeSections`, `writeSlot` and `writeNBTstring`: what a chunk and an
-- inventory are made of.
pub mod Reading
pub mod Filling
pub mod Fits
pub mod RoundTrip
use doom_mc.Prelude.{
  ℕ, zero, suc, ◌+◌, ◌%◌, ◌^◌, ◌≤◌, ◌≡◌, refl, Bool, true, false, Option, none, some, List, [], ◌∷◌,
  ◌++◌, ◌*◌, ◌∙◌, length, take, take_all, length-replicate, ltb, leb, ◌==◌, if◌then◌else◌, arith,
  ap, replicate, Bool-cases, inl, inr,
}
use doom_mc.GameMap.{PalettedContainer}
use doom_mc.Wire.VarInt.{write_var_int}
use doom_mc.Wire.Endian.{write_big_endian_short}
use doom_mc.Wire.Packed.{write_packed_array}

-- The least `k` with `n <= 2 ^ k`, of the `left` numbers from `k` on: `ceilf(log2f(n))`.
unfoldable pub log_loop : ℕ → ℕ → ℕ → ℕ
log_loop zero k n = k
log_loop (suc left) k n = let rest = log_loop left (k + 1) n in if leb n (2 ^ k) then k else rest

unfoldable pub ceil_log2 : ℕ → ℕ
unfolding log_loop
ceil_log2 n = log_loop 64 0 n

unfoldable pub write_palette : List ℕ → List ℕ
write_palette [] = []
write_palette (v ∷ palette) = write_var_int v ++ write_palette palette

-- The 4096 states that the code reads, whatever the array has: a shorter one is read past its end.
unfoldable pub states_read : List ℕ → Option (List ℕ)
states_read states = if ltb (length states) 4096 then none else some (take 4096 states)

pub states_read_lem : (states : List ℕ) → length states ≡ 4096 → states_read states ≡ some states
unfolding states_read
states_read_lem states size =
    let enough : ltb (length states) 4096 ≡ false = ground arith in
    rw enough (ap some (take_all 4096 states (omega (arith, size))))

-- The case of the global palette. `log2f(0)` has no value as a `byte`, and an entry of no bits divides
-- by zero.
unfoldable pub write_direct : List ℕ → ℕ → Option (List ℕ)
unfolding ceil_log2 states_read
write_direct states global_palette_size =
    let bpe = ceil_log2 global_palette_size in
    if ltb global_palette_size 2 then none else elim (states_read states) [
      | none ↦ none
      | some read ↦ some (bpe ∷ write_packed_array read bpe true)
    ]

-- What goes before the states of a palette of 2 to 255 entries.
unfoldable pub palette_bytes : List ℕ → List ℕ
unfolding write_palette
palette_bytes palette = write_var_int (length palette) ++ write_palette palette

abbrev pub entry_bits : List ℕ → ℕ
entry_bits palette = let least = ceil_log2 (length palette) in if ltb least 4 then 4 else least

-- The case of such a palette. `malloc(1 + (MAX_VAR_INT * container->paletteSize))` has to hold the
-- number of bits, the size and the entries; a write past it is undefined.
unfoldable pub write_indirect : List ℕ → List ℕ → Option (List ℕ)
unfolding ceil_log2 palette_bytes states_read
write_indirect palette states =
    if ltb (1 + 5 * length palette) (1 + length (palette_bytes palette))
    then none
    else elim (states_read states) [
      | none ↦ none
      | some read ↦ some (
          entry_bits palette
          ∷ (palette_bytes palette ++ write_packed_array read (entry_bits palette) true))
    ]

-- `none` is a read through NULL states, or behind their end, or a write behind the end of a buffer.
unfoldable pub write_paletted_container : PalettedContainer → ℕ → Option (List ℕ)
unfolding write_direct write_indirect
write_paletted_container container global_palette_size = elim container.palette [
  | [] ↦ elim container.states [
    | none ↦ none
    | some states ↦ write_direct states global_palette_size
  ]
  | v ∷ others ↦ elim others [
    | [] ↦ some (0 ∷ (write_var_int v ++ write_var_int 0))
    | w ∷ more ↦ elim container.states [
      | none ↦ none
      | some states ↦
          if leb (length container.palette) 255
          then write_indirect container.palette states
          else write_direct states global_palette_size
    ]
  ]
]

-- `if(section->states[j] != 0) nonAir++;`
unfoldable pub count_not_zero : List ℕ → ℕ
count_not_zero [] = 0
count_not_zero (s ∷ states) = (if s == 0 then 0 else 1) + count_not_zero states

-- `nonAir`, an `int16_t`.
unfoldable pub non_air : PalettedContainer → Option ℕ
unfolding count_not_zero states_read
non_air section =
    if length section.palette == 1
    then elim section.palette [ [] ↦ none | v ∷ others ↦ some (if v == 0 then 4096 else 0) ]
    else elim section.states [
      | none ↦ none
      | some states ↦ elim (states_read states) [
        | none ↦ none
        | some read ↦ some (count_not_zero read % 2 ^ 16)
      ]
    ]

abbrev pub empty_biomes : PalettedContainer
empty_biomes = record { palette = 0 ∷ []; states = none }

-- `writeSections` without biomes. Its buffer has two bytes more than what is in it when a section
-- begins, which the count takes, and grows by the containers before they are copied.
unfoldable pub write_sections : List PalettedContainer → ℕ → Option (List ℕ)
unfolding non_air write_paletted_container
write_sections [] global_palette_size = some []
write_sections (section ∷ sections) global_palette_size = elim (non_air section) [
  | none ↦ none
  | some count ↦ elim (write_paletted_container section global_palette_size) [
    | none ↦ none
    | some blocks ↦ elim (write_paletted_container empty_biomes global_palette_size) [
      | none ↦ none
      | some biomes ↦ elim (write_sections sections global_palette_size) [
        | none ↦ none
        | some rest ↦ some (write_big_endian_short count ++ (blocks ++ (biomes ++ rest)))
      ]
    ]
  ]
]

-- `writeSlot`; `nbt` is NULL or the bytes. TAG_INVALID is a number of the nbt library.
pub record Slot : Type 0 where
  pub present : Bool
  pub id : ℕ
  pub count : ℕ
  pub nbt : Option (List ℕ)

unfoldable pub write_slot : ℕ → Slot → List ℕ
write_slot tag_invalid s =
    if s.present
    then 1
      ∷ (write_var_int s.id
          ++ ((s.count % 256) ∷ elim s.nbt [ none ↦ tag_invalid ∷ [] | some bytes ↦ bytes ]))
    else 0 ∷ []

unfoldable pub write_nbt_string : List ℕ → List ℕ
write_nbt_string value = write_big_endian_short (length value % 2 ^ 16) ++ value

count-replicate : (n v : ℕ) → count_not_zero (replicate n v) ≡ (if v == 0 then 0 else n)
unfolding count_not_zero
count-replicate zero v = elim (Bool-cases (v == 0)) [
  | inl air ↦ rw air refl
  | inr solid ↦ rw solid refl
]
count-replicate (suc n) v = ground (arith, count-replicate n v)

-- A section of one block throughout, as one palette entry and as 4096 states, gets two counts that add
-- up to 4096: the count of the states is right, so the short form counts the air.
non_air-one-block :
    (v w n : ℕ)
    → n ≡ 4096
    → (short long : ℕ) × (non_air (record { palette = v ∷ []; states = none }) ≡ some short)
      × (non_air (record { palette = v ∷ w ∷ []; states = some (replicate n v) }) ≡ some long)
      × (long ≡ (if v == 0 then 0 else 4096))
      × (short + long ≡ 4096)
unfolding non_air
non_air-one-block v w n whole =
    let read = states_read_lem (replicate n v) (length-replicate {A = ℕ} n v ∙ whole) in
    elim (Bool-cases (v == 0)) [
      | inl air ↦
          (4096, 0, rw air refl, rw (read, count-replicate n v, air) refl, rw air refl, refl)
      | inr solid ↦ (
        0,
        4096,
        rw solid refl,
        rw (read, count-replicate n v, solid) (ap (λ (t : ℕ). some (t % 2 ^ 16)) whole),
        rw solid refl,
        refl,
      )
    ]

-- `sendChunk` passes 0 as the size of the global palette, so a container whose palette has more than
-- 255 entries is never written: what the call does is undefined.
write_paletted_container-large :
    (palette : List ℕ) (states : Option (List ℕ))
    → 256 ≤ length palette
    → write_paletted_container (record { palette = palette; states = states }) 0 ≡ none
unfolding write_paletted_container write_direct
write_paletted_container-large [] states large = absurd (omega arith)
write_paletted_container-large (v ∷ []) states large = absurd (omega arith)
write_paletted_container-large (v ∷ w ∷ more) none large = refl
write_paletted_container-large (v ∷ w ∷ more) (some states) large =
    let over : leb (length (v ∷ w ∷ more)) 255 ≡ false = ground arith in rw over refl
