-- ===== src/RegionMap.antt =====
-- src/map/mcr.cpp: the chunks of a region file become the blocks of a map. What the region parser
-- finds in the file is an argument.
pub mod Palette
pub mod Height
use doom_mc.Prelude.{
  ℕ, zero, suc, ◌+◌, ◌-◌, ◌*◌, List, [], ◌∷◌, ◌++◌, Option, none, some, get_elem?, set, length,
  replicate, ltb, ◌==◌, if◌then◌else◌,
}
use doom_mc.Result.{Result, ok, throw, fault, invalid_argument, ◌>>=◌, or_fault, for_range}
use doom_mc.GameMap.{GameMap, PalettedContainer, states_formula}
use doom_mc.Wire.Position.{to_position}

abbrev pub region_size : ℕ
region_size = 16

abbrev pub section_offset : ℕ
section_offset = 4

abbrev pub Blocks : Type 0
Blocks = List (List (List ℕ))

-- The first `n` with `this->palette[n] == v`.
unfoldable pub index_of : List ℕ → ℕ → Option ℕ
index_of [] v = none
index_of (p ∷ palette) v =
    let later = index_of palette v in
    if p == v then some 0 else elim later [ none ↦ none | some n ↦ some (suc n) ]

-- `this->palette` and `section->palette` after the loop over `j`.
pub record Merged : Type 0 where
  pub palette : List ℕ
  pub entries : List ℕ

abbrev pub add_entry : ℕ → Merged → Merged
add_entry n m = record m { entries = n ∷ m.entries }

unfoldable pub merge_palette : List ℕ → List ℕ → Merged
unfolding index_of
merge_palette palette [] = record { palette = palette; entries = [] }
merge_palette palette (v ∷ vs) = elim (index_of palette v) [
  | none ↦ add_entry (length palette) (merge_palette (palette ++ v ∷ []) vs)
  | some n ↦ add_entry n (merge_palette palette vs)
]

-- `this->blocks[x][y][z] = v`
unfoldable pub put : ℕ → ℕ → ℕ → ℕ → Blocks → Result Blocks
put x y z v blocks = do
  plane ← or_fault (get_elem? blocks x)
  row ← or_fault (get_elem? plane y)
  (if ltb z (length row) then ok (set blocks x (set plane y (set row z v))) else fault)

-- The body of the three loops over the blocks of a section.
unfoldable pub place_block : ℕ → ℕ → ℕ → List ℕ → List ℕ → ℕ → ℕ → ℕ → Blocks → Result Blocks
unfolding put
place_block chunk_x chunk_z section_index entries states y x z blocks = do
  block ← or_fault (get_elem? states (states_formula x y z))
  (if block == 0
      then ok blocks
      else (or_fault (get_elem? entries block) >>= λ v.
          put (x + chunk_x * 16) (y + section_index * 16) (z + chunk_z * 16) v blocks))

unfoldable pub place_section : ℕ → ℕ → ℕ → List ℕ → List ℕ → Blocks → Result Blocks
unfolding place_block for_range
place_section chunk_x chunk_z section_index entries states blocks =
    for_range 16 0
      (λ y b.
        for_range 16 0
          (λ x b'.
            for_range 16 0
              (λ z b''. place_block chunk_x chunk_z section_index entries states y x z b'') b')
          b)
      blocks

abbrev pub place_states : ℕ → ℕ → ℕ → List ℕ → Option (List ℕ) → Blocks → Result Blocks
place_states chunk_x chunk_z section_index entries none blocks = ok blocks
place_states chunk_x chunk_z section_index entries (some states) blocks =
    place_section chunk_x chunk_z section_index entries states blocks

-- What the loops over the file carry along.
pub record Region : Type 0 where
  pub palette : List ℕ
  pub blocks : Blocks

unfoldable pub add_section : ℕ → ℕ → ℕ → PalettedContainer → Region → Result Region
unfolding merge_palette place_section
add_section chunk_x chunk_z section_index section r =
    let m = merge_palette r.palette section.palette in
    place_states chunk_x chunk_z section_index m.entries section.states r.blocks >>= λ b.
    ok (record { palette = m.palette; blocks = b })

-- The sections of a chunk: the one at `sectionIndex - sectionOffset` counts as the one at
-- `sectionIndex`.
unfoldable pub add_chunk_section : ℕ → ℕ → List PalettedContainer → ℕ → Region → Result Region
unfolding add_section
add_chunk_section chunk_x chunk_z sections section_index r =
    or_fault (get_elem? sections (section_index - section_offset)) >>= λ section.
    add_section chunk_x chunk_z section_index section r

-- `none` for a chunk that is null, `some none` where `getSections` returns NULL.
abbrev pub add_chunk : ℕ → ℕ → Option (Option (List PalettedContainer)) → Region → Result Region
add_chunk chunk_x chunk_z none r = ok r
add_chunk chunk_x chunk_z (some none) r = throw invalid_argument
add_chunk chunk_x chunk_z (some (some sections)) r =
    for_range (length sections - section_offset) section_offset
      (λ i. add_chunk_section chunk_x chunk_z sections i) r

unfoldable pub empty_region : Region
empty_region = record {
  palette = [];
  blocks = replicate (region_size * 16) (replicate (20 * 16) (replicate (region_size * 16) 0));
}

unfoldable pub minecraft_region :
    (ℕ → ℕ → Option (Option (List PalettedContainer))) → Result GameMap
unfolding add_chunk_section empty_region for_range to_position
minecraft_region chunk_at =
    for_range region_size 0
      (λ chunk_x r.
        for_range region_size 0
          (λ chunk_z r'. add_chunk chunk_x chunk_z (chunk_at chunk_x chunk_z) r') r)
      empty_region
    >>= λ r. ok (record {
      width = region_size * 16;
      height = 20 * 16;
      depth = region_size * 16;
      palette = r.palette;
      blocks = r.blocks;
      spawns = to_position (region_size * 8) 160 (region_size * 8) ∷ [];
    })
