-- ===== src/GameMap.antt =====
-- src/map/map.cpp: the block array of a map and its reads. Coordinates are `unsigned int`; a block is
-- the pattern of an `int32_t`.
pub mod Section
pub mod Contents
use doom_mc.Prelude.{
  ℕ, zero, suc, ◌+◌, ◌*◌, ◌/◌, ◌%◌, ◌^◌, ◌<◌, ◌≤◌, ◌≡◌, Bool, ◌&&◌, ◌||◌, Option, none, some, List,
  [], ◌∷◌, get_elem?, length, set, replicate, ltb, leb, if◌then◌else◌,
}
use doom_mc.Result.{Result, ok, throw, fault, invalid_argument, ◌>>=◌, or_fault, for_range}

-- `spawns` has `spawnCount` positions, and `palette` has `paletteSize` entries.
pub record GameMap : Type 0 where
  pub width : ℕ
  pub height : ℕ
  pub depth : ℕ
  pub palette : List ℕ
  pub blocks : List (List (List ℕ))
  pub spawns : List ℕ

-- `this->blocks[x][y][z]`
unfoldable pub block_at : GameMap → ℕ → ℕ → ℕ → Result ℕ
block_at m x y z = do
  plane ← or_fault (get_elem? m.blocks x)
  row ← or_fault (get_elem? plane y)
  or_fault (get_elem? row z)

unfoldable pub get_block : GameMap → ℕ → ℕ → ℕ → Result ℕ
get_block m x y z =
    if leb m.width x || leb m.height y || leb m.depth z
    then throw invalid_argument
    else block_at m x y z

unfoldable pub get_bound : GameMap → ℕ
get_bound m = if ltb m.depth m.width then m.width else m.depth

pub record PalettedContainer : Type 0 where
  pub palette : List ℕ
  pub states : Option (List ℕ)

abbrev pub states_size : ℕ
states_size = 4096

abbrev pub states_formula : ℕ → ℕ → ℕ → ℕ
states_formula x y z = y * 16 * 16 + z * 16 + x

-- `state > 0`, for the pattern of an `int32_t`.
abbrev pub is_positive : ℕ → Bool
is_positive state = ltb 0 state && ltb state (2 ^ 31)

-- The innermost body. A write past the states would be undefined.
unfoldable pub copy_block : GameMap → ℕ → ℕ → ℕ → ℕ → ℕ → ℕ → List ℕ → Result (List ℕ)
copy_block m chunk_x chunk_z number x y z states = do
  state ← block_at m (chunk_x * 16 + x) (number * 16 + y) (chunk_z * 16 + z)
  (if is_positive state
      then if ltb (states_formula x y z) (length states)
        then ok (set states (states_formula x y z) state)
        else fault
      else ok states)

-- The three loops over the blocks of a section.
unfoldable pub copy_row : GameMap → ℕ → ℕ → ℕ → ℕ → ℕ → List ℕ → Result (List ℕ)
copy_row m chunk_x chunk_z number x y = for_range 16 0 (copy_block m chunk_x chunk_z number x y)

unfoldable pub copy_plane : GameMap → ℕ → ℕ → ℕ → ℕ → List ℕ → Result (List ℕ)
copy_plane m chunk_x chunk_z number x = for_range 16 0 (copy_row m chunk_x chunk_z number x)

unfoldable pub copy_section : GameMap → ℕ → ℕ → ℕ → List ℕ → Result (List ℕ)
copy_section m chunk_x chunk_z number = for_range 16 0 (copy_plane m chunk_x chunk_z number)

unfoldable pub get_section : GameMap → ℕ → ℕ → ℕ → Result PalettedContainer
get_section m chunk_x chunk_z number =
    if leb (m.width / 16 + 1) chunk_x || leb (m.depth / 16 + 1) chunk_z
    then throw invalid_argument
    else if leb (m.height / 16) number
    then ok (record { palette = 0 ∷ []; states = none })
    else (copy_section m chunk_x chunk_z number (replicate states_size 0) >>= λ states.
        ok (record { palette = m.palette; states = some states }))

-- `this->spawns[random % this->spawnCount]`, where `random` is the value of `rand()`. A map with no
-- spawn divides by zero.
unfoldable pub get_spawn : GameMap → ℕ → Result ℕ
get_spawn m random =
    if leb (length m.spawns) 0
    then fault
    else or_fault (get_elem? m.spawns (random % length m.spawns))
