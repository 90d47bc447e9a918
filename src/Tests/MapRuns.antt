-- ===== src/Tests/MapRuns.antt =====
-- src/map/map.cpp on a map of one chunk, and on one that is flat.
use doom_mc.Prelude.{
  ℕ, ◌<◌, ◌≤◌, ◌≡◌, refl, ◌⊎◌, arith, List, [], ◌∷◌, length, get_elem?, replicate, some,
  if◌then◌else◌, zero, suc,
}
use doom_mc.Result.{ok, throw, invalid_argument}
use doom_mc.GameMap.{
  GameMap, block_at, get_block, get_section, states_size, states_formula, is_positive,
}
use doom_mc.GameMap.Section.{IsWellFormed, get_block_total}
use doom_mc.GameMap.Contents.{get_elem?-replicate, get_section_contents}
use doom_mc.Weapons.{Tags}
use doom_mc.Player.Arrival.{Surroundings}

abbrev cells_of_one : List (List (List ℕ))
cells_of_one =
    let row : List ℕ = replicate 16 1 in
    let plane : List (List ℕ) = replicate 32 row in replicate 16 plane

-- A map of one block throughout, 16 wide, 32 high and 16 deep.
abbrev plain : GameMap
plain = record {
  width = 16;
  height = 32;
  depth = 16;
  palette = 0 ∷ 5 ∷ [];
  blocks = cells_of_one;
  spawns = 3 ∷ 9 ∷ [];
}

same_row {ℓ} : {A : Type ℓ} (n i : ℕ) (a : A) → i < n → get_elem? (replicate n a) i ≡ some a
same_row zero i a h = elim h [ ]
same_row (suc n) zero a h = refl
same_row (suc n) (suc i) a h = same_row n i a (omega arith)

plain_block : (x y z : ℕ) → x < 16 → y < 32 → z < 16 → block_at plain x y z ≡ ok 1
unfolding block_at
plain_block x y z hx hy hz =
    let row : List ℕ = replicate 16 1 in
    let plane : List (List ℕ) = replicate 32 row in
    rw (same_row 16 x plane hx, same_row 32 y row hy, get_elem?-replicate 16 z 1 hz) refl

plain_cells : IsWellFormed plain
plain_cells = record { cells = λ x y z hx hy hz. (1, plain_block x y z hx hy hz) }

get_block_total_example :
    ((3 < 16)
      × (40 < 32)
      × (5 < 16)
      × ((b : ℕ) × (block_at plain 3 40 5 ≡ ok b) × (get_block plain 3 40 5 ≡ ok b)))
    ⊎ (((16 ≤ 3) ⊎ (32 ≤ 40) ⊎ (16 ≤ 5)) × (get_block plain 3 40 5 ≡ throw invalid_argument))
get_block_total_example = get_block_total plain 3 40 5 plain_cells

get_section_contents_example :
    (st : List ℕ) × (get_section plain 0 0 1
      ≡ ok (record { palette = plain.palette; states = some st }))
    × (length st ≡ states_size)
    × (get_elem? st (states_formula 2 3 4) ≡ some (if is_positive 1 then 1 else 0))
get_section_contents_example =
    get_section_contents plain 0 0 1 2 3 4 1 plain_cells (omega arith) (omega arith) (omega arith)
      (omega arith) (omega arith) (omega arith)
      (plain_block 2 19 4 (omega arith) (omega arith) (omega arith))

abbrev tags : Tags
tags = record { tag_invalid = 0; tag_int = 3; tag_string = 8; tag_list = 9; tag_compound = 10 }

abbrev around : Surroundings
around = record { tags = tags; tag_long_array = 12; memory = replicate 256 0 }
