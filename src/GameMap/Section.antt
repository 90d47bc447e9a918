-- ===== src/GameMap/Section.antt =====
-- What `getBlock`, `getSection` and `getSpawn` give.
use doom_mc.Prelude.{
  ℕ, ◌+◌, ◌*◌, ◌/◌, ◌%◌, ◌<◌, ◌≤◌, ◌≡◌, some, List, get_elem?, get_elem?_in_range, get_elem?_past,
  dec_lt, length, replicate, arith, ◌⊎◌, inl, inr,
}
use native.Mathlib.Nat.{mod-lt}
use doom_mc.Result.{ok, throw, fault, invalid_argument, for_range_fault}
use doom_mc.GameMap.{
  GameMap, block_at, get_block, copy_block, copy_row, copy_plane, copy_section, get_section,
  get_spawn, states_size,
}

-- The array has a block wherever the sizes say so.
pub record IsWellFormed (m : GameMap) : Type 0 where
  pub cells :
      (x y z : ℕ) → x < m.width → y < m.height → z < m.depth → (b : ℕ) × (block_at m x y z ≡ ok b)

-- `getBlock` answers inside the map and throws `invalid_argument` everywhere else: it never reads
-- outside the array.
pub get_block_total :
    (m : GameMap) (x y z : ℕ)
    → IsWellFormed m
    → ((x < m.width)
        × (y < m.height)
        × (z < m.depth)
        × ((b : ℕ) × (block_at m x y z ≡ ok b) × (get_block m x y z ≡ ok b)))
      ⊎ (((m.width ≤ x) ⊎ (m.height ≤ y) ⊎ (m.depth ≤ z))
          × (get_block m x y z ≡ throw invalid_argument))
unfolding get_block
get_block_total m x y z v = elim (dec_lt x m.width) [
  | no x_out ↦ inr (inl (omega arith), ground arith)
  | yes x_in ↦ elim (dec_lt y m.height) [
    | no y_out ↦ inr (inr (inl (omega arith)), ground arith)
    | yes y_in ↦ elim (dec_lt z m.depth) [
      | no z_out ↦ inr (inr (inr (omega arith)), ground arith)
      | yes z_in ↦
          let (b, e) = v.cells x y z x_in y_in z_in in inl (x_in, y_in, z_in, (b, e, ground arith))
    ]
  ]
]

-- `getSpawn` gives one of the map's spawns for every value of `rand()`, if it has any.
get_spawn_member :
    (m : GameMap) (random : ℕ)
    → 0 < length m.spawns
    → (i : ℕ) × (s : ℕ) × (i < length m.spawns)
      × (get_elem? m.spawns i ≡ some s)
      × (get_spawn m random ≡ ok s)
unfolding get_spawn
get_spawn_member m random h =
    let (s, e) = get_elem?_in_range m.spawns (random % length m.spawns) (mod-lt random h) in
    (random % length m.spawns, s, mod-lt random h, e, ground arith)

copy_block_past :
    (m : GameMap) (chunk_x chunk_z number x y z : ℕ) (states : List ℕ)
    → length m.blocks ≤ chunk_x * 16 + x
    → copy_block m chunk_x chunk_z number x y z states ≡ fault
unfolding copy_block block_at
copy_block_past m chunk_x chunk_z number x y z states h =
    rw (get_elem?_past m.blocks (chunk_x * 16 + x) h)

copy_section_past :
    (m : GameMap) (chunk_x chunk_z number : ℕ) (states : List ℕ)
    → length m.blocks ≤ chunk_x * 16
    → copy_section m chunk_x chunk_z number states ≡ fault
unfolding copy_section copy_plane copy_row
copy_section_past m chunk_x chunk_z number states h = for_range_fault 16 0 _ states (omega arith) (
    for_range_fault 16 0 _ states (omega arith) (
      for_range_fault 16 0 _ states (omega arith)
        (copy_block_past m chunk_x chunk_z number 0 0 0 states (omega arith))))

-- The bug in the guard: on a map whose width is a multiple of 16, the chunk just past the last one
-- passes the test, and `getSection` reads outside the array.
get_section_past_end :
    (m : GameMap) (number : ℕ)
    → m.width % 16 ≡ 0
    → length m.blocks ≡ m.width
    → number < m.height / 16
    → get_section m (m.width / 16) 0 number ≡ fault
unfolding get_section
get_section_past_end m number aligned size low =
    ground
      (arith, copy_section_past m (m.width / 16) 0 number (replicate states_size 0) (omega arith))
