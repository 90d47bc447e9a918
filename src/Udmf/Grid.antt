-- ===== src/Udmf/Grid.antt =====
-- Where the vertices and the sectors stand once they are moved.
use doom_mc.Prelude.{
  ℕ, ◌+◌, ◌-◌, ◌/◌, ◌%◌, ◌^◌, ◌<◌, ◌≤◌, ◌≡◌, arith, List, [], ◌∷◌, map, All, ltb, if◌then◌else◌,
}
use doom_mc.Wire.VarInt.{IsU32}
use doom_mc.Udmf.{MapSector, below}
use doom_mc.Udmf.Layout.{
  least_int, vector_of, move_to_grid, greatest_of, floors, ceilings, height_vector, move_sectors,
}

-- The order of the ints on their patterns.
abbrev pub biased : ℕ → ℕ
biased v = (v + 2 ^ 31) % 2 ^ 32

least_le : (vs : List ℕ) (least : ℕ) → biased (least_int vs least) ≤ biased least
unfolding least_int
least_le [] least = omega arith
least_le (v ∷ vs) least = ground (arith, least_le vs (if below v least then v else least))

least-All : (vs : List ℕ) (least : ℕ) → All (λ v. biased (least_int vs least) ≤ biased v) vs
unfolding least_int
least-All [] least = tt
least-All (v ∷ vs) least = (
  ground (arith, least_le vs (if below v least then v else least)),
  least-All vs (if below v least then v else least),
)

-- The moved value is the distance from the least one, in whole blocks: nothing wraps.
pub move_to_grid_lem :
    (v least : ℕ)
    → IsU32 v
    → IsU32 least
    → biased least ≤ biased v
    → biased least ≤ 2 ^ 31
    → move_to_grid (vector_of least) v ≡ (biased v - biased least) / 64
unfolding move_to_grid vector_of
move_to_grid_lem v least v_int l_int above low = ground arith

greatest_le : (vs : List ℕ) (greatest : ℕ) → greatest ≤ greatest_of vs greatest
unfolding greatest_of
greatest_le [] greatest = omega arith
greatest_le (v ∷ vs) greatest =
    ground (arith, greatest_le vs (if ltb greatest v then v else greatest))

greatest-All : (vs : List ℕ) (greatest : ℕ) → All (λ v. v ≤ greatest_of vs greatest) vs
unfolding greatest_of
greatest-All [] greatest = tt
greatest-All (v ∷ vs) greatest = (
  ground (arith, greatest_le vs (if ltb greatest v then v else greatest)),
  greatest-All vs (if ltb greatest v then v else greatest),
)

-- A sector of the text, its floor not above its ceiling.
abbrev pub IsSector : MapSector → Type 0
IsSector s =
    IsU32 s.height_floor
    × IsU32 s.height_ceiling
    × (biased s.height_floor ≤ biased s.height_ceiling)

least-IsU32 : (vs : List ℕ) (least : ℕ) → All IsU32 vs → IsU32 least → IsU32 (least_int vs least)
unfolding least_int
least-IsU32 [] least h k = k
least-IsU32 (v ∷ vs) least (hv, h) k =
    least-IsU32 vs (if below v least then v else least) h (ground arith)

move_sector_lem :
    (floor ceiling least : ℕ)
    → IsU32 floor
    → IsU32 ceiling
    → IsU32 least
    → biased floor ≤ biased ceiling
    → biased least ≤ biased floor
    → biased least ≤ 2 ^ 31
    → (move_to_grid (vector_of least) floor ≡ (biased floor - biased least) / 64)
      × (move_to_grid (vector_of least) floor ≤ move_to_grid (vector_of least) ceiling)
      × (move_to_grid (vector_of least) ceiling < 2 ^ 26)
move_sector_lem floor ceiling least f c l order above low =
    let moved_floor = move_to_grid_lem floor least f l above low in
    let moved_ceiling = move_to_grid_lem ceiling least c l (omega arith) low in
    (moved_floor, omega arith, omega arith)

abbrev pub move_sector : ℕ → MapSector → MapSector
move_sector vector s = record {
  height_floor = move_to_grid vector s.height_floor;
  height_ceiling = move_to_grid vector s.height_ceiling;
}

sectors_in_grid :
    (least greatest : ℕ) (sectors : List MapSector)
    → IsU32 least
    → biased least ≤ 2 ^ 31
    → All IsSector sectors
    → All (λ v. biased least ≤ biased v) (floors sectors)
    → All (λ v. v ≤ greatest) (ceilings (map (move_sector (vector_of least)) sectors))
    → All
        (λ (s : MapSector).
          (s.height_floor ≤ s.height_ceiling)
          × (s.height_ceiling < greatest + 1)
          × (s.height_ceiling < 2 ^ 26))
        (map (move_sector (vector_of least)) sectors)
sectors_in_grid least greatest [] l low ordered above under = tt
sectors_in_grid least greatest (s ∷ sectors) l low ((f, c, order), ordered) (over, above)
      (within, under) =
    let (_, up, fits) =
      move_sector_lem s.height_floor s.height_ceiling least f c l order over low in
    ((up, omega arith, fits), sectors_in_grid least greatest sectors l low ordered above under)

floors-IsU32 : (sectors : List MapSector) → All IsSector sectors → All IsU32 (floors sectors)
floors-IsU32 [] h = tt
floors-IsU32 (s ∷ sectors) (h, hs) = (h.0, floors-IsU32 sectors hs)

-- Sectors whose floors are not above their ceilings stay so when they are moved to the grid, however
-- low they were: the floor of each is not above its ceiling there, and the ceiling is below the height
-- of the block array, which is at most 2 ^ 26.
pub move_sectors-in-range :
    (sectors : List MapSector)
    → All IsSector sectors
    → All
        (λ (s : MapSector).
          (s.height_floor ≤ s.height_ceiling)
          × (s.height_ceiling < greatest_of (ceilings (move_sectors sectors)) 0 + 1)
          × (s.height_ceiling < 2 ^ 26))
        (move_sectors sectors)
unfolding move_sectors height_vector
move_sectors-in-range sectors h =
    let least : ℕ = least_int (floors sectors) 0 in
    let moved = map (move_sector (vector_of least)) sectors in
    sectors_in_grid least (greatest_of (ceilings moved) 0) sectors
      (least-IsU32 (floors sectors) 0 (floors-IsU32 sectors h) (omega arith))
      (omega (arith, least_le (floors sectors) 0)) h (least-All (floors sectors) 0)
      (greatest-All (ceilings moved) 0)
