-- ===== src/Udmf/Drawing.antt =====
-- The walls along the linedefs, and the floors and ceilings of the sectors.
use doom_mc.Prelude.{
  ℕ, suc, ◌*◌, ◌%◌, ◌^◌, Bool, ◌&&◌, List, [], ◌∷◌, get_elem?, set, length, ltb, if◌then◌else◌,
}
use doom_mc.Result.{Result, ok, fault, ◌>>=◌, or_fault, for_range}
use doom_mc.Udmf.{Vertex, MapSector, Sidedef, Linedef, below, add_int, sub_int, negate_int}

abbrev pub Blocks : Type 0
Blocks = List (List (List ℕ))

-- `blocks[x][y][z] = 1`
unfoldable pub fill : ℕ → ℕ → ℕ → Blocks → Result Blocks
fill x y z blocks = do
  plane ← or_fault (get_elem? blocks x)
  row ← or_fault (get_elem? plane y)
  (if ltb z (length row) then ok (set blocks x (set plane y (set row z 1))) else fault)

-- The rounds of `for(int i = first; i <= last; i++)`.
abbrev pub rounds_to : ℕ → ℕ → ℕ
rounds_to first last = if below last first then 0 else suc (sub_int last first)

abbrev pub for_ints {ℓ} : {S : Type ℓ} → ℕ → ℕ → (ℕ → S → Result S) → S → Result S
for_ints first last body s = for_range (rounds_to first last) first body s

unfoldable pub fill_column : ℕ → ℕ → ℕ → ℕ → Blocks → Result Blocks
unfolding fill for_range
fill_column x z wall_start wall_end blocks =
    for_ints wall_start wall_end (λ r b. fill x r z b) blocks

-- `y` and `D` of the line.
pub record Pen : Type 0 where
  pub y : ℕ
  pub d : ℕ

abbrev pub is_positive_int : ℕ → Bool
is_positive_int d = ltb 0 d && ltb d (2 ^ 31)

unfoldable pub move_pen : ℕ → ℕ → Pen → Pen
move_pen dx dy pen =
    if is_positive_int pen.d
    then record { y = add_int pen.y 1; d = add_int (sub_int pen.d (2 * dx % 2 ^ 32)) (2 * dy) }
    else record pen { d = add_int pen.d (2 * dy) }

abbrev pub abs_int : ℕ → ℕ
abs_int v = if ltb v (2 ^ 31) then v else negate_int v

-- One round of the loop over `x`.
unfoldable pub draw_step : ℕ → ℕ → ℕ → ℕ → ℕ → Blocks × Pen → Result (Blocks × Pen)
unfolding fill_column move_pen
draw_step dx dy wall_start wall_end x (blocks, pen) = do
  blocks' ← fill_column x pen.y wall_start wall_end blocks
  ok (blocks', move_pen dx dy pen)

unfoldable pub draw_line : Vertex → Vertex → ℕ → ℕ → Blocks → Result Blocks
unfolding draw_step for_range
draw_line start end wall_start wall_end blocks =
    let dx = abs_int (sub_int end.x start.x) in
    let dy = abs_int (sub_int end.y start.y) in
    let pen : Pen = record { y = start.y; d = sub_int (2 * dy % 2 ^ 32) dx } in
    for_ints start.x end.x (draw_step dx dy wall_start wall_end) (blocks, pen) >>= λ s. ok s.0

-- The sector that a sidedef shows.
unfoldable pub sector_of : List Sidedef → List MapSector → ℕ → Result MapSector
sector_of sidedefs sectors side = do
  sidedef ← or_fault (get_elem? sidedefs side)
  or_fault (get_elem? sectors sidedef.sector)

-- `wallStart` and `wallEnd`, lowered and raised to the back sector when there is one.
abbrev pub lower : ℕ → ℕ → ℕ
lower height wall_start = if below height wall_start then height else wall_start

abbrev pub higher : ℕ → ℕ → ℕ
higher height wall_end = if below wall_end height then height else wall_end

unfoldable pub wall_heights : List Sidedef → List MapSector → Linedef → Result (ℕ × ℕ)
unfolding sector_of
wall_heights sidedefs sectors line = do
  front ← sector_of sidedefs sectors line.side_front
  (if ltb line.side_back (2 ^ 31)
      then (sector_of sidedefs sectors line.side_back >>= λ (back : MapSector). ok (
        lower back.height_floor front.height_floor,
        higher back.height_ceiling front.height_ceiling,
      ))
      else ok (front.height_floor, front.height_ceiling))

unfoldable pub draw_wall :
    List Vertex → List Sidedef → List MapSector → Linedef → Blocks → Result Blocks
unfolding wall_heights draw_line
draw_wall vertices sidedefs sectors line blocks = do
  start ← or_fault (get_elem? vertices line.start)
  end ← or_fault (get_elem? vertices line.end)
  heights ← wall_heights sidedefs sectors line
  draw_line start end heights.0 heights.1 blocks

unfoldable pub draw_walls :
    List Vertex → List Sidedef → List MapSector → List Linedef → Blocks → Result Blocks
unfolding draw_wall
draw_walls vertices sidedefs sectors [] blocks = ok blocks
draw_walls vertices sidedefs sectors (line ∷ lines) blocks =
    draw_wall vertices sidedefs sectors line blocks >>= λ b.
    draw_walls vertices sidedefs sectors lines b
