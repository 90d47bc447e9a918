-- ===== src/Udmf/Building.antt =====
-- The floors and ceilings of the sectors, the spawns, and the constructor on the text of the file.
use doom_mc.Prelude.{
  ℕ, ◌+◌, ◌-◌, ◌^◌, Bool, true, false, ◌||◌, List, [], ◌∷◌, Option, none, some, get_elem?,
  replicate, ◌==◌, if◌then◌else◌,
}
use doom_mc.Result.{Result, ok, ◌>>=◌, or_fault, for_range}
use doom_mc.Wire.Position.{to_position}
use doom_mc.GameMap.{GameMap}
use doom_mc.Udmf.{Numbers, Vertex, MapSector, Sidedef, Linedef, Thing, below}
use doom_mc.Udmf.Blocks.{Content, parse_contents}
use doom_mc.Udmf.Layout.{
  xs, ys, ceilings, greatest_of, x_vector, y_vector, height_vector, move_vertices, move_sectors,
}
use doom_mc.Udmf.Drawing.{Blocks, fill, for_ints, draw_walls}

-- `lb`, `rb`, `lt` and `rt`, which are NULL all at once.
pub record Corners : Type 0 where
  pub lb : Vertex
  pub rb : Vertex
  pub lt : Vertex
  pub rt : Vertex

abbrev pub widen_bottom : Vertex → Vertex → Corners → Corners
widen_bottom start end c =
    if below start.x c.lb.x
    then record c { lb = start }
    else if below c.rb.x end.x
    then record c { rb = end }
    else c

abbrev pub widen_top : Vertex → Vertex → Corners → Corners
widen_top start end c =
    if below start.y c.lt.y
    then record c { lt = start }
    else if below c.rt.y end.y
    then record c { rt = end }
    else c

unfoldable pub add_line : Vertex → Vertex → Option Corners → Corners
add_line start end none = record { lb = start; rb = end; lt = start; rt = end }
add_line start end (some c) = widen_top start end (widen_bottom start end c)

-- `linedef->sideback != -1 && back->sector == i`
abbrev pub shows_behind : List Sidedef → ℕ → ℕ → Result Bool
shows_behind sidedefs side i =
    if side == 2 ^ 32 - 1
    then ok false
    else or_fault (get_elem? sidedefs side) >>= λ (back : Sidedef). ok (back.sector == i)

unfoldable pub shows_sector : List Sidedef → Linedef → ℕ → Result Bool
shows_sector sidedefs line i = do
  front ← or_fault (get_elem? sidedefs line.side_front)
  (if front.sector == i then ok true else shows_behind sidedefs line.side_back i)

unfoldable pub corners_loop :
    List Vertex → List Sidedef → ℕ → List Linedef → Option Corners → Result (Option Corners)
unfolding add_line shows_sector
corners_loop vertices sidedefs i [] corners = ok corners
corners_loop vertices sidedefs i (line ∷ lines) corners = do
  shown ← shows_sector sidedefs line i
  corners' ←
      (if shown
        then (or_fault (get_elem? vertices line.start) >>= λ (start : Vertex).
            (or_fault (get_elem? vertices line.end) >>= λ (end : Vertex).
            ok (some (add_line start end corners))))
        else ok corners)
  corners_loop vertices sidedefs i lines corners'

-- `for(int y = first; y <= last; y++){blocks[x][height][y] = 1;}`
unfoldable pub fill_row : ℕ → ℕ → ℕ → ℕ → Blocks → Result Blocks
unfolding fill for_range
fill_row x height first last blocks = for_ints first last (λ y b. fill x height y b) blocks

-- The body of the loop over `x`, and that of the two loops over `y`.
unfoldable pub fill_inner : Corners → MapSector → ℕ → Blocks → Result Blocks
unfolding fill_row
fill_inner c s x blocks = fill_row x s.height_floor c.lb.y c.lt.y blocks >>= λ b.
    fill_row x s.height_ceiling c.lt.y c.rt.y b

unfoldable pub fill_edges : Corners → ℕ → ℕ → Blocks → Result Blocks
unfolding fill
fill_edges c height y blocks = fill c.lb.x height y blocks >>= λ b. fill c.rb.x height y b

unfoldable pub add_sector_to_map : Corners → MapSector → Blocks → Result Blocks
unfolding fill_inner fill_edges for_range
add_sector_to_map c s blocks = do
  inner ← for_ints c.lb.x c.rb.x (fill_inner c s) blocks
  bottom ← for_ints c.lb.y c.lt.y (fill_edges c s.height_floor) inner
  for_ints c.lt.y c.rt.y (fill_edges c s.height_ceiling) bottom

abbrev pub add_corners : MapSector → Option Corners → Blocks → Result Blocks
add_corners s none blocks = ok blocks
add_corners s (some c) blocks = add_sector_to_map c s blocks

-- `sectors` are the ones from the `i`th on.
unfoldable pub add_sectors :
    List Vertex → List Sidedef → List Linedef → ℕ → List MapSector → Blocks → Result Blocks
unfolding corners_loop add_sector_to_map
add_sectors vertices sidedefs lines i [] blocks = ok blocks
add_sectors vertices sidedefs lines i (s ∷ sectors) blocks = do
  corners ← corners_loop vertices sidedefs i lines none
  blocks' ← add_corners s corners blocks
  add_sectors vertices sidedefs lines (i + 1) sectors blocks'

-- `PLAYER_1_SPAWN` and `DEATHMATCH_START`.
abbrev pub is_spawn : Thing → Bool
is_spawn t = (t.type == 1) || (t.type == 11)

unfoldable pub spawns_of : Numbers → ℕ → ℕ → ℕ → List Thing → List ℕ
unfolding to_position
spawns_of n xv yv hv [] = []
spawns_of n xv yv hv (t ∷ things) =
    let later = spawns_of n xv yv hv things in
    if is_spawn t
    then to_position (n.float_scaled t.x xv) (n.float_scaled t.height hv) (n.float_scaled t.y yv)
      ∷ later
    else later

unfoldable pub empty_blocks : ℕ → ℕ → ℕ → Blocks
empty_blocks width height depth = replicate width (replicate height (replicate depth 0))

-- `width++; length++; height++;`
unfoldable pub build : Numbers → Content → Result GameMap
unfolding x_vector y_vector height_vector move_vertices move_sectors greatest_of empty_blocks
    draw_walls add_sectors spawns_of
build n content =
    let vertices = move_vertices content.vertices in
    let sectors = move_sectors content.sectors in
    let width = greatest_of (xs vertices) 0 + 1 in
    let depth = greatest_of (ys vertices) 0 + 1 in
    let height = greatest_of (ceilings sectors) 0 + 1 in
    do
      walls ←
          draw_walls vertices content.sidedefs sectors content.linedefs
            (empty_blocks width height depth)
      blocks ← add_sectors vertices content.sidedefs content.linedefs 0 sectors walls
      ok (record {
        width = width;
        height = height;
        depth = depth;
        palette = 0 ∷ 1 ∷ [];
        blocks = blocks;
        spawns =
            spawns_of n (x_vector content.vertices) (y_vector content.vertices)
              (height_vector content.sectors) content.things;
      })

unfoldable pub udmf : Numbers → List ℕ → Result GameMap
unfolding parse_contents build
udmf n contents = parse_contents n contents >>= λ content. build n content
