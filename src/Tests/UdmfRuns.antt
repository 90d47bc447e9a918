-- ===== src/Tests/UdmfRuns.antt =====
-- src/map/udmf.cpp on small texts and lines.
use doom_mc.Prelude.{
  ℕ, ◌+◌, ◌-◌, ◌*◌, ◌^◌, ◌<◌, ◌≤◌, ◌≡◌, refl, ap, ◌∙◌, arith, List, [], ◌∷◌, ◌++◌, All,
}
use doom_mc.Result.{Result, ok, ◌>>=◌}
use doom_mc.GameMap.{GameMap}
use doom_mc.GameMap.Section.{IsWellFormed}
use doom_mc.Udmf.{
  Numbers, Vertex, MapSector, Linedef, add_vertex_val, add_linedef_val, add_sidedef_val,
  add_sector_val,
}
use doom_mc.Udmf.Text.{parse_block}
use doom_mc.Udmf.Blocks.{Content, new_linedef, parse_contents, add_block, swap_heights}
use doom_mc.Udmf.Layout.{ceilings, greatest_of, move_sectors}
use doom_mc.Udmf.Drawing.{Blocks, draw_line, sector_of, wall_heights, lower, higher}
use doom_mc.Udmf.Building.{empty_blocks, build, udmf}
use doom_mc.Udmf.Painting.{Painted}
use doom_mc.Udmf.Walls.{walled, IsStraight, draw_line-walled}
use doom_mc.Udmf.Safety.{empty_blocks-HasCells, udmf-IsWellFormed}
use doom_mc.Udmf.Fields.{IsField, text_of, add_fields, parse_block-fields, one_sided_wall}
use doom_mc.Udmf.Grid.{move_sectors-in-range}

-- Decimal numbers without a sign.
decimal_loop : ℕ → List ℕ → ℕ
decimal_loop n [] = n
decimal_loop n (c ∷ cs) = decimal_loop (n * 10 + (c - 48)) cs

abbrev decimals : Numbers
decimals = record {
  int_of = decimal_loop 0;
  int_of_float = decimal_loop 0;
  float_of = decimal_loop 0;
  float_scaled = λ f vector. f + vector;
}

-- vertex{x=0;y=0;}
abbrev first_vertex : List ℕ
first_vertex =
    32 ∷ 118 ∷ 101 ∷ 114 ∷ 116 ∷ 101 ∷ 120 ∷ 123 ∷ 120 ∷ 61 ∷ 48 ∷ 59 ∷ 121 ∷ 61 ∷ 48 ∷ 59 ∷ 125
    ∷ []

-- vertex{x=128;y=64;}
abbrev second_vertex : List ℕ
second_vertex =
    32 ∷ 118 ∷ 101 ∷ 114 ∷ 116 ∷ 101 ∷ 120 ∷ 123 ∷ 120 ∷ 61 ∷ 49 ∷ 50 ∷ 56 ∷ 59 ∷ 121 ∷ 61 ∷ 54 ∷ 52
    ∷ 59 ∷ 125 ∷ []

-- sector{heightceiling=64;}
abbrev one_sector : List ℕ
one_sector =
    32 ∷ 115 ∷ 101 ∷ 99 ∷ 116 ∷ 111 ∷ 114 ∷ 123 ∷ 104 ∷ 101 ∷ 105 ∷ 103 ∷ 104 ∷ 116 ∷ 99 ∷ 101 ∷ 105
    ∷ 108 ∷ 105 ∷ 110 ∷ 103 ∷ 61 ∷ 54 ∷ 52 ∷ 59 ∷ 125 ∷ []

-- sidedef{sector=0;}
abbrev one_sidedef : List ℕ
one_sidedef =
    32 ∷ 115 ∷ 105 ∷ 100 ∷ 101 ∷ 100 ∷ 101 ∷ 102 ∷ 123 ∷ 115 ∷ 101 ∷ 99 ∷ 116 ∷ 111 ∷ 114 ∷ 61 ∷ 48
    ∷ 59 ∷ 125 ∷ []

-- linedef{v1=0;v2=1;sidefront=0;}
abbrev one_linedef : List ℕ
one_linedef =
    32 ∷ 108 ∷ 105 ∷ 110 ∷ 101 ∷ 100 ∷ 101 ∷ 102 ∷ 123 ∷ 118 ∷ 49 ∷ 61 ∷ 48 ∷ 59 ∷ 118 ∷ 50 ∷ 61
    ∷ 49 ∷ 59 ∷ 115 ∷ 105 ∷ 100 ∷ 101 ∷ 102 ∷ 114 ∷ 111 ∷ 110 ∷ 116 ∷ 61 ∷ 48 ∷ 59 ∷ 125 ∷ []

abbrev one_wall : List ℕ
one_wall = first_vertex ++ (second_vertex ++ (one_sector ++ (one_sidedef ++ one_linedef)))

abbrev wall_map : GameMap
wall_map = record {
  width = 3;
  height = 2;
  depth = 2;
  palette = 0 ∷ 1 ∷ [];
  blocks =
      ((1 ∷ 0 ∷ []) ∷ (1 ∷ 1 ∷ []) ∷ [])
      ∷ ((1 ∷ 0 ∷ []) ∷ (1 ∷ 1 ∷ []) ∷ [])
      ∷ ((1 ∷ 1 ∷ []) ∷ (1 ∷ 1 ∷ []) ∷ [])
      ∷ [];
  spawns = [];
}

abbrev wall_content : Content
wall_content = record {
  linedefs = record { id = 0; start = 0; end = 1; side_front = 0; side_back = 0 } ∷ [];
  vertices = record { x = 0; y = 0 } ∷ record { x = 128; y = 64 } ∷ [];
  sidedefs = record { id = 0; offset_x = 0; offset_y = 0; sector = 0 } ∷ [];
  sectors = record { height_floor = 0; height_ceiling = 64 } ∷ [];
  things = [];
}

one_wall_parsed : parse_contents decimals one_wall ≡ ok wall_content
unfolding parse_contents decimal_loop add_block add_vertex_val add_linedef_val add_sidedef_val
    add_sector_val swap_heights
one_wall_parsed = refl

wall_built : build decimals wall_content ≡ ok wall_map
unfolding build
wall_built = refl

one_wall_read : udmf decimals one_wall ≡ ok wall_map
unfolding udmf
one_wall_read =
    ap (λ (m : Result Content). m >>= λ c. build decimals c) one_wall_parsed ∙ wall_built

udmf-IsWellFormed_example : IsWellFormed wall_map
udmf-IsWellFormed_example = udmf-IsWellFormed decimals one_wall wall_map one_wall_read

abbrev corner : Vertex
corner = record { x = 0; y = 0 }

abbrev two_along : Vertex
two_along = record { x = 2; y = 1 }

draw_line-walled_example :
    (after : Blocks) × (height : ℕ → ℕ) × (draw_line corner two_along 0 1 (empty_blocks 3 2 2)
      ≡ ok after)
    × Painted (empty_blocks 3 2 2) after (walled corner height 0 1 (2 + 1))
    × IsStraight height 0 (2 - 0) (1 - 0)
    × (height (2 - 0) ≡ 1)
draw_line-walled_example =
    draw_line-walled (empty_blocks 3 2 2) corner two_along 0 1 3 2 2 (empty_blocks-HasCells 3 2 2)
      (omega arith) (omega arith) (omega arith) (omega arith) (omega arith) (omega arith)
      (omega arith) (omega arith) (omega arith) (omega arith)

-- ` v1 = 0;` and `v2=1;`
abbrev line_fields : List (List ℕ × List ℕ)
line_fields = (32 ∷ 118 ∷ 49 ∷ 32 ∷ [], 32 ∷ 48 ∷ []) ∷ (118 ∷ 50 ∷ [], 49 ∷ []) ∷ []

line_fields_plain : All IsField line_fields
line_fields_plain = (
  (
    (
      (omega arith, omega arith),
      ((omega arith, omega arith), ((omega arith, omega arith), ((omega arith, omega arith), tt))),
    ),
    ((omega arith, omega arith), ((omega arith, omega arith), tt)),
  ),
  (
    (
      ((omega arith, omega arith), ((omega arith, omega arith), tt)),
      ((omega arith, omega arith), tt),
    ),
    tt,
  ),
)

parse_block-fields_example :
    parse_block (add_linedef_val decimals) new_linedef (text_of line_fields (32 ∷ []))
    ≡ ok (add_fields (add_linedef_val decimals) new_linedef line_fields)
parse_block-fields_example =
    parse_block-fields (add_linedef_val decimals) new_linedef line_fields (32 ∷ [])
      line_fields_plain ((omega arith, omega arith), tt)

one_sided_wall_example :
    (l : Linedef) × (parse_block (add_linedef_val decimals) new_linedef (text_of line_fields [])
      ≡ ok l)
    × (wall_heights wall_content.sidedefs wall_content.sectors l ≡ (
        sector_of wall_content.sidedefs wall_content.sectors l.side_front >>= λ front.
        (sector_of wall_content.sidedefs wall_content.sectors 0 >>= λ back. ok (
          lower back.height_floor front.height_floor,
          higher back.height_ceiling front.height_ceiling,
        ))))
one_sided_wall_example =
    one_sided_wall decimals line_fields [] wall_content.sidedefs wall_content.sectors
      line_fields_plain tt (refl, (refl, tt))

-- Floors at -64 and 0.
abbrev two_sectors : List MapSector
two_sectors =
    record { height_floor = 2 ^ 32 - 64; height_ceiling = 128 }
    ∷ record { height_floor = 0; height_ceiling = 64 }
    ∷ []

move_sectors-in-range_example :
    All
      (λ (s : MapSector).
        (s.height_floor ≤ s.height_ceiling)
        × (s.height_ceiling < greatest_of (ceilings (move_sectors two_sectors)) 0 + 1)
        × (s.height_ceiling < 2 ^ 26))
      (move_sectors two_sectors)
move_sectors-in-range_example =
    move_sectors-in-range two_sectors
      ((omega arith, omega arith, omega arith), ((omega arith, omega arith, omega arith), tt))
