-- ===== src/Udmf/Layout.antt =====
-- The vertices and sectors are moved so that no coordinate is negative, and divided by the scale.
use doom_mc.Prelude.{ℕ, ◌/◌, List, [], ◌∷◌, map, ltb, if◌then◌else◌}
use doom_mc.Udmf.{Vertex, MapSector, scale, below, add_int, negate_int}

-- `if(value < least){least = value;}` for each value.
unfoldable pub least_int : List ℕ → ℕ → ℕ
least_int [] least = least
least_int (v ∷ vs) least = least_int vs (if below v least then v else least)

-- `minX` becomes `xVector`.
unfoldable pub vector_of : ℕ → ℕ
vector_of least = if below least 0 then negate_int least else 0

-- `(value + vector) / SCALE`, on unsigned operands.
unfoldable pub move_to_grid : ℕ → ℕ → ℕ
move_to_grid vector value = add_int value vector / scale

-- `if((unsigned int)value > greatest){greatest = value;}` for each value.
unfoldable pub greatest_of : List ℕ → ℕ → ℕ
greatest_of [] greatest = greatest
greatest_of (v ∷ vs) greatest = greatest_of vs (if ltb greatest v then v else greatest)

abbrev pub xs : List Vertex → List ℕ
xs vertices = map (λ (v : Vertex). v.x) vertices

abbrev pub ys : List Vertex → List ℕ
ys vertices = map (λ (v : Vertex). v.y) vertices

abbrev pub floors : List MapSector → List ℕ
floors sectors = map (λ (s : MapSector). s.height_floor) sectors

abbrev pub ceilings : List MapSector → List ℕ
ceilings sectors = map (λ (s : MapSector). s.height_ceiling) sectors

unfoldable pub x_vector : List Vertex → ℕ
unfolding least_int vector_of
x_vector vertices = vector_of (least_int (xs vertices) 0)

unfoldable pub y_vector : List Vertex → ℕ
unfolding least_int vector_of
y_vector vertices = vector_of (least_int (ys vertices) 0)

unfoldable pub height_vector : List MapSector → ℕ
unfolding least_int vector_of
height_vector sectors = vector_of (least_int (floors sectors) 0)

unfoldable pub move_vertices : List Vertex → List Vertex
unfolding x_vector y_vector move_to_grid
move_vertices vertices =
    map
      (λ (v : Vertex). record {
        x = move_to_grid (x_vector vertices) v.x;
        y = move_to_grid (y_vector vertices) v.y;
      })
      vertices

unfoldable pub move_sectors : List MapSector → List MapSector
unfolding height_vector move_to_grid
move_sectors sectors =
    map
      (λ (s : MapSector). record {
        height_floor = move_to_grid (height_vector sectors) s.height_floor;
        height_ceiling = move_to_grid (height_vector sectors) s.height_ceiling;
      })
      sectors
