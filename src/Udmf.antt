-- ===== src/Udmf.antt =====
-- src/map/udmf.cpp: the text of a Doom map becomes the blocks of a map. Integers are 32-bit patterns;
-- a string is the bytes before its terminator.
pub mod Text
pub mod Blocks
pub mod Layout
pub mod Drawing
pub mod Cells
pub mod Building
pub mod Line
pub mod Painting
pub mod Walls
pub mod Safety
pub mod Fields
pub mod Grid
pub mod Comments
pub mod Slopes
use doom_mc.Prelude.{
  ℕ, ◌+◌, ◌-◌, ◌*◌, ◌%◌, ◌^◌, Bool, true, false, ◌&&◌, List, [], ◌∷◌, ltb, ◌==◌, if◌then◌else◌,
}

-- What the C library makes of a value's text: `atoi`, `(int)atof`, and `atof` as the pattern of a
-- `float`; and `(f + vector) / SCALE` on such a pattern, as the integer that `toPosition` gets.
pub record Numbers : Type 0 where
  pub int_of : List ℕ → ℕ
  pub int_of_float : List ℕ → ℕ
  pub float_of : List ℕ → ℕ
  pub float_scaled : ℕ → ℕ → ℕ

pub record Vertex : Type 0 where
  pub x : ℕ
  pub y : ℕ

pub record MapSector : Type 0 where
  pub height_floor : ℕ
  pub height_ceiling : ℕ

pub record Sidedef : Type 0 where
  pub id : ℕ
  pub offset_x : ℕ
  pub offset_y : ℕ
  pub sector : ℕ

pub record Linedef : Type 0 where
  pub id : ℕ
  pub start : ℕ
  pub end : ℕ
  pub side_front : ℕ
  pub side_back : ℕ

pub record Thing : Type 0 where
  pub id : ℕ
  pub x : ℕ
  pub y : ℕ
  pub height : ℕ
  pub angle : ℕ
  pub type : ℕ

abbrev pub scale : ℕ
scale = 64

-- `a < b`, `a + b`, `a - b` and `-a` on ints.
abbrev pub below : ℕ → ℕ → Bool
below a b = ltb ((a + 2 ^ 31) % 2 ^ 32) ((b + 2 ^ 31) % 2 ^ 32)

abbrev pub add_int : ℕ → ℕ → ℕ
add_int a b = (a + b) % 2 ^ 32

abbrev pub sub_int : ℕ → ℕ → ℕ
sub_int a b = (a + (2 ^ 32 - b)) % 2 ^ 32

abbrev pub negate_int : ℕ → ℕ
negate_int a = sub_int 0 a

-- `strncmp(key, name, n) == 0`, for the `n` characters of `name`.
abbrev pub starts_with : List ℕ → List ℕ → Bool
starts_with [] key = true
starts_with (c ∷ name) [] = false
starts_with (c ∷ name) (k ∷ key) = (c == k) && starts_with name key

-- The keys.
abbrev pub x_key : List ℕ
x_key = 120 ∷ []

abbrev pub y_key : List ℕ
y_key = 121 ∷ []

abbrev pub id_key : List ℕ
id_key = 105 ∷ 100 ∷ []

abbrev pub offset_x_key : List ℕ
offset_x_key = 111 ∷ 102 ∷ 102 ∷ 115 ∷ 101 ∷ 116 ∷ 120 ∷ []

abbrev pub offset_y_key : List ℕ
offset_y_key = 111 ∷ 102 ∷ 102 ∷ 115 ∷ 101 ∷ 116 ∷ 121 ∷ []

abbrev pub sector_key : List ℕ
sector_key = 115 ∷ 101 ∷ 99 ∷ 116 ∷ 111 ∷ 114 ∷ []

abbrev pub height_key : List ℕ
height_key = 104 ∷ 101 ∷ 105 ∷ 103 ∷ 104 ∷ 116 ∷ []

abbrev pub height_floor_key : List ℕ
height_floor_key = 104 ∷ 101 ∷ 105 ∷ 103 ∷ 104 ∷ 116 ∷ 102 ∷ 108 ∷ 111 ∷ 111 ∷ 114 ∷ []

abbrev pub height_ceiling_key : List ℕ
height_ceiling_key = 104 ∷ 101 ∷ 105 ∷ 103 ∷ 104 ∷ 116 ∷ 99 ∷ 101 ∷ 105 ∷ 108 ∷ 105 ∷ 110 ∷ 103 ∷ []

abbrev pub v1_key : List ℕ
v1_key = 118 ∷ 49 ∷ []

abbrev pub v2_key : List ℕ
v2_key = 118 ∷ 50 ∷ []

abbrev pub side_front_key : List ℕ
side_front_key = 115 ∷ 105 ∷ 100 ∷ 101 ∷ 102 ∷ 114 ∷ 111 ∷ 110 ∷ 116 ∷ []

abbrev pub side_back_key : List ℕ
side_back_key = 115 ∷ 105 ∷ 100 ∷ 101 ∷ 98 ∷ 97 ∷ 99 ∷ 107 ∷ []

abbrev pub angle_key : List ℕ
angle_key = 97 ∷ 110 ∷ 103 ∷ 108 ∷ 101 ∷ []

abbrev pub type_key : List ℕ
type_key = 116 ∷ 121 ∷ 112 ∷ 101 ∷ []

unfoldable pub add_vertex_val : Numbers → Vertex → List ℕ → List ℕ → Vertex
add_vertex_val n v key val =
    if starts_with x_key key
    then record v { x = n.int_of_float val }
    else if starts_with y_key key
    then record v { y = n.int_of_float val }
    else v

unfoldable pub add_sidedef_val : Numbers → Sidedef → List ℕ → List ℕ → Sidedef
add_sidedef_val n s key val =
    if starts_with id_key key
    then record s { id = n.int_of val }
    else if starts_with offset_x_key key
    then record s { offset_x = n.int_of val }
    else if starts_with offset_y_key key
    then record s { offset_y = n.int_of val }
    else if starts_with sector_key key
    then record s { sector = n.int_of val }
    else s

unfoldable pub add_sector_val : Numbers → MapSector → List ℕ → List ℕ → MapSector
add_sector_val n s key val =
    if starts_with height_floor_key key
    then record s { height_floor = n.int_of val }
    else if starts_with height_ceiling_key key
    then record s { height_ceiling = n.int_of val }
    else s

unfoldable pub add_linedef_val : Numbers → Linedef → List ℕ → List ℕ → Linedef
add_linedef_val n l key val =
    if starts_with id_key key
    then record l { id = n.int_of val }
    else if starts_with v1_key key
    then record l { start = n.int_of val }
    else if starts_with v2_key key
    then record l { end = n.int_of val }
    else if starts_with side_front_key key
    then record l { side_front = n.int_of val }
    else if starts_with side_back_key key
    then record l { side_back = n.int_of val }
    else l

unfoldable pub add_thing_val : Numbers → Thing → List ℕ → List ℕ → Thing
add_thing_val n t key val =
    if starts_with id_key key
    then record t { id = n.int_of val }
    else if starts_with x_key key
    then record t { x = n.float_of val }
    else if starts_with y_key key
    then record t { y = n.float_of val }
    else if starts_with height_key key
    then record t { height = n.float_of val }
    else if starts_with angle_key key
    then record t { angle = n.int_of val }
    else if starts_with type_key key
    then record t { type = n.int_of val }
    else t
