-- ===== src/Udmf/Blocks.antt =====
-- The loop over the blocks of the text, which collects the structures of the map.
use doom_mc.Prelude.{ℕ, List, [], ◌∷◌, ◌++◌, Option, none, some, if◌then◌else◌}
use doom_mc.Result.{Result, ok, ◌>>=◌, map_result}
use doom_mc.Udmf.{
  Numbers, Vertex, MapSector, Sidedef, Linedef, Thing, below, starts_with, add_vertex_val,
  add_sidedef_val, add_sector_val, add_linedef_val, add_thing_val, sector_key,
}
use doom_mc.Udmf.Text.{parse_block, remove_comments, pieces, split_at_brace, block_word}

pub record Content : Type 0 where
  pub linedefs : List Linedef
  pub vertices : List Vertex
  pub sidedefs : List Sidedef
  pub sectors : List MapSector
  pub things : List Thing

abbrev pub linedef_type : List ℕ
linedef_type = 108 ∷ 105 ∷ 110 ∷ 101 ∷ 100 ∷ 101 ∷ 102 ∷ []

abbrev pub sidedef_type : List ℕ
sidedef_type = 115 ∷ 105 ∷ 100 ∷ 101 ∷ 100 ∷ 101 ∷ 102 ∷ []

abbrev pub vertex_type : List ℕ
vertex_type = 118 ∷ 101 ∷ 114 ∷ 116 ∷ 101 ∷ 120 ∷ []

abbrev pub thing_type : List ℕ
thing_type = 116 ∷ 104 ∷ 105 ∷ 110 ∷ 103 ∷ []

-- `memset(..., 0, sizeof(...))`
abbrev pub new_vertex : Vertex
new_vertex = record { x = 0; y = 0 }

abbrev pub new_sector : MapSector
new_sector = record { height_floor = 0; height_ceiling = 0 }

abbrev pub new_sidedef : Sidedef
new_sidedef = record { id = 0; offset_x = 0; offset_y = 0; sector = 0 }

abbrev pub new_linedef : Linedef
new_linedef = record { id = 0; start = 0; end = 0; side_front = 0; side_back = 0 }

abbrev pub new_thing : Thing
new_thing = record { id = 0; x = 0; y = 0; height = 0; angle = 0; type = 0 }

unfoldable pub swap_heights : MapSector → MapSector
swap_heights s =
    if below s.height_ceiling s.height_floor
    then record { height_floor = s.height_ceiling; height_ceiling = s.height_floor }
    else s

-- `strncmp(start, ..._TYPE, len) == 0` for the `len` characters of the word.
unfoldable pub add_block : Numbers → Content → List ℕ → List ℕ → Result Content
unfolding parse_block swap_heights
add_block n content word block =
    if starts_with word linedef_type
    then map_result (λ l. (record content { linedefs = content.linedefs ++ l ∷ [] }))
        (parse_block (add_linedef_val n) new_linedef block)
    else if starts_with word vertex_type
    then map_result (λ v. (record content { vertices = content.vertices ++ v ∷ [] }))
        (parse_block (add_vertex_val n) new_vertex block)
    else if starts_with word sidedef_type
    then map_result (λ s. (record content { sidedefs = content.sidedefs ++ s ∷ [] }))
        (parse_block (add_sidedef_val n) new_sidedef block)
    else if starts_with word sector_key
    then map_result (λ s. (record content { sectors = content.sectors ++ swap_heights s ∷ [] }))
        (parse_block (add_sector_val n) new_sector block)
    else if starts_with word thing_type
    then map_result (λ t. (record content { things = content.things ++ t ∷ [] }))
        (parse_block (add_thing_val n) new_thing block)
    else ok content

abbrev pub add_split : Numbers → Content → Option (List ℕ × List ℕ) → Result Content
add_split n content none = ok content
add_split n content (some (before, block)) =
    block_word before >>= λ word. add_block n content word block

unfoldable pub add_pieces : Numbers → Content → List (List ℕ) → Result Content
unfolding split_at_brace block_word add_block
add_pieces n content [] = ok content
add_pieces n content (piece ∷ later) =
    add_split n content (split_at_brace piece) >>= λ content'. add_pieces n content' later

abbrev pub no_content : Content
no_content = record { linedefs = []; vertices = []; sidedefs = []; sectors = []; things = [] }

unfoldable pub parse_contents : Numbers → List ℕ → Result Content
unfolding remove_comments pieces add_pieces
parse_contents n contents =
    remove_comments contents >>= λ cleaned. add_pieces n no_content (pieces cleaned)
