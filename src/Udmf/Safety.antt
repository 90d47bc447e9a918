-- ===== src/Udmf/Safety.antt =====
-- Drawing changes no size: a map that the constructor returns has a block wherever its sizes say so.
use doom_mc.Prelude.{
  ℕ, zero, suc, ◌+◌, ◌<◌, ◌≡◌, refl, sym, ap, ◌∙◌, arith, List, [], ◌∷◌, Option, none, some,
  get_elem?, replicate,
}
use mathlib.Core.Path.{subst}
use doom_mc.Result.{Result, ok, ◌>>=◌, or_fault, for_range}
use doom_mc.GameMap.{GameMap, block_at}
use doom_mc.GameMap.Section.{IsWellFormed}
use doom_mc.Udmf.{Numbers, Vertex, MapSector, Sidedef, Linedef}
use doom_mc.Udmf.Blocks.{Content, parse_contents}
use doom_mc.Udmf.Drawing.{
  Blocks, Pen, fill, fill_column, draw_step, draw_line, draw_wall, draw_walls, for_ints,
  wall_heights,
}
use doom_mc.Udmf.Cells.{cell, bind_ok, same_place, fill-IsPlace, place_cell, fill-cell}
use doom_mc.Udmf.Painting.{painted_ok}
use doom_mc.Udmf.Walls.{HasCells}
use doom_mc.Udmf.Layout.{xs, ys, ceilings, greatest_of, move_vertices, move_sectors}
use doom_mc.Udmf.Building.{
  Corners, corners_loop, fill_row, fill_inner, fill_edges, add_sector_to_map, add_corners,
  add_sectors, empty_blocks, build, udmf,
}

-- Every place that had a block has one.
Keeps : Blocks → Blocks → Type 0
Keeps before after =
    (i j k v : ℕ) → cell before i j k ≡ ok v → (v' : ℕ) × (cell after i j k ≡ ok v')

Keeps-refl : (b : Blocks) → Keeps b b
unfolding Keeps
Keeps-refl b i j k v h = (v, h)

Keeps-trans : (a b c : Blocks) → Keeps a b → Keeps b c → Keeps a c
unfolding Keeps
Keeps-trans a b c first later i j k v h = let (v', h') = first i j k v h in later i j k v' h'

ok_value {ℓ} : {A : Type ℓ} {a b : A} → ok a ≡ ok b → a ≡ b
ok_value h = cc

fill-Keeps : (x y z : ℕ) (b b' : Blocks) → fill x y z b ≡ ok b' → Keeps b b'
unfolding Keeps
fill-Keeps x y z b b' run i j k v there =
    let (v₀, here) = place_cell b x y z (fill-IsPlace b x y z run) in
    let (after, run', filled) = fill-cell b x y z here in
    let (v', now) = painted_ok (same_place x y z i j k) (cell b i j k) there in
    (v', ap (λ (t : Blocks). cell t i j k) (ok_value (sym run ∙ run')) ∙ filled i j k ∙ now)

module _ {S : Type 0} (view : S → Blocks) (body : ℕ → S → Result S) where
  for_range-Keeps :
      ((i : ℕ) (s s' : S) → body i s ≡ ok s' → Keeps (view s) (view s'))
      → (left i : ℕ) (s s' : S) → for_range left i body s ≡ ok s'
      → Keeps (view s) (view s')
  unfolding for_range
  for_range-Keeps one zero i s s' run = rw (ok_value run) (Keeps-refl (view s'))
  for_range-Keeps one (suc left) i s s' run =
      let (t, now, later) = bind_ok (body i s) run in
      Keeps-trans (view s) (view t) (view s') (one i s t now)
        (for_range-Keeps one left (i + 1) t s' later)

for_ints-Keeps :
    (body : ℕ → Blocks → Result Blocks)
    → ((i : ℕ) (b b' : Blocks) → body i b ≡ ok b' → Keeps b b')
    → (first last : ℕ) (b b' : Blocks) → for_ints first last body b ≡ ok b'
    → Keeps b b'
for_ints-Keeps body one first last b b' run = for_range-Keeps (λ t. t) body one _ first b b' run

fill_column-Keeps : (x z lo hi : ℕ) (b b' : Blocks) → fill_column x z lo hi b ≡ ok b' → Keeps b b'
unfolding fill_column
fill_column-Keeps x z lo hi b b' run =
    for_ints-Keeps _ (λ r t t' e. fill-Keeps x r z t t' e) lo hi b b' run

draw_step-Keeps :
    (dx dy lo hi x : ℕ) (s s' : Blocks × Pen) → draw_step dx dy lo hi x s ≡ ok s' → Keeps s.0 s'.0
unfolding draw_step
draw_step-Keeps dx dy lo hi x (b, pen) s' run =
    let (after, now, later) = bind_ok (fill_column x pen.y lo hi b) run in
    rw (ap (λ (t : Blocks × Pen). t.0) (ok_value (sym later)))
      (fill_column-Keeps x pen.y lo hi b after now)

draw_line-Keeps :
    (start end : Vertex) (lo hi : ℕ) (b b' : Blocks)
    → draw_line start end lo hi b ≡ ok b'
    → Keeps b b'
unfolding draw_line
draw_line-Keeps start end lo hi b b' run =
    let (s, now, later) = bind_ok (for_ints start.x end.x (draw_step _ _ lo hi) (b, _)) run in
    rw (sym (ok_value later)) (
      for_range-Keeps (λ t. t.0) (draw_step _ _ lo hi) (draw_step-Keeps _ _ lo hi) _ start.x (b, _)
        s now)

draw_wall-Keeps :
    (vertices : List Vertex) (sidedefs : List Sidedef) (sectors : List MapSector) (line : Linedef)
    (b b' : Blocks)
    → draw_wall vertices sidedefs sectors line b ≡ ok b'
    → Keeps b b'
unfolding draw_wall
draw_wall-Keeps vertices sidedefs sectors line b b' run =
    let (start, _, run₁) = bind_ok (or_fault (get_elem? vertices line.start)) run in
    let (end, _, run₂) = bind_ok (or_fault (get_elem? vertices line.end)) run₁ in
    let (heights, _, run₃) = bind_ok (wall_heights sidedefs sectors line) run₂ in
    draw_line-Keeps start end heights.0 heights.1 b b' run₃

draw_walls-Keeps :
    (vertices : List Vertex) (sidedefs : List Sidedef) (sectors : List MapSector)
    (lines : List Linedef) (b b' : Blocks)
    → draw_walls vertices sidedefs sectors lines b ≡ ok b'
    → Keeps b b'
unfolding draw_walls
draw_walls-Keeps vertices sidedefs sectors [] b b' run = rw (ok_value run) (Keeps-refl b')
draw_walls-Keeps vertices sidedefs sectors (line ∷ lines) b b' run =
    let (t, now, later) = bind_ok (draw_wall vertices sidedefs sectors line b) run in
    Keeps-trans b t b' (draw_wall-Keeps vertices sidedefs sectors line b t now)
      (draw_walls-Keeps vertices sidedefs sectors lines t b' later)

fill_row-Keeps :
    (x height first last : ℕ) (b b' : Blocks) → fill_row x height first last b ≡ ok b' → Keeps b b'
unfolding fill_row
fill_row-Keeps x height first last b b' run =
    for_ints-Keeps _ (λ y t t' e. fill-Keeps x height y t t' e) first last b b' run

-- Two steps, one after the other.
twice-Keeps :
    (m : Result Blocks) (f : Blocks → Result Blocks) (b b' : Blocks)
    → ((t : Blocks) → m ≡ ok t → Keeps b t)
    → ((t : Blocks) → f t ≡ ok b' → Keeps t b')
    → (m >>= f) ≡ ok b'
    → Keeps b b'
twice-Keeps m f b b' first later run =
    let (t, now, next) = bind_ok m run in Keeps-trans b t b' (first t now) (later t next)

fill_inner-Keeps :
    (c : Corners) (s : MapSector) (x : ℕ) (b b' : Blocks) → fill_inner c s x b ≡ ok b' → Keeps b b'
unfolding fill_inner
fill_inner-Keeps c s x b b' run =
    twice-Keeps (fill_row x s.height_floor c.lb.y c.lt.y b)
      (fill_row x s.height_ceiling c.lt.y c.rt.y) b b'
      (λ t. fill_row-Keeps x s.height_floor c.lb.y c.lt.y b t)
      (λ t. fill_row-Keeps x s.height_ceiling c.lt.y c.rt.y t b') run

fill_edges-Keeps :
    (c : Corners) (height y : ℕ) (b b' : Blocks) → fill_edges c height y b ≡ ok b' → Keeps b b'
unfolding fill_edges
fill_edges-Keeps c height y b b' run =
    twice-Keeps (fill c.lb.x height y b) (fill c.rb.x height y) b b'
      (λ t. fill-Keeps c.lb.x height y b t) (λ t. fill-Keeps c.rb.x height y t b') run

add_sector_to_map-Keeps :
    (c : Corners) (s : MapSector) (b b' : Blocks) → add_sector_to_map c s b ≡ ok b' → Keeps b b'
unfolding add_sector_to_map
add_sector_to_map-Keeps c s b b' run =
    let (t, inner, run₁) = bind_ok (for_ints c.lb.x c.rb.x (fill_inner c s) b) run in
    let (t', bottom, top) = bind_ok (for_ints c.lb.y c.lt.y (fill_edges c s.height_floor) t) run₁ in
    Keeps-trans b t b'
      (for_ints-Keeps (fill_inner c s) (fill_inner-Keeps c s) c.lb.x c.rb.x b t inner)
      (Keeps-trans t t' b'
        (for_ints-Keeps (fill_edges c s.height_floor) (fill_edges-Keeps c s.height_floor) c.lb.y
          c.lt.y t t' bottom)
        (for_ints-Keeps (fill_edges c s.height_ceiling) (fill_edges-Keeps c s.height_ceiling) c.lt.y
          c.rt.y t' b' top))

add_corners-Keeps :
    (s : MapSector) (c : Option Corners) (b b' : Blocks) → add_corners s c b ≡ ok b' → Keeps b b'
add_corners-Keeps s none b b' run = rw (ok_value run) (Keeps-refl b')
add_corners-Keeps s (some c) b b' run = add_sector_to_map-Keeps c s b b' run

add_sectors-Keeps :
    (vertices : List Vertex) (sidedefs : List Sidedef) (lines : List Linedef) (i : ℕ)
    (sectors : List MapSector) (b b' : Blocks)
    → add_sectors vertices sidedefs lines i sectors b ≡ ok b'
    → Keeps b b'
unfolding add_sectors
add_sectors-Keeps vertices sidedefs lines i [] b b' run = rw (ok_value run) (Keeps-refl b')
add_sectors-Keeps vertices sidedefs lines i (s ∷ sectors) b b' run =
    let (c, _, run₁) = bind_ok (corners_loop vertices sidedefs i lines none) run in
    twice-Keeps (add_corners s c b) _ b b' (add_corners-Keeps s c b)
      (λ t. add_sectors-Keeps vertices sidedefs lines (i + 1) sectors t b') run₁

get_elem?-replicate : {A : Type 0} (n i : ℕ) (a : A) → i < n → get_elem? (replicate n a) i ≡ some a
get_elem?-replicate zero i a h = elim h [ ]
get_elem?-replicate (suc n) zero a h = refl
get_elem?-replicate (suc n) (suc i) a h = get_elem?-replicate n i a (omega arith)

pub empty_blocks-HasCells : (w h d : ℕ) → HasCells w h d (empty_blocks w h d)
unfolding empty_blocks cell
empty_blocks-HasCells w h d i j k wi hj dk = (
  0,
  rw
      (
        get_elem?-replicate w i (replicate h (replicate {A = ℕ} d 0)) wi,
        get_elem?-replicate h j (replicate {A = ℕ} d 0) hj,
        get_elem?-replicate {A = ℕ} d k 0 dk,
      )
      refl,
)

build-IsWellFormed :
    (n : Numbers) (content : Content) (m : GameMap) → build n content ≡ ok m → IsWellFormed m
unfolding build cell block_at Keeps
build-IsWellFormed n content m run =
    let vertices : List Vertex = move_vertices content.vertices in
    let sectors : List MapSector = move_sectors content.sectors in
    let w : ℕ = greatest_of (xs vertices) 0 + 1 in
    let h : ℕ = greatest_of (ceilings sectors) 0 + 1 in
    let d : ℕ = greatest_of (ys vertices) 0 + 1 in
    let sides = content.sidedefs in
    let lines = content.linedefs in
    let (walls, now, run₁) =
      bind_ok (draw_walls vertices sides sectors lines (empty_blocks w h d)) run in
    let (blocks, next, run₂) = bind_ok (add_sectors vertices sides lines 0 sectors walls) run₁ in
    let keeps =
      Keeps-trans (empty_blocks w h d) walls blocks
        (draw_walls-Keeps vertices sides sectors lines (empty_blocks w h d) walls now)
        (add_sectors-Keeps vertices sides lines 0 sectors walls blocks next) in
    subst IsWellFormed (ok_value run₂) (record {
      cells = λ x y z wi hj dk.
          let (v, there) = empty_blocks-HasCells w h d x y z wi hj dk in keeps x y z v there;
    })

-- Every map that the UDMF constructor returns is one that `getBlock` can be asked about anywhere: the
-- array has a block at each place within the width, the height and the length that it gives.
pub udmf-IsWellFormed :
    (n : Numbers) (contents : List ℕ) (m : GameMap) → udmf n contents ≡ ok m → IsWellFormed m
unfolding udmf
udmf-IsWellFormed n contents m run =
    let (content, _, built) = bind_ok (parse_contents n contents) run in
    build-IsWellFormed n content m built
