-- ===== src/Udmf/Walls.antt =====
-- What a wall along a line does to the block array.
use doom_mc.Prelude.{
  ℕ, suc, ◌+◌, ◌-◌, ◌*◌, ◌^◌, ◌<◌, ◌≤◌, ◌≡◌, refl, ap, ◌∙◌, arith, Bool, false, ◌&&◌, ◌||◌,
  ℕ_discrete, ltb, leb, ◌==◌, ==_refl,
}
use doom_mc.Result.{ok, for_range_inv}
use doom_mc.Udmf.{Vertex, sub_int}
use doom_mc.Udmf.Cells.{cell}
use doom_mc.Udmf.Drawing.{Blocks, Pen, draw_step, draw_line, abs_int, move_pen}
use doom_mc.Udmf.Line.{pen_after, first_pen, pen_height, pen_follows}
use doom_mc.Udmf.Painting.{
  Painted, painted_ok, paint_more, rounds_to_up, in_column, fill_column-Painted,
}

-- The blocks of a wall over the places from `x` up to `x'`.
unfoldable pub on_line : Vertex → ℕ → ℕ → ℕ → ℕ → ℕ → ℕ → ℕ → ℕ → Bool
on_line start dx dy lo hi x' i j k =
    (leb start.x i && ltb i x')
    && ((leb lo j && ltb j (hi + 1))
        && (k == (pen_after dx dy (i - start.x) (first_pen start.y dx dy)).y))

line_grows :
    (start : Vertex) (dx dy lo hi x i j k : ℕ)
    → start.x ≤ x
    → (in_column x (pen_after dx dy (x - start.x) (first_pen start.y dx dy)).y lo (hi + 1) i j k
        || on_line start dx dy lo hi x i j k)
      ≡ on_line start dx dy lo hi (x + 1) i j k
unfolding on_line
line_grows start dx dy lo hi x i j k h = elim (ℕ_discrete i x) [
  | yes same ↦ rw (same, ==_refl x) (ground arith)
  | no other ↦ ground arith
]

line_starts :
    (start : Vertex) (dx dy lo hi i j k : ℕ) → on_line start dx dy lo hi start.x i j k ≡ false
unfolding on_line
line_starts start dx dy lo hi i j k = ground arith

-- Every place inside the sizes has a block.
abbrev pub HasCells : ℕ → ℕ → ℕ → Blocks → Type 0
HasCells w h d blocks = (i j k : ℕ) → i < w → j < h → k < d → (v : ℕ) × (cell blocks i j k ≡ ok v)

Painted-HasCells :
    (w h d : ℕ) (before after : Blocks) (on : ℕ → ℕ → ℕ → Bool)
    → HasCells w h d before
    → Painted before after on
    → HasCells w h d after
Painted-HasCells w h d before after on has painted i j k wi hj dk =
    let (v, there) = has i j k wi hj dk in
    let (v', now) = painted_ok (on i j k) (cell before i j k) there in (v', painted i j k ∙ now)

-- Before the round of `x`.
IsDrawn : Vertex → ℕ → ℕ → ℕ → ℕ → Blocks → ℕ → Blocks × Pen → Type 0
IsDrawn start dx dy lo hi blocks x s =
    (start.x ≤ x)
    × (s.1 ≡ pen_after dx dy (x - start.x) (first_pen start.y dx dy))
    × Painted blocks s.0 (on_line start dx dy lo hi x)

pen_starts :
    (start : Vertex) (dx dy : ℕ)
    → first_pen start.y dx dy ≡ pen_after dx dy (start.x - start.x) (first_pen start.y dx dy)
unfolding pen_after
pen_starts start dx dy = let none_yet : start.x - start.x ≡ 0 = omega arith in rw none_yet refl

draw_step-IsDrawn :
    (start : Vertex) (w h d dx dy lo hi x : ℕ) (blocks b : Blocks) (pen : Pen)
    → HasCells w h d blocks
    → lo ≤ hi
    → hi < h
    → h ≤ 2 ^ 31
    → x < w
    → dx < 2 ^ 29
    → dy ≤ dx
    → x < start.x + dx + 1
    → start.y + dy < d
    → d < 2 ^ 32
    → IsDrawn start dx dy lo hi blocks x (b, pen)
    → (s' : Blocks × Pen) × (draw_step dx dy lo hi x (b, pen) ≡ ok s')
      × IsDrawn start dx dy lo hi blocks (x + 1) s'
unfolding IsDrawn draw_step pen_after
draw_step-IsDrawn start w h d dx dy lo hi x blocks b pen has heights hi_in h_small x_in small flat
      within y_in d_small (from, at_pen, painted) =
    let k : ℕ = x - start.x in
    let low = pen_height start.y dx dy k small flat (omega arith) (omega arith) in
    let next : x + 1 - start.x ≡ suc (x - start.x) = omega arith in
    let pen_low : pen.y < d = rw at_pen (omega (arith, low)) in
    let (after, run, column) =
      fill_column-Painted b x pen.y lo hi heights (omega arith) (λ r above under.
        Painted-HasCells w h d blocks b _ has painted x r pen.y x_in (omega arith) pen_low) in
    (
      (after, move_pen dx dy pen),
      rw run refl,
      (
        omega arith,
        rw next (ap (move_pen dx dy) at_pen),
        paint_more blocks b after (on_line start dx dy lo hi x) _
            (on_line start dx dy lo hi (x + 1)) painted (rw at_pen at column)
            (λ i j k. line_grows start dx dy lo hi x i j k from),
      ),
    )

up_difference : (a b : ℕ) → a ≤ b → b < 2 ^ 31 → abs_int (sub_int b a) ≡ b - a
up_difference a b h small = ground arith

-- The same wall, with the heights as the pen has them.
draw_line-on_line :
    (blocks : Blocks) (start end : Vertex) (lo hi w h d : ℕ)
    → HasCells w h d blocks
    → start.x ≤ end.x
    → start.y ≤ end.y
    → end.y - start.y ≤ end.x - start.x
    → end.x < 2 ^ 26
    → end.x < w
    → lo ≤ hi
    → hi < h
    → h ≤ 2 ^ 31
    → end.y < d
    → d ≤ 2 ^ 26
    → (after : Blocks) × (draw_line start end lo hi blocks ≡ ok after)
      × Painted blocks after (on_line start (end.x - start.x) (end.y - start.y) lo hi (end.x + 1))
unfolding draw_line IsDrawn pen_after
draw_line-on_line blocks start end lo hi w h d has right up flat x_small x_in heights hi_in h_small
      y_in d_small =
    let dx : ℕ = end.x - start.x in
    let dy : ℕ = end.y - start.y in
    let (s, run, (_, _, painted)) =
      for_range_inv (IsDrawn start dx dy lo hi blocks) (draw_step dx dy lo hi) (end.x + 1)
        (λ x s under inv.
          draw_step-IsDrawn start w h d dx dy lo hi x blocks s.0 s.1 has heights hi_in h_small
            (omega arith) (omega arith) flat (omega (arith, inv.0)) (omega arith) (omega arith) inv)
        (suc dx) start.x (blocks, first_pen start.y dx dy) (omega arith)
        (
          omega arith,
          pen_starts start dx dy,
          λ i j k. rw (line_starts start dx dy lo hi i j k) refl,
        ) in
    (
      s.0,
      rw
          (
            up_difference start.x end.x right (omega arith),
            up_difference start.y end.y up (omega arith),
            rounds_to_up start.x end.x right (omega arith),
            run,
          )
          refl,
      painted,
    )

-- The blocks from `lo` to `hi` of a wall that starts at `start`, up to before `x'`, and stands `n`
-- places on at `height n`.
abbrev pub walled : Vertex → (ℕ → ℕ) → ℕ → ℕ → ℕ → ℕ → ℕ → ℕ → Bool
walled start height lo hi x' i j k =
    (leb start.x i && ltb i x') && ((leb lo j && ltb j (hi + 1)) && (k == height (i - start.x)))

-- At `n` places from the start the height is within half a block of the straight line that rises `dy`
-- over `dx` places.
abbrev pub IsStraight : (ℕ → ℕ) → ℕ → ℕ → ℕ → Type 0
IsStraight height y dx dy =
    (n : ℕ)
    → n ≤ dx
    → (m : ℕ) × (height n ≡ y + m)
      × (2 * (dx * m) ≤ 2 * (dy * n) + dx)
      × (2 * (dy * n) ≤ 2 * (dx * m) + dx)

-- A wall that goes up, or along, from a start on the left to an end on the right that is no further
-- up than across, within an array that holds its lowest to its highest block: the loop returns, sets
-- exactly the blocks from `lo` to `hi` at one place over each `x` from the start to the end, and leaves
-- the rest of the array as it was. Those places are never more than half a block off the straight line
-- between the two ends, and the last one is the end.
pub draw_line-walled :
    (blocks : Blocks) (start end : Vertex) (lo hi w h d : ℕ)
    → HasCells w h d blocks
    → start.x ≤ end.x
    → start.y ≤ end.y
    → end.y - start.y ≤ end.x - start.x
    → end.x < 2 ^ 26
    → end.x < w
    → lo ≤ hi
    → hi < h
    → h ≤ 2 ^ 31
    → end.y < d
    → d ≤ 2 ^ 26
    → (after : Blocks) × (height : ℕ → ℕ) × (draw_line start end lo hi blocks ≡ ok after)
      × Painted blocks after (walled start height lo hi (end.x + 1))
      × IsStraight height start.y (end.x - start.x) (end.y - start.y)
      × (height (end.x - start.x) ≡ end.y)
unfolding on_line
draw_line-walled blocks start end lo hi w h d has right up flat x_small x_in heights hi_in h_small
      y_in d_small =
    let dx : ℕ = end.x - start.x in
    let dy : ℕ = end.y - start.y in
    let height : ℕ → ℕ = λ n. (pen_after dx dy n (first_pen start.y dx dy)).y in
    let (after, run, painted) =
      draw_line-on_line blocks start end lo hi w h d has right up flat x_small x_in heights hi_in
        h_small y_in d_small in
    (
      after,
      height,
      run,
      painted,
      λ n within.
          let (m, at_m, not_above, not_below, last) =
            pen_follows start.y dx dy n (omega arith) flat within (omega arith) in
          (m, at_m, not_above, not_below),
      (pen_follows start.y dx dy dx (omega arith) flat (omega arith) (omega arith)).4 ∙ omega arith,
    )
