-- ===== src/Udmf/Slopes.antt =====
-- Lines that the loop over `x` does not draw as they are.
use doom_mc.Prelude.{ℕ, ◌+◌, ◌-◌, ◌^◌, ◌<◌, ◌≤◌, ◌≡◌, refl, arith}
use doom_mc.Result.{ok}
use doom_mc.Udmf.{Vertex, sub_int}
use doom_mc.Udmf.Drawing.{Blocks, draw_line, abs_int, rounds_to}

no_rounds : (first last : ℕ) → last < first → first < 2 ^ 31 → rounds_to first last ≡ 0
no_rounds first last h small = ground arith

-- A wall whose linedef ends to the left of its start is not drawn at all.
pub draw_line-leftward :
    (blocks : Blocks) (start end : Vertex) (lo hi : ℕ)
    → end.x < start.x
    → start.x < 2 ^ 31
    → draw_line start end lo hi blocks ≡ ok blocks
unfolding draw_line
draw_line-leftward blocks start end lo hi left small = rw (no_rounds start.x end.x left small) refl

same_rise :
    (y rise : ℕ)
    → rise ≤ y
    → y < 2 ^ 30
    → abs_int (sub_int (y - rise) y) ≡ abs_int (sub_int (y + rise) y)
same_rise y rise h small = ground arith

-- A wall that goes down by some blocks from its start is drawn as the one that goes up by as many.
draw_line-downward :
    (blocks : Blocks) (start : Vertex) (x rise lo hi : ℕ)
    → rise ≤ start.y
    → start.y < 2 ^ 30
    → draw_line start (record { x = x; y = start.y - rise }) lo hi blocks
      ≡ draw_line start (record { x = x; y = start.y + rise }) lo hi blocks
unfolding draw_line
draw_line-downward blocks start x rise lo hi h small = rw (same_rise start.y rise h small) refl
