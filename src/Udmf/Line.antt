-- ===== src/Udmf/Line.antt =====
-- The pen of a wall against the exact line.
use doom_mc.Prelude.{
  ℕ, zero, suc, ◌+◌, ◌-◌, ◌*◌, ◌%◌, ◌^◌, ◌<◌, ◌≤◌, ◌≡◌, ap, ◌∙◌, arith, dec_lt, ◌⊎◌,
}
use native.Mathlib.Nat.{mul-suc, mul-le-mul_left, mul_comm}
use doom_mc.Udmf.{add_int, sub_int}
use doom_mc.Udmf.Drawing.{Pen, move_pen}

-- The pen after some rounds of the loop over `x`.
unfoldable pub pen_after : ℕ → ℕ → ℕ → Pen → Pen
pen_after dx dy zero pen = pen
pen_after dx dy (suc n) pen = move_pen dx dy (pen_after dx dy n pen)

abbrev pub first_pen : ℕ → ℕ → ℕ → Pen
first_pen y dx dy = record { y = y; d = sub_int (2 * dy % 2 ^ 32) dx }

-- After `k` rounds the pen stands `m` above the start, no more than half a block off the line, and
-- `d` is twice the distance from the middle of the next choice.
pub record IsNear (y dx dy k : ℕ) (pen : Pen) : Type 0 where
  pub m : ℕ
  pub height : pen.y ≡ y + m
  pub not_above : 2 * (dx * m) ≤ 2 * (dy * k) + dx
  pub not_below : 2 * (dy * k) ≤ 2 * (dx * m) + dx
  pub rest : pen.d ≡ (2 ^ 32 + 2 * (dy * k) + 2 * dy - dx - 2 * (dx * m)) % 2 ^ 32

-- The sign of `d`, with `p` for `dy * k` and `q` for `dx * m`.
choice_up :
    (t p q dx dy : ℕ)
    → dx < 2 ^ 29
    → dy ≤ dx
    → 2 * q ≤ 2 * p + dx
    → 2 * p ≤ 2 * q + dx
    → dx + 2 * q < 2 * p + 2 * dy
    → t ≡ (2 ^ 32 + 2 * p + 2 * dy - dx - 2 * q) % 2 ^ 32
    → (0 < t) × (t < 2 ^ 31)
choice_up t p q dx dy small flat above under up e = (omega arith, omega arith)

choice_flat :
    (t p q dx dy : ℕ)
    → dx < 2 ^ 29
    → dy ≤ dx
    → 2 * q ≤ 2 * p + dx
    → 2 * p ≤ 2 * q + dx
    → 2 * p + 2 * dy ≤ dx + 2 * q
    → t ≡ (2 ^ 32 + 2 * p + 2 * dy - dx - 2 * q) % 2 ^ 32
    → (t ≡ 0) ⊎ (2 ^ 31 ≤ t)
choice_flat t p q dx dy small flat above under level e = omega arith

pub first_pen-IsNear : (y dx dy : ℕ) → dx < 2 ^ 29 → dy ≤ dx → IsNear y dx dy 0 (first_pen y dx dy)
first_pen-IsNear y dx dy small flat = record {
  m = 0;
  height = omega arith;
  not_above = omega arith;
  not_below = omega arith;
  rest = omega arith;
}

move_up :
    (dx dy : ℕ) (pen : Pen)
    → (0 < pen.d) × (pen.d < 2 ^ 31)
    → move_pen dx dy pen
      ≡ record { y = add_int pen.y 1; d = add_int (sub_int pen.d (2 * dx % 2 ^ 32)) (2 * dy) }
unfolding move_pen
move_up dx dy pen (lo, hi) = ground arith

move_flat :
    (dx dy : ℕ) (pen : Pen)
    → (pen.d ≡ 0) ⊎ (2 ^ 31 ≤ pen.d)
    → move_pen dx dy pen ≡ record pen { d = add_int pen.d (2 * dy) }
unfolding move_pen
move_flat dx dy pen h = ground arith

-- Within the width of the line the pen rises no further than the line.
pub rise_le : (dx dy k m : ℕ) → 0 < dx → k ≤ dx → 2 * (dx * m) ≤ 2 * (dy * k) + dx → m ≤ dy
rise_le dx dy k m wide within h = elim (dec_lt dy m) [
  | no low ↦ omega arith
  | yes high ↦ absurd (
      omega
        (arith, mul-le-mul_left dx high, mul-le-mul_left dy within, mul-suc dx dy, mul_comm dx dy))
]

move_pen-IsNear :
    (y dx dy k : ℕ) (pen : Pen)
    → dx < 2 ^ 29
    → dy ≤ dx
    → k < dx
    → y + dy + 1 < 2 ^ 32
    → IsNear y dx dy k pen
    → IsNear y dx dy (suc k) (move_pen dx dy pen)
move_pen-IsNear y dx dy k pen small flat within fits near =
    let low = rise_le dx dy k near.m (omega arith) (omega arith) near.not_above in
    let next_k = mul-suc dy k in
    let next_m = mul-suc dx near.m in
    elim (dec_lt (dx + 2 * (dx * near.m)) (2 * (dy * k) + 2 * dy)) [
      | yes up ↦
          rw
            (move_up dx dy pen (
              choice_up pen.d (dy * k) (dx * near.m) dx dy small flat near.not_above near.not_below
                up near.rest))
            (record {
              m = suc near.m;
              height = omega (arith, near.height);
              not_above = omega arith;
              not_below = omega (arith, near.not_below);
              rest = omega (arith, near.rest, near.not_above, near.not_below);
            })
      | no level ↦
          rw
            (move_flat dx dy pen (
              choice_flat pen.d (dy * k) (dx * near.m) dx dy small flat near.not_above
                near.not_below (omega arith) near.rest))
            (record {
              m = near.m;
              height = near.height;
              not_above = omega (arith, near.not_above);
              not_below = omega arith;
              rest = omega (arith, near.rest, near.not_above, near.not_below);
            })
    ]

pub pen_after-IsNear :
    (y dx dy k : ℕ)
    → dx < 2 ^ 29
    → dy ≤ dx
    → k ≤ dx
    → y + dy + 1 < 2 ^ 32
    → IsNear y dx dy k (pen_after dx dy k (first_pen y dx dy))
unfolding pen_after
pen_after-IsNear y dx dy zero small flat within fits = first_pen-IsNear y dx dy small flat
pen_after-IsNear y dx dy (suc k) small flat within fits =
    move_pen-IsNear y dx dy k _ small flat (omega arith) fits
      (pen_after-IsNear y dx dy k small flat (omega arith) fits)

reached : (dx dy m : ℕ) → 0 < dx → m ≤ dy → 2 * (dy * dx) ≤ 2 * (dx * m) + dx → m ≡ dy
reached dx dy m wide low h = elim (dec_lt m dy) [
  | no high ↦ omega arith
  | yes short ↦ absurd (omega (arith, mul-le-mul_left dx short, mul-suc dx m, mul_comm dx dy))
]

pen_at_end :
    (y dx dy : ℕ)
    → dx < 2 ^ 29
    → dy ≤ dx
    → y + dy + 1 < 2 ^ 32
    → (pen_after dx dy dx (first_pen y dx dy)).y ≡ y + dy
unfolding pen_after
pen_at_end y zero dy small flat fits = omega arith
pen_at_end y (suc n) dy small flat fits =
    let near = pen_after-IsNear y (suc n) dy (suc n) small flat (omega arith) fits in
    near.height
    ∙ ap (λ t. y + t)
        (reached (suc n) dy near.m (omega arith)
          (rise_le (suc n) dy (suc n) near.m (omega arith) (omega arith) near.not_above)
          near.not_below)

pub pen_follows :
    (y dx dy k : ℕ)
    → dx < 2 ^ 29
    → dy ≤ dx
    → k ≤ dx
    → y + dy + 1 < 2 ^ 32
    → (m : ℕ) × ((pen_after dx dy k (first_pen y dx dy)).y ≡ y + m)
      × (2 * (dx * m) ≤ 2 * (dy * k) + dx)
      × (2 * (dy * k) ≤ 2 * (dx * m) + dx)
      × ((pen_after dx dy dx (first_pen y dx dy)).y ≡ y + dy)
pen_follows y dx dy k small flat within fits =
    let near = pen_after-IsNear y dx dy k small flat within fits in
    (near.m, near.height, near.not_above, near.not_below, pen_at_end y dx dy small flat fits)

pub pen_height :
    (y dx dy k : ℕ)
    → dx < 2 ^ 29
    → dy ≤ dx
    → k ≤ dx
    → y + dy + 1 < 2 ^ 32
    → (pen_after dx dy k (first_pen y dx dy)).y ≤ y + dy
unfolding pen_after
pen_height y dx dy zero small flat within fits = omega arith
pen_height y dx dy (suc k) small flat within fits =
    let near = pen_after-IsNear y dx dy (suc k) small flat within fits in
    omega (arith, near.height, rise_le dx dy (suc k) near.m (omega arith) within near.not_above)
