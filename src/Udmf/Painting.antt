-- ===== src/Udmf/Painting.antt =====
-- Sets of blocks that are painted into the array, and a column of a wall.
use doom_mc.Prelude.{
  ℕ, suc, ◌+◌, ◌-◌, ◌^◌, ◌<◌, ◌≤◌, ◌≡◌, refl, ap, ◌∙◌, arith, Bool, true, false, ◌&&◌, ◌||◌,
  if◌then◌else◌, ltb, leb, ◌==◌,
}
use doom_mc.Result.{Result, ok, for_range_inv}
use doom_mc.Udmf.Cells.{cell, same_place, fill-cell}
use doom_mc.Udmf.Drawing.{Blocks, fill, fill_column, rounds_to}

-- The array after some blocks have been set to 1.
abbrev pub Painted : Blocks → Blocks → (ℕ → ℕ → ℕ → Bool) → Type 0
Painted before after on =
    (i j k : ℕ) → cell after i j k ≡ (if on i j k then ok 1 else cell before i j k)

pub painted_ok :
    (b : Bool) (m : Result ℕ) {v : ℕ} → m ≡ ok v → (v' : ℕ) × ((if b then ok 1 else m) ≡ ok v')
painted_ok true m h = (1, refl)
painted_ok false m {v = v} h = (v, h)

painted_twice :
    (s t u : Bool) (m : Result ℕ)
    → (t || s) ≡ u
    → (if t then ok 1 else if s then ok 1 else m) ≡ (if u then ok 1 else m)
painted_twice true true u m h = rw (← h) refl
painted_twice true false u m h = rw (← h) refl
painted_twice false true u m h = rw (← h) refl
painted_twice false false u m h = rw (← h) refl

pub rounds_to_up :
    (first last : ℕ) → first ≤ last → last < 2 ^ 31 → rounds_to first last ≡ suc (last - first)
rounds_to_up first last h small = ground arith

-- The blocks from `lo` up to `hi` of a column.
abbrev pub in_column : ℕ → ℕ → ℕ → ℕ → ℕ → ℕ → ℕ → Bool
in_column x z lo hi i j k = (i == x) && ((k == z) && (leb lo j && ltb j hi))

column_grows :
    (x z lo r i j k : ℕ)
    → lo ≤ r
    → (same_place x r z i j k || in_column x z lo r i j k) ≡ in_column x z lo (r + 1) i j k
column_grows x z lo r i j k h = ground arith

column_starts : (x z lo i j k : ℕ) → in_column x z lo lo i j k ≡ false
column_starts x z lo i j k = ground arith

-- One more painted set on top of another.
pub paint_more :
    (before now after : Blocks) (s t u : ℕ → ℕ → ℕ → Bool)
    → Painted before now s
    → Painted now after t
    → ((i j k : ℕ) → (t i j k || s i j k) ≡ u i j k)
    → Painted before after u
paint_more before now after s t u first later both i j k =
    later i j k
    ∙ ap (λ m. if t i j k then ok 1 else m) (first i j k)
    ∙ painted_twice (s i j k) (t i j k) (u i j k) (cell before i j k) (both i j k)

column_step :
    (blocks b : Blocks) (x z lo hi r : ℕ)
    → ((r' : ℕ) → lo ≤ r' → r' ≤ hi → (v : ℕ) × (cell blocks x r' z ≡ ok v))
    → r < hi + 1
    → (lo ≤ r) × Painted blocks b (in_column x z lo r)
    → (b' : Blocks) × (fill x r z b ≡ ok b')
      × ((lo ≤ r + 1) × Painted blocks b' (in_column x z lo (r + 1)))
column_step blocks b x z lo hi r room under (low, painted) =
    let (v, there) = room r low (omega arith) in
    let (v', now) = painted_ok (in_column x z lo r x r z) (cell blocks x r z) there in
    let (b', run, filled) = fill-cell b x r z (painted x r z ∙ now) in
    (
      b',
      run,
      (
        omega arith,
        paint_more blocks b b' (in_column x z lo r) (same_place x r z) (in_column x z lo (r + 1))
            painted filled (λ i j k. column_grows x z lo r i j k low),
      ),
    )

pub fill_column-Painted :
    (blocks : Blocks) (x z lo hi : ℕ)
    → lo ≤ hi
    → hi < 2 ^ 31
    → ((r : ℕ) → lo ≤ r → r ≤ hi → (v : ℕ) × (cell blocks x r z ≡ ok v))
    → (after : Blocks) × (fill_column x z lo hi blocks ≡ ok after)
      × Painted blocks after (in_column x z lo (hi + 1))
unfolding fill_column
fill_column-Painted blocks x z lo hi h small room =
    let (after, run, (_, painted)) =
      for_range_inv (λ r b. (lo ≤ r) × Painted blocks b (in_column x z lo r)) (λ r b. fill x r z b)
        (hi + 1) (λ r b under inv. column_step blocks b x z lo hi r room under inv) (suc (hi - lo))
        lo blocks (omega arith) (omega arith, λ i j k. rw (column_starts x z lo i j k) refl) in
    (after, rw (rounds_to_up lo hi h small) run, painted)
