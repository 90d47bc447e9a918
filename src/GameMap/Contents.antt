-- ===== src/GameMap/Contents.antt =====
-- The entries of the section that `getSection` builds.
use doom_mc.Prelude.{
  ℕ, zero, suc, ◌+◌, ◌*◌, ◌/◌, ◌<◌, ◌≤◌, ◌≡◌, refl, some, List, get_elem?, length, set, replicate,
  ltb, if◌then◌else◌, arith, inl, inr, ℕ_discrete, length-set, get_elem?-set_self, get_elem?-set_ne,
  length-replicate, Bool-cases, true, false, ◌∙◌,
}
use mathlib.Core.Path.{subst}
use doom_mc.Result.{Result, ok, for_range_inv}
use doom_mc.GameMap.{
  GameMap, block_at, states_formula, is_positive, copy_block, copy_row, copy_plane, copy_section,
  get_section, states_size,
}
use doom_mc.GameMap.Section.{IsWellFormed}

-- How many blocks the loops visit before this one.
abbrev rank : ℕ → ℕ → ℕ → ℕ
rank x y z = x * 256 + y * 16 + z

pub get_elem?-replicate : (n i a : ℕ) → i < n → get_elem? (replicate n a) i ≡ some a
get_elem?-replicate zero i a h = elim h [ ]
get_elem?-replicate (suc n) zero a h = refl
get_elem?-replicate (suc n) (suc i) a h = get_elem?-replicate n i a (omega arith)

same_rank :
    (x y z x' y' z' : ℕ)
    → x < 16
    → y < 16
    → z < 16
    → x' < 16
    → y' < 16
    → z' < 16
    → (rank x' y' z' ≡ rank x y z → (x' ≡ x) × (y' ≡ y) × (z' ≡ z))
      × (states_formula x y z ≡ states_formula x' y' z' → rank x' y' z' ≡ rank x y z)
same_rank x y z x' y' z' hx hy hz hx' hy' hz' = (λ e. omega arith, λ e. omega arith)

module _ (m : GameMap) (chunk_x chunk_z number : ℕ) (b : ℕ → ℕ → ℕ → ℕ)
    (reads : (x y z : ℕ)
      → x < 16
      → y < 16
      → z < 16
      → block_at m (chunk_x * 16 + x) (number * 16 + y) (chunk_z * 16 + z) ≡ ok (b x y z)) where
  -- A block as the section shows it: what is not positive becomes 0.
  abbrev shown : ℕ → ℕ → ℕ → ℕ
  shown x y z = if is_positive (b x y z) then b x y z else 0

  -- After `k` blocks those are in place and the others are still 0.
  record Holds (k : ℕ) (st : List ℕ) : Type 0 where
    sized : length st ≡ states_size
    placed :
        (x y z : ℕ)
        → x < 16
        → y < 16
        → z < 16
        → get_elem? st (states_formula x y z) ≡ some (if ltb (rank x y z) k then shown x y z else 0)

  -- One entry after the block at `x y z` is written, or passed over.
  module _ (x y z x' y' z' : ℕ) (st : List ℕ) (hx : x < 16) (hy : y < 16) (hz : z < 16)
      (hx' : x' < 16) (hy' : y' < 16) (hz' : z' < 16) (h : Holds (rank x y z) st) where
    placed_set :
        is_positive (b x y z) ≡ true
        → get_elem? (set st (states_formula x y z) (b x y z)) (states_formula x' y' z')
          ≡ some (if ltb (rank x' y' z') (rank x y (z + 1)) then shown x' y' z' else 0)
    placed_set positive = elim (ℕ_discrete (rank x' y' z') (rank x y z)) [
      | yes e ↦
          let (ex, ey, ez) = (same_rank x y z x' y' z' hx hy hz hx' hy' hz').0 e in
          rw (ex, ey, ez)
            (get_elem?-set_self st (states_formula x y z) (b x y z) (omega (arith, h.sized))
              ∙ ground arith)
      | no ne ↦
          get_elem?-set_ne st (b x y z)
            (λ e. ne ((same_rank x y z x' y' z' hx hy hz hx' hy' hz').1 e))
          ∙ h.placed x' y' z' hx' hy' hz'
          ∙ ground arith
    ]

    placed_kept :
        is_positive (b x y z) ≡ false
        → get_elem? st (states_formula x' y' z')
          ≡ some (if ltb (rank x' y' z') (rank x y (z + 1)) then shown x' y' z' else 0)
    placed_kept other = elim (ℕ_discrete (rank x' y' z') (rank x y z)) [
      | yes e ↦
          let (ex, ey, ez) = (same_rank x y z x' y' z' hx hy hz hx' hy' hz').0 e in
          rw (ex, ey, ez) (h.placed x y z hx hy hz ∙ ground arith)
      | no ne ↦ h.placed x' y' z' hx' hy' hz' ∙ ground arith
    ]

  copy_block-Holds :
      (x y z : ℕ) (st : List ℕ)
      → x < 16
      → y < 16
      → z < 16
      → Holds (rank x y z) st
      → (st' : List ℕ) × (copy_block m chunk_x chunk_z number x y z st ≡ ok st')
        × Holds (rank x y (z + 1)) st'
  unfolding copy_block
  copy_block-Holds x y z st hx hy hz h = elim (Bool-cases (is_positive (b x y z))) [
    | inl positive ↦ (
      set st (states_formula x y z) (b x y z),
      rw (reads x y z hx hy hz, positive) (ground arith),
      record {
        sized = length-set st (states_formula x y z) (b x y z) ∙ h.sized;
        placed =
            λ x' y' z' hx' hy' hz'. placed_set x y z x' y' z' st hx hy hz hx' hy' hz' h positive;
      },
    )
    | inr other ↦ (
      st,
      rw (reads x y z hx hy hz, other),
      record {
        sized = h.sized;
        placed = λ x' y' z' hx' hy' hz'. placed_kept x y z x' y' z' st hx hy hz hx' hy' hz' h other;
      },
    )
  ]

  copy_row-Holds :
      (x y : ℕ) (st : List ℕ)
      → x < 16
      → y < 16
      → Holds (rank x y 0) st
      → (st' : List ℕ) × (copy_row m chunk_x chunk_z number x y st ≡ ok st')
        × Holds (rank x (y + 1) 0) st'
  unfolding copy_row
  copy_row-Holds x y st hx hy h =
      let (st', run, h') =
        for_range_inv (λ z s. Holds (rank x y z) s) (copy_block m chunk_x chunk_z number x y) 16
          (λ z s hz hs. copy_block-Holds x y z s hx hy hz hs) 16 0 st (omega arith) h in
      (st', run, subst (λ k. Holds k st') (omega arith) h')

  copy_plane-Holds :
      (x : ℕ) (st : List ℕ)
      → x < 16
      → Holds (rank x 0 0) st
      → (st' : List ℕ) × (copy_plane m chunk_x chunk_z number x st ≡ ok st')
        × Holds (rank (x + 1) 0 0) st'
  unfolding copy_plane
  copy_plane-Holds x st hx h =
      let (st', run, h') =
        for_range_inv (λ y s. Holds (rank x y 0) s) (copy_row m chunk_x chunk_z number x) 16
          (λ y s hy hs. copy_row-Holds x y s hx hy hs) 16 0 st (omega arith) h in
      (st', run, subst (λ k. Holds k st') (omega arith) h')

  start-Holds : Holds 0 (replicate states_size 0)
  start-Holds = record {
    sized = length-replicate {A = ℕ} states_size 0;
    placed = λ x y z hx hy hz.
        get_elem?-replicate states_size (states_formula x y z) 0 (omega arith) ∙ ground arith;
  }

  copy_section_contents :
      (st : List ℕ) × (copy_section m chunk_x chunk_z number (replicate states_size 0) ≡ ok st)
      × (length st ≡ states_size)
      × ((x y z : ℕ)
          → x < 16
          → y < 16
          → z < 16
          → get_elem? st (states_formula x y z) ≡ some (shown x y z))
  unfolding copy_section
  copy_section_contents =
      let (st, run, h) =
        for_range_inv (λ x s. Holds (rank x 0 0) s) (copy_plane m chunk_x chunk_z number) 16
          (λ x s hx hs. copy_plane-Holds x s hx hs) 16 0 (replicate states_size 0) (omega arith)
          start-Holds in
      (st, run, h.sized, λ x y z hx hy hz. h.placed x y z hx hy hz ∙ ground arith)

value_of : Result ℕ → ℕ
value_of (ok n) = n
value_of _ = 0

ok-value_of : (r : Result ℕ) (s : ℕ) → r ≡ ok s → r ≡ ok (value_of r)
unfolding value_of
ok-value_of r s e = rw e

-- For a chunk and a section inside a well-formed map, `getSection` gives the map's palette and 4096
-- states, and for each place in the section the state at `statesFormula(x, y, z)` is the block there,
-- or 0 for a block that is not positive.
pub get_section_contents :
    (m : GameMap) (chunk_x chunk_z number x y z s : ℕ)
    → IsWellFormed m
    → chunk_x * 16 + 16 ≤ m.width
    → chunk_z * 16 + 16 ≤ m.depth
    → number < m.height / 16
    → x < 16
    → y < 16
    → z < 16
    → block_at m (chunk_x * 16 + x) (number * 16 + y) (chunk_z * 16 + z) ≡ ok s
    → (st : List ℕ) × (get_section m chunk_x chunk_z number
        ≡ ok (record { palette = m.palette; states = some st }))
      × (length st ≡ states_size)
      × (get_elem? st (states_formula x y z) ≡ some (if is_positive s then s else 0))
unfolding get_section value_of
get_section_contents m chunk_x chunk_z number x y z s v in_x in_z in_y hx hy hz e =
    let (st, run, size, all) = copy_section_contents m chunk_x chunk_z number b reads in
    (st, ground arith, size, all x y z hx hy hz ∙ rw e)
  where
    b : ℕ → ℕ → ℕ → ℕ
    b x y z = value_of (block_at m (chunk_x * 16 + x) (number * 16 + y) (chunk_z * 16 + z))

    reads :
        (x y z : ℕ)
        → x < 16
        → y < 16
        → z < 16
        → block_at m (chunk_x * 16 + x) (number * 16 + y) (chunk_z * 16 + z) ≡ ok (b x y z)
    reads x y z hx hy hz =
        let (s, e) =
          v.cells (chunk_x * 16 + x) (number * 16 + y) (chunk_z * 16 + z) (omega arith)
            (omega arith) (omega arith) in
        ok-value_of _ s e
