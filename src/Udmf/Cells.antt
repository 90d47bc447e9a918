-- ===== src/Udmf/Cells.antt =====
-- The block array under `blocks[x][y][z] = 1`.
use doom_mc.Prelude.{
  ℕ, ◌<◌, ◌≡◌, refl, sym, ◌∙◌, arith, Bool, ◌&&◌, List, Option, none, some, get_elem?,
  get_elem?-set_self, get_elem?-set_ne, get_elem?_in_range, get_elem?_past, set, length, ltb, ◌==◌,
  if◌then◌else◌, ℕ_discrete, dec_lt, lt→ltb, ==_ne, ==_refl,
}
use doom_mc.Result.{Result, ok, fault, ◌>>=◌, or_fault}
use doom_mc.Udmf.Drawing.{Blocks, fill}

-- What `blocks[x][y][z]` reads.
unfoldable pub cell : Blocks → ℕ → ℕ → ℕ → Result ℕ
cell blocks x y z = do
  plane ← or_fault (get_elem? blocks x)
  row ← or_fault (get_elem? plane y)
  or_fault (get_elem? row z)

pub bind_ok {ℓ κ} :
    {A : Type ℓ} {B : Type κ} (m : Result A) {f : A → Result B} {b : B}
    → (m >>= f) ≡ ok b
    → (a : A) × (m ≡ ok a) × (f a ≡ ok b)
bind_ok (ok a) h = (a, refl, h)
bind_ok (Result.throw e) h = cc
bind_ok fault h = cc

or_fault_ok {ℓ} : {A : Type ℓ} (m : Option A) {a : A} → or_fault m ≡ ok a → m ≡ some a
or_fault_ok none h = cc
or_fault_ok (some a) h = cc

fault_ok {ℓ} : {A : Type ℓ} {a : A} → ¬ (fault ≡ ok a)
fault_ok h = cc

if_past {ℓ} : {A : Type ℓ} (z n : ℕ) (a : A) {b : A} → ¬ (z < n) → (if ltb z n then a else b) ≡ b
if_past z n a past = ground arith

-- A place in the array: the plane and the row that hold it.
pub record IsPlace (blocks : Blocks) (x y z : ℕ) : Type 0 where
  pub plane : List (List ℕ)
  pub row : List ℕ
  pub plane_at : get_elem? blocks x ≡ some plane
  pub row_at : get_elem? plane y ≡ some row
  pub inside : z < length row

none-some {ℓ} : {A : Type ℓ} {a : A} → ¬ (none ≡ some a)
none-some h = cc

in_range {ℓ} : {A : Type ℓ} (xs : List A) (i : ℕ) {a : A} → get_elem? xs i ≡ some a → i < length xs
in_range xs i h = elim (dec_lt i (length xs)) [
  | yes inside ↦ inside
  | no past ↦ absurd (none-some (sym (get_elem?_past xs i (omega arith)) ∙ h))
]

pub cell-IsPlace :
    (blocks : Blocks) (x y z : ℕ) {v : ℕ} → cell blocks x y z ≡ ok v → IsPlace blocks x y z
unfolding cell
cell-IsPlace blocks x y z h =
    let (plane, e, h') = bind_ok (or_fault (get_elem? blocks x)) h in
    let (row, e', h'') = bind_ok (or_fault (get_elem? plane y)) h' in
    record {
      plane = plane;
      row = row;
      plane_at = or_fault_ok _ e;
      row_at = or_fault_ok _ e';
      inside = in_range row z (or_fault_ok _ h'');
    }

pub fill-IsPlace :
    (blocks : Blocks) (x y z : ℕ) {blocks' : Blocks}
    → fill x y z blocks ≡ ok blocks'
    → IsPlace blocks x y z
unfolding fill
fill-IsPlace blocks x y z h =
    let (plane, e, h') = bind_ok (or_fault (get_elem? blocks x)) h in
    let (row, e', h'') = bind_ok (or_fault (get_elem? plane y)) h' in
    record {
      plane = plane;
      row = row;
      plane_at = or_fault_ok _ e;
      row_at = or_fault_ok _ e';
      inside = elim (dec_lt z (length row)) [
        | yes inside ↦ inside
        | no past ↦ absurd (fault_ok (sym (if_past z (length row) _ past) ∙ h''))
      ];
    }

pub place_cell :
    (blocks : Blocks) (x y z : ℕ) → IsPlace blocks x y z → (v : ℕ) × (cell blocks x y z ≡ ok v)
unfolding cell
place_cell blocks x y z p =
    let (v, e) = get_elem?_in_range p.row z p.inside in (v, rw (p.plane_at, p.row_at, e) refl)

-- `filled` is what the assignment leaves.
filled : {blocks : Blocks} {x y z : ℕ} → IsPlace blocks x y z → Blocks
filled {blocks = blocks} {x = x} {y = y} {z = z} p = set blocks x (set p.plane y (set p.row z 1))

abbrev pub same_place : ℕ → ℕ → ℕ → ℕ → ℕ → ℕ → Bool
same_place x y z i j k = (i == x) && ((j == y) && (k == z))

fill-filled :
    {blocks : Blocks} {x y z : ℕ} (p : IsPlace blocks x y z) → fill x y z blocks ≡ ok (filled p)
unfolding fill filled
fill-filled {x = x} {y = y} {z = z} p =
    rw (p.plane_at, p.row_at, lt→ltb z (length p.row) p.inside) refl

get_elem?-set :
    {A : Type 0} (xs : List A) (i j : ℕ) (v : A)
    → i < length xs
    → get_elem? (set xs i v) j ≡ (if j == i then some v else get_elem? xs j)
get_elem?-set xs i j v h = elim (ℕ_discrete i j) [
  | yes same ↦ ground (arith, get_elem?-set_self xs i v h)
  | no other ↦ ground (arith, get_elem?-set_ne xs v other)
]

row_cell :
    (xs : List ℕ) (z k : ℕ)
    → z < length xs
    → or_fault (get_elem? (set xs z 1) k) ≡ (if k == z then ok 1 else or_fault (get_elem? xs k))
row_cell xs z k h = elim (ℕ_discrete z k) [
  | yes same ↦ ground (arith, get_elem?-set_self xs z 1 h)
  | no other ↦ ground (arith, get_elem?-set_ne xs 1 other)
]

cell-filled :
    {blocks : Blocks} {x y z : ℕ} (p : IsPlace blocks x y z) (i j k : ℕ)
    → cell (filled p) i j k ≡ (if same_place x y z i j k then ok 1 else cell blocks i j k)
unfolding cell filled
cell-filled {blocks = blocks} {x = x} {y = y} {z = z} p i j k =
    let row' = set p.row z 1 in
    let plane' = set p.plane y row' in
    elim (ℕ_discrete i x) [
      | no other ↦
          rw (get_elem?-set_ne blocks {i = x} {j = i} plane' (λ e. other (sym e)), ==_ne i x other)
            refl
      | yes same ↦
          rw
            (
              same,
              get_elem?-set_self blocks x plane' (in_range _ x p.plane_at),
              p.plane_at,
              ==_refl x,
            )
            (elim (ℕ_discrete j y) [
              | no other ↦
                  rw
                    (
                      get_elem?-set_ne p.plane {i = y} {j = j} row' (λ e. other (sym e)),
                      ==_ne j y other,
                    )
                    refl
              | yes same' ↦
                  rw
                    (
                      same',
                      get_elem?-set_self p.plane y row' (in_range _ y p.row_at),
                      p.row_at,
                      ==_refl y,
                    )
                    (row_cell p.row z k p.inside)
            ])
    ]

-- An assignment to a place of the array succeeds and changes that place only.
pub fill-cell :
    (blocks : Blocks) (x y z : ℕ) {v : ℕ}
    → cell blocks x y z ≡ ok v
    → (blocks' : Blocks) × (fill x y z blocks ≡ ok blocks')
      × ((i j k : ℕ)
          → cell blocks' i j k ≡ (if same_place x y z i j k then ok 1 else cell blocks i j k))
fill-cell blocks x y z h =
    let p = cell-IsPlace blocks x y z h in (filled p, fill-filled p, cell-filled p)
