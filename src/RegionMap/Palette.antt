-- ===== src/RegionMap/Palette.antt =====
-- The merging of a section's palette into the map's.
use doom_mc.Prelude.{
  ℕ, zero, suc, ◌≡◌, ◌≢◌, refl, sym, ap, ◌∙◌, List, [], ◌∷◌, ◌++◌, none, some, get_elem?, length,
  map, append-nil, append_assoc, ℕ_discrete, ==_ne, ==_refl, ◌⊎◌, inl, inr,
}
use doom_mc.RegionMap.{index_of, Merged, add_entry, merge_palette}

get_elem?-append :
    (xs ys : List ℕ) (n v : ℕ) → get_elem? xs n ≡ some v → get_elem? (xs ++ ys) n ≡ some v
get_elem?-append [] ys n v e = cc
get_elem?-append (x ∷ xs) ys zero v e = e
get_elem?-append (x ∷ xs) ys (suc n) v e = get_elem?-append xs ys n v e

get_elem?-last : (xs : List ℕ) (v : ℕ) → get_elem? (xs ++ v ∷ []) (length xs) ≡ some v
get_elem?-last [] v = refl
get_elem?-last (x ∷ xs) v = get_elem?-last xs v

head_is : {p v : ℕ} → some p ≡ some v → p ≡ v
head_is e = cc

no_entry : {v : ℕ} → ¬ (none ≡ some v)
no_entry e = cc

nowhere_else :
    (p : ℕ) (palette : List ℕ) (v : ℕ)
    → p ≢ v
    → ((n : ℕ) → get_elem? palette n ≢ some v)
    → (n : ℕ) → get_elem? (p ∷ palette) n ≢ some v
nowhere_else p palette v other nowhere zero e = other (head_is e)
nowhere_else p palette v other nowhere (suc n) e = nowhere n e

last_or_before :
    (palette : List ℕ) (v w n : ℕ)
    → get_elem? (palette ++ v ∷ []) n ≡ some w
    → ((n ≡ length palette) × (w ≡ v)) ⊎ (get_elem? palette n ≡ some w)
last_or_before [] v w zero e = inl (refl, sym (head_is e))
last_or_before [] v w (suc n) e = absurd (no_entry e)
last_or_before (p ∷ palette) v w zero e = inr e
last_or_before (p ∷ palette) v w (suc n) e = elim (last_or_before palette v w n e) [
  | inl (last, same) ↦ inl (ap suc last, same)
  | inr there ↦ inr there
]

-- The search finds a place of `v`, or `v` is nowhere.
index_of-cases :
    (palette : List ℕ) (v : ℕ)
    → ((n : ℕ) × (index_of palette v ≡ some n) × (get_elem? palette n ≡ some v))
      ⊎ ((index_of palette v ≡ none) × ((n : ℕ) → get_elem? palette n ≢ some v))
unfolding index_of
index_of-cases [] v = inr (refl, λ n e. absurd (no_entry e))
index_of-cases (p ∷ palette) v = elim (ℕ_discrete p v) [
  | yes same ↦ inl (0, rw (same, ==_refl v) refl, ap some same)
  | no other ↦ elim (index_of-cases palette v) [
    | inl (n, found, at_n) ↦ inl (suc n, rw (==_ne p v other, found) refl, at_n)
    | inr (missing, nowhere) ↦
        inr (rw (==_ne p v other, missing) refl, nowhere_else p palette v other nowhere)
  ]
]

merge_found :
    (palette : List ℕ) (v n : ℕ) (vs : List ℕ)
    → index_of palette v ≡ some n
    → merge_palette palette (v ∷ vs) ≡ add_entry n (merge_palette palette vs)
unfolding merge_palette
merge_found palette v n vs e = rw (merge_palette, e) refl

merge_missing :
    (palette : List ℕ) (v : ℕ) (vs : List ℕ)
    → index_of palette v ≡ none
    → merge_palette palette (v ∷ vs)
      ≡ add_entry (length palette) (merge_palette (palette ++ v ∷ []) vs)
unfolding merge_palette
merge_missing palette v vs e = rw (merge_palette, e) refl

-- No block twice.
abbrev pub IsDistinct : List ℕ → Type 0
IsDistinct palette =
    (i j v : ℕ) → get_elem? palette i ≡ some v → get_elem? palette j ≡ some v → i ≡ j

-- What holds of a merge into `palette`.
pub record IsMerge (palette vs : List ℕ) (m : Merged) : Type 0 where
  pub kept : (n v : ℕ) → get_elem? palette n ≡ some v → get_elem? m.palette n ≡ some v
  pub shown :
      (j v : ℕ)
      → get_elem? vs j ≡ some v
      → (n : ℕ) × (get_elem? m.entries j ≡ some n) × (get_elem? m.palette n ≡ some v)
  pub distinct : IsDistinct palette → IsDistinct m.palette

append-IsDistinct :
    (palette : List ℕ) (v : ℕ)
    → ((n : ℕ) → get_elem? palette n ≢ some v)
    → IsDistinct palette
    → IsDistinct (palette ++ v ∷ [])
append-IsDistinct palette v nowhere d i j w at_i at_j = elim (last_or_before palette v w i at_i) [
  | inl (i_last, w_v) ↦ elim (last_or_before palette v w j at_j) [
    | inl (j_last, _) ↦ i_last ∙ sym j_last
    | inr there ↦ absurd (nowhere j (there ∙ ap some w_v))
  ]
  | inr here ↦ elim (last_or_before palette v w j at_j) [
    | inl (_, w_v) ↦ absurd (nowhere i (here ∙ ap some w_v))
    | inr there ↦ d i j w here there
  ]
]

add_entry-IsMerge :
    (palette : List ℕ) (v n : ℕ) (vs : List ℕ) (m : Merged)
    → get_elem? palette n ≡ some v
    → IsMerge palette vs m
    → IsMerge palette (v ∷ vs) (add_entry n m)
add_entry-IsMerge palette v n vs m at_n h = record {
  kept = h.kept;
  shown = λ j w e.
      elim j
          as (λ j.
            get_elem? (v ∷ vs) j ≡ some w
            → (k : ℕ) × (get_elem? (n ∷ m.entries) j ≡ some k) × (get_elem? m.palette k ≡ some w)) [
              | zero ↦ λ e. (n, refl, h.kept n w (at_n ∙ e))
              | suc j ↦ λ e. h.shown j w e
            ]
        e;
  distinct = h.distinct;
}

append-IsMerge :
    (palette : List ℕ) (v : ℕ) (vs : List ℕ) (m : Merged)
    → ((n : ℕ) → get_elem? palette n ≢ some v)
    → IsMerge (palette ++ v ∷ []) vs m
    → IsMerge palette (v ∷ vs) (add_entry (length palette) m)
append-IsMerge palette v vs m nowhere h =
    let found =
      add_entry-IsMerge (palette ++ v ∷ []) v (length palette) vs m (get_elem?-last palette v) h in
    record {
      kept = λ n w e. h.kept n w (get_elem?-append palette (v ∷ []) n w e);
      shown = found.shown;
      distinct = λ d. h.distinct (append-IsDistinct palette v nowhere d);
    }

-- The merge of a section's palette keeps every entry of the map's palette where it is, gives each
-- entry of the section an index at which the map's palette then has that entry's block, and adds no
-- block that the palette already has.
merge_palette-IsMerge : (palette vs : List ℕ) → IsMerge palette vs (merge_palette palette vs)
unfolding merge_palette
merge_palette-IsMerge palette [] = record {
  kept = λ n v e. e;
  shown = λ j v e. absurd (no_entry e);
  distinct = λ d. d;
}
merge_palette-IsMerge palette (v ∷ vs) = elim (index_of-cases palette v) [
  | inl (n, found, at_n) ↦ rw (merge_found palette v n vs found) (
      add_entry-IsMerge palette v n vs (merge_palette palette vs) at_n
        (merge_palette-IsMerge palette vs))
  | inr (missing, nowhere) ↦ rw (merge_missing palette v vs missing) (
      append-IsMerge palette v vs (merge_palette (palette ++ v ∷ []) vs) nowhere
        (merge_palette-IsMerge (palette ++ v ∷ []) vs))
]

grown :
    (palette vs : List ℕ)
    → (added : List ℕ) × ((merge_palette palette vs).palette ≡ palette ++ added)
unfolding merge_palette
grown palette [] = ([], sym (append-nil palette))
grown palette (v ∷ vs) = elim (index_of-cases palette v) [
  | inl (n, found, at_n) ↦
      let (added, e) = grown palette vs in (added, rw (merge_found palette v n vs found) e)
  | inr (missing, nowhere) ↦
      let (added, e) = grown (palette ++ v ∷ []) vs in
      (v ∷ added, rw (merge_missing palette v vs missing) (e ∙ append_assoc palette (v ∷ []) added))
]

looked_up :
    (palette vs : List ℕ)
    → map (get_elem? (merge_palette palette vs).palette) (merge_palette palette vs).entries
      ≡ map some vs
unfolding merge_palette
looked_up palette [] = refl
looked_up palette (v ∷ vs) = elim (index_of-cases palette v) [
  | inl (n, found, at_n) ↦
      let kept = (merge_palette-IsMerge palette vs).kept n v at_n in
      rw (merge_found palette v n vs found, kept) (ap (λ t. some v ∷ t) (looked_up palette vs))
  | inr (missing, nowhere) ↦
      let kept =
        (merge_palette-IsMerge (palette ++ v ∷ []) vs).kept (length palette) v
          (get_elem?-last palette v) in
      rw (merge_missing palette v vs missing, kept)
        (ap (λ t. some v ∷ t) (looked_up (palette ++ v ∷ []) vs))
]

-- The merge of any section's palette into a palette without repetitions, the empty one included: the
-- map's palette keeps its entries and only grows behind them, the section's entries become the indices
-- at which the map's palette then has their blocks, one for one, and the palette is still without
-- repetitions.
pub merge_palette-index :
    (palette vs : List ℕ)
    → IsDistinct palette
    → (added : List ℕ) × ((merge_palette palette vs).palette ≡ palette ++ added)
      × (map (get_elem? (merge_palette palette vs).palette) (merge_palette palette vs).entries
          ≡ map some vs)
      × IsDistinct (merge_palette palette vs).palette
merge_palette-index palette vs d =
    let (added, e) = grown palette vs in
    (added, e, looked_up palette vs, (merge_palette-IsMerge palette vs).distinct d)
