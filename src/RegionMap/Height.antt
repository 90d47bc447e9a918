-- ===== src/RegionMap/Height.antt =====
-- Sections that are placed above the top of the block array.
use doom_mc.Prelude.{
  ℕ, zero, suc, ◌+◌, ◌*◌, ◌≤◌, ◌≡◌, ◌≢◌, refl, ap, arith, List, ◌∷◌, Option, none, some, get_elem?,
  get_elem?_past, length, length-replicate, replicate, ==_ne,
}
use doom_mc.Result.{Result, ok, fault, ◌>>=◌, or_fault, for_range, for_range_fault}
use doom_mc.RegionMap.{
  Blocks, Region, merge_palette, put, place_block, place_section, add_section, empty_region,
}

-- No plane is higher than the array that the constructor allocates.
abbrev pub IsLow : Blocks → Type 0
IsLow blocks =
    (x : ℕ) (plane : List (List ℕ)) → get_elem? blocks x ≡ some plane → length plane ≤ 20 * 16

put_plane :
    (plane? : Option (List (List ℕ))) (x y z v : ℕ) (blocks : Blocks)
    → IsLow blocks
    → get_elem? blocks x ≡ plane?
    → 20 * 16 ≤ y
    → put x y z v blocks ≡ fault
unfolding put
put_plane none x y z v blocks low e high = rw (put, e) refl
put_plane (some plane) x y z v blocks low e high =
    rw (put, e, get_elem?_past plane y (omega (arith, low x plane e))) refl

place_entry :
    (entry : Option ℕ) (x y z : ℕ) (blocks : Blocks)
    → IsLow blocks
    → 20 * 16 ≤ y
    → (or_fault entry >>= λ v. put x y z v blocks) ≡ fault
place_entry none x y z blocks low high = refl
place_entry (some v) x y z blocks low high =
    put_plane (get_elem? blocks x) x y z v blocks low refl high

place_first :
    (chunk_x chunk_z section_index b : ℕ) (entries more : List ℕ) (blocks : Blocks)
    → IsLow blocks
    → b ≢ 0
    → 20 ≤ section_index
    → place_block chunk_x chunk_z section_index entries (b ∷ more) 0 0 0 blocks ≡ fault
unfolding place_block
place_first chunk_x chunk_z section_index b entries more blocks low block high =
    rw (==_ne b 0 block) (
      place_entry (get_elem? entries b) (0 + chunk_x * 16) (0 + section_index * 16)
        (0 + chunk_z * 16) blocks low (omega arith))

section_fault :
    (chunk_x chunk_z section_index : ℕ) (entries states : List ℕ) (blocks : Blocks)
    → place_block chunk_x chunk_z section_index entries states 0 0 0 blocks ≡ fault
    → place_section chunk_x chunk_z section_index entries states blocks ≡ fault
unfolding place_section
section_fault chunk_x chunk_z section_index entries states blocks e =
    let place = place_block chunk_x chunk_z section_index entries states in
    for_range_fault 16 0
      (λ y b. for_range 16 0 (λ x b'. for_range 16 0 (λ z b''. place y x z b'') b') b) blocks
      (omega arith)
      (for_range_fault 16 0 (λ x b'. for_range 16 0 (λ z b''. place 0 x z b'') b') blocks
        (omega arith) (for_range_fault 16 0 (λ z b''. place 0 0 z b'') blocks (omega arith) e))

-- The section that counts as the twentieth or a later one is placed by that number, from block 320 on,
-- and not by the place that the offset gives it: when its first block is not the first of its palette,
-- the constructor writes above the top of the array.
pub add_section_above :
    (chunk_x chunk_z section_index b : ℕ) (palette more : List ℕ) (r : Region)
    → IsLow r.blocks
    → b ≢ 0
    → 20 ≤ section_index
    → add_section chunk_x chunk_z section_index
        (record { palette = palette; states = some (b ∷ more) })
        r
      ≡ fault
unfolding add_section
add_section_above chunk_x chunk_z section_index b palette more r low block high =
    let m = merge_palette r.palette palette in
    let first =
      place_first chunk_x chunk_z section_index b m.entries more r.blocks low block high in
    ap (λ (t : Result Blocks). t >>= λ b'. ok (record { palette = m.palette; blocks = b' }))
      (section_fault chunk_x chunk_z section_index m.entries (b ∷ more) r.blocks first)

no_plane : {plane : List (List ℕ)} → ¬ (none ≡ some plane)
no_plane e = cc

same_plane : {plane plane' : List (List ℕ)} → some plane ≡ some plane' → plane ≡ plane'
same_plane e = cc

replicate_only :
    (n x : ℕ) (a plane : List (List ℕ)) → get_elem? (replicate n a) x ≡ some plane → a ≡ plane
replicate_only zero x a plane e = absurd (no_plane e)
replicate_only (suc n) zero a plane e = same_plane e
replicate_only (suc n) (suc x) a plane e = replicate_only n x a plane e

-- The array is as high as that at the start.
pub empty_region-IsLow : IsLow empty_region.blocks
unfolding empty_region
empty_region-IsLow x plane e =
    let row : List ℕ = replicate 256 0 in
    let same = replicate_only 256 x (replicate 320 row) plane e in
    rw (← same) (rw (length-replicate 320 row) (omega arith))
