-- ===== src/Tests/RegionRuns.antt =====
-- src/map/mcr.cpp on small palettes and sections.
use doom_mc.Prelude.{
  ℕ, zero, suc, ◌≡◌, ◌≢◌, ◌+◌, ◌*◌, arith, List, [], ◌∷◌, some, get_elem?, map, ◌++◌,
}
use doom_mc.Result.{fault}
use doom_mc.RegionMap.{merge_palette, add_section, empty_region}
use doom_mc.RegionMap.Palette.{IsDistinct, merge_palette-index}
use doom_mc.RegionMap.Height.{empty_region-IsLow, add_section_above}

abbrev ores : List ℕ
ores = 7 ∷ 9 ∷ []

ore_is : (i v : ℕ) → get_elem? ores i ≡ some v → v ≡ 7 + i * 2
ore_is zero v e = cc
ore_is (suc zero) v e = cc
ore_is (suc (suc i)) v e = cc

ores-IsDistinct : IsDistinct ores
ores-IsDistinct i j v e f = omega (arith, ore_is i v e, ore_is j v f)

merge_palette-index_example :
    (added : List ℕ) × ((merge_palette ores (9 ∷ 4 ∷ [])).palette ≡ ores ++ added)
    × (map
          (get_elem? (merge_palette ores (9 ∷ 4 ∷ [])).palette)
          (merge_palette ores (9 ∷ 4 ∷ [])).entries
        ≡ some 9 ∷ some 4 ∷ [])
    × IsDistinct (merge_palette ores (9 ∷ 4 ∷ [])).palette
merge_palette-index_example = merge_palette-index ores (9 ∷ 4 ∷ []) ores-IsDistinct

abbrev stone : ℕ
stone = 1

stone-ne-zero : stone ≢ 0
stone-ne-zero e = absurd (omega (arith, e))

add_section_above_example :
    add_section 0 0 20 (record { palette = 0 ∷ 5 ∷ []; states = some (stone ∷ []) }) empty_region
    ≡ fault
add_section_above_example =
    add_section_above 0 0 20 stone (0 ∷ 5 ∷ []) [] empty_region empty_region-IsLow stone-ne-zero
      (omega arith)
