-- ===== src/Tests/PalettedRuns.antt =====
-- A paletted container of src/C/mcTypes.c, written and read.
use doom_mc.Prelude.{ℕ, List, ◌∷◌, replicate}

abbrev cells : List ℕ
cells = 0 ∷ replicate 4095 1
