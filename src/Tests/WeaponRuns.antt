-- ===== src/Tests/WeaponRuns.antt =====
-- The description of the weapon with the longest name.
use doom_mc.Weapons.{Tags}

abbrev tags : Tags
tags = record { tag_invalid = 0; tag_int = 3; tag_string = 8; tag_list = 9; tag_compound = 10 }
