-- ===== src/Weapons.antt =====
-- src/weapons.cpp and src/doom.hpp: ammunition, weapons, and the item description of a weapon.
use doom_mc.Prelude.{
  ℕ, ◌+◌, ◌%◌, ◌^◌, ◌≤◌, ◌≡◌, ◌↔◌, refl, List, [], ◌∷◌, ◌++◌, length, arith, length-append, Bool,
  true, false,
}
use doom_mc.Wire.Endian.{write_big_endian_short, write_big_endian_int}
use doom_mc.Wire.Paletted.{write_nbt_string}

pub record Ammo : Type 0 where
  pub ammo_id : ℕ
  pub max_ammo : ℕ
  pub damage : ℕ
  pub range : ℕ

pub record Weapon : Type 0 where
  pub name : List ℕ
  pub rate_of_fire : ℕ
  pub ammunition : Ammo
  pub item_id : ℕ

-- The tags of the nbt library.
pub record Tags : Type 0 where
  pub tag_invalid : ℕ
  pub tag_int : ℕ
  pub tag_string : ℕ
  pub tag_list : ℕ
  pub tag_compound : ℕ

-- "Damage"
abbrev damage_text : List ℕ
damage_text = 68 ∷ 97 ∷ 109 ∷ 97 ∷ 103 ∷ 101 ∷ []

-- "display"
abbrev display_text : List ℕ
display_text = 100 ∷ 105 ∷ 115 ∷ 112 ∷ 108 ∷ 97 ∷ 121 ∷ []

-- "Name"
abbrev name_text : List ℕ
name_text = 78 ∷ 97 ∷ 109 ∷ 101 ∷ []

-- "Lore"
abbrev lore_text : List ℕ
lore_text = 76 ∷ 111 ∷ 114 ∷ 101 ∷ []

-- "Max ammunition:"
abbrev max_text : List ℕ
max_text = 77 ∷ 97 ∷ 120 ∷ 32 ∷ 97 ∷ 109 ∷ 109 ∷ 117 ∷ 110 ∷ 105 ∷ 116 ∷ 105 ∷ 111 ∷ 110 ∷ 58 ∷ []

-- "Rate of fire:"
abbrev rate_text : List ℕ
rate_text = 82 ∷ 97 ∷ 116 ∷ 101 ∷ 32 ∷ 111 ∷ 102 ∷ 32 ∷ 102 ∷ 105 ∷ 114 ∷ 101 ∷ 58 ∷ []

-- "Damage:"
abbrev damage_line : List ℕ
damage_line = 68 ∷ 97 ∷ 109 ∷ 97 ∷ 103 ∷ 101 ∷ 58 ∷ []

-- `weapon::getNBT`, whose buffer has 100 bytes.
unfoldable pub get_nbt : Tags → Weapon → List ℕ
unfolding write_nbt_string
get_nbt t weapon =
    t.tag_compound
    ∷ (write_big_endian_short 0
        ++ (t.tag_int
            ∷ (write_nbt_string damage_text
                ++ (write_big_endian_int 255
                    ++ (t.tag_compound
                        ∷ (write_nbt_string display_text
                            ++ (t.tag_string
                                ∷ (write_nbt_string name_text
                                    ++ (write_nbt_string weapon.name
                                        ++ (t.tag_list
                                            ∷ (write_nbt_string lore_text
                                                ++ (t.tag_string
                                                    ∷ (write_big_endian_int 3
                                                        ++ (write_nbt_string max_text
                                                            ++ (write_nbt_string rate_text
                                                            ++ (write_nbt_string damage_line
                                                            ++ t.tag_invalid ∷ t.tag_invalid
                                                            ∷ []))))))))))))))))

abbrev pub no_ammo : Ammo
no_ammo = record { ammo_id = 0; max_ammo = 0; damage = 20; range = 1 }

abbrev pub pistol_ammo : Ammo
pistol_ammo = record { ammo_id = 1; max_ammo = 200; damage = 10; range = 100 }

abbrev pub shotgun_ammo : Ammo
shotgun_ammo = record { ammo_id = 2; max_ammo = 50; damage = 20; range = 100 }

abbrev pub chaingun_ammo : Ammo
chaingun_ammo = record { ammo_id = 3; max_ammo = 200; damage = 5; range = 100 }

abbrev pub rocket_ammo : Ammo
rocket_ammo = record { ammo_id = 4; max_ammo = 50; damage = 50; range = 100 }

abbrev pub plasma_ammo : Ammo
plasma_ammo = record { ammo_id = 5; max_ammo = 250; damage = 20; range = 100 }

-- "Fist"
abbrev pub fist : Weapon
fist = record {
  name = 70 ∷ 105 ∷ 115 ∷ 116 ∷ [];
  rate_of_fire = 10;
  ammunition = no_ammo;
  item_id = 0;
}

-- "Pistol"
abbrev pub pistol : Weapon
pistol = record {
  name = 80 ∷ 105 ∷ 115 ∷ 116 ∷ 111 ∷ 108 ∷ [];
  rate_of_fire = 10;
  ammunition = pistol_ammo;
  item_id = 1;
}

-- "Shotgun"
abbrev pub shotgun : Weapon
shotgun = record {
  name = 83 ∷ 104 ∷ 111 ∷ 116 ∷ 103 ∷ 117 ∷ 110 ∷ [];
  rate_of_fire = 20;
  ammunition = shotgun_ammo;
  item_id = 1;
}

-- "Super Shotgun"
abbrev pub super_shotgun : Weapon
super_shotgun = record {
  name = 83 ∷ 117 ∷ 112 ∷ 101 ∷ 114 ∷ 32 ∷ 83 ∷ 104 ∷ 111 ∷ 116 ∷ 103 ∷ 117 ∷ 110 ∷ [];
  rate_of_fire = 30;
  ammunition = shotgun_ammo;
  item_id = 1;
}

-- "Chaingun"
abbrev pub chaingun : Weapon
chaingun = record {
  name = 67 ∷ 104 ∷ 97 ∷ 105 ∷ 110 ∷ 103 ∷ 117 ∷ 110 ∷ [];
  rate_of_fire = 5;
  ammunition = chaingun_ammo;
  item_id = 1;
}

-- "Rocket Launcher"
abbrev pub rocket_launcher : Weapon
rocket_launcher = record {
  name = 82 ∷ 111 ∷ 99 ∷ 107 ∷ 101 ∷ 116 ∷ 32 ∷ 76 ∷ 97 ∷ 117 ∷ 110 ∷ 99 ∷ 104 ∷ 101 ∷ 114 ∷ [];
  rate_of_fire = 30;
  ammunition = rocket_ammo;
  item_id = 1;
}

-- "Plasma Rifle"
abbrev pub plasma_rifle : Weapon
plasma_rifle = record {
  name = 80 ∷ 108 ∷ 97 ∷ 115 ∷ 109 ∷ 97 ∷ 32 ∷ 82 ∷ 105 ∷ 102 ∷ 108 ∷ 101 ∷ [];
  rate_of_fire = 10;
  ammunition = plasma_ammo;
  item_id = 1;
}

-- "BFG 9000"
abbrev pub bfg : Weapon
bfg = record {
  name = 66 ∷ 70 ∷ 71 ∷ 32 ∷ 57 ∷ 48 ∷ 48 ∷ 48 ∷ [];
  rate_of_fire = 50;
  ammunition = plasma_ammo;
  item_id = 1;
}

-- "Chainsaw"
abbrev pub chainsaw : Weapon
chainsaw = record {
  name = 67 ∷ 104 ∷ 97 ∷ 105 ∷ 110 ∷ 115 ∷ 97 ∷ 119 ∷ [];
  rate_of_fire = 5;
  ammunition = no_ammo;
  item_id = 1;
}

abbrev pub doom_weapons : List Weapon
doom_weapons =
    fist ∷ pistol ∷ shotgun ∷ super_shotgun ∷ chaingun ∷ rocket_launcher ∷ plasma_rifle ∷ bfg
    ∷ chainsaw ∷ []

abbrev pub init_weapons : List Bool
init_weapons = true ∷ true ∷ false ∷ false ∷ false ∷ false ∷ false ∷ false ∷ false ∷ []

abbrev pub init_ammo : List ℕ
init_ammo = 0 ∷ 50 ∷ 10 ∷ 0 ∷ 0 ∷ 0 ∷ 0 ∷ 0 ∷ 0 ∷ []

length-nbt_string : (s : List ℕ) → length (write_nbt_string s) ≡ 2 + length s
unfolding write_nbt_string write_big_endian_short
length-nbt_string s = omega (arith, length-append (write_big_endian_short (length s % 2 ^ 16)) s)

length-join : (xs ys : List ℕ) → length (xs ++ ys) ≡ length xs + length ys
length-join xs ys = length-append xs ys

length-short : (v : ℕ) → length (write_big_endian_short v) ≡ 2
unfolding write_big_endian_short
length-short v = refl

length-int : (v : ℕ) → length (write_big_endian_int v) ≡ 4
unfolding write_big_endian_int
length-int v = refl

ruleset sizes = (arith, length-join, length-nbt_string, length-short, length-int)

length-get_nbt : (t : Tags) (w : Weapon) → length (get_nbt t w) ≡ 90 + length w.name
unfolding get_nbt
length-get_nbt t w = grind sizes

-- The item description of a weapon fits its buffer of 100 bytes exactly where the name has 10 bytes at
-- most.
get_nbt_fits : (t : Tags) (w : Weapon) → (length (get_nbt t w) ≤ 100) ↔ (length w.name ≤ 10)
get_nbt_fits t w =
    (λ h. omega (arith, length-get_nbt t w, h), λ h. omega (arith, length-get_nbt t w, h))
