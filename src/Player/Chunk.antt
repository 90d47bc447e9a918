-- ===== src/Player/Chunk.antt =====
-- `player::setWeapons` and `player::sendChunk` of src/player.cpp: an inventory and a chunk as packets.
use doom_mc.Prelude.{
  ℕ, zero, suc, ◌+◌, ◌-◌, ◌*◌, ◌/◌, ◌%◌, ◌^◌, true, false, Option, none, some, List, [], ◌∷◌, ◌++◌,
  length, get_or, replicate, reverse, ltb, ◌==◌, if◌then◌else◌,
}
use doom_mc.PacketIds.{set_container_content, chunk_data_and_update_light}
use doom_mc.Wire.VarInt.{write_var_int}
use doom_mc.Wire.Endian.{write_big_endian_short, write_big_endian_int}
use doom_mc.Wire.BitSet.{write_bit_set}
use doom_mc.Wire.Packed.{write_packed_array}
use doom_mc.Wire.Paletted.{Slot, write_slot, write_sections, ceil_log2}
use doom_mc.GameMap.{PalettedContainer, states_formula}
use doom_mc.Player.{Packet}
use doom_mc.Weapons.{Tags, Weapon, get_nbt}

abbrev pub empty_slot : Slot
empty_slot = record { present = false; id = 0; count = 0; nbt = none }

-- The slot of a weapon, with the count of its ammunition.
unfoldable pub weapon_slot : Tags → List ℕ → Option Weapon → Slot
weapon_slot t ammo none = empty_slot
weapon_slot t ammo (some w) = record {
  present = true;
  id = w.item_id;
  count = get_or ammo w.ammunition.ammo_id 0;
  nbt = some (get_nbt t w);
}

unfoldable pub write_slots : Tags → List Slot → List ℕ
write_slots t [] = []
write_slots t (s ∷ slots) = write_slot t.tag_invalid s ++ write_slots t slots

unfoldable pub weapon_slots : Tags → List ℕ → List (Option Weapon) → List Slot
unfolding weapon_slot
weapon_slots t ammo [] = []
weapon_slots t ammo (w ∷ ws) = weapon_slot t ammo w ∷ weapon_slots t ammo ws

-- `weapons` has nine entries; the slot in hand is the first of them.
unfoldable pub set_weapons_packet : Tags → List (Option Weapon) → List ℕ → Packet
unfolding write_slots weapon_slots
set_weapons_packet t weapons ammo =
    let held = weapon_slots t ammo weapons in
    record {
      id = set_container_content;
      payload =
          0
          ∷ (write_var_int 0
              ++ (write_var_int 45
                  ++ (write_slots t (replicate 36 empty_slot)
                      ++ (write_slots t held
                          ++ write_slot t.tag_invalid (get_or held 0 empty_slot)))));
    }

-- The highest block of a column in one section, of the `left` lowest.
unfoldable pub top_in_section : List ℕ → ℕ → ℕ → ℕ → Option ℕ
top_in_section states x z zero = none
top_in_section states x z (suc y) =
    let lower = top_in_section states x z y in
    if get_or states (states_formula x y z) 0 == 0 then lower else some y

-- The same over the sections from the last one down; the height is the one within its section.
unfoldable pub top_of_column : List PalettedContainer → ℕ → ℕ → Option ℕ
unfolding top_in_section
top_of_column [] x z = none
top_of_column (section ∷ sections) x z =
    let below = top_of_column sections x z in
    elim section.states [
      | none ↦ below
      | some states ↦ elim (top_in_section states x z 16) [ none ↦ below | some y ↦ some y ]
    ]

-- The entries from `k` on. A column without a block keeps what memory held.
unfoldable pub heights : List PalettedContainer → List ℕ → ℕ → List ℕ
unfolding top_of_column
heights sections [] k = []
heights sections (left_over ∷ memory) k =
    (elim (top_of_column sections (k / 16) (k % 16)) [ none ↦ left_over | some y ↦ y ])
    ∷ heights sections memory (k + 1)

-- "MOTION_BLOCKING"
abbrev pub motion_blocking : List ℕ
motion_blocking = 77 ∷ 79 ∷ 84 ∷ 73 ∷ 79 ∷ 78 ∷ 95 ∷ 66 ∷ 76 ∷ 79 ∷ 67 ∷ 75 ∷ 73 ∷ 78 ∷ 71 ∷ []

-- The heightmap, where `memory` is what the 256 entries of the new array hold; `tag_long_array` is a
-- number of the nbt library.
unfoldable pub heightmap_bytes : Tags → ℕ → List ℕ → List PalettedContainer → List ℕ
unfolding heights ceil_log2
heightmap_bytes t tag_long_array memory sections =
    let packed =
      write_packed_array (heights (reverse sections) memory 0)
        (ceil_log2 (length sections * 16 + 1)) false in
    t.tag_compound
    ∷ (write_big_endian_short 0
        ++ (tag_long_array
            ∷ (write_big_endian_short 15
                ++ (motion_blocking
                    ++ (write_big_endian_int (length packed / 8)
                        ++ (packed ++ t.tag_invalid ∷ []))))))

-- The light masks: none for the sky, and all.
abbrev pub light_bytes : List ℕ
light_bytes =
    write_bit_set (0 ∷ [])
    ++ (write_bit_set (0 ∷ [])
        ++ (write_bit_set ((2 ^ 64 - 1) ∷ [])
            ++ (write_bit_set ((2 ^ 64 - 1) ∷ []) ++ (write_var_int 0 ++ write_var_int 0))))

-- `none` is undefined behaviour of the writers; with more than 64 sections nothing is sent. The buffer
-- starts with 29 bytes, which the coordinates and the head of the heightmap fill, and grows before
-- each later part by more than that part takes: the heightmap and the size of the sections take 10
-- bytes beside the longs and get 11, and what stands behind the sections takes 40 and gets 62 or more.
unfoldable pub send_chunk :
    Tags → ℕ → List ℕ → List PalettedContainer → ℕ → ℕ → Option (List Packet)
unfolding heightmap_bytes
send_chunk t tag_long_array memory sections chunk_x chunk_z = elim (write_sections sections 0) [
  | none ↦ none
  | some buff ↦
      if ltb 64 (length sections)
      then some []
      else some (
          record {
            id = chunk_data_and_update_light;
            payload =
                write_big_endian_int chunk_x
                ++ (write_big_endian_int chunk_z
                    ++ (heightmap_bytes t tag_long_array memory sections
                        ++ (write_var_int (length buff % 2 ^ 32)
                            ++ (buff ++ (write_var_int 0 ++ (0 ∷ light_bytes))))));
          }
          ∷ [])
]
