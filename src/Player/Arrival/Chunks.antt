-- ===== src/Player/Arrival/Chunks.antt =====
-- The chunks of `startPlay`: one packet for each chunk of the map, in the order of the loops.
use doom_mc.Prelude.{
  ℕ, zero, suc, ◌+◌, ◌^◌, ◌≤◌, ◌≡◌, ◌⊎◌, some, List, [], ◌∷◌, ◌++◌, length, take, All, ◌<◌,
}
use doom_mc.Wire.Endian.{write_big_endian_int}
use doom_mc.PacketIds.{chunk_data_and_update_light}
use doom_mc.GameMap.{GameMap, PalettedContainer}
use doom_mc.Player.{Packet}

-- What `writeSections` can write: a palette of one entry, or of 2 to 255 entries below 2 ^ 28 with
-- 4096 states.
abbrev pub IsWritable : PalettedContainer → Type 0
IsWritable s =
    (length s.palette ≡ 1)
    ⊎ ((2 ≤ length s.palette)
        × (length s.palette ≤ 255)
        × All (λ v. v < 2 ^ 28) s.palette
        × ((states : List ℕ) × (s.states ≡ some states) × (length states ≡ 4096)))

abbrev pub spot_bytes : ℕ × ℕ → List ℕ
spot_bytes (x, z) = write_big_endian_int x ++ write_big_endian_int z

-- The packets are those of the chunks at these places, one for each, in this order.
abbrev pub AreSent : List (ℕ × ℕ) → List Packet → Type 0
AreSent [] packets = packets ≡ []
AreSent (spot ∷ spots) packets =
    (p : Packet) × (rest : List Packet) × (packets ≡ p ∷ rest)
    × (p.id ≡ chunk_data_and_update_light)
    × (take 8 p.payload ≡ spot_bytes spot)
    × AreSent spots rest

-- The chunks of a column of the map, and of the map, in the order of the loops.
abbrev pub column_spots : ℕ → ℕ → ℕ → List (ℕ × ℕ)
column_spots chunk_x zero chunk_z = []
column_spots chunk_x (suc left) chunk_z =
    (chunk_x, chunk_z) ∷ column_spots chunk_x left (chunk_z + 1)

abbrev pub map_spots : ℕ → ℕ → ℕ → List (ℕ × ℕ)
map_spots depth zero chunk_x = []
map_spots depth (suc left) chunk_x =
    column_spots chunk_x depth 0 ++ map_spots depth left (chunk_x + 1)
