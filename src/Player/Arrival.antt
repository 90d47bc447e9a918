-- ===== src/Player/Arrival.antt =====
-- `player::startPlay` from the map on: where the player spawns, the chunks, and its state. `send` of a
-- packet is the packet in a list.
pub mod Chunks
use doom_mc.Prelude.{
  ℕ, zero, suc, ◌+◌, ◌-◌, ◌*◌, ◌/◌, ◌%◌, ◌^◌, true, Option, none, some, List, [], ◌∷◌, ◌++◌, ltb,
  if◌then◌else◌,
}
use doom_mc.Result.{Result, ok, throw, fault, ◌>>=◌, or_fault, map_result}
use doom_mc.Wire.VarInt.{write_var_int}
use doom_mc.Wire.Endian.{write_big_endian_long, write_big_endian_float, write_big_endian_double}
use doom_mc.Wire.Position.{position_x, position_y, position_z}
use doom_mc.GameMap.{GameMap, PalettedContainer, get_section, get_bound, get_spawn}
use doom_mc.Weapons.{Tags, Weapon}
use doom_mc.Player.{Player, Packet, Floats}
use doom_mc.Player.Packets.{set_health_packet, set_center_chunk_packet, position_packet}
use doom_mc.Player.Chunk.{set_weapons_packet, send_chunk}
use doom_mc.Player.Start.{respawn_packet}
use doom_mc.PacketIds.{set_default_spawn_position, initialize_world_border}

abbrev pub section_max : ℕ
section_max = 24

-- `x / 16` of an `int64_t`, towards 0, as an `int32_t`; `floor` of the integer changes nothing.
unfoldable pub chunk_index : ℕ → ℕ
chunk_index x = (if ltb x (2 ^ 63) then x / 16 else 2 ^ 64 - (2 ^ 64 - x) / 16) % 2 ^ 32

unfoldable pub spawn_position_packet : ℕ → Packet
spawn_position_packet spawn = record {
  id = set_default_spawn_position;
  payload = write_big_endian_long spawn ++ write_big_endian_float 0;
}

-- The patterns of doubles come from `double_of`, of an integer of 64 bits.
unfoldable pub world_border_packet : (ℕ → ℕ) → ℕ → ℕ → Packet
world_border_packet double_of spawn bound = record {
  id = initialize_world_border;
  payload =
      write_big_endian_double (double_of (position_x spawn))
      ++ (write_big_endian_double (double_of (position_z spawn))
          ++ (write_big_endian_double (double_of bound)
              ++ (write_big_endian_double (double_of bound)
                  ++ (write_var_int 0
                      ++ (write_var_int bound ++ (write_var_int 0 ++ write_var_int 1))))));
}

-- The loop over `sections`, with the rounds left.
unfoldable pub sections_of : GameMap → ℕ → ℕ → ℕ → ℕ → Result (List PalettedContainer)
unfolding get_section
sections_of m chunk_x chunk_z zero i = ok []
sections_of m chunk_x chunk_z (suc left) i = do
  section ← get_section m chunk_x chunk_z i
  rest ← sections_of m chunk_x chunk_z left (i + 1)
  ok (section ∷ rest)

-- What `sendChunk` reads beside the sections: the tags, and what memory holds.
pub record Surroundings : Type 0 where
  pub tags : Tags
  pub tag_long_array : ℕ
  pub memory : List ℕ

module _ (e : Surroundings) (m : GameMap) where
  unfoldable pub chunk_packets : ℕ → ℕ → Result (List Packet)
  unfolding sections_of send_chunk
  chunk_packets chunk_x chunk_z = do
    sections ← sections_of m chunk_x chunk_z section_max 0
    or_fault (send_chunk e.tags e.tag_long_array e.memory sections chunk_x chunk_z)

  -- The loop over `chunkZ`, then that over `chunkX`.
  unfoldable pub row_packets : ℕ → ℕ → ℕ → Result (List Packet)
  unfolding chunk_packets
  row_packets chunk_x zero chunk_z = ok []
  row_packets chunk_x (suc left) chunk_z = do
    here ← chunk_packets chunk_x chunk_z
    rest ← row_packets chunk_x left (chunk_z + 1)
    ok (here ++ rest)

  unfoldable pub map_packets : ℕ → ℕ → Result (List Packet)
  unfolding row_packets
  map_packets zero chunk_x = ok []
  map_packets (suc left) chunk_x = do
    row ← row_packets chunk_x (m.depth / 16) 0
    rest ← map_packets left (chunk_x + 1)
    ok (row ++ rest)

-- `setLocation` at the spawn.
unfoldable pub place_player : (ℕ → ℕ) → ℕ → Player → Player
place_player double_of spawn p = record p {
  x = double_of (position_x spawn);
  y = double_of (position_y spawn);
  z = double_of (position_z spawn);
  health = 20;
}

-- What goes to the player from its spawn on, and the player as `spawnPlayer` finds it; `random` is the
-- value of `rand()`.
unfoldable pub arrival_packets :
    Surroundings
    → Floats
    → (ℕ → ℕ)
    → ℕ
    → GameMap
    → List (Option Weapon)
    → List ℕ
    → Player
    → Result (List Packet × Player)
unfolding map_packets place_player
arrival_packets e floats double_of random m weapons ammo p = do
  spawn ← get_spawn m random
  chunks ← map_packets e m (m.width / 16) 0
  let center : Packet =
      set_center_chunk_packet (chunk_index (position_x spawn)) (chunk_index (position_z spawn))
  let placed : Player = place_player double_of spawn p
  ok (
    (spawn_position_packet spawn ∷ center ∷ chunks)
        ++ (respawn_packet
            ∷ world_border_packet double_of spawn (get_bound m)
            ∷ set_weapons_packet e.tags weapons ammo
            ∷ set_health_packet floats 20
            ∷ set_center_chunk_packet (floats.chunk_of placed.x) (floats.chunk_of placed.z)
            ∷ position_packet placed
            ∷ []),
    record placed { teleport_id = (placed.teleport_id + 1) % 2 ^ 64 },
  )
