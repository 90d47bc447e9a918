-- ===== src/Player/Packets.antt =====
-- src/player.cpp: the packets of a player, as the bytes that stand in `data[0..offset)` when `send` is
-- called. `now` is `time(NULL)`.
use doom_mc.Prelude.{
  ℕ, ◌+◌, ◌-◌, ◌%◌, ◌^◌, Bool, true, false, Option, none, some, List, [], ◌∷◌, ◌++◌, length,
  if◌then◌else◌, take, drop, replicate,
}
use doom_mc.Wire.VarInt.{write_var_int}
use doom_mc.Wire.Strings.{write_string}
use doom_mc.Wire.Endian.{
  store, write_big_endian_short, write_big_endian_long, write_big_endian_float,
  write_big_endian_double,
}
use doom_mc.Player.{Player, Skin, Floats, Packet}
use doom_mc.PacketIds.{
  set_health, set_center_chunk, synchronize_player_position, damage_event, system_chat_message,
  keep_alive, update_entity_position, update_entity_rotation, update_entity_position_and_rotation,
  spawn_entity, spawn_player, player_info_update, player_info_remove, remove_entities,
}

-- `memcpy(data + offset, &uid, sizeof(UUID_t))`
unfoldable pub uuid_bytes : ℕ → List ℕ
uuid_bytes uuid = store 16 uuid

abbrev pub bool_byte : Bool → ℕ
bool_byte b = if b then 1 else 0

-- Overwrites `bytes` at `offset` of a buffer; what does not fit is out of bounds.
unfoldable pub write_at : List ℕ → ℕ → List ℕ → List ℕ
write_at buffer offset bytes = take offset buffer ++ (bytes ++ drop (offset + length bytes) buffer)

-- `int angle` of the C function is computed and not used.
unfoldable pub to_angle : Floats → ℕ → ℕ
to_angle F f = F.angle f % 256

-- `setHealth`
unfoldable pub set_health_packet : Floats → ℕ → Packet
set_health_packet F health = record {
  id = set_health;
  payload =
      write_big_endian_float (F.float_of_int health)
      ++ (write_var_int 20 ++ write_big_endian_float (F.float_of_int 0));
}

-- `setCenterChunk`
unfoldable pub set_center_chunk_packet : ℕ → ℕ → Packet
set_center_chunk_packet x z = record {
  id = set_center_chunk;
  payload = write_var_int x ++ write_var_int z;
}

-- The last packet of `setLocation`, of a player that is already moved; `teleportId` is an
-- `unsigned long` that is passed as an `int32_t`.
unfoldable pub position_packet : Player → Packet
position_packet p = record {
  id = synchronize_player_position;
  payload =
      write_big_endian_double p.x
      ++ (write_big_endian_double p.y
          ++ (write_big_endian_double p.z
              ++ (write_big_endian_float p.yaw
                  ++ (write_big_endian_float p.pitch
                      ++ (0 ∷ write_var_int (p.teleport_id % 2 ^ 32))))));
}

-- `dealDamage`: the second write goes to `data`, not to `data + offset`. `stack` is what the buffer
-- holds before.
unfoldable pub damage_packet : List ℕ → Player → ℕ → ℕ → Packet
unfolding write_at
damage_packet stack p eid damage_type =
    let own = write_var_int p.eid in
    let kind = write_var_int damage_type in
    let other = write_var_int eid in
    let offset = length own + length kind in
    let data1 = write_at (write_at stack 0 own) 0 kind in
    let data2 = write_at (write_at data1 offset other) (offset + length other) other in
    let stop = offset + length other + length other in
    record {
      id = damage_event;
      payload = take (stop + 1) (write_at data2 stop (bool_byte false ∷ []));
    }

-- `sendMessage`: `packet[0]` gets the tag, and then the first byte of the length.
unfoldable pub message_packet : List ℕ → Packet
unfolding write_at
message_packet message =
    let tagged = write_at (replicate (length message + 3) 0) 0 (8 ∷ []) in
    let sized = write_at tagged 0 (write_big_endian_short (length message % 2 ^ 16)) in
    let filled = write_at sized 2 message in
    record {
      id = system_chat_message;
      payload = take (length message + 3) (write_at filled (length message + 2) (0 ∷ []));
    }

-- `keepAlive`
unfoldable pub keep_alive_packet : ℕ → Packet
keep_alive_packet now = record { id = keep_alive; payload = write_big_endian_long now }

-- `updateEntityPosition`; the deltas are patterns of `int16_t`.
unfoldable pub entity_position_packet : ℕ → ℕ → ℕ → ℕ → Bool → Packet
entity_position_packet eid x y z on_ground = record {
  id = update_entity_position;
  payload =
      write_var_int eid
      ++ (write_big_endian_short x
          ++ (write_big_endian_short y
              ++ (write_big_endian_short z ++ (bool_byte on_ground ∷ []))));
}

-- `updateEntityRotation`
unfoldable pub entity_rotation_packet : Floats → ℕ → ℕ → ℕ → Bool → Packet
unfolding to_angle
entity_rotation_packet F eid yaw pitch on_ground = record {
  id = update_entity_rotation;
  payload = write_var_int eid ++ (to_angle F yaw ∷ to_angle F pitch ∷ bool_byte on_ground ∷ []);
}

-- `updateEntityPositionRotation`
unfoldable pub entity_position_rotation_packet : Floats → ℕ → ℕ → ℕ → ℕ → ℕ → ℕ → Bool → Packet
unfolding to_angle
entity_position_rotation_packet F eid x y z yaw pitch on_ground = record {
  id = update_entity_position_and_rotation;
  payload =
      write_var_int eid
      ++ (write_big_endian_short x
          ++ (write_big_endian_short y
              ++ (write_big_endian_short z
                  ++ (to_angle F yaw ∷ to_angle F pitch ∷ bool_byte on_ground ∷ []))));
}

-- `spawnEntity`: the three shorts of the velocity are skipped, so they are what the stack held.
unfoldable pub spawn_entity_packet : Floats → List ℕ → Player → Packet
unfolding to_angle
spawn_entity_packet F velocity e = record {
  id = spawn_entity;
  payload =
      write_var_int e.eid
      ++ (uuid_bytes e.uuid
          ++ (write_var_int e.entity_type
              ++ (write_big_endian_double e.x
                  ++ (write_big_endian_double e.y
                      ++ (write_big_endian_double e.z
                          ++ (to_angle F e.pitch
                              ∷ to_angle F e.yaw
                              ∷ to_angle F e.head_yaw
                              ∷ (write_var_int e.entity_data ++ take 6 velocity)))))));
}

-- "textures"
abbrev pub textures : List ℕ
textures = 116 ∷ 101 ∷ 120 ∷ 116 ∷ 117 ∷ 114 ∷ 101 ∷ 115 ∷ []

-- The properties of a player in `spawnPlayer`: the skin with its signature, or none.
unfoldable pub property_bytes : Option (List ℕ) → Option (List ℕ) → List ℕ
property_bytes none signature = write_var_int 0
property_bytes (some value) none =
    write_var_int 1 ++ (write_string textures ++ (write_string value ++ (bool_byte false ∷ [])))
property_bytes (some value) (some signature) =
    write_var_int 1
    ++ (write_string textures ++ (write_string value ++ (bool_byte true ∷ write_string signature)))

unfoldable pub skin_bytes : Skin → List ℕ
unfolding property_bytes
skin_bytes skin = property_bytes skin.value skin.signature

-- `spawnPlayer`, its first packet; `now - lastKeepAlive` is a `time_t` passed as an `int32_t`.
unfoldable pub player_info_packet : ℕ → Player → Packet
unfolding skin_bytes
player_info_packet now p = record {
  id = player_info_update;
  payload =
      0x1d
      ∷ (write_var_int 1
          ++ (uuid_bytes p.uuid
              ++ (write_string p.username
                  ++ (skin_bytes p.skin
                      ++ (write_var_int 0
                          ++ (bool_byte true
                              ∷ write_var_int ((now + 2 ^ 64 - p.last_keep_alive) % 2 ^ 32)))))));
}

-- `spawnPlayer`, its second packet.
unfoldable pub spawn_player_packet : Floats → Player → Packet
unfolding to_angle
spawn_player_packet F p = record {
  id = spawn_player;
  payload =
      write_var_int p.eid
      ++ (uuid_bytes p.uuid
          ++ (write_big_endian_double p.x
              ++ (write_big_endian_double p.y
                  ++ (write_big_endian_double p.z
                      ++ (to_angle F p.pitch ∷ to_angle F p.yaw ∷ [])))));
}

-- `removeEntity`
unfoldable pub remove_entity_packet : Player → Packet
remove_entity_packet e = record {
  id = remove_entities;
  payload = write_var_int 1 ++ write_var_int e.eid;
}

-- The first two packets of `removePlayer`.
unfoldable pub info_remove_packet : Player → Packet
info_remove_packet p = record {
  id = player_info_remove;
  payload = write_var_int 1 ++ uuid_bytes p.uuid;
}

unfoldable pub info_unlist_packet : Player → Packet
info_unlist_packet p = record {
  id = player_info_update;
  payload = 0x08 ∷ (write_var_int 1 ++ (uuid_bytes p.uuid ++ (bool_byte false ∷ [])));
}
