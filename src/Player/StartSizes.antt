-- ===== src/Player/StartSizes.antt =====
-- The packets of `startPlay` against the buffers in which they are built.
use doom_mc.Prelude.{ℕ, ◌+◌, ◌*◌, ◌≤◌, ◌≡◌, refl, List, length, take, arith, length-take-le}
use doom_mc.Wire.VarInt.{IsU32, write_var_int}
use doom_mc.Wire.Strings.{write_string}
use doom_mc.Wire.Endian.{
  write_big_endian_int, write_big_endian_long, write_big_endian_float, write_big_endian_double,
}
use doom_mc.Player.{Player}
use doom_mc.Player.Bounds.{var_int_size, length_append}
use doom_mc.Player.Start.{
  dimension_name, motd, login_play_packet, difficulty_packet, abilities_packet, held_item_packet,
  recipes_packet, op_level_packet, commands_packet, server_data_packet, respawn_packet,
}
use doom_mc.Player.Arrival.{spawn_position_packet, world_border_packet}

length-int : (v : ℕ) → length (write_big_endian_int v) ≡ 4
unfolding write_big_endian_int
length-int v = refl

length-long : (v : ℕ) → length (write_big_endian_long v) ≡ 8
unfolding write_big_endian_long
length-long v = refl

length-float : (v : ℕ) → length (write_big_endian_float v) ≡ 4
unfolding write_big_endian_float
length-float v = refl

length-double : (v : ℕ) → length (write_big_endian_double v) ≡ 8
unfolding write_big_endian_double
length-double v = refl

length-dimension : length (write_string dimension_name) ≡ 20
unfolding write_string write_var_int
length-dimension = refl

length-motd : length (write_string motd) ≡ 12
unfolding write_string write_var_int
length-motd = refl

take_le : (n : ℕ) (xs : List ℕ) → length (take n xs) ≤ n
take_le n xs = length-take-le n xs

ruleset sizes = (
  arith, length_append, length-int, length-long, length-float, length-double, length-dimension,
  length-motd,
)

-- What `startPlay` writes into its buffers fits them, whatever the player, the lobby and the map hold:
-- LOGIN_PLAY with its registry codec, its last byte included, the difficulty, the abilities, the held
-- item, the recipes, the permission level, the commands, the server data, the spawn, the respawn and
-- the world border.
pub start_packets_fit :
    (eid max_players spawn bound : ℕ) (registry_codec : List ℕ) (double_of : ℕ → ℕ) (p : Player)
    → IsU32 max_players
    → IsU32 bound
    → (length (login_play_packet eid registry_codec max_players).payload + 1
        ≤ 4 * 2 + 10 + 20 * 3 + 5 * 5 + length registry_codec)
      × (length difficulty_packet.payload ≤ 2)
      × (length abilities_packet.payload ≤ 4 * 2 + 1)
      × (length (held_item_packet p).payload ≤ 1)
      × (length recipes_packet.payload ≤ 5)
      × (length (op_level_packet eid).payload ≤ 4 + 1)
      × (length commands_packet.payload ≤ 5 * 2)
      × (length server_data_packet.payload ≤ 21 + 5)
      × (length (spawn_position_packet spawn).payload ≤ 8 + 4)
      × (length respawn_packet.payload ≤ 19 * 2 + 5 * 2 + 8 + 6)
      × (length (world_border_packet double_of spawn bound).payload ≤ 8 * 4 + 5 * 4)
unfolding login_play_packet difficulty_packet abilities_packet held_item_packet recipes_packet
    op_level_packet commands_packet server_data_packet spawn_position_packet respawn_packet
    world_border_packet write_big_endian_int write_var_int
start_packets_fit eid max_players spawn bound registry_codec double_of p players_fit bound_fits =
    let nothing = var_int_size 0 (omega arith) in
    let one = var_int_size 1 (omega arith) in
    let eight = var_int_size 8 (omega arith) in
    let players = var_int_size max_players players_fit in
    let border = var_int_size bound bound_fits in
    (
      omega (sizes, take_le),
      omega sizes,
      omega sizes,
      omega sizes,
      omega sizes,
      omega sizes,
      omega sizes,
      omega sizes,
      omega sizes,
      omega sizes,
      omega sizes,
    )
