-- ===== src/Tests/PlayerRuns.antt =====
-- The packets of src/player.cpp for one player.
use doom_mc.Prelude.{
  ℕ, suc, ◌+◌, ◌-◌, ◌*◌, ◌%◌, ◌^◌, ◌≤◌, ◌<◌, arith, true, none, some, List, [], ◌∷◌, length,
  replicate, ◌==◌, All, zero,
}
use doom_mc.Player.{Player, Floats, play_state}
use doom_mc.Player.Packets.{
  set_health_packet, set_center_chunk_packet, keep_alive_packet, entity_position_packet,
  entity_rotation_packet, entity_position_rotation_packet, spawn_entity_packet, spawn_player_packet,
  remove_entity_packet, info_remove_packet, info_unlist_packet, player_info_packet,
}
use doom_mc.Prelude.{false}
use doom_mc.Player.Joining.{Scene}
use doom_mc.Player.Bounds.{packets_fit}
use doom_mc.Player.StartSizes.{start_packets_fit}
use doom_mc.Player.Start.{
  login_play_packet, difficulty_packet, abilities_packet, held_item_packet, recipes_packet,
  op_level_packet, commands_packet, server_data_packet, respawn_packet,
}
use doom_mc.Player.Arrival.{spawn_position_packet, world_border_packet}
use doom_mc.Player.InfoSize.{info_buffer, player_info_overflows}

abbrev pub floats : Floats
floats = record {
  float_of_int = λ n. n;
  angle = λ f. f % 256;
  chunk_of = λ d. d % 2 ^ 32;
  int_delta = λ a b. (a + 2 ^ 32 - b % 2 ^ 32) % 2 ^ 32;
  same_double = λ a b. a == b;
}

-- A player on slot `i` whose socket is `fd`.
abbrev pub player_on : ℕ → ℕ → Player
player_on i fd = record {
  fd = fd;
  state = play_state;
  username = 98 ∷ 111 ∷ 98 ∷ [];
  protocol = 763;
  index = i;
  uuid = 77;
  eid = i + 300;
  entity_type = 122;
  entity_data = 0;
  x = 1;
  y = 2;
  z = 3;
  yaw = 0;
  pitch = 0;
  head_yaw = 0;
  in_lobby = true;
  held_slot = 0;
  on_ground = true;
  health = 20;
  teleport_id = 1;
  last_keep_alive = 0;
  has_spawned = true;
  skin = record { signature = none; value = some (65 ∷ 66 ∷ []) };
}

abbrev bob : Player
bob = player_on 0 5

abbrev stack_bytes : List ℕ
stack_bytes = replicate 30 99

packets_fit_example :
    (length (set_health_packet floats 20).payload ≤ 4 * 2 + 5)
    × (length (set_center_chunk_packet 1 2).payload ≤ 5 * 2)
    × (length (keep_alive_packet 1000).payload ≤ 8)
    × (length (entity_position_packet 300 3 4 5 true).payload ≤ 5 + 2 * 3 + 1)
    × (length (entity_rotation_packet floats 300 6 7 true).payload ≤ 5 + 4 * 2 + 1)
    × (length (entity_position_rotation_packet floats 300 3 4 5 6 7 true).payload
        ≤ 5 + 2 * 3 + 4 * 2 + 1)
    × (length (spawn_entity_packet floats stack_bytes bob).payload ≤ 5 * 3 + 16 + 8 * 3 + 3 + 2 * 3)
    × (length (spawn_player_packet floats bob).payload ≤ 5 + 16 + 8 * 3 + 2)
    × (length (remove_entity_packet bob).payload ≤ 5 * 2)
    × (length (info_remove_packet bob).payload ≤ 5 + 16)
    × (length (info_unlist_packet bob).payload ≤ 2 + 5 + 16)
packets_fit_example =
    packets_fit floats bob 20 1000 1 2 3 4 5 6 7 stack_bytes true
      (record { eid_fits = omega arith; type_fits = omega arith; data_fits = omega arith })
      (omega arith) (omega arith)

All-replicate : (n : ℕ) → All (λ b. 0 < b) (replicate n 97)
All-replicate zero = tt
All-replicate (suc n) = (omega arith, All-replicate n)

abbrev long_name : Player
long_name = record bob { username = replicate 40 97 }

player_info_overflows_example :
    info_buffer long_name < length (player_info_packet 9 long_name).payload
player_info_overflows_example =
    player_info_overflows 9 long_name (All-replicate 40, omega arith) (omega arith)
      ((omega arith, (omega arith, tt)), omega arith)

abbrev newcomer : Player
newcomer = record bob { in_lobby = false }

-- A lobby that `newcomer` has slot 1 of; its skin has no signature.
abbrev scene : Scene
scene = record {
  now = 1000;
  unset = λ i. [];
  registry_codec = [];
  config = [];
  player_count = 1;
  slots = none ∷ some newcomer ∷ [];
  around = record {
    tags = record { tag_invalid = 0; tag_int = 3; tag_string = 8; tag_list = 9; tag_compound = 10 };
    tag_long_array = 12;
    memory = replicate 256 0;
  };
  floats = floats;
  double_of = λ n. n;
  random = 0;
  lobby_map = record {
    width = 0;
    height = 0;
    depth = 0;
    palette = 0 ∷ [];
    blocks = [];
    spawns = 9 ∷ [];
  };
  weapons = [];
  ammo = [];
}

abbrev codec : List ℕ
codec = replicate 60 10

start_packets_fit_example :
    (length (login_play_packet 300 codec 20).payload + 1
      ≤ 4 * 2 + 10 + 20 * 3 + 5 * 5 + length codec)
    × (length difficulty_packet.payload ≤ 2)
    × (length abilities_packet.payload ≤ 4 * 2 + 1)
    × (length (held_item_packet bob).payload ≤ 1)
    × (length recipes_packet.payload ≤ 5)
    × (length (op_level_packet 300).payload ≤ 4 + 1)
    × (length commands_packet.payload ≤ 5 * 2)
    × (length server_data_packet.payload ≤ 21 + 5)
    × (length (spawn_position_packet 9).payload ≤ 8 + 4)
    × (length respawn_packet.payload ≤ 19 * 2 + 5 * 2 + 8 + 6)
    × (length (world_border_packet (λ n. n) 9 32).payload ≤ 8 * 4 + 5 * 4)
start_packets_fit_example =
    start_packets_fit 300 20 9 32 codec (λ n. n) bob (omega arith) (omega arith)
