-- ===== src/PacketIds.antt =====
-- src/C/packetDefinitions.h: the packet ids that the modelled code names.
use doom_mc.Prelude.{ℕ}

abbrev pub handshake : ℕ
handshake = 0x00

abbrev pub status_response : ℕ
status_response = 0x00

abbrev pub ping_response : ℕ
ping_response = 0x01

abbrev pub status_request : ℕ
status_request = 0x00

abbrev pub ping_request : ℕ
ping_request = 0x01

abbrev pub disconnect_login : ℕ
disconnect_login = 0x00

abbrev pub login_success : ℕ
login_success = 0x02

abbrev pub set_compression : ℕ
set_compression = 0x03

abbrev pub login_start : ℕ
login_start = 0x00

abbrev pub login_acknowledged : ℕ
login_acknowledged = 0x03

abbrev pub finish_configuration : ℕ
finish_configuration = 0x02

abbrev pub registry_data : ℕ
registry_data = 0x05

abbrev pub feature_flags : ℕ
feature_flags = 0x08

abbrev pub update_tags : ℕ
update_tags = 0x09

abbrev pub finish_configuration_2 : ℕ
finish_configuration_2 = 0x02

abbrev pub spawn_entity : ℕ
spawn_entity = 0x01

abbrev pub spawn_player : ℕ
spawn_player = 0x03

abbrev pub change_difficulty : ℕ
change_difficulty = 0x0c

abbrev pub commands : ℕ
commands = 0x10

abbrev pub set_container_content : ℕ
set_container_content = 0x12

abbrev pub damage_event : ℕ
damage_event = 0x18

abbrev pub disconnect_play : ℕ
disconnect_play = 0x1a

abbrev pub entity_event : ℕ
entity_event = 0x1c

abbrev pub initialize_world_border : ℕ
initialize_world_border = 0x22

abbrev pub keep_alive : ℕ
keep_alive = 0x23

abbrev pub chunk_data_and_update_light : ℕ
chunk_data_and_update_light = 0x24

abbrev pub login_play : ℕ
login_play = 0x28

abbrev pub update_entity_position : ℕ
update_entity_position = 0x2b

abbrev pub update_entity_position_and_rotation : ℕ
update_entity_position_and_rotation = 0x2c

abbrev pub update_entity_rotation : ℕ
update_entity_rotation = 0x2d

abbrev pub player_abilities : ℕ
player_abilities = 0x34

abbrev pub player_info_remove : ℕ
player_info_remove = 0x39

abbrev pub player_info_update : ℕ
player_info_update = 0x3a

abbrev pub synchronize_player_position : ℕ
synchronize_player_position = 0x3c

abbrev pub remove_entities : ℕ
remove_entities = 0x3e

abbrev pub respawn : ℕ
respawn = 0x41

abbrev pub server_data : ℕ
server_data = 0x45

abbrev pub set_held_item : ℕ
set_held_item = 0x4d

abbrev pub set_center_chunk : ℕ
set_center_chunk = 0x4e

abbrev pub set_default_spawn_position : ℕ
set_default_spawn_position = 0x50

abbrev pub set_health : ℕ
set_health = 0x57

abbrev pub system_chat_message : ℕ
system_chat_message = 0x64

abbrev pub feature_flags_play : ℕ
feature_flags_play = 0x6b

abbrev pub update_recipes : ℕ
update_recipes = 0x6d

abbrev pub update_tags_play : ℕ
update_tags_play = 0x6e

abbrev pub chat_message : ℕ
chat_message = 0x05

abbrev pub keep_alive_2 : ℕ
keep_alive_2 = 0x12

abbrev pub set_player_position : ℕ
set_player_position = 0x14

abbrev pub set_player_position_and_rotation : ℕ
set_player_position_and_rotation = 0x15

abbrev pub set_player_rotation : ℕ
set_player_rotation = 0x16

abbrev pub set_player_on_ground : ℕ
set_player_on_ground = 0x17

abbrev pub pick_item : ℕ
pick_item = 0x1a

abbrev pub player_input : ℕ
player_input = 0x1f

abbrev pub swing_arm : ℕ
swing_arm = 0x2f
