-- ===== src/Player/Start.antt =====
-- `player::startPlay` up to the player list: the packets that a player who joins is sent first.
use doom_mc.Prelude.{
  ℕ, ◌+◌, ◌-◌, ◌%◌, ◌^◌, true, false, Option, none, some, List, [], ◌∷◌, ◌++◌, length, take, leb,
  ◌||◌, if◌then◌else◌,
}
use doom_mc.Wire.VarInt.{write_var_int}
use doom_mc.Wire.Strings.{write_string}
use doom_mc.Wire.Endian.{write_big_endian_int, write_big_endian_long, write_big_endian_float}
use doom_mc.Player.{Player, Skin, Packet}
use doom_mc.Player.Packets.{bool_byte, property_bytes}
use doom_mc.PacketIds.{
  login_play, change_difficulty, player_abilities, set_held_item, update_recipes, entity_event,
  commands, server_data, player_info_update, respawn,
}

abbrev pub player_gamemode : ℕ
player_gamemode = 2

-- "minecraft:overworld"
abbrev pub dimension_name : List ℕ
dimension_name =
    109 ∷ 105 ∷ 110 ∷ 101 ∷ 99 ∷ 114 ∷ 97 ∷ 102 ∷ 116 ∷ 58 ∷ 111 ∷ 118 ∷ 101 ∷ 114 ∷ 119 ∷ 111 ∷ 114
    ∷ 108 ∷ 100 ∷ []

-- {"text":""}
abbrev pub motd : List ℕ
motd = 123 ∷ 34 ∷ 116 ∷ 101 ∷ 120 ∷ 116 ∷ 34 ∷ 58 ∷ 34 ∷ 34 ∷ 125 ∷ []

-- The packet of the old protocols; its last byte is left off.
unfoldable pub login_play_packet : ℕ → List ℕ → ℕ → Packet
login_play_packet eid registry_codec max_players =
    let written : List ℕ =
      write_big_endian_int eid
      ++ (bool_byte false
          ∷ player_gamemode
          ∷ 255
          ∷ (write_var_int 1
              ++ (write_string dimension_name
                  ++ (registry_codec
                      ++ (write_string dimension_name
                          ++ (write_string dimension_name
                              ++ (write_big_endian_long 0
                                  ++ (write_var_int max_players
                                      ++ (write_var_int 8
                                          ++ (write_var_int 8
                                              ++ (bool_byte false
                                                  ∷ bool_byte false
                                                  ∷ bool_byte false
                                                  ∷ bool_byte false
                                                  ∷ bool_byte false
                                                  ∷ write_var_int 0))))))))))) in
    record { id = login_play; payload = take (length written - 1) written }

unfoldable pub difficulty_packet : Packet
difficulty_packet = record { id = change_difficulty; payload = 3 ∷ bool_byte true ∷ [] }

-- The patterns of 0.05f and 0.1f.
unfoldable pub abilities_packet : Packet
abilities_packet = record {
  id = player_abilities;
  payload = 0 ∷ (write_big_endian_float 0x3d4c_cccd ++ write_big_endian_float 0x3dcc_cccd);
}

unfoldable pub held_item_packet : Player → Packet
held_item_packet p = record { id = set_held_item; payload = (p.held_slot % 256) ∷ [] }

unfoldable pub recipes_packet : Packet
recipes_packet = record { id = update_recipes; payload = write_var_int 0 }

unfoldable pub op_level_packet : ℕ → Packet
op_level_packet eid = record { id = entity_event; payload = write_big_endian_int eid ++ 24 ∷ [] }

unfoldable pub commands_packet : Packet
commands_packet = record { id = commands; payload = write_var_int 0 ++ write_var_int 0 }

unfoldable pub server_data_packet : Packet
server_data_packet = record {
  id = server_data;
  payload = write_string motd ++ bool_byte false ∷ bool_byte false ∷ [];
}

unfoldable pub respawn_packet : Packet
respawn_packet = record {
  id = respawn;
  payload =
      write_string dimension_name
      ++ (write_string dimension_name
          ++ (write_big_endian_long 0
              ++ player_gamemode
                ∷ 255
                ∷ bool_byte false
                ∷ bool_byte false
                ∷ 0
                ∷ bool_byte false
                ∷ []));
}

-- `strlen` of a string that is NULL is undefined.
abbrev pub list_skin : Skin → Option (List ℕ)
list_skin skin = elim skin.value [
  | none ↦ none
  | some value ↦ elim skin.signature [
    | none ↦ none
    | some signature ↦ some (property_bytes (some value) (some signature))
  ]
]

abbrev pub map_option {ℓ κ} : {A : Type ℓ} {B : Type κ} → (A → B) → Option A → Option B
map_option f none = none
map_option f (some a) = some (f a)

-- One player of the list. Of the UUID one byte is written; the other 15 are what the buffer holds.
unfoldable pub list_entry : ℕ → List ℕ → Player → Option (List ℕ)
unfolding property_bytes
list_entry now unset p =
    map_option
      (λ skin.
        ((p.uuid % 256) ∷ take 15 unset)
        ++ (write_string p.username
            ++ (skin
                ++ (write_var_int 0
                    ++ (bool_byte true
                        ∷ write_var_int ((now + 2 ^ 64 - p.last_keep_alive) % 2 ^ 32))))))
      (list_skin p.skin)

abbrev pub join_bytes : Option (List ℕ) → Option (List ℕ) → Option (List ℕ)
join_bytes none rest = none
join_bytes (some entry) none = none
join_bytes (some entry) (some rest) = some (entry ++ rest)

-- The loop over all the slots; `unset` is what the buffer holds for each.
unfoldable pub list_entries : ℕ → (ℕ → List ℕ) → ℕ → List (Option Player) → Option (List ℕ)
unfolding list_entry
list_entries now unset i [] = some []
list_entries now unset i (none ∷ slots) = list_entries now unset (i + 1) slots
list_entries now unset i (some p ∷ slots) =
    join_bytes (list_entry now (unset i) p) (list_entries now unset (i + 1) slots)

unfoldable pub player_list_packet : ℕ → (ℕ → List ℕ) → ℕ → List (Option Player) → Option Packet
unfolding list_entries
player_list_packet now unset player_count slots =
    map_option
      (λ entries. record {
        id = player_info_update;
        payload = 0x1d ∷ (write_var_int player_count ++ entries);
      })
      (list_entries now unset 0 slots)

-- What goes out from the start of `startPlay` to the player list. `config` is what `sendFeatureFlags`
-- and `sendTags` send; the newer protocols get no LOGIN_PLAY.
unfoldable pub opening_packets :
    ℕ
    → (ℕ → List ℕ)
    → List ℕ
    → List Packet
    → ℕ
    → ℕ
    → List (Option Player)
    → Player
    → Option (List Packet)
unfolding login_play_packet difficulty_packet abilities_packet held_item_packet recipes_packet
    op_level_packet commands_packet server_data_packet player_list_packet
opening_packets now unset registry_codec config eid player_count slots p =
    let old = leb p.protocol 763 || leb (2 ^ 31) p.protocol in
    map_option
      (λ list.
        (if old then login_play_packet eid registry_codec (length slots) ∷ [] else [])
        ++ (difficulty_packet
            ∷ abilities_packet
            ∷ held_item_packet p
            ∷ recipes_packet
            ∷ ((if old then config else [])
                ++ (op_level_packet eid ∷ commands_packet ∷ server_data_packet ∷ list ∷ []))))
      (player_list_packet now unset player_count slots)
