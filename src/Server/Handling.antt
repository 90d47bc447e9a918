-- ===== src/Server/Handling.antt =====
-- `client::handlePacket`, and the packets that a client sends at login. A packet that is shorter than
-- what is read from it is undefined behaviour.
use doom_mc.Prelude.{
  ℕ, ◌+◌, ◌-◌, ◌%◌, ◌^◌, Bool, ◌||◌, some, List, [], ◌∷◌, ◌++◌, length, drop, ltb, leb, ◌==◌,
  if◌then◌else◌,
}
use doom_mc.Result.{invalid_argument}
use doom_mc.PacketIds.{
  handshake, status_request, status_response, ping_request, ping_response, login_start,
  set_compression, login_success, login_acknowledged, registry_data, update_tags, update_tags_play,
  feature_flags, feature_flags_play, finish_configuration, finish_configuration_2,
}
use doom_mc.Wire.Cursor
use doom_mc.Wire.Cursor.{Cursor, at, clear, Outcome, Reader, read_bytes, map_reader}
use doom_mc.Wire.VarInt.{write_var_int, read_var_int}
use doom_mc.Wire.Endian.{store, load, read_long}
use doom_mc.Wire.Strings.{write_string, read_string}
use doom_mc.Wire.Uuid.{create_offline}
use doom_mc.Lobby.{Lobby}
use doom_mc.Server.{
  returned, threw, undefined, Act, ◌then◌, set_client, send_client, none_number, status_number,
  login_number, play_number, config_number,
}
use doom_mc.Server.Joining.{Host, c_string, add_to_lobby}

-- Goes on with the value that was read, and with the bytes behind it.
abbrev pub reading {ℓ} : {A : Type ℓ} → Reader A → List ℕ → (A → List ℕ → Act) → Act
reading m bytes k s = elim (m (at bytes clear)) [
  | Cursor.done a c ↦ k a c.rest s
  | Cursor.fault ↦ undefined
]

-- `readUUID`: the 16 bytes as they are.
unfoldable pub read_uuid : Reader ℕ
read_uuid = map_reader load (read_bytes 16)

abbrev pub set_state : ℕ → ℕ → Act
set_state c n s = returned (set_client c (record (s.clients c) { state = n }) s)

-- `offset += serverAddressLength + sizeof(unsigned short)`, on an `int`. An index below 0 or past
-- the end reads outside the packet.
unfoldable pub skip_address : List ℕ → ℕ → ℕ → List ℕ
skip_address bytes offset address_length =
    let offset' = (offset + address_length + 2) % 2 ^ 32 in
    if ltb offset' (2 ^ 31) then drop offset' bytes else []

-- The case NONE_STATE, from its last read to its first.
unfoldable pub read_next_state : ℕ → List ℕ → ℕ → List ℕ → Act
unfolding skip_address
read_next_state c bytes address_length rest =
    reading read_var_int (skip_address bytes (length bytes - length rest) address_length)
      (λ next_state more. set_state c next_state)

abbrev pub set_protocol : ℕ → ℕ → Act
set_protocol c protocol s = returned (set_client c (record (s.clients c) { protocol = protocol }) s)

unfoldable pub read_address : ℕ → List ℕ → ℕ → List ℕ → Act
unfolding read_next_state
read_address c bytes protocol rest =
    set_protocol c protocol then reading read_var_int rest (read_next_state c bytes)

unfoldable pub handle_handshake : ℕ → List ℕ → Act
unfolding read_address
handle_handshake c bytes = reading read_var_int bytes (read_address c bytes)

-- `getPlayerCount` of the server.
unfoldable pub count_players : List Lobby → ℕ
count_players [] = 0
count_players (l ∷ ls) = (l.player_count + count_players ls) % 2 ^ 32

-- The case STATUS_STATE.
unfoldable pub handle_status : Host → ℕ → ℕ → List ℕ → Act
unfolding send_client count_players
handle_status h c id bytes s =
    if id == status_request
    then send_client c
        (record {
          id = status_response;
          payload = write_string (h.status_json (s.clients c).protocol (count_players s.lobbies));
        })
        s
    else if id == ping_request
    then reading read_long bytes
        (λ val rest. send_client c (record { id = ping_response; payload = store 8 val })) s
    else returned s

-- `protocol <= NO_CONFIG`, on the pattern of an `int32_t`.
abbrev pub without_config : ℕ → Bool
without_config protocol = leb protocol 763 || leb (2 ^ 31) protocol

unfoldable pub send_registry_codec : Host → ℕ → Act
unfolding send_client
send_registry_codec h c s =
    if (s.clients c).state == config_number
    then send_client c (record { id = registry_data; payload = h.registry }) s
    else threw invalid_argument s

unfoldable pub send_tags : Host → ℕ → Act
unfolding send_client
send_tags h c s =
    if (s.clients c).state == config_number
    then send_client c (record { id = update_tags; payload = h.tags }) s
    else if (s.clients c).state == play_number
    then send_client c (record { id = update_tags_play; payload = h.tags }) s
    else returned s

-- "minecraft:vanilla"
abbrev pub vanilla : List ℕ
vanilla =
    109 ∷ 105 ∷ 110 ∷ 101 ∷ 99 ∷ 114 ∷ 97 ∷ 102 ∷ 116 ∷ 58 ∷ 118 ∷ 97 ∷ 110 ∷ 105 ∷ 108 ∷ 108 ∷ 97
    ∷ []

unfoldable pub send_feature_flags : ℕ → Act
unfolding send_client
send_feature_flags c s =
    send_client c
      (record {
        id = if without_config (s.clients c).protocol then feature_flags_play else feature_flags;
        payload = write_var_int 1 ++ write_string vanilla;
      })
      s

abbrev pub client_compression : ℕ
client_compression = 20

abbrev pub set_login : ℕ → List ℕ → ℕ → Act
set_login c name uuid s =
    returned (set_client c (record (s.clients c) { username = some name; uuid = uuid }) s)

abbrev pub start_compression : ℕ → Act
start_compression c s =
    returned (set_client c (record (s.clients c) { compression = client_compression }) s)

-- LOGIN_START, once the name and the identifier are read.
unfoldable pub log_in : Host → ℕ → List ℕ → ℕ → Act
unfolding send_client add_to_lobby c_string
log_in h c name uuid =
    let uuid' = if uuid == 0 then create_offline h.md5 (c_string name) else uuid in
    set_login c name uuid'
    then send_client c (record {
      id = login_success;
      payload = store 16 uuid' ++ (write_string (c_string name) ++ write_var_int 0);
    })
    then (λ s.
        if without_config (s.clients c).protocol
        then (set_state c play_number then add_to_lobby h c) s
        else returned s)

-- The case LOGIN_STATE.
unfoldable pub handle_login : Host → ℕ → ℕ → List ℕ → Act
unfolding send_client log_in send_registry_codec send_tags send_feature_flags read_uuid
handle_login h c id bytes s =
    if id == login_start
    then (send_client c
            (record { id = set_compression; payload = write_var_int client_compression })
          then start_compression c
          then reading read_string bytes
              (λ name rest. reading read_uuid rest (λ uuid more. log_in h c name uuid)))
        s
    else if id == login_acknowledged
    then (set_state c config_number
          then send_registry_codec h c
          then send_tags h c
          then send_feature_flags c
          then send_client c (record { id = finish_configuration; payload = [] }))
        s
    else returned s

-- The case CONFIG_STATE.
unfoldable pub handle_config : Host → ℕ → ℕ → Act
unfolding add_to_lobby
handle_config h c id s =
    if id == finish_configuration_2
    then (set_state c play_number then add_to_lobby h c) s
    else returned s

unfoldable pub handle_packet : Host → ℕ → ℕ → List ℕ → Act
unfolding handle_handshake handle_status handle_login handle_config
handle_packet h c id bytes s =
    if (s.clients c).state == none_number
    then if id == handshake then handle_handshake c bytes s else returned s
    else if (s.clients c).state == status_number
    then handle_status h c id bytes s
    else if (s.clients c).state == login_number
    then handle_login h c id bytes s
    else if (s.clients c).state == config_number
    then handle_config h c id s
    else returned s
